-- ===== src/Network/Examples.antt =====
-- Runs of the controller of spectrum-network/src/network_controller.rs with one protocol.
use spectrum.Connection.Handler.{PeerConnHandler, notify_behaviour, on_behaviour_event}
use spectrum.Connection.Substreams.{fire_one_shots}
use spectrum.Network.Connecting.{handle_established_outbound_connection}
use spectrum.Network.Controller.{on_connection_established, on_dial_failure}
use spectrum.Network.Delivery.{delivered_twice, deliveries, substreams_from, take_deliveries}
use spectrum.Network.Dialling.{QuietRun, dial_failed, never_dialled_again}
use spectrum.Network.HandlerEvents.{on_connection_handler_event}
use spectrum.Network.Incoming.{idle_controller, idle_manager, incoming_settled, settle}
use spectrum.Network.Instructions.{on_connect, on_instruction}
use spectrum.Network.Invariant.{Inv}
use spectrum.Network.Polling.{poll_controller}
use spectrum.Network.Rejection.{rejection_panics}
use spectrum.Network.Runs.{Reach, Step, instructions_fit, poll_controller-Returns, requests_fit}
use spectrum.Network.State.{
  NetworkController, OneShotMessage, ProtocolConfig, ban_peer, close_all_protocols,
  close_connection, closed_all_protocols, connected_peer, connected_with_inbound_peer,
  connected_with_outbound_peer, disconnected, generate_event, new_controller, notify,
  notify_handler, one_shot, peer_connected, pending_approve, pending_connect, send_one_shot_message,
  try_deliver_once, with_peers,
}
use spectrum.Network.Surplus.{open_and_end, surplus_disagrees}
use spectrum.Network.Waiting.{IsWaiting, PolledWaiting}
use spectrum.PeerManager.Data.{
  PeerDestination, PeerInfo, ProtocolId, connected, inbound, new_info, not_connected, reset_by_peer,
}
use spectrum.PeerManager.Handles.{new_repo}
use spectrum.PeerManager.Manager.{
  PeerManager, accept_incoming_connection, connect, connection_established, new_manager,
  notification, reject, start_protocol,
}
use spectrum.Prelude.{
  List, Returns, [], arith, false, lookup, negsuc, none, panicked, refl, remove, returned, some,
  true, ℕ, ◌++◌, ◌+◌, ◌<◌, ◌==◌, ◌>>=◌, ◌∷◌, ◌≡◌,
}

abbrev protocols : List (ProtocolId × ProtocolConfig)
protocols = (0, one_shot 1 100) ∷ []

abbrev dialled : NetworkController
dialled = record (new_controller protocols) { enabled_peers = (7, pending_connect [] false) ∷ [] }

dialled_run : Reach (new_controller protocols) dialled
unfolding new_controller poll_controller
dialled_run =
    Reach.step Reach.start (Step.polled (connect (PeerDestination.peer_id 7) ∷ []) [] refl)

abbrev joined_seven : NetworkController
joined_seven = record (new_controller protocols) {
  enabled_peers = (7, connected_peer (5 ∷ []) []) ∷ [];
  pending_actions = generate_event (connected_with_outbound_peer 7) ∷ [];
  to_manager = notification (connection_established 7 5) ∷ [];
  to_handlers = (0, peer_connected 7) ∷ [];
}

joined_run : Reach (new_controller protocols) joined_seven
unfolding new_controller on_connection_established
joined_run = Reach.step dialled_run (Step.established 7 5 refl)

-- The event of the connection is taken.
abbrev joined_idle : NetworkController
joined_idle = record joined_seven { pending_actions = [] }

idle_run : Reach (new_controller protocols) joined_idle
unfolding new_controller poll_controller
idle_run = Reach.step joined_run (Step.polled [] [] refl)

poll_controller-Returns_example :
    Returns
      (λ r. Inv protocols r.controller)
      (poll_controller
        (accept_incoming_connection 8 6 ∷ start_protocol 0 7 ∷ [])
        (ban_peer 7 ∷ [])
        joined_idle)
unfolding instructions_fit requests_fit lookup
poll_controller-Returns_example =
    poll_controller-Returns protocols joined_idle
      (accept_incoming_connection 8 6 ∷ start_protocol 0 7 ∷ []) (ban_peer 7 ∷ []) idle_run refl
      refl

abbrev seven : PeerDestination
seven = PeerDestination.peer_id 7

never_dialled_again_example :
    IsWaiting 7 (on_dial_failure (some 7) dialled)
    × PolledWaiting 7 (
        poll_controller
          (connect seven ∷ [])
          (send_one_shot_message 7 none (record { protocol_id = 1; protocol_ver = 1 }) 11
            ∷ send_one_shot_message 8 none (record { protocol_id = 1; protocol_ver = 1 }) 11
            ∷ [])
          (on_dial_failure (some 7) dialled))
    × (on_connect seven (on_dial_failure (some 7) dialled) ≡ on_dial_failure (some 7) dialled)
unfolding lookup new_controller
never_dialled_again_example =
    never_dialled_again 7 dialled (on_dial_failure (some 7) dialled) seven (connect seven ∷ [])
      (send_one_shot_message 7 none (record { protocol_id = 1; protocol_ver = 1 }) 11
        ∷ send_one_shot_message 8 none (record { protocol_id = 1; protocol_ver = 1 }) 11
        ∷ [])
      ([], false, refl, tt) (QuietRun.step QuietRun.start (dial_failed (some 7))) refl

-- After an accepted connection the event is still queued when the call ends.
abbrev waiting_nine : NetworkController
waiting_nine = record (new_controller protocols) { enabled_peers = (9, pending_approve 4) ∷ [] }

accept_leaves_event :
    poll_controller (accept_incoming_connection 9 4 ∷ []) [] waiting_nine
    ≡ returned (record {
      controller = record (new_controller protocols) {
        enabled_peers = (9, connected_peer (4 ∷ []) []) ∷ [];
        pending_actions = generate_event (connected_with_inbound_peer 9) ∷ [];
      };
      action = none;
      instructions = [];
      requests = [];
    })
unfolding poll_controller new_controller
accept_leaves_event = refl

abbrev quiet_handler : PeerConnHandler
quiet_handler = record {
  stateful_protocols = [];
  one_shot_protocols = [];
  created_at = 0;
  remote = 9;
  pending_events = [];
  fault = none;
  pending_one_shots = [];
  terminate_asap = false;
  approvals = [];
}

rejection_panics_example :
    (on_instruction (reject 9 4) waiting_nine
      ≡ returned (
          notify 9 4 close_all_protocols
            (with_peers (remove 9 waiting_nine.enabled_peers) waiting_nine)))
    × ((on_behaviour_event 1 close_all_protocols quiet_handler).pending_events
        ≡ notify_behaviour closed_all_protocols ∷ [])
    × ((on_instruction (reject 9 4) waiting_nine
          >>= on_connection_handler_event 9 4 closed_all_protocols)
        ≡ panicked)
unfolding new_controller lookup
rejection_panics_example = rejection_panics 9 4 4 waiting_nine 1 quiet_handler refl

abbrev hello : OneShotMessage
hello = record { protocol = record { protocol_id = 0; protocol_ver = 1 }; content = 42 }

abbrev waiting_hello : NetworkController
waiting_hello = record (new_controller protocols) {
  enabled_peers = (7, pending_connect (hello ∷ []) true) ∷ [];
}

draw : ℕ → ℕ
draw i = i + 100

draws_differ : (i j : ℕ) → i < j → j < 2 → (draw i == draw j) ≡ false
unfolding draw
draws_differ i j before within = ground (arith, before)

delivered_twice_example :
    Returns
      (λ c'.
        c'.pending_actions
        ≡ notify_handler 7 5 (try_deliver_once hello)
          ∷ generate_event (connected_with_outbound_peer 7)
          ∷ [])
      (on_connection_established 7 5 waiting_hello)
    × ((fire_one_shots (
          take_deliveries draw 1
            (hello ∷ [])
            (handle_established_outbound_connection draw 3 7 waiting_hello))).pending_events
        ≡ substreams_from draw 0 (hello ∷ []) ++ substreams_from draw 1 (hello ∷ []))
unfolding new_controller lookup deliveries
delivered_twice_example =
    delivered_twice 7 5 (hello ∷ []) true draw 3 waiting_hello refl draws_differ

abbrev new_peer_manager : PeerManager
new_peer_manager =
    new_manager
      (new_repo
        (record { min_known_peers = 1; min_outbound = 2; max_inbound = 1; max_outbound = 4 }) [])
      (record {
        min_acceptable_reputation = negsuc 14;
        min_reputation = negsuc 4;
        conn_reset_outbound_backoff = 30;
        conn_alloc_interval = 5;
        prot_alloc_interval = 7;
        protocols_allocation = [];
        peer_manager_msg_buffer_size = 10;
      })

incoming_settled_example :
    Returns
      (λ r.
        (lookup 9 ((r.0).state).peers
          ≡ some (record (new_info none false false) { state = connected inbound }))
        × (lookup 9 (r.1).enabled_peers ≡ some (connected_peer (4 ∷ []) [])))
      (settle 1 9 4 (idle_manager new_peer_manager) (idle_controller (new_controller protocols)))
unfolding new_controller lookup new_manager new_repo
incoming_settled_example = incoming_settled 1 9 4 new_peer_manager (new_controller protocols) refl

-- Peer 7 as the manager has it, connected inbound.
abbrev known_seven : PeerInfo
known_seven = record (new_info none false false) { state = connected inbound }

abbrev manager_of_seven : PeerManager
manager_of_seven = record new_peer_manager {
  state = record (new_peer_manager.state) { peers = (7, known_seven) ∷ [] };
}

surplus_disagrees_example :
    Returns
      (λ r.
        (lookup 7 (r.1).enabled_peers ≡ some (connected_peer (5 ∷ []) []))
        × ((r.1).pending_actions
            ≡ close_connection 7 6 ∷ generate_event (disconnected 7 reset_by_peer) ∷ [])
        × (lookup 7 ((r.0).state).peers
            ≡ some
                (record known_seven { state = not_connected; outbound_backoff_until = some 31 })))
      (open_and_end 1 7 6 manager_of_seven (idle_controller joined_idle))
unfolding new_controller lookup new_manager new_repo
surplus_disagrees_example =
    surplus_disagrees 1 7 5 6 [] manager_of_seven known_seven joined_idle refl refl refl refl refl
