-- ===== src/PeerManager/Examples.antt =====
-- The peer manager on concrete runs.
use spectrum.PeerManager.Allocation.{
  StartsWell, allocate_protocol-StartsWell, allocate_protocols_panics,
  networking_state_ignores_connections,
}
use spectrum.PeerManager.Backoff.{backoff_respected}
use spectrum.PeerManager.Data.{
  Instant, PeerInfo, ProtocolAllocationPolicy, apply, connected, inbound, new_info, peer_id,
  reset_by_peer, supports, too_slow,
}
use spectrum.PeerManager.Events.{
  on_add_peers, on_add_reserved_peer, on_connection_established, on_connection_lost,
  on_dial_failure, on_force_enabled, on_get_peer_reputation, on_get_peers, on_incoming_connection,
  on_report_peer, on_set_peer_protocols, on_set_reserved_peers,
}
use spectrum.PeerManager.Handles.{
  NetworkingConfig, adjust_reputation, confirm_connection, connect_peer, destination, disconnect,
  enable_protocol_with, force_connect, forget, is_reputation_acceptable, peer, set_backoff_until,
  set_protocols, try_accept_connection, write_index, write_info,
}
use spectrum.PeerManager.Incoming.{inbound_unlimited, on_incoming_connection_answers}
use spectrum.PeerManager.Index.{
  add_outgoing, drop_incoming, drop_outgoing, enable_protocol, reserve_peer,
}
use spectrum.PeerManager.Invariant.Runs.{Reach, Reach-IsSound, deliver, here, next, poll, start}
use spectrum.PeerManager.Manager.{
  PeerManager, PeerManagerConfig, PeerManagerIn, PeerManagerRequest, accept_incoming_connection,
  connect_best, connect_reserved, connect_to, disconnect_from, force_enabled, incoming_connection,
  is_not_connected, notification, notify_peer_punished, prepare_allocate_connections, reject,
  request,
}
use spectrum.PeerManager.Poll.{
  Poll, allocate_connections, allocate_protocols_at, handle, pending, poll_next, ready, run_timers,
}
use spectrum.PeerManager.Protocols.{allocate_protocol, allocate_protocols, wants_more}
use spectrum.PeerManager.Ranking.{insert_rank, rank_lt, remove_rank, same_rank}
use spectrum.PeerManager.Repo.{
  add_peer, boot_in_progress, filter_peers, get_enabled_peers, get_reserved_peers, networking_state,
  num_connected_peers, pick_best, try_add_peer,
}
use spectrum.PeerManager.Reports.{on_report_peer_lem}
use spectrum.PeerManager.Selection.{IsLeast, passing, pick_best-IsLeast}
use spectrum.PeerManager.Soundness.{IsSound}
use spectrum.Prelude.{
  Outcome, Returns, [], add, arith, contains, false, insert, lookup, negsuc, none, panicked, refl,
  remove, returned, some, some, ◌++◌, ◌+ℤ◌, ◌∷◌, ◌≡◌,
}

-- The manager that a poll leaves, and what is on this line runs in the tests below.
left_by : PeerManager → Outcome (PeerManager × Poll) → PeerManager
left_by pm (returned r) = r.0
left_by pm panicked = pm

after : Instant → PeerManager → PeerManager
unfolding left_by poll_next handle run_timers allocate_connections allocate_protocols_at
    allocate_protocols allocate_protocol wants_more connect_reserved connect_best
    prepare_allocate_connections connect_to disconnect_from on_add_peers on_get_peers
    on_add_reserved_peer on_set_reserved_peers on_report_peer on_get_peer_reputation
    on_set_peer_protocols on_incoming_connection on_connection_established on_connection_lost
    on_dial_failure on_force_enabled peer disconnect confirm_connection enable_protocol_with
    connect_peer try_accept_connection forget set_backoff_until adjust_reputation
    is_reputation_acceptable networking_state filter_peers pick_best get_reserved_peers
    get_enabled_peers num_connected_peers try_add_peer add_peer destination add_outgoing
    drop_outgoing drop_incoming enable_protocol reserve_peer insert lookup remove contains add
    insert_rank remove_rank same_rank rank_lt apply supports start write_index write_info
    force_connect set_protocols
after now pm = left_by pm (poll_next now pm)

abbrev limits : NetworkingConfig
limits = record { min_known_peers = 1; min_outbound = 2; max_inbound = 1; max_outbound = 4 }

abbrev policies : PeerManagerConfig
policies = record {
  min_acceptable_reputation = negsuc 14;
  min_reputation = negsuc 4;
  conn_reset_outbound_backoff = 30;
  conn_alloc_interval = 5;
  prot_alloc_interval = 7;
  protocols_allocation = (3, ProtocolAllocationPolicy.bounded 50) ∷ [];
  peer_manager_msg_buffer_size = 10;
}

abbrev send : PeerManagerIn → PeerManager → PeerManager
send m pm = record pm { mailbox = pm.mailbox ++ m ∷ [] }

-- No peers at first; peer 5 connects, and peer 6 does not yet.
accepted : PeerManager
unfolding after
accepted =
    after 1 (send (notification (incoming_connection 5 77)) (after 0 (start limits [] policies)))

-- Protocol 3 is enabled with peer 5 by the other side.
enabled : PeerManager
unfolding accepted
enabled = after 2 (send (notification (force_enabled 5 3)) accepted)

accepted-Reach : Reach (start limits [] policies) accepted
unfolding accepted
accepted-Reach =
    next
      (next (next here (poll 0 pending refl)) (deliver (notification (incoming_connection 5 77))))
      (poll 1 (ready (accept_incoming_connection 5 77)) refl)

enabled-Reach : Reach (start limits [] policies) enabled
unfolding enabled
enabled-Reach =
    next (next accepted-Reach (deliver (notification (force_enabled 5 3)))) (poll 2 pending refl)

Reach-IsSound_example : IsSound (accepted.state)
Reach-IsSound_example = Reach-IsSound limits [] policies accepted-Reach

on_incoming_connection_answers_example :
    (on_incoming_connection 5 78 accepted).out_queue ≡ reject 5 78 ∷ []
unfolding accepted
on_incoming_connection_answers_example = (on_incoming_connection_answers 5 78 accepted).0

-- The limit is 1, and the second connection is accepted.
inbound_unlimited_example :
    (on_incoming_connection 6 78 accepted).out_queue ≡ accept_incoming_connection 6 78 ∷ []
unfolding accepted
inbound_unlimited_example =
    inbound_unlimited limits [] policies 6 78 accepted-Reach (omega arith) refl

allocate_protocols_panics_example : allocate_protocols enabled ≡ panicked
unfolding enabled
allocate_protocols_panics_example =
    allocate_protocols_panics limits [] policies 3 50 [] (5 ∷ []) enabled-Reach (λ p. ground arith)
      refl refl

-- Peer 5 as the run above leaves it.
abbrev inbound_peer : PeerInfo
inbound_peer = record (new_info none false false) { state = connected inbound }

on_report_peer_lem_example :
    (lookup 5 ((on_report_peer 5 too_slow accepted).state).peers
      ≡ some (record inbound_peer { reputation = negsuc 9 }))
    × ((on_report_peer 5 too_slow accepted).out_queue ≡ notify_peer_punished 5 too_slow ∷ [])
unfolding accepted ◌+ℤ◌
on_report_peer_lem_example = on_report_peer_lem 5 too_slow accepted inbound_peer refl (omega arith)

backoff_respected_example :
    (connect_to 20 5 (on_connection_lost 4 5 reset_by_peer accepted)).out_queue
    ≡ (on_connection_lost 4 5 reset_by_peer accepted).out_queue ++ []
unfolding accepted
backoff_respected_example = backoff_respected 4 20 5 accepted inbound_peer refl refl refl

pick_best-IsLeast_example :
    IsLeast
      (λ p. passing is_not_connected p (lookup p (accepted.state).peers))
      (pick_best (some is_not_connected) accepted.state)
pick_best-IsLeast_example =
    pick_best-IsLeast is_not_connected accepted.state
      (Reach-IsSound limits [] policies accepted-Reach)

networking_state_ignores_connections_example : networking_state accepted.state ≡ boot_in_progress
unfolding accepted
networking_state_ignores_connections_example =
    networking_state_ignores_connections limits [] policies accepted-Reach

-- A manager that dials peer 9, which supports protocol 3 when it is connected.
dialled : PeerManager
unfolding after
dialled = after 2 (
    send (request (PeerManagerRequest.set_protocols 9 (3 ∷ [])))
      (after 1 (after 0 (start limits (peer_id 9 ∷ []) policies))))

-- The protocol is enabled with peer 8, which is known to no table.
waiting : PeerManager
unfolding dialled
waiting = record dialled {
  state = record (dialled.state) {
    index = record ((dialled.state).index) { protocols = (3, 8 ∷ []) ∷ [] };
  };
}

allocate_protocol-StartsWell_example :
    Returns
      (StartsWell 3 (8 ∷ []) waiting)
      (allocate_protocol 3 ProtocolAllocationPolicy.max waiting)
unfolding waiting
allocate_protocol-StartsWell_example =
    allocate_protocol-StartsWell 3 ProtocolAllocationPolicy.max (8 ∷ []) waiting refl (omega arith)
