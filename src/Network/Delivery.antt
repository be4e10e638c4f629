-- ===== src/Network/Delivery.antt =====
-- What becomes of the one-shot messages that wait for a connection:
-- spectrum-network/src/network_controller.rs with peer_conn_handler.rs.
use mathlib.Core.Option.{none-ne-some}
use spectrum.Connection.Handler.{
  HandlerEvent, OneShotRequest, PeerConnHandler, awaiting, confirming, on_behaviour_event,
  one_shot_upgrade, outbound_substream_request,
}
use spectrum.Connection.Substreams.{fire, fire_one_shots}
use spectrum.Network.Connecting.{
  collect_requests, handle_established_outbound_connection, init_conn_handler, outbound_handler,
}
use spectrum.Network.Controller.{
  deliver_tasks, established_in, joined, on_connection_established, tell_connected,
}
use spectrum.Network.State.{
  Action, NetworkController, OneShotMessage, ProtocolConfig, connected_with_outbound_peer,
  generate_event, notify_handler, pending_connect, try_deliver_once,
}
use spectrum.PeerManager.Data.{Instant, PeerId, ProtocolId}
use spectrum.PeerManager.Manager.{ConnectionId}
use spectrum.Prelude.{
  Bool, Bool-cases, List, Returns, [], ap, append-nil, append_assoc, arith, false, inl, inr, insert,
  length, lookup, lookup-insert, none, refl, some, sym, ℕ, ◌*◌, ◌++◌, ◌+◌, ◌<◌, ◌==◌, ◌∙◌, ◌∷◌, ◌≡◌,
  ◌≤◌,
}

-- A request for each message, under the ids drawn from a number on.
unfoldable requests_from : (ℕ → ℕ) → ℕ → List OneShotMessage → List (ℕ × OneShotRequest)
requests_from draw n [] = []
requests_from draw n (task ∷ tasks) = (draw n, awaiting task) ∷ requests_from draw (n + 1) tasks

-- The substream that the request for a message asks for.
abbrev request_of : ℕ × OneShotMessage → HandlerEvent
request_of (id, task) =
    outbound_substream_request (one_shot_upgrade task.protocol id task.content) task.protocol

-- The substreams that these requests ask for.
unfoldable pub substreams_from : (ℕ → ℕ) → ℕ → List OneShotMessage → List HandlerEvent
substreams_from draw n [] = []
substreams_from draw n (task ∷ tasks) =
    request_of (draw n, task) ∷ substreams_from draw (n + 1) tasks

-- The commands that the controller sends for the messages.
unfoldable pub deliveries : PeerId → ConnectionId → List OneShotMessage → List Action
deliveries pid conn [] = []
deliveries pid conn (task ∷ tasks) =
    notify_handler pid conn (try_deliver_once task) ∷ deliveries pid conn tasks

-- The handler after these commands, which draw the ids from a number on.
unfoldable pub take_deliveries :
    (ℕ → ℕ) → ℕ → List OneShotMessage → PeerConnHandler → PeerConnHandler
unfolding on_behaviour_event
take_deliveries draw n [] h = h
take_deliveries draw n (task ∷ tasks) h =
    take_deliveries draw (n + 1) tasks (on_behaviour_event (draw n) (try_deliver_once task) h)

insert-fresh {ℓ} :
    {V : Type ℓ} (key : ℕ) (v : V) (table : List (ℕ × V))
    → lookup key table ≡ none
    → insert key v table ≡ table ++ (key, v) ∷ []
unfolding insert lookup
insert-fresh key v [] fresh = refl
insert-fresh key v (entry ∷ rest) fresh = elim (Bool-cases (entry.0 == key)) [
  | inl same ↦ absurd (none-ne-some entry.1 (sym fresh ∙ rw same refl))
  | inr other ↦
      rw other (ap (λ l. entry ∷ l) (insert-fresh key v rest (sym (rw other refl) ∙ fresh)))
]

module _ (draw : ℕ → ℕ) (total : ℕ)
    (distinct : (i j : ℕ) → i < j → j < total → (draw i == draw j) ≡ false) where
  -- No draw from this number on is a key.
  abbrev Unused : ℕ → List (ℕ × OneShotRequest) → Type 0
  Unused n table = (j : ℕ) → n ≤ j → j < total → lookup (draw j) table ≡ none

  Unused-insert :
      (n : ℕ) (task : OneShotMessage) (table : List (ℕ × OneShotRequest))
      → Unused n table
      → Unused (n + 1) (insert (draw n) (awaiting task) table)
  Unused-insert n task table unused j after within =
      lookup-insert (draw n) (draw j) (awaiting task) table
      ∙ rw (distinct n j (omega (arith, after)) within) (unused j (omega (arith, after)) within)

  collect_requests-fresh :
      (n : ℕ) (tasks : List OneShotMessage) (table : List (ℕ × OneShotRequest))
      → n + length tasks ≤ total
      → Unused n table
      → collect_requests draw n tasks table ≡ table ++ requests_from draw n tasks
  unfolding collect_requests requests_from
  collect_requests-fresh n [] table room unused = sym (append-nil table)
  collect_requests-fresh n (task ∷ tasks) table room unused =
      collect_requests-fresh (n + 1) tasks (insert (draw n) (awaiting task) table)
        (omega (arith, room)) (Unused-insert n task table unused)
      ∙ ap (λ (l : List (ℕ × OneShotRequest)). l ++ requests_from draw (n + 1) tasks)
          (insert-fresh (draw n) (awaiting task) table
            (unused n (omega arith) (omega (arith, room))))
      ∙ append_assoc table ((draw n, awaiting task) ∷ []) (requests_from draw (n + 1) tasks)

  Unused-collect :
      (n : ℕ) (tasks : List OneShotMessage) (table : List (ℕ × OneShotRequest))
      → Unused n table
      → Unused (n + length tasks) (collect_requests draw n tasks table)
  unfolding collect_requests
  Unused-collect n [] table unused j after within = unused j (omega (arith, after)) within
  Unused-collect n (task ∷ tasks) table unused j after within =
      Unused-collect (n + 1) tasks (insert (draw n) (awaiting task) table)
        (Unused-insert n task table unused) j (omega (arith, after)) within

  collect_requests-twice :
      (tasks : List OneShotMessage)
      → 2 * length tasks ≡ total
      → collect_requests draw (length tasks) tasks (collect_requests draw 0 tasks [])
        ≡ requests_from draw 0 tasks ++ requests_from draw (length tasks) tasks
  unfolding lookup
  collect_requests-twice tasks all =
      collect_requests-fresh (length tasks) tasks (collect_requests draw 0 tasks [])
        (omega (arith, all))
        (λ j after within.
          Unused-collect 0 tasks [] (λ j' after' within'. refl) j (omega (arith, after)) within)
      ∙ ap (λ (l : List (ℕ × OneShotRequest)). l ++ requests_from draw (length tasks) tasks)
          (collect_requests-fresh 0 tasks [] (omega (arith, all)) (λ j after within. refl))

take_deliveries_lem :
    (draw : ℕ → ℕ) (n : ℕ) (tasks : List OneShotMessage) (h : PeerConnHandler)
    → ((take_deliveries draw n tasks h).pending_one_shots
        ≡ collect_requests draw n tasks h.pending_one_shots)
      × ((take_deliveries draw n tasks h).pending_events ≡ h.pending_events)
unfolding take_deliveries collect_requests on_behaviour_event
take_deliveries_lem draw n [] h = (refl, refl)
take_deliveries_lem draw n (task ∷ tasks) h = take_deliveries_lem draw (n + 1) tasks _

fire-append : (rs rs' : List (ℕ × OneShotRequest)) → fire (rs ++ rs') ≡ fire rs ++ fire rs'
unfolding fire
fire-append [] rs' = refl
fire-append ((id, awaiting task) ∷ rs) rs' =
    ap (λ l. request_of (id, task) ∷ l) (fire-append rs rs')
fire-append ((id, confirming) ∷ rs) rs' = fire-append rs rs'

fire-requests_from :
    (draw : ℕ → ℕ) (n : ℕ) (tasks : List OneShotMessage)
    → fire (requests_from draw n tasks) ≡ substreams_from draw n tasks
unfolding fire requests_from substreams_from
fire-requests_from draw n [] = refl
fire-requests_from draw n (task ∷ tasks) =
    ap (λ l. request_of (draw n, task) ∷ l) (fire-requests_from draw (n + 1) tasks)

deliver_tasks_lem :
    (pid : PeerId) (conn : ConnectionId) (tasks : List OneShotMessage) (c : NetworkController)
    → (deliver_tasks pid conn tasks c).pending_actions
      ≡ c.pending_actions ++ deliveries pid conn tasks
unfolding deliver_tasks deliveries
deliver_tasks_lem pid conn [] c = sym (append-nil c.pending_actions)
deliver_tasks_lem pid conn (task ∷ tasks) c =
    deliver_tasks_lem pid conn tasks _
    ∙ append_assoc c.pending_actions (_ ∷ []) (deliveries pid conn tasks)

tell_connected-actions :
    (pid : PeerId) (protocols : List (ProtocolId × ProtocolConfig)) (c : NetworkController)
    → (tell_connected pid protocols c).pending_actions ≡ c.pending_actions
unfolding tell_connected
tell_connected-actions pid [] c = refl
tell_connected-actions pid (protocol ∷ protocols) c = tell_connected-actions pid protocols _

established-actions :
    (pid : PeerId) (conn : ConnectionId) (tasks : List OneShotMessage) (asap : Bool)
    (c : NetworkController)
    → Returns
        (λ c'.
          c'.pending_actions
          ≡ (c.pending_actions ++ deliveries pid conn tasks)
            ++ generate_event (connected_with_outbound_peer pid) ∷ [])
        (established_in pid conn (some (pending_connect tasks asap)) c)
unfolding established_in
established-actions pid conn tasks asap c =
    ap (λ (l : List Action). l ++ generate_event (connected_with_outbound_peer pid) ∷ [])
      (tell_connected-actions pid (joined pid conn tasks c).supported_protocols
          (joined pid conn tasks c)
        ∙ deliver_tasks_lem pid conn tasks c)

-- Messages wait for the connection to a peer that was dialled, and the random ids that are drawn for
-- them are different. When the connection is established, its handler starts with a request for each
-- of them, and the controller commands it to deliver each of them besides; after these commands the
-- handler asks for two substreams for each message, so that each message is to be sent twice.
pub delivered_twice :
    (pid : PeerId) (conn : ConnectionId) (tasks : List OneShotMessage) (asap : Bool) (draw : ℕ → ℕ)
    (now : Instant) (c : NetworkController)
    → lookup pid c.enabled_peers ≡ some (pending_connect tasks asap)
    → ((i j : ℕ) → i < j → j < 2 * length tasks → (draw i == draw j) ≡ false)
    → Returns
        (λ c'.
          c'.pending_actions
          ≡ (c.pending_actions ++ deliveries pid conn tasks)
            ++ generate_event (connected_with_outbound_peer pid) ∷ [])
        (on_connection_established pid conn c)
      × ((fire_one_shots (
            take_deliveries draw
              (length tasks)
              tasks
              (handle_established_outbound_connection draw now pid c))).pending_events
          ≡ substreams_from draw 0 tasks ++ substreams_from draw (length tasks) tasks)
unfolding on_connection_established fire_one_shots handle_established_outbound_connection
    outbound_handler init_conn_handler
delivered_twice pid conn tasks asap draw now c waits distinct =
    let h = init_conn_handler draw now pid tasks asap c in
    let taken = take_deliveries_lem draw (length tasks) tasks h in
    rw waits (
      established-actions pid conn tasks asap c,
      rw (taken.1, taken.0, collect_requests-twice draw (2 * length tasks) distinct tasks refl)
          (fire-append (requests_from draw 0 tasks) (requests_from draw (length tasks) tasks)
            ∙ rw (fire-requests_from draw 0 tasks, fire-requests_from draw (length tasks) tasks)
                refl),
    )
