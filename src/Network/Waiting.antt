-- ===== src/Network/Waiting.antt =====
-- A peer that the controller of spectrum-network/src/network_controller.rs has dialled, through the
-- calls that it makes until the peer is connected.
use spectrum.Network.Away.{Away, NoDial, closed_in-Away, dials, insert-Away, pushed}
use spectrum.Network.AwayPolling.{
  accept_in-Away, drop_in-Away, enable_in-Away, reject_in-Away, send_in-Away, start_in-Away,
}
use spectrum.Network.Controller.{closed_in, on_connection_closed}
use spectrum.Network.Instructions.{
  accept_in, drop_in, on_connect, on_instruction, reject_in, start_in,
}
use spectrum.Network.Polling.{
  Polled, action_or, falls_through, not_ready, poll_controller, poll_requests,
}
use spectrum.Network.Requests.{enable_in, on_request, send_in}
use spectrum.Network.State.{
  Action, ConnectedPeer, NetworkController, NetworkControllerIn, OneShotMessage, ban_peer, dial,
  enable_protocol, pending_connect, push_action, send_one_shot_message, update_peer_protocols,
  with_peers,
}
use spectrum.PeerManager.Data.{ConnHandlerError, PeerDestination, PeerId, id_of, into_addr}
use spectrum.PeerManager.Manager.{
  ConnectionId, PeerManagerOut, accept_incoming_connection, connect, drop, notify_peer_punished,
  reject, start_protocol,
}
use spectrum.Prelude.{
  ==_iff, Bool, Bool-cases, List, Option, Outcome, Yields, Yields-bind, [], ap, false,
  if◌then◌else◌, inl, inr, insert, is_some, lookup, lookup-insert_self, none, panicked, refl,
  returned, some, sym, true, ◌++◌, ◌==◌, ◌>>=◌, ◌∙◌, ◌∷◌, ◌≡◌,
}

module _ (pid : PeerId) where
  -- The controller waits for the connection to the peer, and has given all its actions that dial it.
  abbrev pub IsWaiting : NetworkController → Type 0
  IsWaiting c =
      (tasks : List OneShotMessage) × (asap : Bool) × (lookup pid c.enabled_peers
        ≡ some (pending_connect tasks asap))
      × NoDial pid c.pending_actions

  pub Away-Waiting :
      (c : NetworkController) (o : Outcome NetworkController)
      → IsWaiting c
      → Yields (Away pid c) o
      → Yields IsWaiting o
  unfolding Away
  Away-Waiting c (returned c') w away = (w.0, w.1, away.0 ∙ w.2, away.1 w.3)
  Away-Waiting c panicked w away = tt

  -- By whether the entry that is looked up is the one of the peer.
  by_peer :
      (other : PeerId) (c : NetworkController)
      (f : Option ConnectedPeer → Outcome NetworkController)
      → IsWaiting c
      → ((tasks : List OneShotMessage) (asap : Bool)
          → other ≡ pid
          → Yields IsWaiting (f (some (pending_connect tasks asap))))
      → ((other == pid) ≡ false → Yields (Away pid c) (f (lookup other c.enabled_peers)))
      → Yields IsWaiting (f (lookup other c.enabled_peers))
  by_peer other c f w waits away = elim (Bool-cases (other == pid)) [
    | inl same ↦
        let is_it : other ≡ pid = (==_iff other pid).0 same in
        rw (ap (λ (p : PeerId). lookup p c.enabled_peers) is_it ∙ w.2) (waits w.0 w.1 is_it)
    | inr apart ↦ Away-Waiting c (f (lookup other c.enabled_peers)) w (away apart)
  ]

  pub closed-Waiting :
      (other : PeerId) (conn : ConnectionId) (fault : Option ConnHandlerError)
      (c : NetworkController)
      → IsWaiting c
      → Yields IsWaiting (on_connection_closed other conn fault c)
  unfolding on_connection_closed closed_in
  closed-Waiting other conn fault c w =
      by_peer other c (λ entry. closed_in other conn fault entry c) w (λ tasks asap same. w)
        (closed_in-Away pid other conn fault _ c)

  on_connect-Waiting :
      (destination : PeerDestination) (c : NetworkController)
      → IsWaiting c
      → IsWaiting (on_connect destination c)
  unfolding on_connect Away
  on_connect-Waiting destination c w =
      by_peer (id_of destination) c
        (λ entry. returned (
          if is_some entry
          then c
          else push_action (dial (id_of destination) (into_addr destination)) (
              with_peers (insert (id_of destination) (pending_connect [] false) c.enabled_peers)
                c)))
        w (λ tasks asap same. w)
        (λ apart. elim (Bool-cases (is_some (lookup (id_of destination) c.enabled_peers))) [
          | inl there ↦ rw there (refl, λ q. q)
          | inr vacant ↦
              rw vacant (insert-Away pid (id_of destination) _ _ apart, pushed pid _ _ apart)
        ])

  on_instruction-Waiting :
      (out : PeerManagerOut) (c : NetworkController)
      → IsWaiting c
      → Yields IsWaiting (on_instruction out c)
  unfolding on_instruction drop_in accept_in reject_in start_in
  on_instruction-Waiting (connect destination) c w = on_connect-Waiting destination c w
  on_instruction-Waiting (drop other) c w = Away-Waiting c _ w (drop_in-Away pid other _ c)
  on_instruction-Waiting (accept_incoming_connection other conn) c w =
      by_peer other c (λ entry. returned (accept_in other conn entry c)) w (λ tasks asap same. w)
        (accept_in-Away pid other conn _ c)
  on_instruction-Waiting (reject other conn) c w =
      by_peer other c (λ entry. returned (reject_in other conn entry c)) w (λ tasks asap same. w)
        (reject_in-Away pid other conn _ c)
  on_instruction-Waiting (start_protocol protocol other) c w =
      by_peer other c (λ entry. start_in protocol other entry c) w (λ tasks asap same. w)
        (start_in-Away pid protocol other _ c)
  on_instruction-Waiting (notify_peer_punished other reason) c w =
      (w.0, w.1, w.2, pushed pid _ _ refl w.3)

  on_request-Waiting :
      (req : NetworkControllerIn) (c : NetworkController)
      → IsWaiting c
      → Yields IsWaiting (on_request req c)
  unfolding on_request send_in enable_in
  on_request-Waiting (enable_protocol protocol other handshake) c w =
      by_peer other c (λ entry. enable_in protocol other handshake entry c) w (λ tasks asap same. w)
        (enable_in-Away pid protocol other handshake _ c)
  on_request-Waiting (update_peer_protocols other protocols) c w = w
  on_request-Waiting (send_one_shot_message other addr_hint tag content) c w =
      let task : OneShotMessage = record { protocol = tag; content = content } in
      by_peer other c (λ entry. send_in other addr_hint task entry c) w
        (λ tasks asap same. (
          tasks ++ task ∷ [],
          asap,
          ap
                (λ (p : PeerId).
                  lookup p
                    (insert other (pending_connect (tasks ++ task ∷ []) asap) c.enabled_peers))
                (sym same)
              ∙ lookup-insert_self other (pending_connect (tasks ++ task ∷ []) asap)
                  c.enabled_peers,
          w.3,
        ))
        (send_in-Away pid other addr_hint task _ c)
  on_request-Waiting (ban_peer other) c w = w

  -- No action is given that dials the peer.
  abbrev pub GivesNoDial : Option Action → Type 0
  GivesNoDial none = Unit
  GivesNoDial (some action) = dials pid action ≡ false

  abbrev pub PolledWaiting : Outcome Polled → Type 0
  PolledWaiting = Yields (λ r. IsWaiting r.controller × GivesNoDial r.action)

  action_or-Waiting :
      (queue : List Action) (outs : List PeerManagerOut) (reqs : List NetworkControllerIn)
      (c : NetworkController) (onwards : Outcome Polled)
      → IsWaiting c
      → NoDial pid queue
      → PolledWaiting onwards
      → PolledWaiting (action_or queue outs reqs c onwards)
  action_or-Waiting [] outs reqs c onwards w quiet after = after
  action_or-Waiting (action ∷ actions) outs reqs c onwards w quiet after =
      ((w.0, w.1, w.2, quiet.1), quiet.0)

  poll_requests-Waiting :
      (reqs : List NetworkControllerIn) (c : NetworkController)
      → IsWaiting c
      → PolledWaiting (poll_requests reqs c)
  unfolding poll_requests
  poll_requests-Waiting [] c w = action_or-Waiting c.pending_actions [] [] c _ w w.3 (w, tt)
  poll_requests-Waiting (req ∷ reqs) c w =
      action_or-Waiting c.pending_actions [] (req ∷ reqs) c _ w w.3 (
        Yields-bind IsWaiting (λ r. IsWaiting r.controller × GivesNoDial r.action)
          (on_request req c) (poll_requests reqs) (on_request-Waiting req c w)
          (poll_requests-Waiting reqs))

  round-Waiting :
      (outs : List PeerManagerOut) (through : Bool) (queue : List NetworkControllerIn)
      (after : NetworkController)
      → IsWaiting after
      → ((reqs : List NetworkControllerIn) (c : NetworkController)
          → IsWaiting c
          → PolledWaiting (poll_controller outs reqs c))
      → PolledWaiting (elim through [
        | false ↦ poll_controller outs queue after
        | true ↦ elim queue [
          | [] ↦ not_ready outs after
          | req ∷ rest ↦ on_request req after >>= poll_controller outs rest
        ]
      ])
  round-Waiting outs false queue after w ih = ih queue after w
  round-Waiting outs true [] after w ih = (w, tt)
  round-Waiting outs true (req ∷ rest) after w ih =
      Yields-bind IsWaiting (λ r. IsWaiting r.controller × GivesNoDial r.action)
        (on_request req after) (poll_controller outs rest) (on_request-Waiting req after w)
        (ih rest)

  pub poll_controller-Waiting :
      (outs : List PeerManagerOut) (reqs : List NetworkControllerIn) (c : NetworkController)
      → IsWaiting c
      → PolledWaiting (poll_controller outs reqs c)
  unfolding poll_controller
  poll_controller-Waiting [] reqs c w = poll_requests-Waiting reqs c w
  poll_controller-Waiting (out ∷ outs) reqs c w =
      action_or-Waiting c.pending_actions (out ∷ outs) reqs c _ w w.3 (
        Yields-bind IsWaiting (λ r. IsWaiting r.controller × GivesNoDial r.action)
          (on_instruction out c) _ (on_instruction-Waiting out c w)
          (λ after w'.
            round-Waiting outs (falls_through out) reqs after w' (poll_controller-Waiting outs)))
