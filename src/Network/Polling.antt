-- ===== src/Network/Polling.antt =====
-- `poll` of spectrum-network/src/network_controller.rs. The instructions of the peer manager and the
-- requests of protocol handlers are the lists of what is ready at the time of the call; an empty list
-- stands for `Pending`, since neither stream ends.
use spectrum.Network.Instructions.{on_instruction}
use spectrum.Network.Requests.{on_request}
use spectrum.Network.State.{Action, NetworkController, NetworkControllerIn}
use spectrum.PeerManager.Manager.{
  PeerManagerOut, accept_incoming_connection, connect, drop, notify_peer_punished, reject,
  start_protocol,
}
use spectrum.Prelude.{
  Bool, List, Option, Outcome, [], false, none, returned, some, true, ◌>>=◌, ◌∷◌,
}

-- The controller after a call, the action it returns if it is ready, and what it left unread.
pub record Polled : Type 0 where
  pub controller : NetworkController
  pub action : Option Action
  pub instructions : List PeerManagerOut
  pub requests : List NetworkControllerIn

-- Whether a request is read in the same round.
abbrev pub falls_through : PeerManagerOut → Bool
falls_through (accept_incoming_connection pid conn) = true
falls_through (connect destination) = false
falls_through (drop pid) = false
falls_through (reject pid conn) = false
falls_through (start_protocol protocol pid) = false
falls_through (notify_peer_punished pid reason) = false

-- A pending action is returned, or else the call goes on.
abbrev pub action_or :
    List Action
    → List PeerManagerOut
    → List NetworkControllerIn
    → NetworkController
    → Outcome Polled
    → Outcome Polled
action_or (action ∷ actions) outs reqs c onwards = returned (record {
  controller = record c { pending_actions = actions };
  action = some action;
  instructions = outs;
  requests = reqs;
})
action_or [] outs reqs c onwards = onwards

abbrev pub not_ready : List PeerManagerOut → NetworkController → Outcome Polled
not_ready outs c =
    returned (record { controller = c; action = none; instructions = outs; requests = [] })

-- The loop without instructions.
unfoldable pub poll_requests : List NetworkControllerIn → NetworkController → Outcome Polled
unfolding on_request
poll_requests [] c = action_or c.pending_actions [] [] c (not_ready [] c)
poll_requests (req ∷ reqs) c =
    action_or c.pending_actions [] (req ∷ reqs) c (on_request req c >>= poll_requests reqs)

-- The loop. After an accepted connection a request is read in the same round, and where there is none
-- the call ends.
unfoldable pub poll_controller :
    List PeerManagerOut → List NetworkControllerIn → NetworkController → Outcome Polled
unfolding on_instruction poll_requests on_request
poll_controller [] reqs c = poll_requests reqs c
poll_controller (out ∷ outs) reqs c = action_or c.pending_actions (out ∷ outs) reqs c (
    on_instruction out c >>= λ after. elim (falls_through out) [
      | false ↦ poll_controller outs reqs after
      | true ↦ elim reqs [
        | [] ↦ not_ready outs after
        | req ∷ rest ↦ on_request req after >>= poll_controller outs rest
      ]
    ])
