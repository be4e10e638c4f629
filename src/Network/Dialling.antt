-- ===== src/Network/Dialling.antt =====
-- What becomes of a peer that the controller of spectrum-network/src/network_controller.rs dials.
use mathlib.Core.Path.{subst}
use spectrum.Network.Away.{established_in-Away, on_connection_handler_event-Away}
use spectrum.Network.Controller.{on_connection_closed, on_connection_established, on_dial_failure}
use spectrum.Network.HandlerEvents.{on_connection_handler_event}
use spectrum.Network.Instructions.{on_connect}
use spectrum.Network.Polling.{Polled, poll_controller}
use spectrum.Network.State.{ConnHandlerOut, NetworkController, NetworkControllerIn, pending_connect}
use spectrum.Network.Waiting.{
  Away-Waiting, GivesNoDial, IsWaiting, PolledWaiting, closed-Waiting, poll_controller-Waiting,
}
use spectrum.PeerManager.Data.{ConnHandlerError, PeerDestination, PeerId, id_of}
use spectrum.PeerManager.Manager.{ConnectionId, PeerManagerOut}
use spectrum.Prelude.{
  List, Option, Outcome, Yields, ap, false, lookup, none, refl, returned, some, ◌==◌, ◌∙◌, ◌≡◌,
}

module _ (pid : PeerId) where
  -- A step in which the peer is not connected.
  pub data Quiet (c : NetworkController) : NetworkController → Type 0 where
    established :
        (other : PeerId) (conn : ConnectionId) {after : NetworkController}
        → (other == pid) ≡ false
        → on_connection_established other conn c ≡ returned after
        → Quiet c after
    connection_closed :
        (other : PeerId) (conn : ConnectionId) (fault : Option ConnHandlerError)
        {after : NetworkController}
        → on_connection_closed other conn fault c ≡ returned after
        → Quiet c after
    dial_failed : (other : Option PeerId) → Quiet c (on_dial_failure other c)
    handler_event :
        (other : PeerId) (conn : ConnectionId) (event : ConnHandlerOut) {after : NetworkController}
        → (other == pid) ≡ false
        → on_connection_handler_event other conn event c ≡ returned after
        → Quiet c after
    polled :
        (outs : List PeerManagerOut) (reqs : List NetworkControllerIn) {r : Polled}
        → poll_controller outs reqs c ≡ returned r
        → Quiet c r.controller

  pub data QuietRun (c : NetworkController) : NetworkController → Type 0 where
    start : QuietRun c c
    step :
        {before after : NetworkController}
        → QuietRun c before
        → Quiet before after
        → QuietRun c after

  Yields-result {ℓ} :
      {A : Type ℓ} (P : A → Type 0) (o : Outcome A) (a : A) → Yields P o → o ≡ returned a → P a
  Yields-result P o a held result = subst (Yields P) result held

  on_dial_failure-Waiting :
      (other : Option PeerId) (c : NetworkController)
      → IsWaiting pid c
      → IsWaiting pid (on_dial_failure other c)
  unfolding on_dial_failure
  on_dial_failure-Waiting none c w = w
  on_dial_failure-Waiting (some other) c w = w

  Quiet-Waiting : (c c' : NetworkController) → IsWaiting pid c → Quiet c c' → IsWaiting pid c'
  unfolding on_connection_established
  Quiet-Waiting c c' w (established other conn apart result) =
      Yields-result (IsWaiting pid) (on_connection_established other conn c) c'
        (Away-Waiting pid c _ w (established_in-Away pid other conn _ c apart)) result
  Quiet-Waiting c c' w (connection_closed other conn fault result) =
      Yields-result (IsWaiting pid) _ c' (closed-Waiting pid other conn fault c w) result
  Quiet-Waiting c c' w (dial_failed other) = on_dial_failure-Waiting other c w
  Quiet-Waiting c c' w (handler_event other conn event apart result) =
      Yields-result (IsWaiting pid) _ c'
        (Away-Waiting pid c _ w (on_connection_handler_event-Away pid other conn event c apart))
        result
  Quiet-Waiting c c' w (polled outs reqs {r} result) =
      (Yields-result (λ r. IsWaiting pid r.controller × GivesNoDial pid r.action) _ r
        (poll_controller-Waiting pid outs reqs c w) result).0

  run-Waiting : (c c' : NetworkController) → IsWaiting pid c → QuietRun c c' → IsWaiting pid c'
  run-Waiting c c' w start = w
  run-Waiting c c' w (step {before} run taken) =
      Quiet-Waiting before c' (run-Waiting c before w run) taken

-- A peer that the controller has dialled, by an action that it has given already, and that has not
-- connected stays in the state of being dialled through every run in which no connection to it is
-- established and no connection handler of it reports, whatever else happens and also when the dial
-- fails. It is not dialled again: no action that dials it is pending after the run; `poll`, where
-- it returns, whatever instructions and requests about any peers are ready, gives no such action and
-- leaves the peer in that state; and the manager's instruction to connect to it changes nothing.
pub never_dialled_again :
    (pid : PeerId) (c c' : NetworkController) (destination : PeerDestination)
    (outs : List PeerManagerOut) (reqs : List NetworkControllerIn)
    → IsWaiting pid c
    → QuietRun pid c c'
    → id_of destination ≡ pid
    → IsWaiting pid c'
      × PolledWaiting pid (poll_controller outs reqs c')
      × (on_connect destination c' ≡ c')
unfolding on_connect
never_dialled_again pid c c' destination outs reqs waiting run same =
    let still = run-Waiting pid c c' waiting run in
    let found : lookup (id_of destination) c'.enabled_peers
        ≡ some (pending_connect still.0 still.1) =
      ap (λ (p : PeerId). lookup p c'.enabled_peers) same ∙ still.2 in
    (still, poll_controller-Waiting pid outs reqs c' still, rw found refl)
