-- ===== src/Network/Runs.antt =====
-- Runs of the controller of spectrum-network/src/network_controller.rs: events of the swarm and of
-- the connection handlers, and calls of `poll`, in any order.
use mathlib.Core.Bool.{false≢true}
use mathlib.Core.Path.{subst}
use spectrum.Network.Answers.{
  Safe, instruction_fits, on_instruction-Safe, on_request-Safe, request_fits,
}
use spectrum.Network.Controller.{on_connection_closed, on_connection_established, on_dial_failure}
use spectrum.Network.EventHandling.{on_connection_handler_event-Inv}
use spectrum.Network.HandlerEvents.{on_connection_handler_event}
use spectrum.Network.Handling.{
  on_connection_closed-Inv, on_connection_established-Inv, on_dial_failure-Inv,
}
use spectrum.Network.Instructions.{on_instruction}
use spectrum.Network.Invariant.{Inv, Kept}
use spectrum.Network.Polling.{
  Polled, action_or, falls_through, not_ready, poll_controller, poll_requests,
}
use spectrum.Network.Requests.{on_request}
use spectrum.Network.State.{
  Action, ConnHandlerOut, NetworkController, NetworkControllerIn, ProtocolConfig, new_controller,
}
use spectrum.PeerManager.Data.{ConnHandlerError, PeerId, ProtocolId}
use spectrum.PeerManager.Manager.{ConnectionId, PeerManagerOut}
use spectrum.Prelude.{
  Bool, List, Option, Outcome, Returns, [], arith, false, panicked, refl, returned, sym, true, ◌&&◌,
  ◌>>=◌, ◌∙◌, ◌∷◌, ◌≡◌,
}

pub data Step (c : NetworkController) : NetworkController → Type 0 where
  established :
      (pid : PeerId) (conn : ConnectionId) {c' : NetworkController}
      → on_connection_established pid conn c ≡ returned c'
      → Step c c'
  connection_closed :
      (pid : PeerId) (conn : ConnectionId) (fault : Option ConnHandlerError)
      {c' : NetworkController}
      → on_connection_closed pid conn fault c ≡ returned c'
      → Step c c'
  dial_failed : (pid : Option PeerId) → Step c (on_dial_failure pid c)
  handler_event :
      (pid : PeerId) (conn : ConnectionId) (event : ConnHandlerOut) {c' : NetworkController}
      → on_connection_handler_event pid conn event c ≡ returned c'
      → Step c c'
  polled :
      (outs : List PeerManagerOut) (reqs : List NetworkControllerIn) {r : Polled}
      → poll_controller outs reqs c ≡ returned r
      → Step c r.controller

pub data Reach (c : NetworkController) : NetworkController → Type 0 where
  start : Reach c c
  step : {before after : NetworkController} → Reach c before → Step before after → Reach c after

module _ (supported : List (ProtocolId × ProtocolConfig)) where
  unfoldable pub instructions_fit : List PeerManagerOut → Bool
  instructions_fit [] = true
  instructions_fit (out ∷ outs) = instruction_fits supported out && instructions_fit outs

  unfoldable pub requests_fit : List NetworkControllerIn → Bool
  requests_fit [] = true
  requests_fit (req ∷ reqs) = request_fits supported req && requests_fit reqs

  abbrev SafePoll : Bool → Outcome Polled → Type 0
  SafePoll fits (returned r) = Inv supported r.controller
  SafePoll fits panicked = fits ≡ false

  SafePoll-weaken :
      (fits also : Bool) (o : Outcome Polled)
      → (fits ≡ false → also ≡ false)
      → SafePoll fits o
      → SafePoll also o
  SafePoll-weaken fits also (returned r) weaker safe = safe
  SafePoll-weaken fits also panicked weaker safe = weaker safe

  SafePoll-bind :
      (fits rest : Bool) (o : Outcome NetworkController) (f : NetworkController → Outcome Polled)
      → Safe supported fits o
      → ((c : NetworkController) → Inv supported c → SafePoll rest (f c))
      → SafePoll (fits && rest) (o >>= f)
  SafePoll-bind fits rest (returned c) f safe after =
      SafePoll-weaken rest (fits && rest) (f c) (λ e. ground (arith, e)) (after c safe)
  SafePoll-bind fits rest panicked f safe after = ground (arith, safe)

  action_or-SafePoll :
      (fits : Bool) (queue : List Action) (outs : List PeerManagerOut)
      (reqs : List NetworkControllerIn) (c : NetworkController) (onwards : Outcome Polled)
      → Inv supported c
      → SafePoll fits onwards
      → SafePoll fits (action_or queue outs reqs c onwards)
  action_or-SafePoll fits [] outs reqs c onwards v safe = safe
  action_or-SafePoll fits (action ∷ actions) outs reqs c onwards v safe = v

  poll_requests-SafePoll :
      (reqs : List NetworkControllerIn) (c : NetworkController)
      → Inv supported c
      → SafePoll (requests_fit reqs) (poll_requests reqs c)
  unfolding poll_requests requests_fit
  poll_requests-SafePoll [] c v = action_or-SafePoll true c.pending_actions [] [] c _ v v
  poll_requests-SafePoll (req ∷ reqs) c v =
      action_or-SafePoll _ c.pending_actions [] (req ∷ reqs) c _ v (
        SafePoll-bind (request_fits supported req) (requests_fit reqs) (on_request req c)
          (poll_requests reqs) (on_request-Safe supported req c v) (poll_requests-SafePoll reqs))

  -- The rest of a round after an instruction.
  round-SafePoll :
      (outs : List PeerManagerOut) (through : Bool) (queue : List NetworkControllerIn)
      (after : NetworkController)
      → Inv supported after
      → ((reqs : List NetworkControllerIn) (c : NetworkController)
          → Inv supported c
          → SafePoll (instructions_fit outs && requests_fit reqs) (poll_controller outs reqs c))
      → SafePoll (instructions_fit outs && requests_fit queue) (elim through [
        | false ↦ poll_controller outs queue after
        | true ↦ elim queue [
          | [] ↦ not_ready outs after
          | req ∷ rest ↦ on_request req after >>= poll_controller outs rest
        ]
      ])
  unfolding requests_fit
  round-SafePoll outs false queue after w ih = ih queue after w
  round-SafePoll outs true [] after w ih = w
  round-SafePoll outs true (req ∷ rest) after w ih =
      SafePoll-weaken (request_fits supported req && (instructions_fit outs && requests_fit rest))
        (instructions_fit outs && (request_fits supported req && requests_fit rest)) _
        (λ e. ground (arith, e))
        (SafePoll-bind (request_fits supported req) (instructions_fit outs && requests_fit rest)
          (on_request req after) _ (on_request-Safe supported req after w) (ih rest))

  poll_controller-SafePoll :
      (outs : List PeerManagerOut) (reqs : List NetworkControllerIn) (c : NetworkController)
      → Inv supported c
      → SafePoll (instructions_fit outs && requests_fit reqs) (poll_controller outs reqs c)
  unfolding poll_controller instructions_fit
  poll_controller-SafePoll [] reqs c v = poll_requests-SafePoll reqs c v
  poll_controller-SafePoll (out ∷ outs) reqs c v =
      action_or-SafePoll _ c.pending_actions (out ∷ outs) reqs c _ v (
        SafePoll-weaken
          (instruction_fits supported out && (instructions_fit outs && requests_fit reqs))
          ((instruction_fits supported out && instructions_fit outs) && requests_fit reqs) _
          (λ e. ground (arith, e))
          (SafePoll-bind (instruction_fits supported out)
            (instructions_fit outs && requests_fit reqs) (on_instruction out c) _
            (on_instruction-Safe supported out c v)
            (λ after w.
              round-SafePoll outs (falls_through out) reqs after w
                (poll_controller-SafePoll outs))))

  Kept-result :
      (o : Outcome NetworkController) (c : NetworkController)
      → Kept supported o
      → o ≡ returned c
      → Inv supported c
  Kept-result o c kept result = subst (Kept supported) result kept

  SafePoll-result :
      (fits : Bool) (o : Outcome Polled) (r : Polled)
      → SafePoll fits o
      → o ≡ returned r
      → Inv supported r.controller
  SafePoll-result fits o r safe result = subst (SafePoll fits) result safe

  step-Inv : (c c' : NetworkController) → Inv supported c → Step c c' → Inv supported c'
  step-Inv c c' v (established pid conn result) =
      Kept-result _ c' (on_connection_established-Inv supported pid conn c v) result
  step-Inv c c' v (connection_closed pid conn fault result) =
      Kept-result _ c' (on_connection_closed-Inv supported pid conn fault c v) result
  step-Inv c c' v (dial_failed pid) = on_dial_failure-Inv supported pid c v
  step-Inv c c' v (handler_event pid conn event result) =
      Kept-result _ c' (on_connection_handler_event-Inv supported pid conn event c v) result
  step-Inv c c' v (polled outs reqs {r} result) =
      SafePoll-result _ _ r (poll_controller-SafePoll outs reqs c v) result

  run-Inv : (c c' : NetworkController) → Inv supported c → Reach c c' → Inv supported c'
  run-Inv c c' v start = v
  run-Inv c c' v (step {before} run taken) = step-Inv before c' (run-Inv c before v run) taken

-- In every run of a new controller, each connected peer has a connection, and only protocols that the
-- controller supports and that are not being disabled; and no peer is in the state of waiting for its
-- disconnection.
Reach-Inv :
    (supported : List (ProtocolId × ProtocolConfig)) (c : NetworkController)
    → Reach (new_controller supported) c
    → Inv supported c
unfolding new_controller
Reach-Inv supported c run = run-Inv supported (new_controller supported) c (refl, tt) run

-- In every run of a new controller, a call of `poll` returns, whatever instructions and requests it
-- reads, as long as the protocols that they start or enable are supported ones: taking the first
-- connection of a connected peer never panics.
pub poll_controller-Returns :
    (supported : List (ProtocolId × ProtocolConfig)) (c : NetworkController)
    (outs : List PeerManagerOut) (reqs : List NetworkControllerIn)
    → Reach (new_controller supported) c
    → instructions_fit supported outs ≡ true
    → requests_fit supported reqs ≡ true
    → Returns (λ r. Inv supported r.controller) (poll_controller outs reqs c)
poll_controller-Returns supported c outs reqs run outs_fit reqs_fit =
    returns_if _ (poll_controller outs reqs c)
      (poll_controller-SafePoll supported outs reqs c (Reach-Inv supported c run))
      (ground (arith, outs_fit, reqs_fit))
  where
    returns_if :
        (fits : Bool) (o : Outcome Polled)
        → SafePoll supported fits o
        → fits ≡ true
        → Returns (λ r. Inv supported r.controller) o
    returns_if fits (returned r) safe fitting = safe
    returns_if fits panicked safe fitting = absurd (false≢true (sym safe ∙ fitting))
