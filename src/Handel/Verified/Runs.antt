-- ===== src/Handel/Verified/Runs.antt =====
-- The runs of a Handel round, of spectrum-handel/src/lib.rs: it starts with its own contribution, is
-- given messages and is polled.
use mathlib.Core.Path.{subst}
use spectrum.Handel.Overlay.{vp}
use spectrum.Handel.Partitioning.{PeerIx}
use spectrum.Handel.Round.{
  Polled, activate_when_due, disseminate_when_due, elapsed, finished, handle_contribution,
  inject_message, note_completed, outgoing, poll, poll_out, run_aggregation, run_level, waiting,
}
use spectrum.Handel.Sending.{run_dissemination}
use spectrum.Handel.State.{
  ActiveLevel, Handel, HandelConfig, HandelMessage, Ops, PeerPartitions, completed_level,
  get_complete_aggregate, get_own_contribution, level_ref, new_handel, new_level,
  next_non_active_level, try_activate_level, unit_level,
}
use spectrum.Handel.Verified.{
  AllVerified, Holds, HoldsIfAny, LevelVerified, MessageVerified, level_ref-verified,
  run_level-verified,
}
use spectrum.Handel.Verified.Sent.{
  aggregate-verified, disseminate_from-verified, own_contribution-verified,
}
use spectrum.Handel.Verified.Steps.{activate_from-verified, complete_level-verified}
use spectrum.PeerManager.Data.{PeerId}
use spectrum.Prelude.{
  All, All-set, Bool, List, Option, Yields, Yields-after, Yields-bind, Yields-if, Yields-list,
  Yields-option, contains, false, get_elem?, length, ltb, none, replicate, returned, set, some, suc,
  true, unwrap, zero, ℕ, ◌+◌, ◌-◌, ◌||◌, ◌≡◌,
}

-- A run ends where a call panics.
pub data Reach {C : Type 0} (ops : Ops C) (h0 : Handel C) : Handel C → Type 0 where
  start : Reach ops h0 h0
  injected :
      {h h' : Handel C} (pid : PeerId) (msg : HandelMessage C)
      → Reach ops h0 h
      → inject_message ops pid msg h ≡ returned h'
      → Reach ops h0 h'
  polled :
      {h h' : Handel C} {out : Polled C} (now : ℕ)
      → Reach ops h0 h
      → poll now h ≡ returned (h', out)
      → Reach ops h0 h'

module _ {C : Type 0} (ops : Ops C) where
  abbrev Kept : Handel C → Type 0
  Kept h = AllVerified ops h

  -- What a poll returns is verified.
  abbrev pub OutVerified : Polled C → Type 0
  OutVerified waiting = Unit
  OutVerified (outgoing m) = MessageVerified ops m
  OutVerified (finished c) = Holds ops c

  -- A predicate of the state that a call returns with something else.
  abbrev StateAndOut : Handel C × Polled C → Type 0
  StateAndOut r = Kept r.0 × OutVerified r.1

  disseminate_when_due-verified :
      (now : ℕ) (h : Handel C) → Kept h → Yields Kept (disseminate_when_due now h)
  unfolding disseminate_when_due run_dissemination AllVerified
  disseminate_when_due-verified now h k =
      Yields-if Kept (elapsed now h.next_dissemination) _ _
        (Yields-bind Kept Kept (run_dissemination h) _
          (Yields-bind (Holds ops) Kept (get_own_contribution h) _
            (own_contribution-verified ops h k)
            (λ own o. disseminate_from-verified ops (length h.levels - 1) 1 own h o k))
          (λ h' k'. k'))
        k

  activate_when_due-verified :
      (now : ℕ) (h : Handel C) → Kept h → Yields Kept (activate_when_due now h)
  unfolding activate_when_due try_activate_level AllVerified
  activate_when_due-verified now h k =
      Yields-if Kept (elapsed now h.next_activation) _ _
        (Yields-option Kept (next_non_active_level h) _ _ k (λ level e.
          Yields-bind Kept Kept (try_activate_level level h) _
            (activate_from-verified ops (length h.levels - level) level h k) (λ h' k'. k')))
        k

  poll_out-verified : (now : ℕ) (h : Handel C) → Kept h → Yields StateAndOut (poll_out now h)
  unfolding poll_out AllVerified
  poll_out-verified now h k =
      Yields-list StateAndOut h.outbox _ _
        (Yields-bind (HoldsIfAny ops) StateAndOut (get_complete_aggregate h) _
          (aggregate-verified ops h k) (λ ca v. by_aggregate ca v))
        (λ m ms e. let sent = subst (All (MessageVerified ops)) e k.1 in ((k.0, sent.1), sent.0))
    where
      by_aggregate :
          (ca : Option C)
          → HoldsIfAny ops ca
          → Yields StateAndOut (
              returned (elim ca [
                | some c ↦ (record h { next_processing = none }, finished c)
                | none ↦
                    (record h { next_processing = some (now + (h.conf).throttle_factor) }, waiting)
              ]))
      by_aggregate none v = (k, tt)
      by_aggregate (some c) v = (k, v)

  poll-verified : (now : ℕ) (h : Handel C) → Kept h → Yields StateAndOut (poll now h)
  unfolding poll
  poll-verified now h k =
      Yields-bind Kept StateAndOut (disseminate_when_due now h) _
        (disseminate_when_due-verified now h k)
        (λ h1 k1.
          Yields-bind Kept StateAndOut (activate_when_due now h1) _
            (activate_when_due-verified now h1 k1)
            (λ h2 k2.
              Yields-option StateAndOut h2.next_processing _ _ (poll_out-verified now h2 k2)
                (λ deadline e.
                  Yields-if StateAndOut (elapsed now deadline) _ _ (poll_out-verified now h2 k2)
                    (k2, tt))))

  note_completed-verified :
      (pix : PeerIx) (level : ℕ) (contact : Bool) (h : Handel C)
      → Kept h
      → Kept (note_completed pix level contact h)
  unfolding note_completed AllVerified
  note_completed-verified pix level true h k = k
  note_completed-verified pix level false h k = k

  handle_contribution-verified :
      (pid : PeerId) (level : ℕ) (contact : Bool) (aggr : C) (ind : Option C) (h : Handel C)
      → Kept h
      → Yields (λ r. Kept r.0) (handle_contribution pid level contact aggr ind h)
  unfolding handle_contribution AllVerified
  handle_contribution-verified pid level contact aggr ind h k =
      Yields-option (λ r. Kept r.0) ((h.peer_partitions).try_index pid) _ _ k
        (λ pix e.
          let h' = note_completed pix level contact h in
          let k' = note_completed-verified pix level contact h k in
          Yields-after (λ r. Kept r.0) (level_ref level h') _
            (λ l.
              Yields-if (λ r. Kept r.0) (contains pix h'.byzantine_nodes || completed_level l) _ _
                k'
                (Yields-after (λ r. Kept r.0) (unwrap (get_elem? h'.unverified_contributions level))
                  _ (λ at. k'))))

  run_aggregation-verified :
      (level : ℕ) (h : Handel C) → Kept h → Yields Kept (run_aggregation ops level h)
  unfolding run_aggregation AllVerified
  run_aggregation-verified level h k =
      Yields-bind (LevelVerified ops) Kept (level_ref level h) _
        (level_ref-verified ops level h k.0)
        (λ l v. Yields-option Kept l _ _ k (λ lvl e.
          Yields-after Kept (unwrap (get_elem? h.unverified_contributions level)) _ (λ unverified.
            Yields-list Kept unverified _ _ k (λ u us eq.
              Yields-after Kept ((h.peer_partitions).at_level level vp) _ (λ peers.
                Yields-bind (λ r. LevelVerified ops (some r.0) × Kept r.1) Kept (run_level ops _ _)
                  _ (run_level-verified ops _ _ (subst (LevelVerified ops) e v) k)
                  (λ r w. complete_level-verified ops level r.0 r.1 w.1 w.0))))))

  inject_message-verified :
      (pid : PeerId) (msg : HandelMessage C) (h : Handel C)
      → Kept h
      → Yields Kept (inject_message ops pid msg h)
  unfolding inject_message
  inject_message-verified pid msg h k =
      Yields-bind (λ r. Kept r.0) Kept
        (handle_contribution pid msg.level msg.contact_sender msg.aggregate_contribution
          msg.individual_contribution h)
        _
        (handle_contribution-verified pid msg.level msg.contact_sender msg.aggregate_contribution
          msg.individual_contribution h k)
        (λ r k'. Yields-if Kept r.1 _ _ (run_aggregation-verified msg.level r.0 k') k')

  -- In every run from a state in which the best and the individual contributions of the active levels
  -- and the messages that wait all verify, they verify.
  pub Reach-AllVerified :
      (h0 h : Handel C) → AllVerified ops h0 → Reach ops h0 h → AllVerified ops h
  Reach-AllVerified h0 h k start = k
  Reach-AllVerified h0 h k (injected {h = before} pid msg r e) =
      subst (Yields Kept) e
        (inject_message-verified pid msg before (Reach-AllVerified h0 before k r))
  Reach-AllVerified h0 h k (polled {h = before} now r e) =
      (subst (Yields StateAndOut) e (poll-verified now before (Reach-AllVerified h0 before k r))).0

  new_handel-verified :
      (now : ℕ) (conf : HandelConfig) (own : C) (pp : PeerPartitions) (own_ix : PeerIx)
      → Holds ops own
      → Yields (AllVerified ops) (new_handel now conf own pp own_ix)
  unfolding new_handel new_level unit_level AllVerified
  new_handel-verified now conf own pp own_ix o =
      let blank : List (Option (ActiveLevel C)) = replicate pp.count none in
      Yields-if (AllVerified ops) (ltb pp.count 2) _ _ tt (
        All-set (LevelVerified ops) (set blank 0 _) 1 _
            (All-set (LevelVerified ops) blank 0 _ (All-blank pp.count) (o, tt)) (o, tt),
        tt,
      )
    where
      All-blank : (n : ℕ) → All (LevelVerified ops) (replicate n none)
      All-blank zero = tt
      All-blank (suc n) = (tt, All-blank n)

  -- A round starts with an own contribution that verifies, is given any messages and is polled at any
  -- times; then a message that a poll returns carries contributions that verify, and so does the
  -- complete aggregate. Nothing is assumed of what the other peers send.
  pub poll_verified :
      (t0 now : ℕ) (conf : HandelConfig) (own : C) (pp : PeerPartitions) (own_ix : PeerIx)
      (h0 h h' : Handel C) (out : Polled C)
      → Holds ops own
      → new_handel t0 conf own pp own_ix ≡ returned h0
      → Reach ops h0 h
      → poll now h ≡ returned (h', out)
      → OutVerified out
  poll_verified t0 now conf own pp own_ix h0 h h' out o e r p =
      let v0 = subst (Yields (AllVerified ops)) e (new_handel-verified t0 conf own pp own_ix o) in
      (subst (Yields StateAndOut) p (poll-verified now h (Reach-AllVerified h0 h v0 r))).1
