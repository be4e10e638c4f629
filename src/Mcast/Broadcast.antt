-- ===== src/Mcast/Broadcast.antt =====
-- Which statements the behaviour of spectrum-mcast/src/behaviour.rs sends to the children.
use spectrum.Handel.Aggregation.{combined}
use spectrum.Handel.State.{Ops, PeerPartitions}
use spectrum.Mcast.Multicasting.{
  DagMulticasting, McastOut, McastPolled, combine_statement, completed, contact_children, emitted,
  indices, inject_statement, pending, poll_due, poll_multicasting, send_one_shot, send_statement,
}
use spectrum.Mcast.Overlay.{Peer, ids}
use spectrum.PeerManager.Data.{Multiaddr, PeerId}
use spectrum.Prelude.{
  ==_iff, All, Bool-cases, List, List-cases, Option, Returns, [], arith, contains, false, inl, inr,
  ltb, lt→ltb, none, refl, returned, some, true, ℕ, ◌++◌, ◌-◌, ◌<◌, ◌==◌, ◌>>=◌, ◌∙◌, ◌∷◌, ◌≡◌, ◌⊎◌,
}

abbrev pub HasPassed : ℕ → Option ℕ → Type 0
HasPassed now none = Unit {0}
HasPassed now (some deadline) = ltb now deadline ≡ false

module _ {S : Type 0} where
  -- All that a poll gives: what it returns, and what stays in the queue.
  abbrev pub all_out : DagMulticasting S × McastPolled S → List (McastOut S)
  all_out (state, pending) = state.outbox
  all_out (state, emitted out) = out ∷ state.outbox
  all_out (state, completed stmt) = state.outbox

  -- The peer is sent the statement.
  abbrev pub Sends : PeerId → S → List (McastOut S) → Type 0
  Sends pid stmt [] = ⊥
  Sends pid stmt (out ∷ outs) =
      ((addr : Option Multiaddr) × (out ≡ send_one_shot pid addr stmt)) ⊎ Sends pid stmt outs

  Sends-left :
      (pid : PeerId) (stmt : S) (xs ys : List (McastOut S))
      → Sends pid stmt xs
      → Sends pid stmt (xs ++ ys)
  Sends-left pid stmt [] ys m = absurd m
  Sends-left pid stmt (x ∷ xs) ys (inl at) = inl at
  Sends-left pid stmt (x ∷ xs) ys (inr m) = inr (Sends-left pid stmt xs ys m)

  Sends-last :
      (pid : PeerId) (stmt : S) (xs : List (McastOut S)) (addr : Option Multiaddr)
      → Sends pid stmt (xs ++ send_one_shot pid addr stmt ∷ [])
  Sends-last pid stmt [] addr = inl (addr, refl)
  Sends-last pid stmt (x ∷ xs) addr = inr (Sends-last pid stmt xs addr)

  contact_children-keeps :
      (stmt : S) (children : List Peer) (contacted : List PeerId) (outbox : List (McastOut S))
      (pid : PeerId)
      → Sends pid stmt outbox
      → Sends pid stmt (contact_children stmt children contacted outbox).1
  unfolding contact_children
  contact_children-keeps stmt [] contacted outbox pid m = m
  contact_children-keeps stmt (q ∷ children) contacted outbox pid m =
      elim (Bool-cases (contains q.0 contacted)) [
        | inl old ↦
            rw (old, contact_children) (contact_children-keeps stmt children contacted outbox pid m)
        | inr new ↦
            rw (new, contact_children)
              (contact_children-keeps stmt children (q.0 ∷ contacted)
                (outbox ++ send_one_shot q.0 q.1 stmt ∷ []) pid (Sends-left pid stmt outbox _ m))
      ]

  -- A child that is not contacted is sent the statement.
  contact_children-Sends :
      (stmt : S) (children : List Peer) (contacted : List PeerId) (outbox : List (McastOut S))
      (pid : PeerId)
      → contains pid (ids children) ≡ true
      → contains pid contacted ≡ false
      → Sends pid stmt (contact_children stmt children contacted outbox).1
  unfolding contact_children
  contact_children-Sends stmt [] contacted outbox pid child fresh = unfold contains in cc
  contact_children-Sends stmt (q ∷ children) contacted outbox pid child fresh =
      elim (Bool-cases (q.0 == pid)) [
        | inl this ↦
            let same : q.0 ≡ pid = (==_iff q.0 pid).0 this in
            let new : contains q.0 contacted ≡ false = rw same fresh in
            rw (new, contact_children)
              (contact_children-keeps stmt children (q.0 ∷ contacted)
                (outbox ++ send_one_shot q.0 q.1 stmt ∷ []) pid
                (rw same (Sends-last pid stmt outbox q.1)))
        | inr other ↦
            let later : contains pid (ids children) ≡ true = go child other in
            elim (Bool-cases (contains q.0 contacted)) [
              | inl old ↦
                  rw (old, contact_children)
                    (contact_children-Sends stmt children contacted outbox pid later fresh)
              | inr new ↦
                  rw (new, contact_children)
                    (contact_children-Sends stmt children (q.0 ∷ contacted)
                      (outbox ++ send_one_shot q.0 q.1 stmt ∷ []) pid later (fresh_still other))
            ]
      ]
    where
      go :
          contains pid (ids (q ∷ children)) ≡ true
          → (q.0 == pid) ≡ false
          → contains pid (ids children) ≡ true
      go found not_this = unfold contains in ground (arith, found, not_this)

      fresh_still : (q.0 == pid) ≡ false → contains pid (q.0 ∷ contacted) ≡ false
      fresh_still not_this = unfold contains in ground (arith, not_this, fresh)

  -- Children that were contacted get nothing.
  contact_children-contacted :
      (stmt : S) (children : List Peer) (contacted : List PeerId) (outbox : List (McastOut S))
      → All (λ (child : Peer). contains child.0 contacted ≡ true) children
      → contact_children stmt children contacted outbox ≡ (contacted, outbox)
  unfolding contact_children
  contact_children-contacted stmt [] contacted outbox old = refl
  contact_children-contacted stmt (q ∷ children) contacted outbox old =
      rw (old.0, contact_children) (contact_children-contacted stmt children contacted outbox old.1)

  -- The delay has passed, and the time of the multicasting has not.
  abbrev pub IsDue : ℕ → DagMulticasting S → Type 0
  IsDue now state =
      (ltb state.multicasting_duration (now - state.creation_time) ≡ false)
      × HasPassed now state.next_processing

  all_out-send :
      (now : ℕ) (state : DagMulticasting S) (stmt : S)
      → state.statement ≡ some stmt
      → all_out (send_statement now state)
        ≡ (contact_children stmt state.overlay.child_nodes state.contacted_peers state.outbox).1
  unfolding send_statement
  all_out-send now state stmt held =
      let outs =
        (contact_children stmt state.overlay.child_nodes state.contacted_peers state.outbox).1 in
      rw (held, send_statement)
        (elim (List-cases outs) [
          | inl empty ↦ rw (empty, send_statement) refl
          | inr more ↦ rw (more.2, send_statement) refl
        ])

  all_out-due :
      (now : ℕ) (state : DagMulticasting S) (stmt : S)
      → ltb state.multicasting_duration (now - state.creation_time) ≡ false
      → state.statement ≡ some stmt
      → all_out (poll_due now state)
        ≡ (contact_children stmt state.overlay.child_nodes state.contacted_peers state.outbox).1
  unfolding poll_due
  all_out-due now state stmt early held = rw early (all_out-send now state stmt held)

  all_out-poll :
      (now : ℕ) (state : DagMulticasting S) (stmt : S)
      → IsDue now state
      → state.statement ≡ some stmt
      → all_out (poll_multicasting now state)
        ≡ (contact_children stmt state.overlay.child_nodes state.contacted_peers state.outbox).1
  unfolding poll_multicasting
  all_out-poll now state stmt due held = go state.next_processing refl due.1
    where
      go :
          (next : Option ℕ)
          → state.next_processing ≡ next
          → HasPassed now next
          → all_out (poll_multicasting now state)
            ≡ (contact_children stmt state.overlay.child_nodes state.contacted_peers state.outbox).1
      go none is_next passed =
          rw (is_next, poll_multicasting) (all_out-due now state stmt due.0 held)
      go (some deadline) is_next passed =
          rw (is_next, poll_multicasting)
            (rw (passed, poll_multicasting)
              (all_out-due now (record state { next_processing = none }) stmt due.0 held))

  module _ (ops : Ops S) (partitions : PeerPartitions) where
    -- A statement comes from a parent and verifies.
    abbrev pub IsAccepted : PeerId → S → DagMulticasting S → Type 0
    IsAccepted sender content state =
        (contains sender state.overlay.parent_nodes ≡ true) × (ops.verify content ≡ true)

    -- When a statement that verifies comes from a parent and combines with the one held to a heavier
    -- one, and the contacted peers have an index: a poll that is due before the time is up queues or
    -- returns the combined statement for every child, those contacted before included.
    pub heavier_reaches_children :
        (sender : PeerId) (content stmt combined : S) (now child : ℕ) (ixs : List ℕ)
        (state : DagMulticasting S)
        → IsAccepted sender content state
        → state.statement ≡ some stmt
        → ops.try_combine stmt content ≡ some combined
        → ops.weight stmt < ops.weight combined
        → indices partitions state.contacted_peers ≡ returned ixs
        → IsDue now state
        → contains child (ids state.overlay.child_nodes) ≡ true
        → Returns
            (λ after. Sends child combined (all_out (poll_multicasting now after)))
            (inject_statement ops partitions sender content state)
    unfolding inject_statement combine_statement
    heavier_reaches_children sender content stmt combined now child ixs state accepted held combines
          heavier indexed due listed =
        rw accepted.0 (
          rw accepted.1 (
            rw (held, inject_statement)
              (rw (combines, combine_statement)
                (rw (lt→ltb _ _ heavier) (
                  rw indexed (
                    rw
                      (all_out-poll now
                        (record state { statement = some combined; contacted_peers = [] }) combined
                        due refl)
                      (contact_children-Sends combined state.overlay.child_nodes [] state.outbox
                        child listed (unfold contains in refl))))))))

    -- When a statement that verifies comes from a parent and does not combine with the one held, that
    -- one is given up. The next statement that verifies is held then, but where every child was
    -- contacted before, a poll that is due before the time is up gives no more than the messages that
    -- were in the queue.
    pub conflict_silences :
        (sender next_sender : PeerId) (content next_content stmt : S) (now : ℕ)
        (state : DagMulticasting S)
        → IsAccepted sender content state
        → IsAccepted next_sender next_content state
        → state.statement ≡ some stmt
        → ops.try_combine stmt content ≡ none
        → All
            (λ (child : Peer). contains child.0 state.contacted_peers ≡ true)
            state.overlay.child_nodes
        → IsDue now state
        → Returns
            (λ after.
              (after.statement ≡ some next_content)
              × (all_out (poll_multicasting now after) ≡ state.outbox))
            (inject_statement ops partitions sender content state
              >>= inject_statement ops partitions next_sender next_content)
    unfolding inject_statement combine_statement
    conflict_silences sender next_sender content next_content stmt now state accepted next_accepted
          held conflict old due =
        rw accepted.0 (
          rw accepted.1 (
            rw (held, inject_statement)
              (rw (conflict, combine_statement)
                (rw next_accepted.0 (
                  rw next_accepted.1 (
                    refl,
                    all_out-poll now (record state { statement = some next_content }) next_content
                          due refl
                        ∙ rw
                            (contact_children-contacted next_content state.overlay.child_nodes
                              state.contacted_peers state.outbox old)
                            refl,
                  ))))))
