-- ===== src/Handel/Verified/Steps.antt =====
-- The calls of a Handel round, of spectrum-handel/src/lib.rs, keep what it holds verified.
use mathlib.Core.Path.{subst}
use spectrum.Handel.Aggregation.{is_complete}
use spectrum.Handel.Overlay.{cvp, sort_by_key, vp}
use spectrum.Handel.Partitioning.{PeerIx}
use spectrum.Handel.Round.{complete_level}
use spectrum.Handel.Sending.{
  completed_by, dedup, message_for, own_best, push_message, run_fast_path, send_all, window_nodes,
}
use spectrum.Handel.State.{
  ActiveLevel, Handel, OneShotMessage, Ops, activate_from, is_active, level_ref, new_level,
  set_level, try_activate_level, unit_level,
}
use spectrum.Handel.Verified.{
  AllVerified, Holds, HoldsIfAny, LevelVerified, MessageVerified, level_ref-verified,
}
use spectrum.Prelude.{
  All, All-append, All-set, Bool, Bool-cases, List, Option, Yields, Yields-after, Yields-bind,
  Yields-if, Yields-list, Yields-option, Yields-trivial, [], contains, false, inl, inr, length,
  none, some, suc, true, usize, zero, ℕ, ◌+◌, ◌-◌, ◌==◌, ◌∷◌,
}

module _ {C : Type 0} (ops : Ops C) where
  abbrev Kept : Handel C → Type 0
  Kept h = AllVerified ops h

  pub set_level-verified :
      (level : ℕ) (lvl : ActiveLevel C) (h : Handel C)
      → Kept h
      → LevelVerified ops (some lvl)
      → Kept (set_level level lvl h)
  unfolding set_level AllVerified
  set_level-verified level lvl h k l =
      (All-set (LevelVerified ops) h.levels level (some lvl) k.0 l, k.1)

  pub levels-verified : (h : Handel C) → Kept h → All (LevelVerified ops) h.levels
  unfolding AllVerified
  levels-verified h k = k.0

  pub activate_from-verified :
      (rest level : ℕ) (h : Handel C) → Kept h → Yields Kept (activate_from rest level h)
  unfolding activate_from unit_level new_level
  activate_from-verified zero level h k = k
  activate_from-verified (suc rest) level h k = Yields-if Kept (is_active level h) _ _ k (
      Yields-bind (LevelVerified ops) Kept _ _
        (Yields-if (LevelVerified ops) (level == 0) _ _ tt
          (level_ref-verified ops (level - 1) h (levels-verified h k)))
        (λ l v. Yields-option Kept l _ _ k (λ prev e.
          Yields-bind (λ p. Unit) Kept ((h.peer_partitions).at_level level vp) _
            (Yields-trivial ((h.peer_partitions).at_level level vp))
            (λ peers u.
              let best = (subst (LevelVerified ops) e v).0 in
              Yields-list Kept peers _ _
                (activate_from-verified rest (level + 1) _
                  (set_level-verified level (unit_level prev.best_contribution) h k (best, tt)))
                (λ p ps eq.
                  set_level-verified level (new_level prev.best_contribution (length (p ∷ ps))) h k
                    (best, tt))))))

  pub message_for-verified :
      (level : ℕ) (own : Option C) (best : C) (contact : Bool) (h : Handel C) (pix : PeerIx)
      → HoldsIfAny ops own
      → Holds ops best
      → Yields (MessageVerified ops) (message_for level own best contact h pix)
  unfolding message_for
  message_for-verified level own best contact h pix o b =
      Yields-bind (λ p. Unit) (MessageVerified ops) ((h.peer_partitions).identify pix) _
        (Yields-trivial _)
        (λ pid u. (
          b,
          elim (Bool-cases (contains pix h.own_contribution_recvs)) [
            | inl sent ↦ rw sent tt
            | inr not_sent ↦ rw not_sent o
          ],
        ))

  pub push_message-verified :
      (m : OneShotMessage C) (h : Handel C)
      → MessageVerified ops m
      → Kept h
      → Kept (push_message m h)
  unfolding push_message AllVerified
  push_message-verified m h v k =
      (k.0, All-append (MessageVerified ops) h.outbox (m ∷ []) k.1 (v, tt))

  send_all-verified :
      (level : ℕ) (own : Option C) (best : C) (nodes : List PeerIx) (h : Handel C)
      → HoldsIfAny ops own
      → Holds ops best
      → Kept h
      → Yields Kept (send_all level own best nodes h)
  unfolding send_all
  send_all-verified level own best [] h o b k = k
  send_all-verified level own best (pix ∷ nodes) h o b k =
      Yields-bind (MessageVerified ops) Kept _ _
        (message_for-verified level own best false h pix o b)
        (λ m v.
          send_all-verified level own best nodes (push_message m h) o b
            (push_message-verified m h v k))

  own_best-verified :
      (l : Option (ActiveLevel C)) → LevelVerified ops l → HoldsIfAny ops (own_best l)
  unfolding own_best
  own_best-verified none v = tt
  own_best-verified (some lvl) v = v.0

  run_fast_path-verified : (level : ℕ) (h : Handel C) → Kept h → Yields Kept (run_fast_path level h)
  unfolding run_fast_path
  run_fast_path-verified level h k =
      Yields-bind (LevelVerified ops) Kept (level_ref 0 h) _
        (level_ref-verified ops 0 h (levels-verified h k))
        (λ zeroth z.
          Yields-bind (LevelVerified ops) Kept (level_ref level h) _
            (level_ref-verified ops level h (levels-verified h k))
            (λ l v. Yields-option Kept l _ _ k (λ lvl e.
              Yields-if Kept lvl.is_completed _ _
                (Yields-bind (λ p. Unit) Kept ((h.peer_partitions).at_level level cvp) _
                  (Yields-trivial ((h.peer_partitions).at_level level cvp))
                  (λ peers u.
                    Yields-after Kept
                      (window_nodes (h.conf).fast_path_window 0
                        (elim lvl.last_contacted_peer_ix [ none ↦ 0 | some x ↦ usize (x + 1) ])
                        peers (completed_by level h))
                      _
                      (λ nodes.
                        send_all-verified level (own_best zeroth)
                          (lvl.best_contribution).contribution
                          (dedup (sort_by_key (λ pix. pix) nodes)) h (own_best-verified zeroth z)
                          (subst (LevelVerified ops) e v).0 k)))
                tt)))

  pub complete_level-verified :
      (level : ℕ) (lvl : ActiveLevel C) (h : Handel C)
      → Kept h
      → LevelVerified ops (some lvl)
      → Yields Kept (complete_level ops level lvl h)
  unfolding complete_level try_activate_level
  complete_level-verified level lvl h k v =
      Yields-bind (λ b. Unit) Kept
        (is_complete ops (lvl.best_contribution).contribution level (h.conf).threshold) _
        (Yields-trivial _)
        (λ b u.
          Yields-if Kept b _ _
            (Yields-bind Kept Kept _ _
              (run_fast_path-verified level _
                (set_level-verified level (record lvl { is_completed = true }) h k v))
              (λ h' k'. activate_from-verified _ (level + 1) h' k'))
            (set_level-verified level lvl h k v))
