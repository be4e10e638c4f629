-- ===== src/Handel/Verified/Sent.antt =====
-- What a Handel round reads and sends in a dissemination, of spectrum-handel/src/lib.rs, is verified.
use mathlib.Core.Path.{subst}
use spectrum.Handel.Overlay.{cvp}
use spectrum.Handel.Partitioning.{PeerIx}
use spectrum.Handel.Sending.{
  all_completed, completed_by, disseminate_from, disseminate_level, disseminate_to, message_for,
  next_peer,
}
use spectrum.Handel.State.{
  ActiveLevel, Handel, Ops, get_complete_aggregate, get_own_contribution, level_ref,
}
use spectrum.Handel.Verified.{
  AllVerified, Holds, HoldsIfAny, LevelVerified, MessageVerified, Yields-unwrap, level_ref-verified,
}
use spectrum.Handel.Verified.Steps.{
  levels-verified, message_for-verified, push_message-verified, set_level-verified,
}
use spectrum.Prelude.{
  Bool-cases, Option, Yields, Yields-after, Yields-bind, Yields-if, Yields-option, get_elem?,
  if◌then◌else◌, inl, inr, length, none, not, panicked, returned, some, suc, unwrap, zero, ℕ, ◌+◌,
  ◌-◌, ◌==◌,
}

module _ {C : Type 0} (ops : Ops C) where
  abbrev Kept : Handel C → Type 0
  Kept h = AllVerified ops h

  disseminate_to-verified :
      (level : ℕ) (own : C) (lvl : ActiveLevel C) (pix : PeerIx) (i : ℕ) (h : Handel C)
      → Holds ops own
      → LevelVerified ops (some lvl)
      → Kept h
      → Yields Kept (disseminate_to level own lvl pix i h)
  unfolding disseminate_to
  disseminate_to-verified level own lvl pix i h o v k =
      Yields-after Kept (unwrap (get_elem? lvl.sent_contribution_scores i)) _ (λ sent.
        Yields-bind (MessageVerified ops) Kept
          (message_for level (some own) (lvl.best_contribution).contribution (not lvl.is_completed)
            h pix)
          _
          (message_for-verified ops level (some own) (lvl.best_contribution).contribution
            (not lvl.is_completed) h pix o v.0)
          (λ m w. push_message-verified ops m _ w (set_level-verified ops level _ h k v)))

  disseminate_level-verified :
      (level : ℕ) (own : C) (lvl : ActiveLevel C) (h : Handel C)
      → Holds ops own
      → LevelVerified ops (some lvl)
      → Kept h
      → Yields Kept (disseminate_level level own lvl h)
  unfolding disseminate_level
  disseminate_level-verified level own lvl h o v k =
      Yields-after Kept ((h.peer_partitions).at_level level cvp) _ (λ peers.
        Yields-after Kept (all_completed level h peers) _ (λ b. Yields-if Kept b _ _ k (
          Yields-after Kept (next_peer (completed_by level h) peers lvl.last_contacted_peer_ix) _
            (λ n.
              Yields-option Kept n _ _ k
                (λ p e. disseminate_to-verified level own lvl p.0 p.1 h o v k)))))

  pub disseminate_from-verified :
      (rest level : ℕ) (own : C) (h : Handel C)
      → Holds ops own
      → Kept h
      → Yields Kept (disseminate_from rest level own h)
  unfolding disseminate_from
  disseminate_from-verified zero level own h o k = k
  disseminate_from-verified (suc rest) level own h o k =
      Yields-bind (LevelVerified ops) Kept (level_ref level h) _
        (level_ref-verified ops level h (levels-verified ops h k))
        (λ l v.
          Yields-bind Kept Kept
            (elim l [ none ↦ returned h | some lvl ↦ disseminate_level level own lvl h ]) _
            (Yields-option Kept l _ _ k (λ lvl e.
              disseminate_level-verified level own lvl h o (subst (LevelVerified ops) e v) k))
            (λ h' k'. disseminate_from-verified rest (level + 1) own h' o k'))

  pub own_contribution-verified :
      (h : Handel C) → Kept h → Yields (Holds ops) (get_own_contribution h)
  unfolding get_own_contribution
  own_contribution-verified h k =
      Yields-bind (LevelVerified ops) (Holds ops) (level_ref 0 h) _
        (level_ref-verified ops 0 h (levels-verified ops h k))
        (λ l v.
          Yields-bind (λ lvl. Holds ops (lvl.best_contribution).contribution) (Holds ops) (unwrap l)
            _ (Yields-unwrap _ l (λ lvl e. (subst (LevelVerified ops) e v).0)) (λ lvl w. w))

  pub aggregate-verified :
      (h : Handel C) → Kept h → Yields (HoldsIfAny ops) (get_complete_aggregate h)
  unfolding get_complete_aggregate
  aggregate-verified h k =
      Yields-bind (LevelVerified ops) (HoldsIfAny ops)
        (if length h.levels == 0 then panicked else level_ref (length h.levels - 1) h) _
        (Yields-if (LevelVerified ops) (length h.levels == 0) _ _ tt
          (level_ref-verified ops (length h.levels - 1) h (levels-verified ops h k)))
        (λ l v. by_level l v)
    where
      by_level :
          (l : Option (ActiveLevel C))
          → LevelVerified ops l
          → HoldsIfAny ops (elim l [
            | none ↦ none
            | some lvl ↦
                if lvl.is_completed then some (lvl.best_contribution).contribution else none
          ])
      by_level none v = tt
      by_level (some lvl) v = elim (Bool-cases lvl.is_completed) [
        | inl complete ↦ rw complete v.0
        | inr open_yet ↦ rw open_yet tt
      ]
