-- ===== src/Handel/Contributions.antt =====
-- What `handle_contribution` of spectrum-handel/src/lib.rs does with a contribution.
use mathlib.Core.Bool.{false≢true}
use mathlib.Core.Option.{none-ne-some}
use spectrum.Handel.Partitioning.{PeerIx}
use spectrum.Handel.Round.{handle_contribution, note_completed}
use spectrum.Handel.State.{ActiveLevel, Handel, PendingContribution, completed_level, level_ref}
use spectrum.PeerManager.Data.{PeerId}
use spectrum.Prelude.{
  ==_iff, Bool, Bool-cases, List, Option, Returns, [], add, ap, arith, contains, contains-add,
  false, get_elem?, get_elem?-none, get_elem?-set_ne, get_elem?-set_self, if◌then◌else◌, inl, inr,
  insert, length, lookup, lookup-insert, none, not, panicked, refl, returned, set, some, suc, sym,
  true, zero, ℕ, ◌&&◌, ◌<◌, ◌==◌, ◌||◌, ◌∙◌, ◌∷◌, ◌≡◌, ◌≤◌,
}

abbrev holds_level : ℕ → Option (List ℕ) → Bool
holds_level level none = false
holds_level level (some levels) = contains level levels

abbrev levels_of : Option (List ℕ) → List ℕ
levels_of none = []
levels_of (some levels) = levels

holds_level-add :
    (level at : ℕ) (noted : Option (List ℕ))
    → holds_level at (some (add level (levels_of noted))) ≡ (level == at || holds_level at noted)
unfolding contains
holds_level-add level at none = contains-add level at []
holds_level-add level at (some levels) = contains-add level at levels

-- The peer is in a table with the level.
abbrev pub completed_in : PeerIx → ℕ → List (PeerIx × List ℕ) → Bool
completed_in pix level table = holds_level level (lookup pix table)

completed_in-insert :
    (pix : PeerIx) (level : ℕ) (table : List (PeerIx × List ℕ)) (other : PeerIx) (at : ℕ)
    → completed_in other at (insert pix (add level (levels_of (lookup pix table))) table)
      ≡ (pix == other && level == at || completed_in other at table)
completed_in-insert pix level table other at =
    ap (holds_level at) (lookup-insert pix other (add level (levels_of (lookup pix table))) table)
    ∙ by_sender (pix == other) refl
  where
    by_sender :
        (same : Bool)
        → (pix == other) ≡ same
        → holds_level at
            (if same then some (add level (levels_of (lookup pix table))) else lookup other table)
          ≡ (same && level == at || holds_level at (lookup other table))
    by_sender true e =
        holds_level-add level at (lookup pix table)
        ∙ ap (λ (p : PeerIx). level == at || holds_level at (lookup p table))
            ((==_iff pix other).0 e)
    by_sender false e = refl

get_elem?-lt {ℓ} :
    {A : Type ℓ} (xs : List A) (i : ℕ) (x : A) → get_elem? xs i ≡ some x → i < length xs
get_elem?-lt [] i x found = absurd (none-ne-some x found)
get_elem?-lt (x ∷ xs) zero y found = omega arith
get_elem?-lt (x ∷ xs) (suc i) y found = omega (arith, get_elem?-lt xs i y found)

module _ {C : Type 0} where
  -- The state after the sender's completed level is recorded and, if the contribution is wanted, it is
  -- stored for its sender in place of an older one.
  abbrev stored :
      PeerIx → ℕ → C → Option C → Handel C → List (PeerIx × PendingContribution C) → Handel C
  stored pix level aggregate individual h entry = record h {
    unverified_contributions = set h.unverified_contributions level (
        insert pix
          (record {
            sender_id = pix;
            aggregate_contribution = aggregate;
            individual_contribution = individual;
          })
          entry);
  }

  note_completed-keeps :
      (pix : PeerIx) (level : ℕ) (contact : Bool) (h : Handel C)
      → let h' = note_completed pix level contact h in
        (h'.levels ≡ h.levels)
        × (h'.byzantine_nodes ≡ h.byzantine_nodes)
        × (h'.unverified_contributions ≡ h.unverified_contributions)
  unfolding note_completed
  note_completed-keeps pix level true h = (refl, refl, refl)
  note_completed-keeps pix level false h = (refl, refl, refl)

  -- A contribution of a known sender for a level that the round does not have makes the call panic,
  -- whatever else it carries and even if the sender is banned.
  handle_contribution_panics :
      (pid : PeerId) (pix : PeerIx) (level : ℕ) (contact : Bool) (aggr : C) (ind : Option C)
      (h : Handel C)
      → (h.peer_partitions).try_index pid ≡ some pix
      → length h.levels ≤ level
      → handle_contribution pid level contact aggr ind h ≡ panicked
  unfolding handle_contribution level_ref
  handle_contribution_panics pid pix level contact aggr ind h e out =
      let (el, eb, eu) = note_completed-keeps pix level contact h in
      ground (arith, el, get_elem?-none h.levels level out)

  handle_contribution_lem :
      (pid : PeerId) (pix : PeerIx) (level : ℕ) (contact : Bool) (aggr : C) (ind : Option C)
      (h : Handel C) (l : Option (ActiveLevel C)) (entry : List (PeerIx × PendingContribution C))
      → (h.peer_partitions).try_index pid ≡ some pix
      → get_elem? h.levels level ≡ some l
      → get_elem? h.unverified_contributions level ≡ some entry
      → let h' = note_completed pix level contact h in
        handle_contribution pid level contact aggr ind h ≡ (
          if contains pix h.byzantine_nodes || completed_level l
          then returned (h', false)
          else returned (stored pix level aggr ind h' entry, true))
  unfolding handle_contribution level_ref
  handle_contribution_lem pid pix level contact aggr ind h l entry e gl ga =
      let (el, eb, eu) = note_completed-keeps pix level contact h in ground (arith, el, eb, eu)

  -- The contribution of a sender that waits at a level.
  abbrev of_sender :
      PeerIx → Option (List (PeerIx × PendingContribution C)) → Option (PendingContribution C)
  of_sender pix none = none
  of_sender pix (some entry) = lookup pix entry

  abbrev pub waiting_in :
      ℕ → PeerIx → List (List (PeerIx × PendingContribution C)) → Option (PendingContribution C)
  waiting_in level pix tables = of_sender pix (get_elem? tables level)

  waiting_in-set :
      (pix : PeerIx) (level : ℕ) (p : PendingContribution C)
      (tables : List (List (PeerIx × PendingContribution C)))
      (entry : List (PeerIx × PendingContribution C)) (at : ℕ) (other : PeerIx)
      → get_elem? tables level ≡ some entry
      → waiting_in at other (set tables level (insert pix p entry))
        ≡ (if level == at && pix == other then some p else waiting_in at other tables)
  waiting_in-set pix level p tables entry at other found = by_level (level == at) refl
    where
      by_level :
          (same : Bool)
          → (level == at) ≡ same
          → waiting_in at other (set tables level (insert pix p entry))
            ≡ (if same && pix == other then some p else waiting_in at other tables)
      by_level true e =
          let here : level ≡ at = (==_iff level at).0 e in
          ap (λ (l : ℕ). waiting_in l other (set tables level (insert pix p entry))) (sym here)
          ∙ ap (of_sender other) (
              get_elem?-set_self tables level (insert pix p entry)
                (get_elem?-lt tables level entry found))
          ∙ lookup-insert pix other p entry
          ∙ ap
              (λ (old : Option (List (PeerIx × PendingContribution C))).
                if pix == other then some p else of_sender other old)
              (sym found ∙ ap (λ (l : ℕ). get_elem? tables l) here)
      by_level false e = ap (of_sender other) (
          get_elem?-set_ne tables {i = level} {j = at} (insert pix p entry)
            (λ same. false≢true (sym e ∙ (==_iff level at).1 same)))

  -- A contribution for the level is wanted.
  abbrev pub wanted : PeerIx → Option (ActiveLevel C) → Handel C → Bool
  wanted pix l h = not (contains pix h.byzantine_nodes || completed_level l)

  note_completed-completed :
      (pix : PeerIx) (level : ℕ) (contact : Bool) (h : Handel C) (other : PeerIx) (at : ℕ)
      → completed_in other at (note_completed pix level contact h).peers_completed_levels ≡ (
          not contact && pix == other && level == at
          || completed_in other at h.peers_completed_levels)
  unfolding note_completed
  note_completed-completed pix level true h other at = refl
  note_completed-completed pix level false h other at =
      completed_in-insert pix level h.peers_completed_levels other at

  -- For a level of the round and a known sender: the contribution is accepted exactly if the sender is
  -- not banned and the level is not complete. In either case the sender is noted to have completed the
  -- level, if it asks for no contact, and nobody is noted with anything else; an accepted contribution
  -- waits at its level in place of an older one of the sender, and a refused one changes nothing of
  -- what waits; and nothing else of the state changes.
  pub handle_contribution_answers :
      (pid : PeerId) (pix : PeerIx) (level : ℕ) (contact : Bool) (aggr : C) (ind : Option C)
      (h : Handel C) (l : Option (ActiveLevel C)) (entry : List (PeerIx × PendingContribution C))
      → (h.peer_partitions).try_index pid ≡ some pix
      → get_elem? h.levels level ≡ some l
      → get_elem? h.unverified_contributions level ≡ some entry
      → Returns
          (λ r.
            (r.1 ≡ wanted pix l h)
            × ((other : PeerIx) (at : ℕ)
                → completed_in other at (r.0).peers_completed_levels ≡ (
                    not contact && pix == other && level == at
                    || completed_in other at h.peers_completed_levels))
            × ((at : ℕ) (other : PeerIx)
                → waiting_in at other (r.0).unverified_contributions ≡ (
                    if wanted pix l h && level == at && pix == other
                    then some (record {
                      sender_id = pix;
                      aggregate_contribution = aggr;
                      individual_contribution = ind;
                    })
                    else waiting_in at other h.unverified_contributions))
            × (r.0 ≡ record h {
              peers_completed_levels = (r.0).peers_completed_levels;
              unverified_contributions = (r.0).unverified_contributions;
            }))
          (handle_contribution pid level contact aggr ind h)
  unfolding note_completed
  handle_contribution_answers pid pix level contact aggr ind h l entry e gl ga =
      rw (handle_contribution_lem pid pix level contact aggr ind h l entry e gl ga)
        (elim (Bool-cases (contains pix h.byzantine_nodes || completed_level l)) [
          | inl refused ↦ rw refused (
            refl,
            note_completed-completed pix level contact h,
            (λ at other. waits contact at other),
            frame contact,
          )
          | inr accepted ↦ rw accepted (
            refl,
            note_completed-completed pix level contact h,
            (λ at other. now_waits contact at other),
            frame_stored contact,
          )
        ])
    where
      waits :
          (b : Bool) (at : ℕ) (other : PeerIx)
          → waiting_in at other (note_completed pix level b h).unverified_contributions
            ≡ waiting_in at other h.unverified_contributions
      waits true at other = refl
      waits false at other = refl

      now_waits :
          (b : Bool) (at : ℕ) (other : PeerIx)
          → waiting_in at other
              (stored pix level aggr ind
                (note_completed pix level b h)
                entry).unverified_contributions
            ≡ (if level == at && pix == other
                then some (record {
                  sender_id = pix;
                  aggregate_contribution = aggr;
                  individual_contribution = ind;
                })
                else waiting_in at other h.unverified_contributions)
      now_waits true at other =
          waiting_in-set pix level _ h.unverified_contributions entry at other ga
      now_waits false at other =
          waiting_in-set pix level _ h.unverified_contributions entry at other ga

      frame :
          (b : Bool)
          → let h' = note_completed pix level b h in
            h' ≡ record h {
              peers_completed_levels = h'.peers_completed_levels;
              unverified_contributions = h'.unverified_contributions;
            }
      frame true = refl
      frame false = refl

      frame_stored :
          (b : Bool)
          → let h' = stored pix level aggr ind (note_completed pix level b h) entry in
            h' ≡ record h {
              peers_completed_levels = h'.peers_completed_levels;
              unverified_contributions = h'.unverified_contributions;
            }
      frame_stored true = refl
      frame_stored false = refl
