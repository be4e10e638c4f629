-- ===== src/Mcast/Occurrences.antt =====
-- How often a peer occurs in the lists of spectrum-mcast/src/overlay.rs.
use spectrum.Handel.Overlay.{insert_by, position, sort_by_key}
use spectrum.Mcast.Overlay.{Peer, ids, remove_at}
use spectrum.PeerManager.Data.{PeerId}
use spectrum.Prelude.{
  Bool-cases, List, [], ap, arith, false, get_elem?, if◌then◌else◌, inl, inr, leb, length, refl,
  some, suc, true, zero, ℕ, ◌+◌, ◌==◌, ◌∷◌, ◌≡◌,
}

-- How often a peer occurs in a list.
abbrev pub occurrences : PeerId → List Peer → ℕ
occurrences pid [] = 0
occurrences pid (p ∷ ps) = (if p.0 == pid then 1 else 0) + occurrences pid ps

pub occurrences-absent :
    (pid : PeerId) (peers : List Peer) (j : ℕ) (p : Peer)
    → occurrences pid peers ≡ 0
    → get_elem? peers j ≡ some p
    → (p.0 == pid) ≡ false
occurrences-absent pid [] j p absent found = ground arith
occurrences-absent pid (q ∷ peers) zero p absent found = ground (arith, found)
occurrences-absent pid (q ∷ peers) (suc j) p absent found =
    occurrences-absent pid peers j p (omega arith) found

-- A peer that occurs once stands at its first place only.
pub position_once :
    (pid : PeerId) (peers : List Peer) (j : ℕ) (p : Peer)
    → occurrences pid peers ≡ 1
    → get_elem? peers j ≡ some p
    → (p.0 == pid) ≡ true
    → position pid (ids peers) ≡ some j
unfolding position
position_once pid [] j p once found same = ground (arith, found)
position_once pid (q ∷ peers) zero p once found same = ground (arith, found)
position_once pid (q ∷ peers) (suc j) p once found same = elim (Bool-cases (q.0 == pid)) [
  | inl at_once ↦ ground (arith, occurrences-absent pid peers j p)
  | inr other ↦ rw other (rw (position_once pid peers j p (ground (arith, other)) found same) refl)
]

pub position_some :
    (pid : PeerId) (peers : List Peer)
    → occurrences pid peers ≡ 1
    → (j : ℕ) × (p : Peer) × (get_elem? peers j ≡ some p) × ((p.0 == pid) ≡ true)
position_some pid [] once = absurd (omega arith)
position_some pid (q ∷ peers) once = elim (Bool-cases (q.0 == pid)) [
  | inl at_once ↦ (zero, q, refl, at_once)
  | inr other ↦
      let later = position_some pid peers (ground (arith, other)) in
      (suc later.0, later.1, later.2, later.3)
]

occurrences-insert_by :
    (pid : PeerId) (key : Peer → ℕ) (p : Peer) (peers : List Peer)
    → occurrences pid (insert_by key p peers) ≡ occurrences pid (p ∷ peers)
unfolding insert_by
occurrences-insert_by pid key p [] = refl
occurrences-insert_by pid key p (q ∷ peers) = elim (Bool-cases (leb (key p) (key q))) [
  | inl first ↦ rw first refl
  | inr later ↦ rw later (omega (arith, occurrences-insert_by pid key p peers))
]

length-insert_by :
    (key : Peer → ℕ) (p : Peer) (peers : List Peer)
    → length (insert_by key p peers) ≡ suc (length peers)
unfolding insert_by
length-insert_by key p [] = refl
length-insert_by key p (q ∷ peers) = elim (Bool-cases (leb (key p) (key q))) [
  | inl first ↦ rw first refl
  | inr later ↦ rw later (ap suc (length-insert_by key p peers))
]

-- What is kept by the changes of the list.
pub record Same (peers changed : List Peer) : Type 0 where
  pub counts : (pid : PeerId) → occurrences pid changed ≡ occurrences pid peers
  pub size : length changed ≡ length peers

pub sort_by_key-Same : (key : Peer → ℕ) (peers : List Peer) → Same peers (sort_by_key key peers)
unfolding sort_by_key
sort_by_key-Same key [] = record { counts = λ pid. refl; size = refl }
sort_by_key-Same key (p ∷ peers) =
    let rest = sort_by_key-Same key peers in
    record {
      counts = λ pid.
          omega (arith, occurrences-insert_by pid key p (sort_by_key key peers), rest.counts pid);
      size = omega (arith, length-insert_by key p (sort_by_key key peers), rest.size);
    }

pub remove_at-Same :
    (ix : ℕ) (peers : List Peer) (p : Peer)
    → get_elem? peers ix ≡ some p
    → Same peers (p ∷ remove_at ix peers)
unfolding remove_at
remove_at-Same ix [] p found = ground (arith, found)
remove_at-Same zero (q ∷ peers) p found =
    let same : q ≡ p = cc in rw same (record { counts = λ pid. refl; size = refl })
remove_at-Same (suc ix) (q ∷ peers) p found =
    let rest = remove_at-Same ix peers p found in
    record { counts = λ pid. omega (arith, rest.counts pid); size = omega (arith, rest.size) }
