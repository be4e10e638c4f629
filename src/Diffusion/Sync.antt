-- ===== src/Diffusion/Sync.antt =====
-- What a node of spectrum-diffusion/src does with the status of a peer that is ahead.
use mathlib.Core.Path.{subst}
use spectrum.Diffusion.Behaviour.{
  enable_peer, on_sync, request_modifiers, send, sync_answer, to_behaviour, to_handler, update_peer,
}
use spectrum.Diffusion.Service.{
  remote_state, History, ModifierRecord, RemoteChainCmp, block_header, compare_lists,
  compare_remote, compare_tails, equal, local_status, longer, sync_headers,
}
use spectrum.PeerManager.Data.{PeerId}
use spectrum.Prelude.{
  append_assoc, ==_refl, Bool, List, [], ap, arith, contains, contains-reverse, false,
  if◌then◌else◌, leb, length, ltb, map, refl, reverse, some, sym, true, ℕ, ◌++◌, ◌-◌, ◌==◌, ◌∙◌,
  ◌∷◌, ◌≡◌, ◌≤◌, reverse-append, reverse-reverse, reverse-cons,
}
use spectrum.Diffusion.Verdicts.{split_at_tip, tip, tip_slot}

module _ (history : History) where
  -- The verdict on the blocks that a peer has after the local tip, newest first.
  abbrev verdict : List ℕ → RemoteChainCmp
  verdict [] = equal
  verdict (b ∷ bs) = longer (some (reverse (b ∷ bs)))

  verdict-some :
      (front : List ℕ) (b : ℕ)
      → verdict (front ++ b ∷ []) ≡ longer (some (reverse (front ++ b ∷ [])))
  verdict-some [] b = refl
  verdict-some (x ∷ xs) b = refl

  compare_ahead :
      (height : ℕ) (fresh older : List ℕ)
      → contains (tip history) fresh ≡ false
      → tip_slot history ≤ height
      → height - tip_slot history ≤ length (fresh ++ tip history ∷ older)
      → compare_lists history height (fresh ++ tip history ∷ older) ≡ verdict fresh
  unfolding compare_lists compare_tails
  compare_ahead height [] older fresh reached near =
      let at_tip = split_at_tip (tip history) [] older fresh in
      let known : leb (tip_slot history) height ≡ true = ground arith in
      let close : ltb (length (tip history ∷ older)) (height - tip_slot history) ≡ false =
        ground arith in
      rw close (rw at_tip.0 (rw known (rw (==_refl (tip history)) refl)))
  compare_ahead height (x ∷ xs) older fresh reached near =
      let at_tip = split_at_tip (tip history) (x ∷ xs) older fresh in
      let known : leb (tip_slot history) height ≡ true = ground arith in
      let other : (tip history == x) ≡ false = unfold contains in ground (arith, fresh) in
      let close : ltb (length (x ∷ xs ++ tip history ∷ older)) (height - tip_slot history) ≡ false =
        ground arith in
      rw close (rw at_tip.0 (rw known (rw other (rw at_tip.1 refl))))

abbrev pub tail_ids : History → List ℕ
tail_ids theirs =
    let tail = theirs.get_tail sync_headers in map (λ (r : ModifierRecord). r.id) (tail.0 ∷ tail.1)

sent_tail :
    (theirs : History) (older fresh : List ℕ) (at : ℕ)
    → tail_ids theirs ≡ older ++ at ∷ fresh
    → (local_status theirs).last_blocks ≡ reverse fresh ++ at ∷ reverse older
unfolding local_status
sent_tail theirs older fresh at continues =
    ap reverse continues
    ∙ reverse-append older (at ∷ fresh)
    ∙ ap (λ (xs : List ℕ). xs ++ reverse older) (reverse-cons at fresh)
    ∙ append_assoc (reverse fresh) (at ∷ []) (reverse older)

verdict_newer :
    (mine : History) (next : ℕ) (newer : List ℕ)
    → verdict mine (reverse (next ∷ newer)) ≡ longer (some (next ∷ newer))
verdict_newer mine next newer =
    ap (verdict mine) (reverse-cons next newer)
    ∙ verdict-some mine (reverse newer) next
    ∙ ap (λ (xs : List ℕ). longer (some (reverse xs))) (sym (reverse-cons next newer))
    ∙ ap (λ (xs : List ℕ). longer (some xs)) (reverse-reverse (next ∷ newer))

-- A peer sends the status of its own chain. Where the tail of that chain goes on from the local tip
-- by some blocks, at least one, the tip not among them, and the peer's height is not below the local
-- one and ahead by no more than the number of the blocks it sent: the node notes that the peer is
-- longer by just these blocks, enables it if this was the handshake, and then requests the headers of
-- exactly these blocks, oldest first.
pub on_sync_catches_up :
    (mine theirs : History) (older : List ℕ) (next : ℕ) (newer : List ℕ) (max_inv_size : ℕ)
    (pid : PeerId) (initial : Bool)
    → tail_ids theirs ≡ older ++ (mine.get_tip).id ∷ next ∷ newer
    → contains (mine.get_tip).id (next ∷ newer) ≡ false
    → (mine.get_tip).slot_num ≤ (local_status theirs).height
    → (local_status theirs).height - (mine.get_tip).slot_num
      ≤ length (local_status theirs).last_blocks
    → on_sync mine max_inv_size pid (local_status theirs) initial
      ≡ to_behaviour (
            update_peer pid (record {
              height = (local_status theirs).height;
              cmp = longer (some (next ∷ newer));
            }))
          ∷ (if initial then to_handler (enable_peer pid (local_status mine)) ∷ [] else [])
        ++ to_handler (send pid (request_modifiers block_header (next ∷ newer))) ∷ []
unfolding on_sync remote_state compare_remote
on_sync_catches_up mine theirs older next newer max_inv_size pid initial continues fresh reached
      near =
    let sent = sent_tail theirs older (next ∷ newer) (mine.get_tip).id continues in
    let longer_by : compare_lists mine (local_status theirs).height
          (local_status theirs).last_blocks
        ≡ longer (some (next ∷ newer)) =
      ap (compare_lists mine (local_status theirs).height) sent
      ∙ compare_ahead mine (local_status theirs).height (reverse (next ∷ newer)) (reverse older)
          (contains-reverse (mine.get_tip).id (next ∷ newer) ∙ fresh) reached
          (subst
            (λ (xs : List ℕ). (local_status theirs).height - (mine.get_tip).slot_num ≤ length xs)
            sent near)
      ∙ verdict_newer mine next newer in
    rw longer_by (unfold sync_answer in refl)
