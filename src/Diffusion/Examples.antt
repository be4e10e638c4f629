-- ===== src/Diffusion/Examples.antt =====
-- Two nodes of spectrum-diffusion/src: a chain of three blocks, and a peer that has two more.
use spectrum.Diffusion.Behaviour.{
  DiffusionBehaviour, diffusion_poll, drain, enable_peer, inv, inject_message, modifier_status,
  on_sync, received, request_modifiers, select_wanted, send, to_behaviour, to_handler, update_peer,
}
use spectrum.Diffusion.Service.{
  History, ModifierRecord, SyncStatus, block_header, common_point, compare_lists, compare_remote,
  compare_tails, fork, local_status, longer, nonsense, optimistic_common_point,
}
use spectrum.Diffusion.Sync.{on_sync_catches_up}
use spectrum.Diffusion.Verdicts.{Means, compare_remote_meaning}
use spectrum.Prelude.{
  List, [], arith, contains, map, refl, returned, some, take, true, ℕ, ◌+◌, ◌∷◌, ◌≡◌,
}

abbrev up_to : List ℕ → List ModifierRecord
up_to [] = []
up_to (b ∷ bs) = record { id = b; slot_num = b } ∷ up_to bs

-- A chain whose blocks are numbered like their slots.
abbrev chain_of : ℕ → ℕ → List ℕ → History
chain_of last first others = record {
  member = λ b. contains b (first ∷ others);
  contains_modifier = λ b. contains b (first ∷ others);
  get_tip = record { id = last; slot_num = last };
  get_tail = λ n. (record { id = first; slot_num = first }, up_to others);
  follow = λ b cap. take cap (map (λ k. b + k) (1 ∷ 2 ∷ []));
  multi_get_raw = λ section ids. ids;
}

abbrev mine : History
mine = chain_of 3 1 (2 ∷ 3 ∷ [])

abbrev theirs : History
theirs = chain_of 5 1 (2 ∷ 3 ∷ 4 ∷ 5 ∷ [])

abbrev forked : SyncStatus
forked = record { height = 5; last_blocks = 9 ∷ 8 ∷ 2 ∷ 1 ∷ [] }

compare_remote_meaning_example : Means mine 5 (9 ∷ 8 ∷ 2 ∷ 1 ∷ []) (compare_remote mine forked)
compare_remote_meaning_example = compare_remote_meaning mine forked

compare_forked : compare_remote mine forked ≡ fork (some 2)
unfolding compare_remote compare_lists compare_tails optimistic_common_point common_point contains
compare_forked = refl

-- The peer's chain goes on behind the tip, but its height is below: nonsense.
compare_below : compare_remote mine (record { height = 2; last_blocks = 4 ∷ 3 ∷ 2 ∷ [] }) ≡ nonsense
unfolding compare_remote compare_lists compare_tails optimistic_common_point
compare_below = refl

on_sync_catches_up_example :
    on_sync mine 100 7 (local_status theirs) true
    ≡ to_behaviour (
        update_peer 7
          (record { height = (local_status theirs).height; cmp = longer (some (4 ∷ 5 ∷ [])) }))
      ∷ to_handler (enable_peer 7 (local_status mine))
      ∷ to_handler (send 7 (request_modifiers block_header (4 ∷ 5 ∷ [])))
      ∷ []
unfolding contains local_status
on_sync_catches_up_example =
    on_sync_catches_up mine theirs (1 ∷ 2 ∷ []) 4 (5 ∷ []) 100 7 true refl refl (omega arith)
      (omega arith)

-- A peer that announces a block that is there, one that came already, and a new one is asked for
-- the new one.
abbrev empty_behaviour : DiffusionBehaviour
empty_behaviour = record { outbox = []; peers = []; delivery = [] }

ask_for_new :
    inject_message mine {Modifier = ℕ}
      (λ kind raw. some raw)
      (λ m. m)
      100
      ((6, received) ∷ [])
      ((6, received) ∷ [])
      7
      (inv block_header (3 ∷ 6 ∷ 4 ∷ []))
    ≡ returned (record {
      sent = to_handler (send 7 (request_modifiers block_header (4 ∷ []))) ∷ [];
      applied = [];
    })
unfolding inject_message select_wanted modifier_status contains
ask_for_new = refl

poll_first_answer :
    (diffusion_poll (to_handler (enable_peer 7 forked) ∷ []) empty_behaviour).0.0
    ≡ some (enable_peer 7 forked)
unfolding diffusion_poll drain
poll_first_answer = refl
