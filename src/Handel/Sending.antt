-- ===== src/Handel/Sending.antt =====
-- The messages of a Handel round: `run_fast_path` and `run_dissemination` of
-- spectrum-handel/src/lib.rs.
use spectrum.Handel.Overlay.{cvp, sort_by_key}
use spectrum.Handel.Partitioning.{PeerIx}
use spectrum.Handel.State.{
  ActiveLevel, Handel, OneShotMessage, get_own_contribution, level_ref, set_level,
}
use spectrum.Prelude.{
  Bool, List, Option, Outcome, [], contains, drop, false, get_elem?, if◌then◌else◌, length, lookup,
  ltb, none, not, panicked, returned, set, some, suc, take, true, u32, unwrap, usize, zero, ℕ, ◌%◌,
  ◌++◌, ◌+◌, ◌-◌, ◌==◌, ◌>>=◌, ◌∷◌,
}

unfoldable pub dedup : List ℕ → List ℕ
dedup [] = []
dedup (x ∷ []) = x ∷ []
dedup (x ∷ y ∷ ys) = if x == y then dedup (y ∷ ys) else x ∷ dedup (y ∷ ys)

-- The indexes from `ix` on, `window` of them, of the nodes that have not completed the level.
unfoldable pub window_nodes : ℕ → ℕ → ℕ → List PeerIx → (PeerIx → Bool) → Outcome (List PeerIx)
window_nodes zero ix offset nodes is_done = returned []
window_nodes (suc window) ix offset nodes is_done = do
  at ← if length nodes == 0 then panicked else returned (usize (ix + offset) % length nodes)
  pix ← unwrap (get_elem? nodes at)
  rest ← window_nodes window (ix + 1) offset nodes is_done
  returned (if is_done pix then rest else pix ∷ rest)

-- The first peer that has not completed the level, with its index; the list starts at `i`.
unfoldable pub first_open : (PeerIx → Bool) → ℕ → List PeerIx → Option (PeerIx × ℕ)
first_open is_done i [] = none
first_open is_done i (pix ∷ peers) =
    if is_done pix then first_open is_done (i + 1) peers else some (pix, i)

-- The peer at an index, unless it has completed the level.
unfoldable pub open_at : (PeerIx → Bool) → List PeerIx → ℕ → Outcome (Option (PeerIx × ℕ))
open_at is_done peers i = do
  pix ← unwrap (get_elem? peers i)
  returned (if is_done pix then none else some (pix, i))

-- The next peer: those after the last contacted one, those before it, and then itself.
unfoldable pub next_peer : (PeerIx → Bool) → List PeerIx → Option ℕ → Outcome (Option (PeerIx × ℕ))
next_peer is_done peers none = open_at is_done peers 0
next_peer is_done peers (some ix) = elim (first_open is_done (ix + 1) (drop (ix + 1) peers)) [
  | some chosen ↦ returned (some chosen)
  | none ↦ elim (first_open is_done 0 (take ix peers)) [
    | some chosen ↦ returned (some chosen)
    | none ↦ open_at is_done peers ix
  ]
]

module _ {C : Type 0} where
  -- The peer has said that it completed the level.
  unfoldable pub completed_by : ℕ → Handel C → PeerIx → Bool
  completed_by level h pix = elim (lookup pix h.peers_completed_levels) [
    | none ↦ false
    | some completed ↦ contains (u32 level) completed
  ]

  -- The message for a peer: `own` goes to those who have not received it.
  unfoldable pub message_for :
      ℕ → Option C → C → Bool → Handel C → PeerIx → Outcome (OneShotMessage C)
  message_for level own best contact h pix = do
    pid ← (h.peer_partitions).identify pix
    returned (record {
      peer = pid;
      addr_hint = (h.peer_partitions).hint pid;
      message = record {
        level = u32 level;
        individual_contribution = if contains pix h.own_contribution_recvs then none else own;
        aggregate_contribution = best;
        contact_sender = contact;
      };
    })

  unfoldable pub push_message : OneShotMessage C → Handel C → Handel C
  push_message m h = record h { outbox = h.outbox ++ m ∷ [] }

  unfoldable pub send_all : ℕ → Option C → C → List PeerIx → Handel C → Outcome (Handel C)
  send_all level own best [] h = returned h
  send_all level own best (pix ∷ nodes) h = do
    m ← message_for level own best false h pix
    send_all level own best nodes (push_message m h)

  unfoldable pub own_best : Option (ActiveLevel C) → Option C
  own_best none = none
  own_best (some lvl) = some (lvl.best_contribution).contribution

  -- `run_fast_path`.
  unfoldable pub run_fast_path : ℕ → Handel C → Outcome (Handel C)
  run_fast_path level h = do
    zeroth ← level_ref 0 h
    l ← level_ref level h
    elim l [
      | none ↦ returned h
      | some lvl ↦
          if lvl.is_completed
          then (do
            peers ← (h.peer_partitions).at_level level cvp
            nodes ←
                window_nodes (h.conf).fast_path_window 0
                  (elim lvl.last_contacted_peer_ix [ none ↦ 0 | some x ↦ usize (x + 1) ]) peers
                  (completed_by level h)
            send_all level (own_best zeroth) (lvl.best_contribution).contribution
                (dedup (sort_by_key (λ pix. pix) nodes)) h)
          else panicked
    ]

  -- The test of `all` in `run_dissemination`, with its assertion.
  unfoldable pub all_completed : ℕ → Handel C → List PeerIx → Outcome Bool
  all_completed level h [] = returned true
  all_completed level h (pix ∷ peers) =
      let rest = all_completed level h peers in
      if pix == h.own_peer_ix
      then panicked
      else if completed_by level h pix
      then rest
      else returned false

  -- The loop body of `run_dissemination` at an active level, once the peer is chosen.
  unfoldable pub disseminate_to : ℕ → C → ActiveLevel C → PeerIx → ℕ → Handel C → Outcome (Handel C)
  disseminate_to level own lvl pix i h = do
    best ← returned lvl.best_contribution
    sent ← unwrap (get_elem? lvl.sent_contribution_scores i)
    m ← message_for level (some own) best.contribution (not lvl.is_completed) h pix
    returned (
        push_message m (
          set_level level
            (record lvl {
              last_contacted_peer_ix = some i;
              sent_contribution_scores =
                  if ltb sent best.score
                  then set lvl.sent_contribution_scores i best.score
                  else lvl.sent_contribution_scores;
            })
            h))

  unfoldable pub disseminate_level : ℕ → C → ActiveLevel C → Handel C → Outcome (Handel C)
  disseminate_level level own lvl h = do
    peers ← (h.peer_partitions).at_level level cvp
    is_done ← all_completed level h peers
    if is_done then returned h else (do
      chosen ← next_peer (completed_by level h) peers lvl.last_contacted_peer_ix
      elim chosen [
        | none ↦ returned h
        | some chosen ↦ disseminate_to level own lvl chosen.0 chosen.1 h
      ])

  -- The levels from `level` on, `rest` of them.
  unfoldable pub disseminate_from : ℕ → ℕ → C → Handel C → Outcome (Handel C)
  disseminate_from zero level own h = returned h
  disseminate_from (suc rest) level own h = do
    l ← level_ref level h
    h' ← elim l [ none ↦ returned h | some lvl ↦ disseminate_level level own lvl h ]
    disseminate_from rest (level + 1) own h'

  -- `run_dissemination`: every active level but the zeroth.
  unfoldable pub run_dissemination : Handel C → Outcome (Handel C)
  run_dissemination h = do
    own ← get_own_contribution h
    disseminate_from (length h.levels - 1) 1 own h
