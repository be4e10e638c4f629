-- ===== src/Diffusion/Service.antt =====
-- `RemoteSync` of spectrum-diffusion/src/service.rs with the messages of message.rs. The ids of
-- blocks and modifiers are digests, here numbers, and a serialised modifier is a number. The history
-- is the trait of spectrum-view/src/history.rs, a parameter, and a non-empty list a pair of its first
-- element and the others.
use spectrum.Prelude.{
  Bool, List, Option, Outcome, [], if◌then◌else◌, leb, length, ltb, map, none, panicked, returned,
  reverse, some, ℕ, ◌-◌, ◌==◌, ◌∷◌,
}

pub data ModifierType : Type 0 where
  block_header block_body transaction : ModifierType

pub data BlockSectionType : Type 0 where
  header_section body_section : BlockSectionType

-- The id of a modifier and the slot of its header.
pub record ModifierRecord : Type 0 where
  pub id : ℕ
  pub slot_num : ℕ

pub record SyncStatus : Type 0 where
  pub height : ℕ
  pub last_blocks : List ℕ

pub data RemoteChainCmp : Type 0 where
  equal : RemoteChainCmp
  longer : Option (List ℕ) → RemoteChainCmp
  shorter : ℕ → RemoteChainCmp
  fork : Option ℕ → RemoteChainCmp
  nonsense : RemoteChainCmp

pub record SyncState : Type 0 where
  pub height : ℕ
  pub cmp : RemoteChainCmp

-- `LedgerHistoryReadAsync`.
pub record History : Type 0 where
  pub member : ℕ → Bool
  pub contains_modifier : ℕ → Bool
  pub get_tip : ModifierRecord
  pub get_tail : ℕ → ModifierRecord × List ModifierRecord
  pub follow : ℕ → ℕ → List ℕ
  pub multi_get_raw : BlockSectionType → List ℕ → List ℕ

-- `BlockId::ORIGIN` and `SYNC_HEADERS`.
abbrev pub origin : ℕ
origin = 0

abbrev pub sync_headers : ℕ
sync_headers = 256

abbrev last_of : ModifierRecord → List ModifierRecord → ModifierRecord
last_of first [] = first
last_of first (r ∷ rs) = last_of r rs

-- The loop for the local tip in the tail of the peer.
unfoldable pub optimistic_common_point : ℕ → List ℕ → Option ℕ
optimistic_common_point tip [] = none
optimistic_common_point tip (blk ∷ blks) =
    if blk == tip then some blk else optimistic_common_point tip blks

-- The loop that collects blocks up to a given one.
unfoldable pub before_common : ℕ → List ℕ → List ℕ
before_common common [] = []
before_common common (blk ∷ blks) = if blk == common then [] else blk ∷ before_common common blks

module _ (history : History) where
  unfoldable pub local_status : SyncStatus
  local_status =
      let tail = history.get_tail sync_headers in
      record {
        height = (last_of tail.0 tail.1).slot_num;
        last_blocks = reverse (map (λ (r : ModifierRecord). r.id) (tail.0 ∷ tail.1));
      }

  unfoldable pub common_point : List ℕ → Option ℕ
  common_point [] = none
  common_point (blk ∷ blks) = if history.member blk then some blk else common_point blks

  -- The match on the common point, with the peer's newest block.
  unfoldable pub compare_tails : ℕ → ℕ → List ℕ → Option ℕ → RemoteChainCmp
  unfolding before_common common_point
  compare_tails peer_height peer_tip peer_tail (some common_sl) =
      if leb (history.get_tip).slot_num peer_height
      then if common_sl == peer_tip
        then equal
        else longer (some (reverse (before_common common_sl peer_tail)))
      else nonsense
  compare_tails peer_height peer_tip peer_tail none = elim (common_point peer_tail) [
    | some common ↦ if common == peer_tip then shorter common else fork (some common)
    | none ↦ fork none
  ]

  unfoldable pub compare_lists : ℕ → List ℕ → RemoteChainCmp
  unfolding compare_tails optimistic_common_point
  compare_lists peer_height [] = shorter origin
  compare_lists peer_height (peer_tip ∷ older) =
      let peer_tail = peer_tip ∷ older in
      let delta = peer_height - (history.get_tip).slot_num in
      if ltb (length peer_tail) delta
      then longer none
      else compare_tails peer_height peer_tip peer_tail
          (optimistic_common_point (history.get_tip).id peer_tail)

  unfoldable pub compare_remote : SyncStatus → RemoteChainCmp
  unfolding compare_lists
  compare_remote peer_status = compare_lists peer_status.height peer_status.last_blocks

  unfoldable pub remote_state : SyncStatus → SyncState
  remote_state peer_status = record {
    height = peer_status.height;
    cmp = compare_remote peer_status;
  }

  unfoldable pub extension : ℕ → ℕ → List ℕ
  extension remote_tip cap = history.follow remote_tip cap

  -- The mempool is yet to come, and panics.
  unfoldable pub get_modifiers : ModifierType → List ℕ → Outcome (List ℕ)
  get_modifiers block_header modifiers = returned (history.multi_get_raw header_section modifiers)
  get_modifiers block_body modifiers = returned (history.multi_get_raw body_section modifiers)
  get_modifiers transaction modifiers = panicked
