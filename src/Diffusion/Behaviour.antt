-- ===== src/Diffusion/Behaviour.antt =====
-- `DiffusionBehaviour` of spectrum-diffusion/src/behaviour.rs. A task is what it sends to the
-- behaviour, in order, and the modifiers it gives to the ledger; decoding is a parameter. A status
-- that a task asks for is looked up in the table that the behaviour has at that time.
use spectrum.Diffusion.Service.{
  History, ModifierType, RemoteChainCmp, SyncState, SyncStatus, block_header, equal, extension,
  fork, get_modifiers, local_status, longer, nonsense, remote_state, shorter,
}
use spectrum.PeerManager.Data.{PeerId}
use spectrum.Prelude.{
  Bool, List, Option, Outcome, [], false, if◌then◌else◌, insert, keep, lookup, none, not, remove,
  returned, some, true, ℕ, ◌&&◌, ◌++◌, ◌>>=◌, ◌||◌, ◌∷◌,
}

pub data ModifierStatus : Type 0 where
  wanted : ModifierStatus
  requested : ℕ → ModifierStatus
  received : ModifierStatus
  unknown : ModifierStatus

pub data DiffusionMessage : Type 0 where
  inv : ModifierType → List ℕ → DiffusionMessage
  request_modifiers : ModifierType → List ℕ → DiffusionMessage
  modifiers_sent : ModifierType → List ℕ → DiffusionMessage
  sync_status : SyncStatus → DiffusionMessage

-- `ProtocolBehaviourOut` with the network actions that are used.
pub data DiffusionOut : Type 0 where
  send : PeerId → DiffusionMessage → DiffusionOut
  enable_peer : PeerId → SyncStatus → DiffusionOut
  ban_peer : PeerId → DiffusionOut

pub data DiffusionIn : Type 0 where
  update_peer : PeerId → SyncState → DiffusionIn
  update_modifier : ℕ → ModifierStatus → DiffusionIn
  get_modifier_status : ℕ → DiffusionIn

pub data FromTask : Type 0 where
  to_behaviour : DiffusionIn → FromTask
  to_handler : DiffusionOut → FromTask

pub record Task (Modifier : Type 0) : Type 0 where
  pub sent : List FromTask
  pub applied : List Modifier

pub record DiffusionBehaviour : Type 0 where
  pub outbox : List DiffusionOut
  pub peers : List (PeerId × SyncState)
  pub delivery : List (ℕ × ModifierStatus)

unfoldable pub modifier_status : ℕ → List (ℕ × ModifierStatus) → ModifierStatus
unfolding lookup
modifier_status mid delivery = elim (lookup mid delivery) [ some status ↦ status | none ↦ unknown ]

unfoldable pub set_status :
    ℕ → ModifierStatus → List (ℕ × ModifierStatus) → List (ℕ × ModifierStatus)
unfolding insert remove
set_status mid unknown delivery = remove mid delivery
set_status mid wanted delivery = insert mid wanted delivery
set_status mid received delivery = insert mid received delivery
set_status mid (requested at) delivery = insert mid (requested at) delivery

-- A question is answered with `modifier_status` of the table.
unfoldable pub on_event : DiffusionIn → DiffusionBehaviour → DiffusionBehaviour
unfolding insert set_status
on_event (update_peer pid peer_state) b = record b { peers = insert pid peer_state b.peers }
on_event (update_modifier mid status) b = record b { delivery = set_status mid status b.delivery }
on_event (get_modifier_status mid) b = b

-- The loop of `poll` over what the tasks have sent, then the outbox.
unfoldable pub drain : List FromTask → DiffusionBehaviour → DiffusionBehaviour × List FromTask
unfolding on_event
drain [] b = (b, [])
drain (to_behaviour event ∷ channel) b = drain channel (on_event event b)
drain (to_handler out ∷ channel) b = (record b { outbox = b.outbox ++ out ∷ [] }, channel)

unfoldable pub pop_outbox : DiffusionBehaviour → Option DiffusionOut × DiffusionBehaviour
pop_outbox b = elim b.outbox [
  | [] ↦ (none, b)
  | out ∷ outs ↦ (some out, record b { outbox = outs })
]

unfoldable pub diffusion_poll :
    List FromTask → DiffusionBehaviour → (Option DiffusionOut × DiffusionBehaviour) × List FromTask
unfolding drain pop_outbox
diffusion_poll channel b = let drained = drain channel b in (pop_outbox drained.0, drained.1)

abbrev is_wanted : ModifierStatus → Bool
is_wanted wanted = true
is_wanted (requested at) = false
is_wanted received = false
is_wanted unknown = false

abbrev is_unknown : ModifierStatus → Bool
is_unknown wanted = false
is_unknown (requested at) = false
is_unknown received = false
is_unknown unknown = true

module _ (history : History) where
  -- The status is asked for again if it was not `Wanted`; both times have their table.
  unfoldable pub select_wanted :
      List (ℕ × ModifierStatus) → List (ℕ × ModifierStatus) → List ℕ → List ℕ
  unfolding modifier_status
  select_wanted first_seen then_seen proposed =
      keep
        (λ mid.
          (is_wanted (modifier_status mid first_seen) || is_unknown (modifier_status mid then_seen))
          && not (history.contains_modifier mid))
        proposed

  -- The answer to the comparison.
  unfoldable pub sync_answer : ℕ → PeerId → Bool → RemoteChainCmp → List FromTask
  unfolding extension
  sync_answer max_inv_size pid initial equal = []
  sync_answer max_inv_size pid initial nonsense = []
  sync_answer max_inv_size pid initial (longer none) =
      if initial then [] else to_handler (send pid (sync_status (local_status history))) ∷ []
  sync_answer max_inv_size pid initial (fork none) =
      if initial then [] else to_handler (send pid (sync_status (local_status history))) ∷ []
  sync_answer max_inv_size pid initial (longer (some wanted_suffix)) =
      to_handler (send pid (request_modifiers block_header wanted_suffix)) ∷ []
  sync_answer max_inv_size pid initial (shorter remote_tip) =
      to_handler (send pid (inv block_header (extension history remote_tip max_inv_size))) ∷ []
  sync_answer max_inv_size pid initial (fork (some remote_tip)) =
      to_handler (send pid (inv block_header (extension history remote_tip max_inv_size))) ∷ []

  unfoldable pub on_sync : ℕ → PeerId → SyncStatus → Bool → List FromTask
  unfolding remote_state sync_answer
  on_sync max_inv_size pid peer_status initial =
      let peer_state = remote_state history peer_status in
      to_behaviour (update_peer pid peer_state)
        ∷ (if initial then to_handler (enable_peer pid (local_status history)) ∷ [] else [])
      ++ sync_answer max_inv_size pid initial peer_state.cmp

  unfoldable pub on_modifiers_request : PeerId → ModifierType → List ℕ → Outcome (List FromTask)
  unfolding get_modifiers
  on_modifiers_request pid mod_type modifiers = get_modifiers history mod_type modifiers >>= λ raw.
      returned (to_handler (send pid (modifiers_sent mod_type raw)) ∷ [])

  module _ {Modifier : Type 0} (decode_modifier : ModifierType → ℕ → Option Modifier)
      (id_of : Modifier → ℕ) where
    -- The first that cannot be decoded bans the sender, and the ones before it are applied.
    unfoldable pub on_modifiers : PeerId → ModifierType → List ℕ → Task Modifier
    on_modifiers pid mod_type [] = record { sent = []; applied = [] }
    on_modifiers pid mod_type (m ∷ ms) =
        let rest = on_modifiers pid mod_type ms in
        elim (decode_modifier mod_type m) [
          | none ↦ record { sent = to_handler (ban_peer pid) ∷ []; applied = [] }
          | some md ↦ record {
            sent = to_behaviour (update_modifier (id_of md) received) ∷ rest.sent;
            applied = md ∷ rest.applied;
          }
        ]

    -- The task of a message, with the two tables that the statuses are looked up in.
    unfoldable pub inject_message :
        ℕ
        → List (ℕ × ModifierStatus)
        → List (ℕ × ModifierStatus)
        → PeerId
        → DiffusionMessage
        → Outcome (Task Modifier)
    unfolding select_wanted on_modifiers_request on_modifiers on_sync
    inject_message max_inv_size first_seen then_seen pid (inv mod_type modifiers) =
        elim (select_wanted first_seen then_seen modifiers) [
          | [] ↦ returned (record { sent = []; applied = [] })
          | mid ∷ mids ↦ returned (record {
            sent = to_handler (send pid (request_modifiers mod_type (mid ∷ mids))) ∷ [];
            applied = [];
          })
        ]
    inject_message max_inv_size first_seen then_seen pid (request_modifiers mod_type modifiers) =
        on_modifiers_request pid mod_type modifiers >>= λ out.
        returned (record { sent = out; applied = [] })
    inject_message max_inv_size first_seen then_seen pid (modifiers_sent mod_type modifiers) =
        returned (on_modifiers pid mod_type modifiers)
    inject_message max_inv_size first_seen then_seen pid (sync_status status) =
        returned (record { sent = on_sync max_inv_size pid status false; applied = [] })

  -- A request without a handshake has no task.
  unfoldable pub inject_protocol_requested : ℕ → PeerId → Option SyncStatus → List FromTask
  unfolding on_sync
  inject_protocol_requested max_inv_size pid none = []
  inject_protocol_requested max_inv_size pid (some status) = on_sync max_inv_size pid status true

  unfoldable pub inject_protocol_requested_locally : PeerId → List FromTask
  unfolding local_status
  inject_protocol_requested_locally pid = to_handler (enable_peer pid (local_status history)) ∷ []
