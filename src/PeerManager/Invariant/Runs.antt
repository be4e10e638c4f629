-- ===== src/PeerManager/Invariant/Runs.antt =====
-- Runs of the manager of spectrum-network/src/peer_manager.rs: messages arrive in the mailbox at any
-- time, and the executor polls the stream.
use spectrum.PeerManager.Data.{Instant, PeerDestination}
use spectrum.PeerManager.Handles.{NetworkingConfig, new_repo}
use spectrum.PeerManager.Invariant.{
  >>=-Kept, Inv, Kept, allocate_connections-Inv, allocate_protocols-Kept,
}
use spectrum.PeerManager.Invariant.Handlers.{handle-Inv}
use spectrum.PeerManager.Manager.{
  PeerManager, PeerManagerConfig, PeerManagerIn, PeerManagerOut, new_manager,
}
use spectrum.PeerManager.Poll.{
  Poll, allocate_connections, allocate_protocols_at, handle, idle_poll, pending, poll_messages,
  poll_next, run_timers,
}
use spectrum.PeerManager.Protocols.{allocate_protocols}
use spectrum.PeerManager.Ranking.{has_rank}
use spectrum.PeerManager.Soundness.{IsSound}
use spectrum.Prelude.{
  Bool-cases, List, Outcome, [], inl, inr, leb, lookup, panicked, refl, returned, ◌++◌, ◌>>=◌, ◌∷◌,
  ◌≡◌,
}

-- The manager that `PeerManager::new` makes over `PeerRepo::new`.
unfoldable pub start : NetworkingConfig → List PeerDestination → PeerManagerConfig → PeerManager
unfolding new_manager new_repo
start netw_conf boot conf = new_manager (new_repo netw_conf boot) conf

pub data Step (pm : PeerManager) : PeerManager → Type 0 where
  deliver : (m : PeerManagerIn) → Step pm (record pm { mailbox = pm.mailbox ++ m ∷ [] })
  poll :
      (now : Instant) (p : Poll) {pm' : PeerManager}
      → poll_next now pm ≡ returned (pm', p)
      → Step pm pm'

pub data Reach (pm : PeerManager) : PeerManager → Type 0 where
  here : Reach pm pm
  next : {pm' pm'' : PeerManager} → Reach pm pm' → Step pm' pm'' → Reach pm pm''

start-Inv :
    (c : NetworkingConfig) (boot : List PeerDestination) (conf : PeerManagerConfig)
    → Inv (start c boot conf)
unfolding start has_rank lookup
start-Inv c boot conf = record {
  ranked = λ p z. refl;
  ordered = tt;
  tracked = λ p. refl;
  no_inbound = refl;
  no_outbound = refl;
  no_boot = refl;
}

-- The invariant of the state that a poll leaves.
abbrev Polled : Outcome (PeerManager × Poll) → Type 0
Polled (returned r) = Inv r.0
Polled panicked = Unit {0}

allocate_protocols_at-Kept :
    (now : Instant) (pm : PeerManager) → Inv pm → Kept (allocate_protocols_at now pm)
unfolding allocate_protocols_at
allocate_protocols_at-Kept now pm v =
    >>=-Kept (allocate_protocols pm) _ (allocate_protocols-Kept pm v) (λ pm' v'. v')

run_timers-Kept : (now : Instant) (pm : PeerManager) → Inv pm → Kept (run_timers now pm)
unfolding run_timers
run_timers-Kept now pm v = elim (Bool-cases (leb pm.next_conn_alloc now)) [
  | inl due ↦ rw due (elim (Bool-cases (leb (allocate_connections now pm).next_prot_alloc now)) [
    | inl e ↦ rw e (allocate_protocols_at-Kept now _ (allocate_connections-Inv now pm v))
    | inr e ↦ rw e (allocate_connections-Inv now pm v)
  ])
  | inr early ↦ rw early (elim (Bool-cases (leb pm.next_prot_alloc now)) [
    | inl e ↦ rw e (allocate_protocols_at-Kept now pm v)
    | inr e ↦ rw e v
  ])
]

pending-Polled : (o : Outcome PeerManager) → Kept o → Polled (o >>= λ pm. returned (pm, pending))
pending-Polled (returned pm) k = k
pending-Polled panicked k = tt

poll_messages-Polled :
    (now : Instant) (ms : List PeerManagerIn) (pm : PeerManager) (out : List PeerManagerOut)
    → pm.out_queue ≡ out
    → Inv pm
    → Polled (poll_messages now ms pm)
unfolding poll_messages idle_poll
poll_messages-Polled now [] pm [] e v =
    rw (e, poll_messages) (pending-Polled _ (run_timers-Kept now (record pm { mailbox = [] }) v))
poll_messages-Polled now [] pm (o ∷ out) e v = rw (e, poll_messages) v
poll_messages-Polled now (m ∷ ms) pm [] e v =
    rw (e, poll_messages)
      (poll_messages-Polled now ms (handle now m (record pm { mailbox = ms })) _ refl
        (handle-Inv now m (record pm { mailbox = ms }) v))
poll_messages-Polled now (m ∷ ms) pm (o ∷ out) e v = rw (e, poll_messages) v

poll_next-Polled : (now : Instant) (pm : PeerManager) → Inv pm → Polled (poll_next now pm)
unfolding poll_next
poll_next-Polled now pm v = poll_messages-Polled now pm.mailbox pm pm.out_queue refl v

Step-Inv : {pm pm' : PeerManager} → Step pm pm' → Inv pm → Inv pm'
Step-Inv (deliver m) v = v
Step-Inv {pm} (poll now p e) v = rw e at (poll_next-Polled now pm v)

Reach-Inv : {pm pm' : PeerManager} → Reach pm pm' → Inv pm → Inv pm'
Reach-Inv here v = v
Reach-Inv (next r s) v = Step-Inv s (Reach-Inv r v)

-- In every manager that a run from a new one reaches, the ranking holds exactly the known peers
-- with the reputations of the table and in the order of ids, the enabled connections are exactly
-- the peers connected outbound, and both connection counters are 0.
pub Reach-IsSound :
    (c : NetworkingConfig) (boot : List PeerDestination) (conf : PeerManagerConfig)
    {pm : PeerManager}
    → Reach (start c boot conf) pm
    → IsSound pm.state
Reach-IsSound c boot conf r = Reach-Inv r (start-Inv c boot conf)
