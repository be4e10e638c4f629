-- ===== src/Mcast/Multicasting.antt =====
-- The behaviour of spectrum-mcast/src/behaviour.rs. A statement comes with its operations (`Ops` of a
-- Handel round), and the peer partitions are the trait of spectrum-handel. An instant is a number,
-- and a delay its deadline. What the asynchronous variant verifies in a task is a step of its own.
use spectrum.Handel.Aggregation.{combined}
use spectrum.Handel.State.{Ops, PeerPartitions}
use spectrum.Mcast.Overlay.{DagOverlay, Peer, ids}
use spectrum.PeerManager.Data.{Multiaddr, PeerId}
use spectrum.Prelude.{
  List, Option, Outcome, [], add, contains, if◌then◌else◌, ltb, none, not, returned, some, unwrap,
  ℕ, ◌++◌, ◌+◌, ◌-◌, ◌>>=◌, ◌∷◌,
}

pub data McastOut (S : Type 0) : Type 0 where
  ban_peer : PeerId → McastOut S
  send_one_shot : PeerId → Option Multiaddr → S → McastOut S

pub data McastPolled (S : Type 0) : Type 0 where
  pending : McastPolled S
  emitted : McastOut S → McastPolled S
  completed : S → McastPolled S

pub record DagMulticasting (S : Type 0) : Type 0 where
  pub statement : Option S
  pub overlay : DagOverlay
  pub contacted_peers : List PeerId
  pub outbox : List (McastOut S)
  pub creation_time : ℕ
  pub processing_delay : ℕ
  pub next_processing : Option ℕ
  pub multicasting_duration : ℕ

pub record DagMulticastingConfig : Type 0 where
  pub processing_delay : ℕ
  pub multicasting_duration : ℕ

-- Collects the indices of peers, for a log; a peer without one panics.
unfoldable pub indices : PeerPartitions → List PeerId → Outcome (List ℕ)
indices partitions [] = returned []
indices partitions (pid ∷ pids) = do
  pix ← unwrap (partitions.try_index pid)
  rest ← indices partitions pids
  returned (pix ∷ rest)

-- A loop over the children: those that are not contacted are, and get the statement.
unfoldable pub contact_children :
    {S : Type 0} → S → List Peer → List PeerId → List (McastOut S) → List PeerId × List (McastOut S)
unfolding contains add
contact_children stmt [] contacted outbox = (contacted, outbox)
contact_children stmt (child ∷ children) contacted outbox =
    let fresh = not (contains child.0 contacted) in
    contact_children stmt children (if fresh then add child.0 contacted else contacted)
      (if fresh then outbox ++ send_one_shot child.0 child.1 stmt ∷ [] else outbox)

module _ {S : Type 0} where
  unfoldable pub new_multicasting :
      Option S
      → DagOverlay
      → DagMulticastingConfig
      → PeerPartitions
      → ℕ
      → Outcome (DagMulticasting S)
  unfolding indices
  new_multicasting statement overlay config partitions now = do
    parent_nodes ← indices partitions overlay.parent_nodes
    children_nodes ← indices partitions (ids overlay.child_nodes)
    returned (record {
      statement = statement;
      overlay = overlay;
      contacted_peers = [];
      outbox = [];
      creation_time = now;
      processing_delay = config.processing_delay;
      next_processing = some (now + config.processing_delay);
      multicasting_duration = config.multicasting_duration;
    })

  -- A contribution that verifies, when a statement was held, which has been taken.
  unfoldable pub combine_statement :
      Ops S → PeerPartitions → S → S → DagMulticasting S → Outcome (DagMulticasting S)
  combine_statement ops partitions content stmt state = elim (ops.try_combine stmt content) [
    | none ↦ returned (record state { statement = none })
    | some combined ↦
        if ltb (ops.weight stmt) (ops.weight combined)
        then (indices partitions state.contacted_peers >>= λ previously.
            returned (record state { statement = some combined; contacted_peers = [] }))
        else returned (record state { statement = some combined })
  ]

  unfoldable pub inject_statement :
      Ops S → PeerPartitions → PeerId → S → DagMulticasting S → Outcome (DagMulticasting S)
  unfolding contains
  inject_statement ops partitions sender content state =
      if contains sender state.overlay.parent_nodes
      then (if ops.verify content
          then elim state.statement [
            | some stmt ↦ combine_statement ops partitions content stmt state
            | none ↦ returned (record state { statement = some content })
          ]
          else returned (record state { outbox = state.outbox ++ ban_peer sender ∷ [] }))
      else returned state

  -- The part of `poll` from the loop over the children on.
  unfoldable pub send_statement : ℕ → DagMulticasting S → DagMulticasting S × McastPolled S
  send_statement now state =
      let sent : List PeerId × List (McastOut S) = elim state.statement [
        | some stmt ↦
            contact_children stmt state.overlay.child_nodes state.contacted_peers state.outbox
        | none ↦ (state.contacted_peers, state.outbox)
      ] in
      let waiting = some (now + state.processing_delay) in
      elim sent.1 [
        | [] ↦ (
          record state { contacted_peers = sent.0; outbox = []; next_processing = waiting },
          pending,
        )
        | out ∷ rest ↦ (
          record state { contacted_peers = sent.0; outbox = rest; next_processing = waiting },
          emitted out,
        )
      ]

  unfoldable pub poll_due : ℕ → DagMulticasting S → DagMulticasting S × McastPolled S
  poll_due now state =
      if ltb state.multicasting_duration (now - state.creation_time)
      then elim state.statement [
        | some stmt ↦ (record state { statement = none }, completed stmt)
        | none ↦ send_statement now state
      ]
      else send_statement now state

  unfoldable pub poll_multicasting : ℕ → DagMulticasting S → DagMulticasting S × McastPolled S
  poll_multicasting now state = elim state.next_processing [
    | some deadline ↦
        if ltb now deadline
        then (state, pending)
        else poll_due now (record state { next_processing = none })
    | none ↦ poll_due now state
  ]

-- What a task gives: a verified statement, or a message for the handler.
pub data FromTask (S : Type 0) : Type 0 where
  apply_statement : S → FromTask S
  to_handler : McastOut S → FromTask S

pub record DagMulticastingAsync (S : Type 0) : Type 0 where
  pub statement : Option S
  pub overlay : DagOverlay
  pub contacted_peers : List PeerId
  pub outbox : List (McastOut S)
  pub from_tasks : List (FromTask S)
  pub tasks : List (PeerId × S)

module _ {S : Type 0} where
  unfoldable pub new_async : Option S → DagOverlay → DagMulticastingAsync S
  new_async statement overlay = record {
    statement = statement;
    overlay = overlay;
    contacted_peers = [];
    outbox = [];
    from_tasks = [];
    tasks = [];
  }

  unfoldable pub on_apply_statement : S → DagMulticastingAsync S → DagMulticastingAsync S
  on_apply_statement stmt state = elim state.statement [
    | none ↦ record state { statement = some stmt }
    | some held ↦ state
  ]

  unfoldable pub inject_async : PeerId → S → DagMulticastingAsync S → DagMulticastingAsync S
  unfolding contains
  inject_async sender content state =
      if contains sender state.overlay.parent_nodes
      then record state { tasks = state.tasks ++ (sender, content) ∷ [] }
      else state

  -- The first task ends.
  unfoldable pub run_task : Ops S → DagMulticastingAsync S → DagMulticastingAsync S
  run_task ops state = elim state.tasks [
    | [] ↦ state
    | task ∷ rest ↦
        let out : FromTask S =
          if ops.verify task.1 then apply_statement task.1 else to_handler (ban_peer task.0) in
        record state { from_tasks = state.from_tasks ++ out ∷ []; tasks = rest }
  ]

  unfoldable pub take_output : DagMulticastingAsync S → DagMulticastingAsync S
  unfolding on_apply_statement
  take_output state = elim state.from_tasks [
    | [] ↦ state
    | apply_statement stmt ∷ rest ↦ on_apply_statement stmt (record state { from_tasks = rest })
    | to_handler out ∷ rest ↦ record state { from_tasks = rest; outbox = state.outbox ++ out ∷ [] }
  ]

  -- `poll`, after the tasks made what progress they make.
  unfoldable pub poll_async : DagMulticastingAsync S → DagMulticastingAsync S × McastPolled S
  poll_async polled_state =
      let state = take_output polled_state in
      let sent : List PeerId × List (McastOut S) = elim state.statement [
        | some stmt ↦
            contact_children stmt state.overlay.child_nodes state.contacted_peers state.outbox
        | none ↦ (state.contacted_peers, state.outbox)
      ] in
      elim sent.1 [
        | out ∷ rest ↦ (record state { contacted_peers = sent.0; outbox = rest }, emitted out)
        | [] ↦ elim state.statement [
          | some stmt ↦ (
            record state { statement = none; contacted_peers = sent.0; outbox = [] },
            completed stmt,
          )
          | none ↦ (record state { contacted_peers = sent.0; outbox = [] }, pending)
        ]
      ]
