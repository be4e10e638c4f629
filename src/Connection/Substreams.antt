-- ===== src/Connection/Substreams.antt =====
-- `on_connection_event`, `connection_keep_alive` and the parts of `poll` of
-- spectrum-network/src/peer_conn_handler.rs that do not write to a substream. The sink and the
-- receiver of a channel are arguments, as is what a substream gives when it is polled.
use spectrum.Connection.Handler.{
  HandlerEvent, OneShotRequest, PeerConnHandler, ProtocolState, Receiver, StatefulProtocol,
  Substream, accepting, approve_if, awaiting, close_with, closed_state, confirming,
  inbound_closed_by_peer, notify_behaviour, one_shot_upgrade, opened_state, opening,
  outbound_closed_by_peer, outbound_substream_request, partially_opened, partially_opened_by_peer,
  push_event, set_protocol,
}
use spectrum.Network.State.{
  MessageSink, ProtocolTag, RawMessage, closed_by_peer, one_shot_message, opened, opened_by_peer,
  refused_to_open,
}
use spectrum.PeerManager.Data.{Instant, ProtocolId, sync_channel_exhausted}
use spectrum.Prelude.{
  Bool, List, Option, [], false, if◌then◌else◌, insert, lookup, none, not, remove, some, true, ℕ,
  ◌++◌, ◌+◌, ◌||◌, ◌∷◌,
}

-- A substream that the peer negotiated, with its handshake, by the state of the protocol.
unfoldable pub inbound_in :
    MessageSink
    → Receiver
    → ProtocolTag
    → Option RawMessage
    → Substream
    → StatefulProtocol
    → Option ProtocolState
    → PeerConnHandler
    → PeerConnHandler
unfolding insert
inbound_in sink receiver tag handshake substream p (some closed_state) h =
    set_protocol tag.protocol_id p (partially_opened_by_peer substream)
      (push_event (notify_behaviour (opened_by_peer tag handshake)) h)
inbound_in sink receiver tag handshake substream p (some opening) h =
    set_protocol tag.protocol_id p (partially_opened_by_peer substream) h
inbound_in sink receiver tag handshake substream p (some (partially_opened substream_out)) h =
    set_protocol tag.protocol_id p (opened_state substream substream_out receiver) (
      push_event (notify_behaviour (opened tag sink handshake))
        (approve_if p.spec.approve_required substream h))
inbound_in sink receiver tag handshake substream p (some (inbound_closed_by_peer substream_out old))
      h =
    set_protocol tag.protocol_id p (opened_state substream substream_out receiver) (
      push_event (notify_behaviour (opened tag sink handshake))
        (approve_if p.spec.approve_required substream h))
inbound_in sink receiver tag handshake substream p (some (partially_opened_by_peer substream_in))
      h =
    h
inbound_in sink receiver tag handshake substream p
      (some (opened_state substream_in substream_out old)) h =
    h
inbound_in sink receiver tag handshake substream p (some (accepting substream_in)) h = h
inbound_in sink receiver tag handshake substream p (some (outbound_closed_by_peer substream_in)) h =
    h
inbound_in sink receiver tag handshake substream p none h = h

-- A substream that was negotiated on request.
unfoldable pub outbound_in :
    MessageSink
    → Receiver
    → ProtocolTag
    → Substream
    → StatefulProtocol
    → Option ProtocolState
    → PeerConnHandler
    → PeerConnHandler
unfolding insert
outbound_in sink receiver tag substream p (some opening) h =
    set_protocol tag.protocol_id p (partially_opened substream) h
outbound_in sink receiver tag substream p (some (accepting (some substream_in))) h =
    set_protocol tag.protocol_id p (opened_state substream_in substream receiver)
      (push_event (notify_behaviour (opened tag sink none)) h)
outbound_in sink receiver tag substream p (some (accepting none)) h = h
outbound_in sink receiver tag substream p (some closed_state) h = h
outbound_in sink receiver tag substream p (some (partially_opened_by_peer substream_in)) h = h
outbound_in sink receiver tag substream p (some (partially_opened substream_out)) h = h
outbound_in sink receiver tag substream p (some (opened_state substream_in substream_out old)) h = h
outbound_in sink receiver tag substream p (some (inbound_closed_by_peer substream_out old)) h = h
outbound_in sink receiver tag substream p (some (outbound_closed_by_peer substream_in)) h = h
outbound_in sink receiver tag substream p none h = h

-- Whether an open that fails is answered.
abbrev awaits_outbound : Option ProtocolState → Bool
awaits_outbound (some opening) = true
awaits_outbound (some (accepting substream_in)) = true
awaits_outbound (some closed_state) = false
awaits_outbound (some (partially_opened_by_peer substream_in)) = false
awaits_outbound (some (partially_opened substream_out)) = false
awaits_outbound (some (opened_state substream_in substream_out receiver)) = false
awaits_outbound (some (inbound_closed_by_peer substream_out receiver)) = false
awaits_outbound (some (outbound_closed_by_peer substream_in)) = false
awaits_outbound none = false

pub data ConnectionEvent : Type 0 where
  one_shot_negotiated_inbound : ProtocolTag → RawMessage → ConnectionEvent
  negotiated_inbound : ProtocolTag → Option RawMessage → Substream → ConnectionEvent
  one_shot_negotiated_outbound : ℕ → ConnectionEvent
  negotiated_outbound : ProtocolTag → Substream → ConnectionEvent
  dial_upgrade_error : ProtocolTag → ConnectionEvent

-- The first two arguments are the ends of the channel that a negotiation makes.
unfoldable pub on_connection_event :
    MessageSink → Receiver → ConnectionEvent → PeerConnHandler → PeerConnHandler
unfolding inbound_in outbound_in lookup remove insert
on_connection_event sink receiver (one_shot_negotiated_inbound tag content) h =
    push_event (notify_behaviour (one_shot_message tag content)) h
on_connection_event sink receiver (negotiated_inbound tag handshake substream) h =
    elim (lookup tag.protocol_id h.stateful_protocols) [
      | none ↦ h
      | some p ↦ inbound_in sink receiver tag handshake substream p p.state h
    ]
on_connection_event sink receiver (one_shot_negotiated_outbound id) h = record h {
  pending_one_shots = remove id h.pending_one_shots;
}
on_connection_event sink receiver (negotiated_outbound tag substream) h =
    elim (lookup tag.protocol_id h.stateful_protocols) [
      | none ↦ h
      | some p ↦ outbound_in sink receiver tag substream p p.state h
    ]
on_connection_event sink receiver (dial_upgrade_error tag) h =
    elim (lookup tag.protocol_id h.stateful_protocols) [
      | none ↦ h
      | some p ↦ set_protocol tag.protocol_id p closed_state (
          if awaits_outbound p.state
          then push_event (notify_behaviour (refused_to_open tag.protocol_id)) h
          else h)
    ]

abbrev is_closed : Option ProtocolState → Bool
is_closed (some closed_state) = true
is_closed (some opening) = false
is_closed (some (accepting substream_in)) = false
is_closed (some (partially_opened_by_peer substream_in)) = false
is_closed (some (partially_opened substream_out)) = false
is_closed (some (opened_state substream_in substream_out receiver)) = false
is_closed (some (inbound_closed_by_peer substream_out receiver)) = false
is_closed (some (outbound_closed_by_peer substream_in)) = false
is_closed none = false

unfoldable any_open : List (ProtocolId × StatefulProtocol) → Bool
any_open [] = false
any_open (entry ∷ entries) = not (is_closed entry.1.state) || any_open entries

abbrev is_empty : List (ℕ × OneShotRequest) → Bool
is_empty [] = true
is_empty (request ∷ requests) = false

pub data KeepAlive : Type 0 where
  keep_yes : KeepAlive
  keep_until : Instant → KeepAlive

-- 50 milliseconds.
abbrev min_term_delay : ℕ
min_term_delay = 50

unfoldable pub connection_keep_alive : ℕ → Instant → PeerConnHandler → KeepAlive
unfolding any_open
connection_keep_alive initial_keep_alive now h =
    if any_open h.stateful_protocols || not (is_empty h.pending_one_shots)
    then keep_yes
    else if h.terminate_asap
    then keep_until (now + min_term_delay)
    else keep_until (h.created_at + initial_keep_alive)

-- The requests that are sent at the start of `poll`.
unfoldable pub fire : List (ℕ × OneShotRequest) → List HandlerEvent
fire [] = []
fire ((id, awaiting task) ∷ requests) =
    outbound_substream_request (one_shot_upgrade task.protocol id task.content) task.protocol
    ∷ fire requests
fire ((id, confirming) ∷ requests) = fire requests

unfoldable all_confirming : List (ℕ × OneShotRequest) → List (ℕ × OneShotRequest)
all_confirming [] = []
all_confirming (request ∷ requests) = (request.0, confirming) ∷ all_confirming requests

unfoldable pub fire_one_shots : PeerConnHandler → PeerConnHandler
unfolding fire all_confirming
fire_one_shots h = record h {
  pending_events = h.pending_events ++ fire h.pending_one_shots;
  pending_one_shots = all_confirming h.pending_one_shots;
}

-- The receiver of an open substream asks to close it by force.
unfoldable pub force_close : PeerConnHandler → PeerConnHandler × HandlerEvent
force_close h =
    (record h { fault = some sync_channel_exhausted }, close_with sync_channel_exhausted)

-- Flushing the outbound substream failed, with the event that is returned at once; a state without one
-- is not flushed.
unfoldable pub flush_failed : ProtocolId → ProtocolState → ProtocolState × Option HandlerEvent
flush_failed protocol (opened_state substream_in substream_out receiver) =
    (outbound_closed_by_peer substream_in, some (notify_behaviour (closed_by_peer protocol)))
flush_failed protocol (inbound_closed_by_peer substream_out receiver) =
    (closed_state, some (notify_behaviour (closed_by_peer protocol)))
flush_failed protocol closed_state = (closed_state, none)
flush_failed protocol opening = (opening, none)
flush_failed protocol (accepting substream_in) = (accepting substream_in, none)
flush_failed protocol (partially_opened_by_peer substream_in) =
    (partially_opened_by_peer substream_in, none)
flush_failed protocol (partially_opened substream_out) = (partially_opened substream_out, none)
flush_failed protocol (outbound_closed_by_peer substream_in) =
    (outbound_closed_by_peer substream_in, none)

-- The inbound substream is at its end or failed, with the event that is returned at once.
unfoldable pub inbound_ended : ProtocolId → ProtocolState → ProtocolState × Option HandlerEvent
inbound_ended protocol (opened_state substream_in substream_out receiver) =
    (inbound_closed_by_peer substream_out receiver, none)
inbound_ended protocol (outbound_closed_by_peer substream_in) = (closed_state, none)
inbound_ended protocol (partially_opened_by_peer substream_in) =
    (closed_state, some (notify_behaviour (closed_by_peer protocol)))
inbound_ended protocol (accepting (some substream_in)) = (accepting none, none)
inbound_ended protocol (accepting none) = (accepting none, none)
inbound_ended protocol closed_state = (closed_state, none)
inbound_ended protocol opening = (opening, none)
inbound_ended protocol (partially_opened substream_out) = (partially_opened substream_out, none)
inbound_ended protocol (inbound_closed_by_peer substream_out receiver) =
    (inbound_closed_by_peer substream_out receiver, none)
