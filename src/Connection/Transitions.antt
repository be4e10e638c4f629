-- ===== src/Connection/Transitions.antt =====
-- Single transitions of a protocol in the handler of spectrum-network/src/peer_conn_handler.rs.
use spectrum.Connection.Handler.{
  HandlerEvent, PeerConnHandler, ProtocolState, Receiver, StatefulProtocol, Substream, VersionOffer,
  accepting, closed_state, handshake_for, notify_behaviour, offers, on_behaviour_event, open_in,
  opened_state, opening, outbound_substream_request, partially_opened, partially_opened_by_peer,
  protocol_upgrade,
}
use spectrum.Connection.Substreams.{
  dial_upgrade_error, inbound_in, negotiated_inbound, negotiated_outbound, on_connection_event,
  outbound_in,
}
use spectrum.Network.State.{
  MessageSink, PolyVerHandshakeSpec, ProtocolTag, RawMessage, open_protocol, opened, opened_by_peer,
}
use spectrum.PeerManager.Data.{ProtocolId}
use spectrum.Prelude.{
  List, Option, [], ap, append-nil, append_assoc, insert, lookup, lookup-insert_self, none, refl,
  some, sym, ℕ, ◌++◌, ◌∙◌, ◌∷◌, ◌≡◌,
}

-- A protocol of the handler in a state.
abbrev pub IsIn : ProtocolId → StatefulProtocol → ProtocolState → PeerConnHandler → Type 0
IsIn protocol p st h = lookup protocol h.stateful_protocols ≡ some (record p { state = some st })

stored :
    (protocol : ProtocolId) (p : StatefulProtocol) (st : ProtocolState)
    (table : List (ProtocolId × StatefulProtocol))
    → lookup protocol (insert protocol (record p { state = some st }) table)
      ≡ some (record p { state = some st })
stored protocol p st table = lookup-insert_self protocol (record p { state = some st }) table

-- The request for a substream that the command sends, with these versions on offer.
abbrev pub request_of : ProtocolTag → StatefulProtocol → List VersionOffer → HandlerEvent
request_of tag p versions =
    outbound_substream_request (protocol_upgrade tag.protocol_id versions)
      (record { protocol_id = tag.protocol_id; protocol_ver = p.ver })

-- The handler has a protocol in a state, and these events on top of the ones it had.
abbrev Grown :
    ProtocolId
    → StatefulProtocol
    → ProtocolState
    → List HandlerEvent
    → PeerConnHandler
    → PeerConnHandler
    → Type 0
Grown protocol p st events h h' =
    IsIn protocol p st h' × (h'.pending_events ≡ h.pending_events ++ events)

pub Grown-trans :
    (protocol : ProtocolId) (p : StatefulProtocol) (st st' : ProtocolState)
    (events events' : List HandlerEvent) (h h' h'' : PeerConnHandler)
    → Grown protocol p st events h h'
    → Grown protocol p st' events' h' h''
    → Grown protocol p st' (events ++ events') h h''
Grown-trans protocol p st st' events events' h h' h'' g g' = (
  g'.0,
  g'.1
      ∙ ap (λ (es : List HandlerEvent). es ++ events') g.1
      ∙ append_assoc h.pending_events events events',
)

pub open-closed :
    (id : ℕ) (tag : ProtocolTag) (handshake : PolyVerHandshakeSpec) (p : StatefulProtocol)
    (h : PeerConnHandler)
    → IsIn tag.protocol_id p closed_state h
    → Grown tag.protocol_id p opening
        (request_of tag p (offers p.all_versions_specs handshake) ∷ [])
        h
        (on_behaviour_event id (open_protocol tag.protocol_id handshake) h)
unfolding on_behaviour_event open_in
open-closed id tag handshake p h known =
    rw (known, on_behaviour_event) (stored tag.protocol_id p opening h.stateful_protocols, refl)

pub outbound-opening :
    (sink : MessageSink) (receiver : Receiver) (tag : ProtocolTag) (substream : Substream)
    (p : StatefulProtocol) (h : PeerConnHandler)
    → IsIn tag.protocol_id p opening h
    → Grown tag.protocol_id p
        (partially_opened substream)
        []
        h
        (on_connection_event sink receiver (negotiated_outbound tag substream) h)
unfolding on_connection_event outbound_in
outbound-opening sink receiver tag substream p h known =
    rw (known, on_connection_event)
      (
        stored tag.protocol_id p (partially_opened substream) h.stateful_protocols,
        sym (append-nil h.pending_events),
      )

pub inbound-partially :
    (sink : MessageSink) (receiver : Receiver) (tag : ProtocolTag) (handshake : Option RawMessage)
    (substream out : Substream) (p : StatefulProtocol) (h : PeerConnHandler)
    → IsIn tag.protocol_id p (partially_opened out) h
    → Grown tag.protocol_id p
        (opened_state substream out receiver)
        (notify_behaviour (opened tag sink handshake) ∷ [])
        h
        (on_connection_event sink receiver (negotiated_inbound tag handshake substream) h)
unfolding on_connection_event inbound_in
inbound-partially sink receiver tag handshake substream out p h known =
    rw (known, on_connection_event)
      (stored tag.protocol_id p (opened_state substream out receiver) h.stateful_protocols, refl)

pub inbound-closed :
    (sink : MessageSink) (receiver : Receiver) (tag : ProtocolTag) (handshake : Option RawMessage)
    (substream : Substream) (p : StatefulProtocol) (h : PeerConnHandler)
    → IsIn tag.protocol_id p closed_state h
    → Grown tag.protocol_id p
        (partially_opened_by_peer substream)
        (notify_behaviour (opened_by_peer tag handshake) ∷ [])
        h
        (on_connection_event sink receiver (negotiated_inbound tag handshake substream) h)
unfolding on_connection_event inbound_in
inbound-closed sink receiver tag handshake substream p h known =
    rw (known, on_connection_event)
      (stored tag.protocol_id p (partially_opened_by_peer substream) h.stateful_protocols, refl)

pub open-by_peer :
    (id : ℕ) (tag : ProtocolTag) (handshake : PolyVerHandshakeSpec) (substream : Substream)
    (p : StatefulProtocol) (h : PeerConnHandler)
    → IsIn tag.protocol_id p (partially_opened_by_peer substream) h
    → Grown tag.protocol_id p
        (accepting (some substream))
        (request_of tag p ((p.ver, p.spec, handshake_for p.ver handshake) ∷ []) ∷ [])
        h
        (on_behaviour_event id (open_protocol tag.protocol_id handshake) h)
unfolding on_behaviour_event open_in
open-by_peer id tag handshake substream p h known =
    rw (known, on_behaviour_event)
      (stored tag.protocol_id p (accepting (some substream)) h.stateful_protocols, refl)

pub outbound-accepting :
    (sink : MessageSink) (receiver : Receiver) (tag : ProtocolTag) (substream out : Substream)
    (p : StatefulProtocol) (h : PeerConnHandler)
    → IsIn tag.protocol_id p (accepting (some substream)) h
    → Grown tag.protocol_id p
        (opened_state substream out receiver)
        (notify_behaviour (opened tag sink none) ∷ [])
        h
        (on_connection_event sink receiver (negotiated_outbound tag out) h)
unfolding on_connection_event outbound_in
outbound-accepting sink receiver tag substream out p h known =
    rw (known, on_connection_event)
      (stored tag.protocol_id p (opened_state substream out receiver) h.stateful_protocols, refl)

pub inbound-opening :
    (sink : MessageSink) (receiver : Receiver) (tag : ProtocolTag) (handshake : Option RawMessage)
    (substream : Substream) (p : StatefulProtocol) (h : PeerConnHandler)
    → IsIn tag.protocol_id p opening h
    → Grown tag.protocol_id p
        (partially_opened_by_peer substream)
        []
        h
        (on_connection_event sink receiver (negotiated_inbound tag handshake substream) h)
unfolding on_connection_event inbound_in
inbound-opening sink receiver tag handshake substream p h known =
    rw (known, on_connection_event)
      (
        stored tag.protocol_id p (partially_opened_by_peer substream) h.stateful_protocols,
        sym (append-nil h.pending_events),
      )

pub late_answer :
    (sink : MessageSink) (receiver : Receiver) (tag : ProtocolTag) (substream out : Substream)
    (p : StatefulProtocol) (h : PeerConnHandler)
    → IsIn tag.protocol_id p (partially_opened_by_peer substream) h
    → ((on_connection_event sink receiver (negotiated_outbound tag out) h).pending_events
        ≡ h.pending_events)
      × ((on_connection_event sink receiver (dial_upgrade_error tag) h).pending_events
          ≡ h.pending_events)
unfolding on_connection_event outbound_in
late_answer sink receiver tag substream out p h known = rw (known, on_connection_event) (refl, refl)
