-- ===== src/Connection/Handler.antt =====
-- The state of `PeerConnHandler` of spectrum-network/src/peer_conn_handler.rs, and the commands of the
-- behaviour. Substreams, sinks and the receivers of messages are numbers; approvals that are sent on
-- inbound substreams are kept in `approvals`. The id of a one-shot request is random, an argument.
use spectrum.Network.State.{
  ConnHandlerIn, ConnHandlerOut, OneShotMessage, PolyVerHandshakeSpec, ProtocolTag, ProtocolVer,
  RawMessage, StatefulProtocolSpec, close_all_protocols, close_protocol, closed,
  closed_all_protocols, open_protocol, try_deliver_once,
}
use spectrum.PeerManager.Data.{ConnHandlerError, Instant, PeerId, ProtocolId}
use spectrum.Prelude.{
  Bool, List, Option, [], if◌then◌else◌, insert, is_some, lookup, none, some, ℕ, ◌++◌, ◌==◌, ◌∷◌,
}

abbrev pub Substream : Type 0
Substream = ℕ

abbrev pub Receiver : Type 0
Receiver = ℕ

pub data ProtocolState : Type 0 where
  closed_state : ProtocolState
  opening : ProtocolState
  partially_opened_by_peer : Substream → ProtocolState
  accepting : Option Substream → ProtocolState
  partially_opened : Substream → ProtocolState
  opened_state : Substream → Substream → Receiver → ProtocolState
  inbound_closed_by_peer : Substream → Receiver → ProtocolState
  outbound_closed_by_peer : Substream → ProtocolState

pub record StatefulProtocol : Type 0 where
  pub ver : ProtocolVer
  pub spec : StatefulProtocolSpec
  pub state : Option ProtocolState
  pub all_versions_specs : List (ProtocolVer × StatefulProtocolSpec)

pub record OneShotProtocol : Type 0 where
  pub ver : ProtocolVer
  pub max_message_size : ℕ

pub data OneShotRequest : Type 0 where
  awaiting : OneShotMessage → OneShotRequest
  confirming : OneShotRequest

-- A version with its specification and the handshake to send.
abbrev pub VersionOffer : Type 0
VersionOffer = ProtocolVer × StatefulProtocolSpec × Option RawMessage

pub data Upgrade : Type 0 where
  protocol_upgrade : ProtocolId → List VersionOffer → Upgrade
  one_shot_upgrade : ProtocolTag → ℕ → RawMessage → Upgrade

-- `ConnectionHandlerEvent`.
pub data HandlerEvent : Type 0 where
  outbound_substream_request : Upgrade → ProtocolTag → HandlerEvent
  notify_behaviour : ConnHandlerOut → HandlerEvent
  close_with : ConnHandlerError → HandlerEvent

pub record PeerConnHandler : Type 0 where
  pub stateful_protocols : List (ProtocolId × StatefulProtocol)
  pub one_shot_protocols : List (ProtocolId × OneShotProtocol)
  pub created_at : Instant
  pub remote : PeerId
  pub pending_events : List HandlerEvent
  pub fault : Option ConnHandlerError
  pub pending_one_shots : List (ℕ × OneShotRequest)
  pub terminate_asap : Bool
  pub approvals : List Substream

abbrev pub push_event : HandlerEvent → PeerConnHandler → PeerConnHandler
push_event event h = record h { pending_events = h.pending_events ++ event ∷ [] }

abbrev pub set_protocol :
    ProtocolId → StatefulProtocol → ProtocolState → PeerConnHandler → PeerConnHandler
set_protocol protocol p st h = record h {
  stateful_protocols = insert protocol (record p { state = some st }) h.stateful_protocols;
}

-- `zip` of the versions with the handshakes.
unfoldable pub offers :
    List (ProtocolVer × StatefulProtocolSpec) → PolyVerHandshakeSpec → List VersionOffer
offers [] handshakes = []
offers (v ∷ vs) [] = []
offers (v ∷ vs) (h ∷ hs) = (v.0, v.1, h.1) ∷ offers vs hs

-- `PolyVerHandshakeSpec::handshake_for`.
unfoldable pub handshake_for : ProtocolVer → PolyVerHandshakeSpec → Option RawMessage
handshake_for ver [] = none
handshake_for ver (h ∷ hs) = if h.0 == ver then h.1 else handshake_for ver hs

abbrev pub approve_if : Bool → Substream → PeerConnHandler → PeerConnHandler
approve_if sends substream h = record h {
  approvals = if sends then h.approvals ++ substream ∷ [] else h.approvals;
}

-- The command to open a protocol, by its state.
unfoldable pub open_in :
    ProtocolId
    → PolyVerHandshakeSpec
    → StatefulProtocol
    → Option ProtocolState
    → PeerConnHandler
    → PeerConnHandler
unfolding offers handshake_for insert
open_in protocol handshake p (some closed_state) h = set_protocol protocol p opening (
    push_event
      (outbound_substream_request
        (protocol_upgrade protocol (offers p.all_versions_specs handshake))
        (record { protocol_id = protocol; protocol_ver = p.ver }))
      h)
open_in protocol handshake p (some (partially_opened_by_peer substream_in)) h =
    let ver_handshake = handshake_for p.ver handshake in
    set_protocol protocol p (accepting (some substream_in)) (
      push_event
        (outbound_substream_request
          (protocol_upgrade protocol ((p.ver, p.spec, ver_handshake) ∷ []))
          (record { protocol_id = protocol; protocol_ver = p.ver }))
        (approve_if (is_some ver_handshake) substream_in h))
open_in protocol handshake p (some opening) h = h
open_in protocol handshake p (some (accepting substream_in)) h = h
open_in protocol handshake p (some (partially_opened substream_out)) h = h
open_in protocol handshake p (some (opened_state substream_in substream_out receiver)) h = h
open_in protocol handshake p (some (inbound_closed_by_peer substream_out receiver)) h = h
open_in protocol handshake p (some (outbound_closed_by_peer substream_in)) h = h
open_in protocol handshake p none h = h

unfoldable close_each : List (ProtocolId × StatefulProtocol) → List (ProtocolId × StatefulProtocol)
close_each [] = []
close_each (entry ∷ entries) =
    (entry.0, record (entry.1) { state = some closed_state }) ∷ close_each entries

-- The id is the one drawn for a one-shot request.
unfoldable pub on_behaviour_event : ℕ → ConnHandlerIn → PeerConnHandler → PeerConnHandler
unfolding open_in close_each lookup insert
on_behaviour_event id (try_deliver_once task) h = record h {
  pending_one_shots = insert id (awaiting task) h.pending_one_shots;
}
on_behaviour_event id (open_protocol protocol handshake) h =
    elim (lookup protocol h.stateful_protocols) [
      | none ↦ h
      | some p ↦ open_in protocol handshake p p.state h
    ]
on_behaviour_event id (close_protocol protocol) h = elim (lookup protocol h.stateful_protocols) [
  | none ↦ h
  | some p ↦
      push_event (notify_behaviour (closed protocol)) (set_protocol protocol p closed_state h)
]
on_behaviour_event id close_all_protocols h =
    push_event (notify_behaviour closed_all_protocols)
      (record h { stateful_protocols = close_each h.stateful_protocols })
