-- ===== src/Connection/Opening.antt =====
-- How the handler of spectrum-network/src/peer_conn_handler.rs answers the command to open a protocol.
use spectrum.Connection.Handler.{
  PeerConnHandler, Receiver, StatefulProtocol, Substream, closed_state, offers, on_behaviour_event,
}
use spectrum.Connection.Substreams.{
  dial_upgrade_error, negotiated_inbound, negotiated_outbound, on_connection_event,
}
use spectrum.Connection.Transitions.{
  Grown-trans, IsIn, inbound-opening, late_answer, open-closed, request_of,
}
use spectrum.Network.State.{
  MessageSink, PolyVerHandshakeSpec, ProtocolTag, RawMessage, open_protocol,
}
use spectrum.Prelude.{Option, [], ℕ, ◌++◌, ◌∙◌, ◌∷◌, ◌≡◌}

-- Both ends open a protocol at the same time: after the command to open it, the peer's substream is
-- negotiated before the one that was asked for. Then neither the negotiation of that one nor its
-- failure makes the handler tell the behaviour anything: the command is not answered.
pub simultaneous_open_unanswered :
    (id : ℕ) (tag : ProtocolTag) (mine : PolyVerHandshakeSpec) (theirs : Option RawMessage)
    (sink : MessageSink) (receiver : Receiver) (substream out : Substream) (p : StatefulProtocol)
    (h : PeerConnHandler)
    → IsIn tag.protocol_id p closed_state h
    → (let asked = on_behaviour_event id (open_protocol tag.protocol_id mine) h in
        let met =
          on_connection_event sink receiver (negotiated_inbound tag theirs substream) asked in
        ((on_connection_event sink receiver (negotiated_outbound tag out) met).pending_events
          ≡ h.pending_events ++ request_of tag p (offers p.all_versions_specs mine) ∷ [])
        × ((on_connection_event sink receiver (dial_upgrade_error tag) met).pending_events
            ≡ h.pending_events ++ request_of tag p (offers p.all_versions_specs mine) ∷ []))
simultaneous_open_unanswered id tag mine theirs sink receiver substream out p h known =
    let asked_handler = on_behaviour_event id (open_protocol tag.protocol_id mine) h in
    let met_handler =
      on_connection_event sink receiver (negotiated_inbound tag theirs substream) asked_handler in
    let asked = open-closed id tag mine p h known in
    let met = inbound-opening sink receiver tag theirs substream p asked_handler asked.0 in
    let quiet = late_answer sink receiver tag substream out p met_handler met.0 in
    let so_far = (Grown-trans _ p _ _ _ _ h asked_handler met_handler asked met).1 in
    (quiet.0 ∙ so_far, quiet.1 ∙ so_far)
