-- ===== src/Connection/Examples.antt =====
-- A handler of spectrum-network/src/peer_conn_handler.rs with one closed protocol of two versions.
use spectrum.Connection.Handler.{
  PeerConnHandler, StatefulProtocol, closed_state, offers, on_behaviour_event,
}
use spectrum.Connection.Opening.{simultaneous_open_unanswered}
use spectrum.Connection.Substreams.{
  dial_upgrade_error, negotiated_inbound, negotiated_outbound, on_connection_event,
}
use spectrum.Connection.Transitions.{request_of}
use spectrum.Network.State.{PolyVerHandshakeSpec, ProtocolTag, StatefulProtocolSpec, open_protocol}
use spectrum.Prelude.{[], false, lookup, none, refl, some, true, ◌∷◌, ◌≡◌}

abbrev spec : StatefulProtocolSpec
spec = record { max_message_size = 100; approve_required = true }

abbrev protocol : StatefulProtocol
protocol = record {
  ver = 2;
  spec = spec;
  state = some closed_state;
  all_versions_specs = (2, spec) ∷ (1, spec) ∷ [];
}

abbrev handler : PeerConnHandler
handler = record {
  stateful_protocols = (0, protocol) ∷ [];
  one_shot_protocols = [];
  created_at = 0;
  remote = 9;
  pending_events = [];
  fault = none;
  pending_one_shots = [];
  terminate_asap = false;
  approvals = [];
}

-- The peer negotiates version 1, where the handler holds version 2.
abbrev tag : ProtocolTag
tag = record { protocol_id = 0; protocol_ver = 1 }

abbrev mine : PolyVerHandshakeSpec
mine = (2, some 22) ∷ (1, some 11) ∷ []

both_offered :
    offers protocol.all_versions_specs mine ≡ (2, spec, some 22) ∷ (1, spec, some 11) ∷ []
unfolding offers
both_offered = refl

simultaneous_open_unanswered_example :
    let asked = on_behaviour_event 1 (open_protocol 0 mine) handler in
    let met = on_connection_event 3 4 (negotiated_inbound tag (some 33) 5) asked in
    ((on_connection_event 3 4 (negotiated_outbound tag 6) met).pending_events
      ≡ request_of tag protocol (offers protocol.all_versions_specs mine) ∷ [])
    × ((on_connection_event 3 4 (dial_upgrade_error tag) met).pending_events
        ≡ request_of tag protocol (offers protocol.all_versions_specs mine) ∷ [])
unfolding lookup
simultaneous_open_unanswered_example =
    simultaneous_open_unanswered 1 tag mine (some 33) 3 4 5 6 protocol handler refl
