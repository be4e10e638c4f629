-- ===== src/Network/Rejection.antt =====
-- What follows when the peer manager rejects a connection: spectrum-network/src/network_controller.rs
-- with the answer of peer_conn_handler.rs.
use spectrum.Connection.Handler.{PeerConnHandler, notify_behaviour, on_behaviour_event}
use spectrum.Network.HandlerEvents.{on_closed_all, on_connection_handler_event}
use spectrum.Network.Instructions.{on_instruction, reject_in}
use spectrum.Network.State.{
  NetworkController, close_all_protocols, closed_all_protocols, notify, pending_approve, with_peers,
}
use spectrum.PeerManager.Data.{PeerId}
use spectrum.PeerManager.Manager.{ConnectionId, reject}
use spectrum.Prelude.{
  [], lookup, lookup-remove_self, panicked, refl, remove, returned, some, ℕ, ◌++◌, ◌>>=◌, ◌∷◌, ◌≡◌,
}

-- A peer waits for approval and the peer manager rejects it. Then the controller forgets the peer and
-- commands the handler of the connection to close all protocols; every handler answers this command
-- that it has closed them; and the controller, which has forgotten the peer, panics on that answer.
pub rejection_panics :
    (pid : PeerId) (conn old : ConnectionId) (c : NetworkController) (id : ℕ) (h : PeerConnHandler)
    → lookup pid c.enabled_peers ≡ some (pending_approve old)
    → (on_instruction (reject pid conn) c
        ≡ returned
            (notify pid conn close_all_protocols (with_peers (remove pid c.enabled_peers) c)))
      × ((on_behaviour_event id close_all_protocols h).pending_events
          ≡ h.pending_events ++ notify_behaviour closed_all_protocols ∷ [])
      × ((on_instruction (reject pid conn) c
            >>= on_connection_handler_event pid conn closed_all_protocols)
          ≡ panicked)
unfolding on_instruction reject_in on_behaviour_event on_connection_handler_event on_closed_all
rejection_panics pid conn old c id h waits =
    rw waits (refl, refl, rw (lookup-remove_self pid c.enabled_peers) refl)
