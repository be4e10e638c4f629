-- ===== src/Network/Surplus.antt =====
-- A second connection of a connected peer: the controller of
-- spectrum-network/src/network_controller.rs, with the peer manager.
use spectrum.Network.Controller.{
  closed_in, established_in, on_connection_closed, on_connection_established, remove_conn,
  without_conn,
}
use spectrum.Network.Incoming.{idle_controller}
use spectrum.Network.State.{
  EnabledProtocol, NetworkController, close_connection, connected_peer, disconnected,
  generate_event,
}
use spectrum.PeerManager.Backoff.{backed_off, lost_entry}
use spectrum.PeerManager.Data.{Instant, PeerId, PeerInfo, ProtocolId, is_connected, reset_by_peer}
use spectrum.PeerManager.Manager.{ConnectionId, PeerManager, PeerManagerIn}
use spectrum.PeerManager.Poll.{handle}
use spectrum.Prelude.{
  List, Outcome, Returns, [], ==_refl, contains, false, lookup, lookup-insert_self, none, refl,
  returned, some, true, ◌+◌, ◌++◌, ◌==◌, ◌>>=◌, ◌∷◌, ◌≡◌,
}

-- The manager handles what the controller sent it, in that order.
unfoldable handle_all : Instant → List PeerManagerIn → PeerManager → PeerManager
unfolding handle
handle_all now [] pm = pm
handle_all now (m ∷ ms) pm = handle_all now ms (handle now m pm)

-- The peer opens one more connection, which then ends without a fault.
unfoldable pub open_and_end :
    Instant
    → PeerId
    → ConnectionId
    → PeerManager
    → NetworkController
    → Outcome (PeerManager × NetworkController)
unfolding handle_all on_connection_established on_connection_closed
open_and_end now pid conn pm c = on_connection_established pid conn c >>= λ extended.
    on_connection_closed pid conn none extended >>= λ left.
    returned (handle_all now left.to_manager pm, left)

remove_conn-last :
    (first last : ConnectionId)
    → (first == last) ≡ false
    → remove_conn last (first ∷ last ∷ []) ≡ some (first ∷ [])
unfolding remove_conn
remove_conn-last first last apart = rw (apart, ==_refl) refl

-- A peer that is not reserved is connected by one connection, in the controller and in the manager,
-- and opens a second one. The controller orders that the second one is closed. When it is closed, the
-- two disagree: the controller still has the peer connected by the first connection, with its
-- protocols, but it has told the manager that the peer is lost, so that the manager has it as not
-- connected and waits for the backoff before it dials again.
pub surplus_disagrees :
    (now : Instant) (pid : PeerId) (kept extra : ConnectionId)
    (protocols : List (ProtocolId × EnabledProtocol)) (pm : PeerManager) (info : PeerInfo)
    (c : NetworkController)
    → lookup pid c.enabled_peers ≡ some (connected_peer (kept ∷ []) protocols)
    → (kept == extra) ≡ false
    → lookup pid (pm.state).peers ≡ some info
    → is_connected info.state ≡ true
    → info.is_reserved ≡ false
    → Returns
        (λ r.
          (lookup pid (r.1).enabled_peers ≡ some (connected_peer (kept ∷ []) protocols))
          × ((r.1).pending_actions
              ≡ (c.pending_actions ++ close_connection pid extra ∷ [])
                ++ generate_event (disconnected pid reset_by_peer) ∷ [])
          × (lookup pid ((r.0).state).peers
              ≡ some (backed_off (now + (pm.conf).conn_reset_outbound_backoff) info)))
        (open_and_end now pid extra pm (idle_controller c))
unfolding open_and_end on_connection_established established_in on_connection_closed closed_in
    without_conn handle_all handle contains
surplus_disagrees now pid kept extra protocols pm info c found apart known joined unreserved =
    rw
      (
        found,
        apart,
        lookup-insert_self pid (connected_peer (kept ∷ extra ∷ []) protocols) c.enabled_peers,
        remove_conn-last kept extra apart,
      )
      (
        lookup-insert_self pid (connected_peer (kept ∷ []) protocols) _,
        refl,
        lost_entry now pid pm info known joined unreserved,
      )
