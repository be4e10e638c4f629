-- ===== src/Network/Handling.antt =====
-- The events of the swarm keep the invariant of the controller of
-- spectrum-network/src/network_controller.rs.
use spectrum.Network.Controller.{
  closed_in, deliver_tasks, established_in, joined, on_connection_closed, on_connection_established,
  on_dial_failure, remove_conn, tell_connected, without_conn,
}
use spectrum.Network.Instructions.{first_of}
use spectrum.Network.Invariant.{Fits, Inv, IsKnown, Kept, entry-Fits, insert-Inv, remove-Inv}
use spectrum.Network.State.{
  ConnectedPeer, EnabledProtocol, NetworkController, OneShotMessage, ProtocolConfig, connected_peer,
  pending_approve, pending_connect, pending_disconnect, with_peers,
}
use spectrum.PeerManager.Data.{ConnHandlerError, PeerId, ProtocolId}
use spectrum.PeerManager.Manager.{ConnectionId}
use spectrum.Prelude.{
  All, Bool-cases, List, Option, Option-cases, [], contains, inl, inr, is_some, lookup, none, refl,
  some, true, ◌++◌, ◌∷◌, ◌≡◌,
}

module _ (supported : List (ProtocolId × ProtocolConfig)) where
  deliver_tasks-Inv :
      (pid : PeerId) (conn : ConnectionId) (tasks : List OneShotMessage) (c : NetworkController)
      → Inv supported c
      → Inv supported (deliver_tasks pid conn tasks c)
  unfolding deliver_tasks
  deliver_tasks-Inv pid conn [] c v = v
  deliver_tasks-Inv pid conn (task ∷ tasks) c v = deliver_tasks-Inv pid conn tasks _ v

  tell_connected-Inv :
      (pid : PeerId) (protocols : List (ProtocolId × ProtocolConfig)) (c : NetworkController)
      → Inv supported c
      → Inv supported (tell_connected pid protocols c)
  unfolding tell_connected
  tell_connected-Inv pid [] c v = v
  tell_connected-Inv pid (protocol ∷ protocols) c v = tell_connected-Inv pid protocols _ v

  first_of-append :
      (ids : List ConnectionId) (conn : ConnectionId) → is_some (first_of (ids ++ conn ∷ [])) ≡ true
  first_of-append [] conn = refl
  first_of-append (id ∷ ids) conn = refl

  established_in-Inv :
      (pid : PeerId) (conn : ConnectionId) (entry : Option ConnectedPeer) (c : NetworkController)
      → Inv supported c
      → Fits supported entry
      → Kept supported (established_in pid conn entry c)
  unfolding established_in
  established_in-Inv pid conn none c v fits = insert-Inv supported c pid (pending_approve conn) v tt
  established_in-Inv pid conn (some (pending_connect tasks asap)) c v fits =
      tell_connected-Inv pid (joined pid conn tasks c).supported_protocols (joined pid conn tasks c)
        (insert-Inv supported (deliver_tasks pid conn tasks c) pid (connected_peer (conn ∷ []) [])
          (deliver_tasks-Inv pid conn tasks c v) (refl, tt))
  established_in-Inv pid conn (some (connected_peer ids protocols)) c v fits =
      elim (Bool-cases (contains conn ids)) [
        | inl known ↦ rw known tt
        | inr fresh ↦ rw fresh (
            insert-Inv supported c pid (connected_peer (ids ++ conn ∷ []) protocols) v
              (first_of-append ids conn, fits.1))
      ]
  established_in-Inv pid conn (some (pending_disconnect old)) c v fits = v
  established_in-Inv pid conn (some (pending_approve old)) c v fits = v

  without_conn-Inv :
      (pid : PeerId) (ids : List ConnectionId) (protocols : List (ProtocolId × EnabledProtocol))
      (c : NetworkController)
      → Inv supported c
      → All (IsKnown supported) protocols
      → Inv supported (with_peers (without_conn pid ids protocols c.enabled_peers) c)
  unfolding without_conn
  without_conn-Inv pid [] protocols c v known = remove-Inv supported c pid v
  without_conn-Inv pid (id ∷ ids) protocols c v known = insert-Inv supported c pid _ v (refl, known)

  closed_in-Inv :
      (pid : PeerId) (conn : ConnectionId) (fault : Option ConnHandlerError)
      (entry : Option ConnectedPeer) (c : NetworkController)
      → Inv supported c
      → Fits supported entry
      → Kept supported (closed_in pid conn fault entry c)
  unfolding closed_in
  closed_in-Inv pid conn fault (some (connected_peer ids protocols)) c v fits =
      elim (Option-cases (remove_conn conn ids)) [
        | inl missing ↦ rw missing tt
        | inr left ↦ rw (left.1) (without_conn-Inv pid left.0 protocols c v fits.1)
      ]
  closed_in-Inv pid conn fault (some (pending_disconnect old)) c v fits = absurd fits
  closed_in-Inv pid conn fault (some (pending_connect tasks asap)) c v fits = v
  closed_in-Inv pid conn fault (some (pending_approve old)) c v fits = v
  closed_in-Inv pid conn fault none c v fits = v

  pub on_dial_failure-Inv :
      (pid : Option PeerId) (c : NetworkController)
      → Inv supported c
      → Inv supported (on_dial_failure pid c)
  unfolding on_dial_failure
  on_dial_failure-Inv none c v = v
  on_dial_failure-Inv (some pid) c v = v

  pub on_connection_established-Inv :
      (pid : PeerId) (conn : ConnectionId) (c : NetworkController)
      → Inv supported c
      → Kept supported (on_connection_established pid conn c)
  unfolding on_connection_established
  on_connection_established-Inv pid conn c v =
      established_in-Inv pid conn (lookup pid c.enabled_peers) c v (entry-Fits supported pid c v)

  pub on_connection_closed-Inv :
      (pid : PeerId) (conn : ConnectionId) (fault : Option ConnHandlerError) (c : NetworkController)
      → Inv supported c
      → Kept supported (on_connection_closed pid conn fault c)
  unfolding on_connection_closed
  on_connection_closed-Inv pid conn fault c v =
      closed_in-Inv pid conn fault (lookup pid c.enabled_peers) c v (entry-Fits supported pid c v)
