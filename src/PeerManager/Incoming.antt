-- ===== src/PeerManager/Incoming.antt =====
-- `on_incoming_connection` of spectrum-network/src/peer_manager.rs.
use spectrum.PeerManager.Data.{
  PeerDestination, PeerId, PeerInfo, Reputation, connected, inbound, is_connected, new_info,
}
use spectrum.PeerManager.Events.{on_incoming_connection}
use spectrum.PeerManager.Handles.{NetworkingConfig, force_connect, peer, try_accept_connection}
use spectrum.PeerManager.Invariant.Runs.{Reach, Reach-IsSound, start}
use spectrum.PeerManager.Manager.{
  ConnectionId, PeerManager, PeerManagerConfig, PeerManagerOut, accept_incoming_connection, reject,
}
use spectrum.PeerManager.Repo.{try_add_peer, with_peer}
use spectrum.Prelude.{
  Bool, List, Option, Option-cases, [], arith, false, inl, inr, insert, leb_ℤ, lookup,
  lookup-insert_self, ltb, none, not, some, true, ◌&&◌, ◌++◌, ◌<◌, ◌∷◌, ◌≡◌,
}

-- A peer that the repository knows, or does not know, may connect.
abbrev pub admissible : Reputation → Option PeerInfo → Bool
admissible least none = true
admissible least (some info) = not (is_connected info.state) && leb_ℤ least info.reputation

-- The manager admits a connection of the peer.
abbrev pub admits : PeerId → PeerManager → Bool
admits pid pm =
    ltb ((pm.state).index).num_inbound ((pm.state).netw_conf).max_inbound
    && admissible (pm.conf).min_reputation (lookup pid (pm.state).peers)

-- The entry of the peer before the answer: an unknown peer is added first.
abbrev pub known_or_new : Option PeerInfo → PeerInfo
known_or_new none = new_info none false false
known_or_new (some info) = info

abbrev pub verdict : PeerId → ConnectionId → Bool → PeerManagerOut
verdict pid conn true = accept_incoming_connection pid conn
verdict pid conn false = reject pid conn

abbrev pub entry_after : Bool → PeerInfo → PeerInfo
entry_after true info = record info { state = connected inbound }
entry_after false info = info

abbrev Answered : PeerId → ConnectionId → PeerManager → Option PeerInfo → PeerManager → Type 0
Answered pid conn pm o pm' =
    let admitted =
      ltb ((pm.state).index).num_inbound ((pm.state).netw_conf).max_inbound
      && admissible (pm.conf).min_reputation o in
    (pm'.out_queue ≡ pm.out_queue ++ verdict pid conn admitted ∷ [])
    × (lookup pid (pm'.state).peers ≡ some (entry_after admitted (known_or_new o)))

Answered-none :
    (pid : PeerId) (conn : ConnectionId) (pm : PeerManager)
    → lookup pid (pm.state).peers ≡ none
    → Answered pid conn pm none (on_incoming_connection pid conn pm)
unfolding on_incoming_connection peer try_add_peer try_accept_connection with_peer force_connect
Answered-none pid conn pm e = ground (
  arith,
  lookup-insert_self pid (new_info none false false) (pm.state).peers,
  lookup-insert_self pid (record (new_info none false false) { state = connected inbound })
      (insert pid (new_info none false false) (pm.state).peers),
)

Answered-some :
    (pid : PeerId) (conn : ConnectionId) (pm : PeerManager) (info : PeerInfo)
    → lookup pid (pm.state).peers ≡ some info
    → Answered pid conn pm (some info) (on_incoming_connection pid conn pm)
unfolding on_incoming_connection peer try_accept_connection force_connect
Answered-some pid conn pm info e =
    ground
      (arith, lookup-insert_self pid (record info { state = connected inbound }) (pm.state).peers)

-- An incoming connection gets exactly one answer, at the end of the queue: it is accepted exactly
-- if the inbound counter is below the limit and the peer is unknown, or known, not connected and of
-- the minimal reputation. The peer is known afterwards, connected inbound if it was accepted and
-- as it was (or newly added) if not.
pub on_incoming_connection_answers :
    (pid : PeerId) (conn : ConnectionId) (pm : PeerManager)
    → let pm' = on_incoming_connection pid conn pm in
      (pm'.out_queue ≡ pm.out_queue ++ verdict pid conn (admits pid pm) ∷ [])
      × (lookup pid (pm'.state).peers
          ≡ some (entry_after (admits pid pm) (known_or_new (lookup pid (pm.state).peers))))
on_incoming_connection_answers pid conn pm = elim (Option-cases (lookup pid (pm.state).peers)) [
  | inl e ↦ rw e (Answered-none pid conn pm e)
  | inr (info, e) ↦ rw e (Answered-some pid conn pm info e)
]

-- In every manager that a run reaches the inbound counter is 0. So whatever the connections that it
-- has, it accepts each connection of an unknown peer, if the limit is not 0.
pub inbound_unlimited :
    (c : NetworkingConfig) (boot : List PeerDestination) (conf : PeerManagerConfig) (pid : PeerId)
    (conn : ConnectionId) {pm : PeerManager}
    → Reach (start c boot conf) pm
    → 0 < ((pm.state).netw_conf).max_inbound
    → lookup pid (pm.state).peers ≡ none
    → (on_incoming_connection pid conn pm).out_queue
      ≡ pm.out_queue ++ accept_incoming_connection pid conn ∷ []
inbound_unlimited c boot conf pid conn {pm} r h e = ground (
  arith,
  (Reach-IsSound c boot conf r).no_inbound,
  (on_incoming_connection_answers pid conn pm).0,
)
