-- ===== src/Network/Manager/Info.antt =====
-- `PeerInfo` of the sub-protocol in eth/handler.go looks for a peer under a shortened identifier.
use pbft_block.Common.{
  ℕ, suc, ◌*◌, ◌≡◌, ◌≤◌, zero, none, some, List, [], ◌∷◌, All, length, arith, lookup, lookup-insert,
  lookup-delete, bytes_eq, bytes_beq_iff, Option-cases, inl, inr,
}
use pbft_block.Text.{Str}
use pbft_block.Pns.{PermissionedNodeService}
use pbft_block.Network.Peers.{Peer, peer, register, unregister}
use pbft_block.Network.Manager.{
  ProtocolManager, P2pPeer, new_protocol_manager, new_peer, run_peer, remove_peer, peer_info,
  hex_text, take,
}

length-hex_text : (bs : List ℕ) → length (hex_text bs) ≡ 2 * length bs
unfolding hex_text
length-hex_text [] = omega arith
length-hex_text (b ∷ bs) = omega (arith, length-hex_text bs)

length-take : (n : ℕ) (xs : List ℕ) → length (take n xs) ≤ n
length-take zero xs = omega arith
length-take (suc n) [] = omega arith
length-take (suc n) (x ∷ xs) = omega (arith, length-take n xs)

-- A session begins, or the function that serves it returns.
pub data Visit : Type 0 where
  comes : ℕ → P2pPeer → Visit
  goes : Str → Visit

-- The identifier of a node has 64 bytes.
abbrev pub IsFull : Visit → Type 0
IsFull (comes version session) = length session.node_id ≡ 64
IsFull (goes id) = Unit

module _ {Prv : Type 0} where
  unfoldable pub visits : List Visit → ProtocolManager Prv → ProtocolManager Prv
  visits [] pm = pm
  visits (comes version session ∷ vs) pm = visits vs (run_peer version session pm).1
  visits (goes id ∷ vs) pm = visits vs (remove_peer id pm)

  abbrev Long : ProtocolManager Prv → Type 0
  Long pm = (id : Str) (p : Peer) → lookup id pm.peers.peers ≡ some p → length id ≡ 128

  new_protocol_manager-Long :
      (network_id : ℕ) (service : PermissionedNodeService Prv) (pm : ProtocolManager Prv)
      → new_protocol_manager network_id service ≡ some pm
      → Long pm
  unfolding new_protocol_manager lookup
  new_protocol_manager-Long network_id service pm made id p h = ground arith

  run_peer-Long :
      (version : ℕ) (session : P2pPeer) (pm : ProtocolManager Prv)
      → length session.node_id ≡ 64
      → Long pm
      → Long (run_peer version session pm).1
  unfolding run_peer register new_peer
  run_peer-Long version session pm full long id p h = ground (
    arith,
    long id p,
    length-hex_text session.node_id,
    lookup-insert (hex_text session.node_id) id (new_peer version session pm) pm.peers.peers,
    bytes_beq_iff (hex_text session.node_id) id,
  )

  remove_peer-Long : (id : Str) (pm : ProtocolManager Prv) → Long pm → Long (remove_peer id pm)
  unfolding remove_peer peer unregister
  remove_peer-Long id pm long j p h =
      ground (
        arith,
        long j p,
        lookup-delete id j pm.peers.peers,
        Option-cases (lookup id pm.peers.peers),
      )

  visits-Long :
      (vs : List Visit) (pm : ProtocolManager Prv) → All IsFull vs → Long pm → Long (visits vs pm)
  unfolding visits
  visits-Long [] pm full long = long
  visits-Long (comes version session ∷ vs) pm full long =
      visits-Long vs (run_peer version session pm).1 full.1
        (run_peer-Long version session pm full.0 long)
  visits-Long (goes id ∷ vs) pm full long =
      visits-Long vs (remove_peer id pm) full.1 (remove_peer-Long id pm long)

  -- Whatever nodes have come and gone since the manager was made, with identifiers of 64 bytes: the
  -- function that tells about a peer finds none, whatever identifier it is asked for.
  pub peer_info_nobody :
      (network_id : ℕ) (service : PermissionedNodeService Prv) (pm : ProtocolManager Prv)
      (vs : List Visit) (node_id : List ℕ)
      → new_protocol_manager network_id service ≡ some pm
      → All IsFull vs
      → peer_info node_id (visits vs pm) ≡ none
  unfolding peer_info peer
  peer_info_nobody network_id service pm vs node_id made full =
      elim (Option-cases (lookup (hex_text (take 8 node_id)) (visits vs pm).peers.peers)) [
        | inl e ↦ e
        | inr (p, e) ↦ ground (
          arith,
          visits-Long vs pm full (new_protocol_manager-Long network_id service pm made)
              (hex_text (take 8 node_id)) p e,
          length-hex_text (take 8 node_id),
          length-take 8 node_id,
        )
      ]
