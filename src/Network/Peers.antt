-- ===== src/Network/Peers.antt =====
-- The peers of a node: `peer` and `peerSet` of eth/peer.go. The session of a peer (`p2p.Peer`, its
-- reader and writer) is outside the model, but for the identifier, the type and the key.
pub mod Filing
pub mod Head
use pbft_block.Common.{
  ℕ, Bool, true, false, Option, none, some, is_some, List, [], ◌∷◌, Map, if◌then◌else◌, bytes_eq,
  lookup, insert, delete, has, length,
}
use pbft_block.Text.{Str}

pub record Peer : Type 0 where
  pub id : Str
  pub version : ℕ
  pub node_type : ℕ
  pub node_pk : List ℕ

pub record PeerSet : Type 0 where
  pub peers : Map Str Peer
  pub closed : Bool

pub data PeerError : Type 0 where
  err_closed err_already_registered err_not_registered : PeerError

abbrev pub new_peer_set : PeerSet
new_peer_set = record { peers = []; closed = false }

-- The values of a map.
abbrev pub values : Map Str Peer → List Peer
values [] = []
values ((id, p) ∷ m) = p ∷ values m

abbrev pub get_peers : PeerSet → List Peer
get_peers ps = values ps.peers

unfoldable pub register : Peer → PeerSet → Option PeerError × PeerSet
register p ps =
    if ps.closed
    then (some err_closed, ps)
    else if has p.id ps.peers
    then (some err_already_registered, ps)
    else (none, record ps { peers = insert p.id p ps.peers })

unfoldable pub unregister : Str → PeerSet → Option PeerError × PeerSet
unregister id ps =
    if has id ps.peers
    then (none, record ps { peers = delete id ps.peers })
    else (some err_not_registered, ps)

unfoldable pub peer : Str → PeerSet → Option Peer
peer id ps = lookup id ps.peers

abbrev pub len : PeerSet → ℕ
len ps = length (get_peers ps)

-- `Close`: the peers that are disconnected, which stay in the set.
unfoldable pub close : PeerSet → List Peer × PeerSet
close ps = (get_peers ps, record ps { closed = true })
