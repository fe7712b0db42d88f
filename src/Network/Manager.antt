-- ===== src/Network/Manager.antt =====
-- `ProtocolManager` of eth/handler.go: its sub-protocols, the peers that join and leave it, and the
-- loops that send what the node posts to the permitted consensus nodes.
pub mod Keys
pub mod Info
use pbft_block.Common.{
  ℕ, zero, suc, ◌+◌, ◌/◌, ◌%◌, Bool, true, false, Option, none, some, List, [], ◌∷◌, ltb,
  if◌then◌else◌, bytes_eq,
}
use pbft_block.Text.{Str, codes}
use pbft_block.Text.Base64.{decode_string}
use pbft_block.Pns.{PermissionedNodeService, get_pk_by_pid}
use pbft_block.Network.Peers.{Peer, PeerSet, new_peer_set, register, unregister, peer, close}

pub record Protocol : Type 0 where
  pub name : Str
  pub version : ℕ
  pub length : ℕ

pub record ProtocolManager (Prv : Type 0) : Type 0 where
  pub network_id : ℕ
  pub peers : PeerSet
  pub sub_protocols : List Protocol
  pub subscribed : Bool
  pub quit_sync : Bool  -- the channel is closed
  pub node_type : ℕ
  pub pn_service : PermissionedNodeService Prv

-- `p2p.Peer`, as far as the protocol reads it.
pub record P2pPeer : Type 0 where
  pub node_id : List ℕ
  pub node_type : ℕ

-- The versions with their numbers of messages.
abbrev protocol_versions : List (ℕ × ℕ)
protocol_versions = (63, 27) ∷ (62, 8) ∷ []

abbrev compatible : List (ℕ × ℕ) → List Protocol
compatible [] = []
compatible ((v, l) ∷ vs) =
    if ltb v 63
    then compatible vs
    else record { name = codes "eth"; version = v; length = l } ∷ compatible vs

-- `fmt.Sprintf("%x", …)` of bytes.
abbrev hex_letter : ℕ → ℕ
hex_letter d = if ltb d 10 then d + b'0' else d + 0x57

unfoldable pub hex_text : List ℕ → Str
hex_text [] = []
hex_text (b ∷ bs) = hex_letter (b / 16) ∷ hex_letter (b % 16) ∷ hex_text bs

abbrev pub take : ℕ → List ℕ → List ℕ
take zero xs = []
take (suc n) [] = []
take (suc n) (x ∷ xs) = x ∷ take n xs

-- How a session of a peer begins: it is turned away, a panic ends the process, or it is served.
pub data Session : Type 0 where
  quitting panicked : Session
  joined : Peer → Session

abbrev pub either_text : Option Str → Str
either_text none = []
either_text (some s) = s

module _ {Prv : Type 0} where
  -- `none` where no version is compatible.
  unfoldable pub new_protocol_manager :
      ℕ → PermissionedNodeService Prv → Option (ProtocolManager Prv)
  new_protocol_manager network_id service = elim (compatible protocol_versions) [
    | [] ↦ none
    | p ∷ ps ↦ some (record {
      network_id = network_id;
      peers = new_peer_set;
      sub_protocols = p ∷ ps;
      subscribed = false;
      quit_sync = false;
      node_type = 1;
      pn_service = service;
    })
  ]

  unfoldable pub start : ProtocolManager Prv → ProtocolManager Prv
  start pm = record pm { subscribed = true }

  -- `Stop`, with the peers that it disconnects.
  unfoldable pub stop : ProtocolManager Prv → List Peer × ProtocolManager Prv
  unfolding close
  stop pm =
      let (gone, ps) = close pm.peers in
      (gone, record pm { subscribed = false; quit_sync = true; peers = ps })

  -- `newPeer`: the key that the file has for the node, decoded once; a node that is not permitted has
  -- the empty key.
  unfoldable pub new_peer : ℕ → P2pPeer → ProtocolManager Prv → Peer
  unfolding hex_text get_pk_by_pid
  new_peer version p pm = record {
    id = hex_text p.node_id;
    version = version;
    node_type = p.node_type;
    node_pk =
        (decode_string (either_text (get_pk_by_pid pm.pn_service (hex_text p.node_id)))).bytes;
  }

  -- The function `Run` of the sub-protocol, up to the call of `handle`.
  unfoldable pub run_peer : ℕ → P2pPeer → ProtocolManager Prv → Session × ProtocolManager Prv
  unfolding new_peer register
  run_peer version p pm =
      if pm.quit_sync
      then (quitting, pm)
      else let joining = new_peer version p pm in
        let (err, ps) = register joining pm.peers in
        elim err [ none ↦ (joined joining, record pm { peers = ps }) | some e ↦ (panicked, pm) ]

  unfoldable pub remove_peer : Str → ProtocolManager Prv → ProtocolManager Prv
  unfolding peer unregister
  remove_peer id pm = elim (peer id pm.peers) [
    | none ↦ pm
    | some p ↦ record pm { peers = (unregister id pm.peers).1 }
  ]

  -- The function `PeerInfo` of the sub-protocol, up to the summary that it makes of the peer.
  unfoldable pub peer_info : List ℕ → ProtocolManager Prv → Option Peer
  unfolding hex_text peer
  peer_info node_id pm = peer (hex_text (take 8 node_id)) pm.peers
