-- ===== src/Tests/Sessions.antt =====
-- A node with one permitted peer, from the permission file to a broadcast, and errors of its session.
use pbft_block.Common.{
  Unique, ℕ, zero, suc, ◌≡◌, refl, true, false, Bool, none, some, List, [], ◌∷◌, arith, bytes_beq,
  length, is_some, bytes_beq_iff, lookup, insert, bytes_eq,
}
use pbft_block.Text.{Str, codes}
use pbft_block.Text.Base64.{decode_string}
use pbft_block.Msg.{ConsensusMsg, pbft_commit}
use pbft_block.Pns.{
  Node, PermissionedNodeService, load_p_nodes, new_permissioned_node_service,
  judge_con_permissioned,
}
use pbft_block.Pns.Permission.{last_abled}
use pbft_block.Network.Dispatch.{err_decode, err_illegal_sig}
use pbft_block.Network.Sessions.Errors.{
  Step, Settled, steps, step, rounds, new_channel, sends_error, gives_up, gets, stops_reading,
  looks, fails, channel_settles,
}
use pbft_block.Network.Envelope.{send_cons_send_msg}
use pbft_block.Network.Peers.{Peer, PeerSet, new_peer_set, peer, close, register, unregister}
use pbft_block.Network.Peers.Filing.{joins, leaves, change, changes, peer-closed, IsFiled}
use pbft_block.Network.Manager.{
  ProtocolManager, P2pPeer, new_peer, new_protocol_manager, hex_text, peer_info,
}
use pbft_block.Network.Manager.Keys.{author_key, new_peer-author_key}
use pbft_block.Network.Manager.Info.{comes, goes, visits, peer_info_nobody}
use pbft_block.Network.Broadcast.{con_broadcast}
use pbft_block.Network.Broadcast.Reach.{con_broadcast_reaches}
use pbft_block.Tests.Data.{one, two, three, network, commit_from}
use pbft_block.Tests.Library.{sm, sm-IsLawful, co}

abbrev copies : ℕ → List ℕ
copies zero = []
copies (suc n) = 0xC1 ∷ copies n

abbrev pub session : P2pPeer
session = record { node_id = copies 64; node_type = 1 }

abbrev pub session_id : Str
session_id = hex_text session.node_id

-- An entry that was disabled, and the one that counts.
abbrev old_entry : Node
old_entry = record {
  node_id = session_id;
  node_pk = [];
  node_type = codes "TXNode";
  node_status = codes "N_DISABLED";
}

abbrev entry : Node
entry = record {
  node_id = session_id;
  node_pk = author_key sm false;
  node_type = codes "ConsensusNode";
  node_status = codes "N_ABLED";
}

abbrev file : List Node
file = entry ∷ old_entry ∷ []

abbrev pub service : PermissionedNodeService Bool
service = record { p_nodes = load_p_nodes file []; node_prk = true }

built : new_permissioned_node_service true (some file) ≡ some service
unfolding new_permissioned_node_service
built = refl

abbrev manager_with : PeerSet → ProtocolManager Bool
manager_with ps = record {
  network_id = 1;
  peers = ps;
  sub_protocols = record { name = codes "eth"; version = 63; length = 27 } ∷ [];
  subscribed = false;
  quit_sync = false;
  node_type = 1;
  pn_service = service;
}

abbrev pub manager : ProtocolManager Bool
manager = manager_with new_peer_set

last : last_abled session_id file ≡ some entry
unfolding last_abled bytes_beq hex_text
last = refl

new_peer-author_key_example :
    (decode_string (new_peer 63 session manager).node_pk).bytes ≡ 4 ∷ 2 ∷ []
new_peer-author_key_example =
    new_peer-author_key sm sm-IsLawful true file entry manager 63 session false built last refl

pub manager_made : new_protocol_manager 1 service ≡ some manager
unfolding new_protocol_manager
manager_made = refl

peer_info_nobody_example :
    peer_info session.node_id (visits (comes 63 session ∷ goes one ∷ []) manager) ≡ none
peer_info_nobody_example =
    peer_info_nobody 1 service manager (comes 63 session ∷ goes one ∷ []) session.node_id
      manager_made (refl, (tt, tt))

abbrev peer_two : Peer
peer_two = record { id = two; version = 63; node_type = 1; node_pk = [] }

abbrev peer_three : Peer
peer_three = record peer_two { id = three }

found :
    peer two (
      changes
        (joins peer_three ∷ [])
        (close (changes (joins peer_two ∷ leaves three ∷ []) new_peer_set)).1)
    ≡ some peer_two
unfolding peer changes close change register unregister lookup insert bytes_beq
found = refl

peer-closed_example :
    (two ≡ two)
    × (peer two (changes (joins peer_two ∷ leaves three ∷ []) new_peer_set) ≡ some peer_two)
peer-closed_example =
    peer-closed (joins peer_two ∷ leaves three ∷ []) (joins peer_three ∷ []) two peer_two found

abbrev one_peer : PeerSet
one_peer = record { peers = (session_id, record peer_two { id = session_id }) ∷ []; closed = false }

one_peer-IsFiled : IsFiled one_peer
unfolding lookup
one_peer-IsFiled = record {
  unique = (refl, tt);
  own = λ id p h. ground (arith, bytes_beq_iff session_id id);
}

abbrev pub vote : ConsensusMsg
vote = record { msg = pbft_commit (commit_from two true); timestamp = 9; sender = two }

con_broadcast_reaches_example :
    (lookup session_id (con_broadcast sm co network (λ id. 5) vote (manager_with one_peer)).packets
      ≡ send_cons_send_msg sm co 5 vote true)
    × ((con_broadcast sm co network (λ id. 5) vote (manager_with one_peer)).panicked ≡ false)
    × Unique (con_broadcast sm co network (λ id. 5) vote (manager_with one_peer)).packets
unfolding hex_text judge_con_permissioned load_p_nodes lookup insert bytes_beq peer
con_broadcast_reaches_example =
    con_broadcast_reaches sm co network (λ id. 5) vote (manager_with one_peer) session_id
      (omega arith) one_peer-IsFiled

-- Three goroutines fail: the error of the first is read, the other two wait.
abbrev failures : List Step
failures =
    sends_error err_decode
    ∷ sends_error err_illegal_sig
    ∷ gets
    ∷ sends_error err_decode
    ∷ looks
    ∷ []

-- A fourth fails when the channel is closed.
abbrev too_late : List Step
too_late = sends_error err_decode ∷ gives_up err_decode ∷ stops_reading ∷ fails err_decode ∷ []

two_wait : (steps failures new_channel).waiting ≡ err_illegal_sig ∷ err_decode ∷ []
unfolding steps step
two_wait = refl

over : is_some (steps failures new_channel).returned ≡ true
unfolding steps step
over = refl

channel_settles_example : Settled (
    steps too_late (
      steps
        (rounds (suc (length (steps failures new_channel).waiting)))
        (steps failures new_channel)))
channel_settles_example = channel_settles failures too_late over
