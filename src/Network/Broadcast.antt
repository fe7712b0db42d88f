-- ===== src/Network/Broadcast.antt =====
-- The loops of eth/handler.go that send what is posted to every permitted consensus node, and
-- `Returnadd` of eth/utils.go, with which they name the receiver in the log.
pub mod Reach
use pbft_block.Common.{
  ℕ, zero, suc, Bool, true, false, Option, none, some, is_some, List, [], ◌∷◌, ◌++◌, if◌then◌else◌,
  ◌==◌, bytes_eq,
}
use pbft_block.Text.{Str, codes}
use pbft_block.Pns.{judge_con_permissioned}
use pbft_block.Msg.{Checkpoint, ConsensusMsg, ConsensusMsg2}
use pbft_block.Network.Wire.{Packet, Codec, Sm2, TestMsg}
use pbft_block.Network.Envelope.{
  send_cons_send_msg, send_check_point_msg, send_zhuanfa_msg, send_test_send_msg,
  send_test_recive_msg,
}
use pbft_block.Network.Peers.{Peer, get_peers}
use pbft_block.Network.Manager.{ProtocolManager}

abbrev id0 : Str
id0 =
    codes "c1ac603bb0cdb6d2948a9e7cf40dcf86da2cd95644ec34a0b09ff13024859963"
    ++ codes "839ec837969a51ffe3aa51a1e26a2631c61eea788e6a35a01ca73696bb852319"

abbrev id1 : Str
id1 =
    codes "b6736ae4d1734f6d29592f0db4480fd5dd6d98715e0981dbdd2489c14acb5795"
    ++ codes "8cda259bb064662f1237cbf5271cf3ee6dc9ac5afb7b4dad5104e244ce996f08"

abbrev id2 : Str
id2 =
    codes "3ac2a528373f175454830cb57930876d861ea6d9ce24a2aa507b7e6e077fd197"
    ++ codes "71018b95e7bafc8f6a9a66eefb7d6ef9f8a6afa73f84e399741335e541cb8be2"

abbrev id3 : Str
id3 =
    codes "48de9fe6797554d14ab123a26d611326635c49178bf86c86a50cfd807be6735a"
    ++ codes "7c71f78bf6668e563be8315ab1c599ba6bbb20d4cba4a865742773ef46c0b042"

abbrev pub get_elem? : List Str → ℕ → Option Str
get_elem? [] i = none
get_elem? (x ∷ xs) zero = some x
get_elem? (x ∷ xs) (suc i) = get_elem? xs i

abbrev address : List Str → ℕ → Option Str
address peers i = elim (get_elem? peers i) [
  | none ↦ none
  | some port ↦ some (codes "127.0.0.1" ++ port)
]

-- The address of a node by its place in the configuration; `none` for a panic on a place that is not
-- there.
unfoldable pub returnadd : List Str → Str → Option Str
returnadd peers id =
    if id == id0
    then address peers 0
    else if id == id1
    then address peers 1
    else if id == id2
    then address peers 2
    else if id == id3
    then address peers 3
    else some []

-- What went out, to whom, and whether the loop ended the process.
pub record Sent : Type 0 where
  pub packets : List (Str × Packet)
  pub panicked : Bool

abbrev pub nothing_sent : Sent
nothing_sent = record { packets = []; panicked = false }

-- A packet that cannot be made is left out.
abbrev addressed : Str → Option Packet → List (Str × Packet)
addressed id none = []
addressed id (some packet) = (id, packet) ∷ []

-- One round of a loop: which peers are permitted, for which the log has an address, and the packet.
unfoldable pub broadcast_loop :
    (Str → Bool) → (Str → Bool) → (Str → Option Packet) → List Peer → Sent
broadcast_loop may logs make [] = nothing_sent
broadcast_loop may logs make (p ∷ ps) =
    let rest = broadcast_loop may logs make ps in
    if may p.id
    then if logs p.id
      then record { packets = addressed p.id (make p.id) ++ rest.packets; panicked = rest.panicked }
      else record { packets = []; panicked = true }
    else rest

module _ {Prv Pub : Type 0} (sm : Sm2 Prv Pub) (co : Codec) where
  -- `seeds` gives the random bytes that the signature for a peer draws, and `peers` is `Con.Peers`.
  abbrev to_all : List Str → (Str → Prv → Option Packet) → ProtocolManager Prv → Sent
  to_all peers make pm =
      broadcast_loop (judge_con_permissioned pm.pn_service) (λ id. is_some (returnadd peers id))
        (λ id. make id pm.pn_service.node_prk) (get_peers pm.peers)

  -- A loop that writes no log.
  abbrev to_all_unlogged : (Str → Prv → Option Packet) → ProtocolManager Prv → Sent
  to_all_unlogged make pm =
      broadcast_loop (judge_con_permissioned pm.pn_service) (λ id. true)
        (λ id. make id pm.pn_service.node_prk) (get_peers pm.peers)

  -- `BroadcastLoop`.
  unfoldable pub broadcast_test : (Str → ℕ) → TestMsg → ProtocolManager Prv → Sent
  broadcast_test seeds m = to_all_unlogged (λ id. send_test_send_msg sm co (seeds id) m)

  -- What `handleMsg` answers to a test message.
  unfoldable pub answer_test : (Str → ℕ) → TestMsg → ProtocolManager Prv → Sent
  answer_test seeds m = to_all_unlogged (λ id. send_test_recive_msg sm co (seeds id) m)

  -- `ConBroadcastLoop`.
  unfoldable pub con_broadcast : List Str → (Str → ℕ) → ConsensusMsg → ProtocolManager Prv → Sent
  con_broadcast peers seeds m = to_all peers (λ id. send_cons_send_msg sm co (seeds id) m)

  -- `CheckpointBroadcastLoop`.
  unfoldable pub checkpoint_broadcast :
      List Str → (Str → ℕ) → Checkpoint → ProtocolManager Prv → Sent
  checkpoint_broadcast peers seeds m = to_all peers (λ id. send_check_point_msg sm co (seeds id) m)

  -- `ZhuanfaBroadcastLoop`.
  unfoldable pub zhuanfa_broadcast :
      List Str → (Str → ℕ) → ConsensusMsg2 → ProtocolManager Prv → Sent
  zhuanfa_broadcast peers seeds m = to_all peers (λ id. send_zhuanfa_msg sm co (seeds id) m)
