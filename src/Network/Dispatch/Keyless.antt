-- ===== src/Network/Dispatch/Keyless.antt =====
-- A signature that names no key, in `handleMsg` of eth/handler.go.
use pbft_block.Common.{ℕ, ◌≡◌, ◌≤◌, ◌⊎◌, some, List, [], arith}
use pbft_block.Text.{Str}
use pbft_block.Worker.{Worker}
use pbft_block.Network.Wire.{
  CommunicationInfo, Packet, Rlp, Codec, Sm2, IsLawful, protocol_max_msg_size, test_send_msg,
  test_recive_msg, con_msg, checkpoin, zhuanfa,
}
use pbft_block.Network.Envelope.Validity.{validate_sig-crashed}
use pbft_block.Network.Peers.{Peer}
use pbft_block.Network.Manager.{ProtocolManager}
use pbft_block.Network.Dispatch.{shut, process_ends, open_info, open_packet, unchanged, handle_msg}

-- A code of the protocol that the node reads an envelope for.
abbrev pub IsRead : ℕ → Type 0
IsRead c =
    (c ≡ test_send_msg) ⊎ (c ≡ test_recive_msg) ⊎ (c ≡ con_msg) ⊎ (c ≡ checkpoin) ⊎ (c ≡ zhuanfa)

module _ {Prv Pub : Type 0} (sm : Sm2 Prv Pub) (co : Codec) (law : IsLawful sm) where
  open_packet-crashed :
      {A : Type 0} (rlp : Rlp A) (p : Peer) (packet : Packet) (ci : CommunicationInfo)
      (sdata : List ℕ)
      → co.info.decode packet.payload ≡ some ci
      → ci.sig.v ≡ []
      → sm.sign_digit_to_sign_data [] ci.sig.r ci.sig.s ≡ some sdata
      → open_packet sm co rlp p packet ≡ shut process_ends
  unfolding open_info
  open_packet-crashed rlp p packet ci sdata held empty joined =
      ground (arith, validate_sig-crashed sm law p.node_pk ci sdata empty joined)

  -- Let a packet that is not too large have a code that envelopes are read for, and hold an envelope
  -- whose signature names no key and can be joined. Then it ends the process, whoever the peer is.
  pub handle_msg-crashed :
      (now : ℕ) (date : ℕ → Str) (seeds : Str → ℕ) (pm : ProtocolManager Prv) (p : Peer)
      (packet : Packet) (w : Worker) (ci : CommunicationInfo) (sdata : List ℕ)
      → packet.size ≤ protocol_max_msg_size
      → IsRead packet.code
      → co.info.decode packet.payload ≡ some ci
      → ci.sig.v ≡ []
      → sm.sign_digit_to_sign_data [] ci.sig.r ci.sig.s ≡ some sdata
      → handle_msg sm co now date seeds pm p packet w ≡ unchanged process_ends w
  unfolding handle_msg
  handle_msg-crashed now date seeds pm p packet w ci sdata small read held empty joined = ground (
    arith,
    open_packet-crashed co.test p packet ci sdata held empty joined,
    open_packet-crashed co.cons p packet ci sdata held empty joined,
    open_packet-crashed co.check p packet ci sdata held empty joined,
    open_packet-crashed co.cons2 p packet ci sdata held empty joined,
  )
