-- ===== src/Network/Dispatch/Delivery.antt =====
-- What a node sends and what the receiver of the packet does: the `Send` methods of eth/peer.go
-- against `handleMsg` of eth/handler.go.
use pbft_block.Common.{
  ℕ, ◌≡◌, refl, ◌≤◌, ◌^◌, ◌%◌, bytes_beq, Option, none, some, List, arith, length, Option-cases,
  inl, inr,
}
use pbft_block.Text.{Str}
use pbft_block.Text.Base64.{decode_string}
use pbft_block.Msg.{
  Payload, pbft_request, pbft_pre_prepare, pbft_prepare, pbft_commit, con_status_request, Effect,
  post, forward, force_sync, go_request, go_pre_prepare, go_prepare, go_prepare_not_transfer,
  go_commit,
}
use pbft_block.Worker.{Worker}
use pbft_block.Node.{Event, request, pre_prepare, prepare, commit, checkpoint}
use pbft_block.Network.Wire.{
  CommunicationInfo, Packet, Rlp, Json, Codec, Sm2, IsLawful, protocol_max_msg_size, con_msg,
  checkpoin, zhuanfa, wire_of, wire2_of, type_of,
}
use pbft_block.Network.Envelope.{
  sign_info, sign_raw_data, send_signed, send_cons_send_msg, send_zhuanfa_msg, send_check_point_msg,
}
use pbft_block.Network.Envelope.Validity.{validate_sig-sign_info}
use pbft_block.Network.Peers.{Peer}
use pbft_block.Network.Manager.{ProtocolManager}
use pbft_block.Network.Dispatch.{
  opens, open_info, open_packet, unchanged, accepted, handle_msg, serve_event, event_of, Served,
}

-- The step of the receiver that a posted message is meant for.
abbrev pub meant : Payload → Option Event
meant (pbft_request r) = some (request r)
meant (pbft_pre_prepare p) = some (pre_prepare p)
meant (pbft_prepare p) = some (prepare p)
meant (pbft_commit c) = some (commit c)
meant (con_status_request id) = none

abbrev pub served_by : ℕ → Option Event → Worker → Served
served_by now none w = unchanged accepted w
served_by now (some e) w = serve_event now e w

-- JSON reads the text of the message back.
abbrev pub JsonReads : Json → Payload → Type 0
JsonReads js (pbft_request r) = js.to_request (js.tostring (pbft_request r)) ≡ r
JsonReads js (pbft_pre_prepare p) = js.to_pre_prepare (js.tostring (pbft_pre_prepare p)) ≡ p
JsonReads js (pbft_prepare p) = js.to_prepare (js.tostring (pbft_prepare p)) ≡ p
JsonReads js (pbft_commit c) = js.to_commit (js.tostring (pbft_commit c)) ≡ c
JsonReads js (con_status_request id) = Unit

event_of-type_of :
    (js : Json) (m : Payload) → JsonReads js m → event_of js (type_of m) (js.tostring m) ≡ meant m
unfolding event_of bytes_beq
event_of-type_of js (pbft_request r) reads = rw reads refl
event_of-type_of js (pbft_pre_prepare p) reads = rw reads refl
event_of-type_of js (pbft_prepare p) reads = rw reads refl
event_of-type_of js (pbft_commit c) reads = rw reads refl
event_of-type_of js (con_status_request id) reads = refl

module _ {Prv Pub : Type 0} (sm : Sm2 Prv Pub) (co : Codec) where
  -- RLP reads an encoding back as the message `b` (a time is lost on the way), and an envelope as it
  -- is.
  abbrev pub Reads : {A : Type 0} → Rlp A → A → A → Type 0
  Reads {A} rlp a b = (bytes : List ℕ) → rlp.encode a ≡ some bytes → rlp.decode bytes ≡ some b

  abbrev pub InfoReads : Type 0
  InfoReads = (ci : CommunicationInfo) → Reads co.info ci ci

  abbrev pub Knows : Peer → Prv → Type 0
  Knows p prv = (decode_string p.node_pk).bytes ≡ sm.marshal (sm.public_key prv)

  -- The packet for a thing that a handler posts, by the loop that its type subscribes.
  abbrev pub packet_for : ℕ → Effect → Prv → Option Packet
  packet_for seed (post m) prv = send_cons_send_msg sm co seed m prv
  packet_for seed (forward m) prv = send_zhuanfa_msg sm co seed m prv
  packet_for seed (Effect.checkpoint c) prv = send_check_point_msg sm co seed c prv
  packet_for seed _ prv = none

  abbrev pub step_for : Effect → Option Event
  step_for (post m) = meant m.msg
  step_for (forward m) = meant m.msg
  step_for (Effect.checkpoint c) = some (checkpoint c)
  step_for _ = none

  -- RLP and JSON read the message back, but for the time `t` that stands for the one lost.
  abbrev pub EffectReads : ℕ → Effect → Type 0
  EffectReads t (post m) =
      Reads co.cons (wire_of co m) (record (wire_of co m) { timestamp = t })
      × JsonReads co.json m.msg
  EffectReads t (forward m) =
      Reads co.cons2 (wire2_of co m) (record (wire2_of co m) { timestamp = t })
      × JsonReads co.json m.msg
  EffectReads t (Effect.checkpoint c) = Reads co.check c c
  EffectReads t _ = Unit

module _ {Prv Pub : Type 0} (sm : Sm2 Prv Pub) (co : Codec) (law : IsLawful sm) where
  open_packet-send_signed :
      {A : Type 0} (rlp : Rlp A) (code seed : ℕ) (a b : A) (prv : Prv) (p : Peer) (packet : Packet)
      → InfoReads sm co
      → Reads sm co rlp a b
      → Knows sm co p prv
      → send_signed sm co rlp code seed a prv ≡ some packet
      → (packet.code ≡ code)
        × (packet.size ≡ length packet.payload % 2 ^ 32)
        × (open_packet sm co rlp p packet ≡ opens b)
  unfolding send_signed sign_raw_data open_info
  open_packet-send_signed rlp code seed a b prv p packet info reads knows sent =
      elim (Option-cases (rlp.encode a)) [
        | inl e ↦ ground arith
        | inr (bytes, e) ↦ elim (Option-cases (sign_info sm seed bytes prv)) [
          | inl e' ↦ ground arith
          | inr (ci, e') ↦ ground (
            arith,
            reads bytes e,
            info ci packet.payload,
            validate_sig-sign_info sm law seed bytes p.node_pk prv ci e' knows,
            Option-cases (co.info.encode ci),
          )
        ]
      ]

  -- Let a node post a message, a forwarded message or a checkpoint, sign it with its key and get a
  -- packet that is not too large. Where the libraries read their own encodings back, a node that
  -- knows the key of the sender does, on the packet, exactly the step that the message is meant for;
  -- on a request for the state, which has none, it does nothing.
  pub handle_msg-packet_for :
      (now : ℕ) (date : ℕ → Str) (seeds : Str → ℕ) (pm : ProtocolManager Prv) (p : Peer)
      (packet : Packet) (w : Worker) (seed t : ℕ) (e : Effect) (prv : Prv)
      → InfoReads sm co
      → EffectReads sm co t e
      → Knows sm co p prv
      → packet_for sm co seed e prv ≡ some packet
      → packet.size ≤ protocol_max_msg_size
      → handle_msg sm co now date seeds pm p packet w ≡ served_by now (step_for sm co e) w
  unfolding handle_msg
  handle_msg-packet_for now date seeds pm p packet w seed t (post m) prv info reads knows sent
        small =
      ground (
        arith,
        open_packet-send_signed co.cons con_msg seed (wire_of co m)
            (record (wire_of co m) { timestamp = t }) prv p packet info reads.0 knows sent,
        event_of-type_of co.json m.msg reads.1,
        Option-cases (meant m.msg),
      )
  handle_msg-packet_for now date seeds pm p packet w seed t (forward m) prv info reads knows sent
        small =
      ground (
        arith,
        open_packet-send_signed co.cons2 zhuanfa seed (wire2_of co m)
            (record (wire2_of co m) { timestamp = t }) prv p packet info reads.0 knows sent,
        event_of-type_of co.json m.msg reads.1,
        Option-cases (meant m.msg),
      )
  handle_msg-packet_for now date seeds pm p packet w seed t (Effect.checkpoint c) prv info reads
        knows sent small =
      ground (
        arith,
        open_packet-send_signed co.check checkpoin seed c c prv p packet info reads knows sent,
      )
  handle_msg-packet_for now date seeds pm p packet w seed t force_sync prv info reads knows sent
        small =
      ground arith
  handle_msg-packet_for now date seeds pm p packet w seed t (go_request _) prv info reads knows sent
        small =
      ground arith
  handle_msg-packet_for now date seeds pm p packet w seed t (go_pre_prepare _) prv info reads knows
        sent small =
      ground arith
  handle_msg-packet_for now date seeds pm p packet w seed t (go_prepare _) prv info reads knows sent
        small =
      ground arith
  handle_msg-packet_for now date seeds pm p packet w seed t (go_prepare_not_transfer _) prv info
        reads knows sent small =
      ground arith
  handle_msg-packet_for now date seeds pm p packet w seed t (go_commit _) prv info reads knows sent
        small =
      ground arith
