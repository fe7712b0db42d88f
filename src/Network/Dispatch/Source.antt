-- ===== src/Network/Dispatch/Source.antt =====
-- Who can move a node through `handleMsg` of eth/handler.go: a packet that changes it is signed under
-- the key that the permission file has for the peer.
use pbft_block.Common.{
  ℕ, ◌≡◌, refl, subst, ◌⊎◌, inl, inr, Bool, true, false, none, some, List, [], ltb, eqb, arith,
  if◌then◌else◌, Option-cases,
}
use pbft_block.Text.{Str}
use pbft_block.Text.Base64.{decode_string, decode_letters}
use pbft_block.Pns.{get_pk_by_pid}
use pbft_block.Worker.{Worker}
use pbft_block.Network.Wire.{
  CommunicationInfo, Packet, Rlp, Codec, Sm2, IsLawful, protocol_max_msg_size, test_send_msg,
  test_recive_msg, con_msg, checkpoin, zhuanfa,
}
use pbft_block.Network.Envelope.Validity.{Vouched, validate_sig-Vouched}
use pbft_block.Network.Broadcast.{nothing_sent}
use pbft_block.Network.Peers.{Peer}
use pbft_block.Network.Manager.{ProtocolManager, P2pPeer, new_peer, hex_text}
use pbft_block.Network.Dispatch.{
  Served, Opened, opens, shut, open_info, open_packet, handle_msg, serve_opened,
}

-- The node is as it was, starts nothing and answers nothing.
abbrev pub Idle : Worker → Served → Type 0
Idle w s = (s.node ≡ w) × (s.effects ≡ []) × (s.replies ≡ nothing_sent)

module _ {Prv Pub : Type 0} (sm : Sm2 Prv Pub) (co : Codec) (law : IsLawful sm) where
  -- The packet holds an envelope that is signed under a key.
  pub record From (pub_key : List ℕ) (packet : Packet) : Type 0 where
    pub info : CommunicationInfo
    pub held : co.info.decode packet.payload ≡ some info
    pub vouched : Vouched sm law pub_key info

  pub open_packet-From :
      {A : Type 0} (rlp : Rlp A) (p : Peer) (packet : Packet) (a : A)
      → open_packet sm co rlp p packet ≡ opens a
      → From (decode_string p.node_pk).bytes packet
  unfolding open_info
  open_packet-From rlp p packet a h = elim (Option-cases (co.info.decode packet.payload)) [
    | inl e ↦ ground arith
    | inr (ci, e) ↦ record {
      info = ci;
      held = e;
      vouched = validate_sig-Vouched sm law p.node_pk ci (ground arith);
    }
  ]

  -- A packet of a peer that has no effect, or is signed under the peer's key.
  abbrev Sourced : Peer → Packet → Worker → Served → Type 0
  Sourced p packet w s = Idle w s ⊎ From (decode_string p.node_pk).bytes packet

  serve_opened-Sourced :
      {A : Type 0} (rlp : Rlp A) (p : Peer) (packet : Packet) (f : A → Worker → Served) (w : Worker)
      → Sourced p packet w (serve_opened sm co (open_packet sm co rlp p packet) f w)
  serve_opened-Sourced {A} rlp p packet f w = go (open_packet sm co rlp p packet) refl
    where
      go :
          (o : Opened A)
          → open_packet sm co rlp p packet ≡ o
          → Sourced p packet w (serve_opened sm co o f w)
      go (opens a) e = inr (open_packet-From rlp p packet a e)
      go (shut o) e = inl (refl, refl, refl)

  either-Sourced :
      (p : Peer) (packet : Packet) (w : Worker) (t : Bool) (s s' : Served)
      → Sourced p packet w s
      → Sourced p packet w s'
      → Sourced p packet w (if t then s else s')
  either-Sourced p packet w true s s' h h' = h
  either-Sourced p packet w false s s' h h' = h'

  handle_msg-Sourced :
      (now : ℕ) (date : ℕ → Str) (seeds : Str → ℕ) (pm : ProtocolManager Prv) (p : Peer)
      (packet : Packet) (w : Worker)
      → Sourced p packet w (handle_msg sm co now date seeds pm p packet w)
  unfolding handle_msg
  handle_msg-Sourced now date seeds pm p packet w =
      either-Sourced p packet w (ltb protocol_max_msg_size packet.size) _ _ (inl (refl, refl, refl))
        (either-Sourced p packet w (eqb packet.code test_send_msg) _ _
          (serve_opened-Sourced co.test p packet _ w)
          (either-Sourced p packet w (eqb packet.code test_recive_msg) _ _
            (serve_opened-Sourced co.test p packet _ w)
            (either-Sourced p packet w (eqb packet.code con_msg) _ _
              (serve_opened-Sourced co.cons p packet _ w)
              (either-Sourced p packet w (eqb packet.code checkpoin) _ _
                (serve_opened-Sourced co.check p packet _ w)
                (either-Sourced p packet w (eqb packet.code zhuanfa) _ _
                  (serve_opened-Sourced co.cons2 p packet _ w) (inl (refl, refl, refl)))))))

  -- The key that the permission file has for a node.
  pub record Permitted (pm : ProtocolManager Prv) (node_id : List ℕ) (packet : Packet)
      : Type 0 where
    pub text : Str
    pub in_file : get_pk_by_pid pm.pn_service (hex_text node_id) ≡ some text
    pub signed : From (decode_string (decode_string text).bytes).bytes packet

  unknown_key :
      (version : ℕ) (session : P2pPeer) (pm : ProtocolManager Prv)
      → get_pk_by_pid pm.pn_service (hex_text session.node_id) ≡ none
      → (decode_string (new_peer version session pm).node_pk).bytes ≡ []
  unfolding new_peer decode_string decode_letters
  unknown_key version session pm e = rw (e) refl

  known_key :
      (version : ℕ) (session : P2pPeer) (pm : ProtocolManager Prv) (text : Str)
      → get_pk_by_pid pm.pn_service (hex_text session.node_id) ≡ some text
      → (new_peer version session pm).node_pk ≡ (decode_string text).bytes
  unfolding new_peer
  known_key version session pm text e = rw (e) refl

  From-Permitted :
      (version : ℕ) (session : P2pPeer) (pm : ProtocolManager Prv) (packet : Packet)
      → From (decode_string (new_peer version session pm).node_pk).bytes packet
      → Permitted pm session.node_id packet
  From-Permitted version session pm packet f =
      elim (Option-cases (get_pk_by_pid pm.pn_service (hex_text session.node_id))) [
        | inl e ↦ ground (arith, unknown_key version session pm e, f.vouched.some_key)
        | inr (text, e) ↦ record {
          text = text;
          in_file = e;
          signed =
              subst (λ k. From (decode_string k).bytes packet) (known_key version session pm text e)
                f;
        }
      ]

  -- Take a peer as the manager makes it from a session. A packet that it sends leaves the node as it
  -- is, starts nothing and gets no answer, or the permission file has a key text for the identifier
  -- of the session, and the packet holds an envelope that carries the key to which the text decodes
  -- when it is decoded twice, with a signature that verifies under that key.
  pub handle_msg-Permitted :
      (now : ℕ) (date : ℕ → Str) (seeds : Str → ℕ) (pm : ProtocolManager Prv) (version : ℕ)
      (session : P2pPeer) (packet : Packet) (w : Worker)
      → Idle w (handle_msg sm co now date seeds pm (new_peer version session pm) packet w)
        ⊎ Permitted pm session.node_id packet
  handle_msg-Permitted now date seeds pm version session packet w =
      elim (handle_msg-Sourced now date seeds pm (new_peer version session pm) packet w) [
        | inl idle ↦ inl idle
        | inr f ↦ inr (From-Permitted version session pm packet f)
      ]
