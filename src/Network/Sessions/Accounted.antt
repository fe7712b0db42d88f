-- ===== src/Network/Sessions/Accounted.antt =====
-- What a process of eth/handler.go does, from its start on: every step of its node is one that it took
-- of itself, or a packet that is signed under the key of a permitted node.
use pbft_block.Common.{
  ℕ, ◌≡◌, refl, sym, subst, ◌⊎◌, inl, inr, Bool, true, false, Option, none, some, List, [], ◌∷◌,
  ◌++◌, All, if◌then◌else◌, ltb, eqb, arith, Option-cases,
}
use pbft_block.Text.{Str}
use pbft_block.Text.Base64.{decode_string, decode_letters}
use pbft_block.Pns.{PermissionedNodeService, get_pk_by_pid}
use pbft_block.Worker.{Worker}
use pbft_block.Node.{Event, checkpoint}
use pbft_block.Network.Wire.{
  Packet, Rlp, Codec, Sm2, IsLawful, protocol_max_msg_size, con_msg, checkpoin, zhuanfa,
}
use pbft_block.Network.Peers.{Peer, peer}
use pbft_block.Network.Manager.{ProtocolManager, new_protocol_manager, either_text}
use pbft_block.Network.Dispatch.{Opened, opens, shut, open_packet, event_of}
use pbft_block.Network.Dispatch.Source.{From, open_packet-From}
use pbft_block.Network.Dispatch.Traffic.{Input, arrives, own, of_opened, step_of}
use pbft_block.Network.Sessions.{
  Process, Turn, connects, sends, leaves, acts, turn, run_turns, input_of, inputs_of, launched,
}
use pbft_block.Network.Sessions.Replay.{Replays, run_turns-Replays}
use pbft_block.Network.Sessions.Keyed.{IsKeyed, key_for, turn-IsKeyed, new_protocol_manager-IsKeyed}

module _ {Prv Pub : Type 0} (sm : Sm2 Prv Pub) (co : Codec) (law : IsLawful sm) (date : ℕ → Str)
    (service : PermissionedNodeService Prv) where
  -- A packet that is no step, or is signed under a key.
  abbrev Stepped : List ℕ → Packet → Option Event → Type 0
  Stepped pub_key packet e = (e ≡ none) ⊎ From sm co law pub_key packet

  opened-Stepped :
      {A : Type 0} (rlp : Rlp A) (p : Peer) (packet : Packet) (f : A → Option Event)
      → Stepped
          (decode_string p.node_pk).bytes
          packet
          (of_opened sm co date (open_packet sm co rlp p packet) f)
  opened-Stepped {A} rlp p packet f = go (open_packet sm co rlp p packet) refl
    where
      go :
          (o : Opened A)
          → open_packet sm co rlp p packet ≡ o
          → Stepped (decode_string p.node_pk).bytes packet (of_opened sm co date o f)
      go (opens a) e = inr (open_packet-From sm co law rlp p packet a e)
      go (shut o) e = inl refl

  either-Stepped :
      (pub_key : List ℕ) (packet : Packet) (t : Bool) (e e' : Option Event)
      → Stepped pub_key packet e
      → Stepped pub_key packet e'
      → Stepped pub_key packet (if t then e else e')
  either-Stepped pub_key packet true e e' h h' = h
  either-Stepped pub_key packet false e e' h h' = h'

  step_of-Stepped :
      (pm : ProtocolManager Prv) (seeds : Str → ℕ) (p : Peer) (packet : Packet)
      → Stepped
          (decode_string p.node_pk).bytes
          packet
          (step_of sm co date (arrives pm seeds p packet))
  unfolding step_of
  step_of-Stepped pm seeds p packet =
      let k = (decode_string p.node_pk).bytes in
      either-Stepped k packet (ltb protocol_max_msg_size packet.size) _ _ (inl refl) (
        either-Stepped k packet (eqb packet.code con_msg) _ _
          (opened-Stepped co.cons p packet (λ m. event_of co.json m.typ m.msg))
          (either-Stepped k packet (eqb packet.code checkpoin) _ _
            (opened-Stepped co.check p packet (λ c. some (checkpoint c)))
            (either-Stepped k packet (eqb packet.code zhuanfa) _ _
              (opened-Stepped co.cons2 p packet (λ m. event_of co.json m.typ m.msg)) (inl refl))))

  -- The permissions have a key text for the identifier, and the packet is signed under its key.
  pub record SignedBy (id : Str) (packet : Packet) : Type 0 where
    pub text : Str
    pub in_file : get_pk_by_pid service id ≡ some text
    pub signed : From sm co law (decode_string (decode_string text).bytes).bytes packet

  From-SignedBy :
      (id : Str) (packet : Packet)
      → From sm co law (decode_string (key_for service id)).bytes packet
      → SignedBy id packet
  unfolding decode_string decode_letters
  From-SignedBy id packet f = elim (Option-cases (get_pk_by_pid service id)) [
    | inl e ↦ ground (arith, e, f.vouched.some_key)
    | inr (text, e) ↦ record {
      text = text;
      in_file = e;
      signed =
          subst
            (λ o. From sm co law (decode_string (decode_string (either_text o)).bytes).bytes packet)
            e f;
    }
  ]

  -- An own act, a packet that is no step, or one that is signed by the node of its session.
  abbrev pub Accounted : ℕ × Input Prv → Type 0
  Accounted (now, own e) = Unit
  Accounted (now, arrives pm seeds p packet) =
      (step_of sm co date (arrives pm seeds p packet) ≡ none) ⊎ SignedBy p.id packet

  All-append :
      (is js : List (ℕ × Input Prv))
      → All Accounted is
      → All Accounted js
      → All Accounted (is ++ js)
  All-append [] js h h' = h'
  All-append (i ∷ is) js h h' = (h.0, All-append is js h.1 h')

  session-Accounted :
      (now : ℕ) (id : Str) (pm : ProtocolManager Prv) (seeds : Str → ℕ) (p : Peer) (packet : Packet)
      → IsKeyed service pm
      → peer id pm.peers ≡ some p
      → Accounted (now, arrives pm seeds p packet)
  session-Accounted now id pm seeds p packet f there =
      let (own_id, its_key) = f.keyed id p there in
      elim (step_of-Stepped pm seeds p packet) [
        | inl e ↦ inl e
        | inr from ↦ inr (
            subst (λ i. SignedBy i packet) (sym own_id)
              (From-SignedBy id packet
                (subst (λ k. From sm co law (decode_string k).bytes packet) its_key from)))
      ]

  input_of-Accounted :
      (now : ℕ) (t : Turn) (s : Process Prv)
      → IsKeyed service s.manager
      → All Accounted (input_of sm co date now t s)
  unfolding input_of
  input_of-Accounted now (connects version p) s f = tt
  input_of-Accounted now (sends id seeds packet) s f =
      elim (Option-cases (peer id s.manager.peers)) [
        | inl e ↦ rw (input_of, e) tt
        | inr (p, e) ↦ rw (input_of, e) (session-Accounted now id s.manager seeds p packet f e, tt)
      ]
  input_of-Accounted now (leaves id) s f = tt
  input_of-Accounted now (acts e) s f = (tt, tt)

  while_alive :
      (t : Bool) (is : List (ℕ × Input Prv))
      → All Accounted is
      → All Accounted (if t then is else [])
  while_alive true is h = h
  while_alive false is h = tt

  inputs_of-Accounted :
      (ts : List (ℕ × Turn)) (s : Process Prv)
      → IsKeyed service s.manager
      → All Accounted (inputs_of sm co date ts s)
  unfolding inputs_of
  inputs_of-Accounted [] s f = tt
  inputs_of-Accounted ((now, t) ∷ ts) s f = while_alive s.alive _ (
      All-append (input_of sm co date now t s) _ (input_of-Accounted now t s f) (
        inputs_of-Accounted ts (turn sm co date now t s)
          (turn-IsKeyed sm co date service now t s f)))

  -- What a process has done and why.
  pub record Answers (w : Worker) (pm : ProtocolManager Prv) (ts : List (ℕ × Turn)) : Type 0 where
    pub replays :
        Replays sm co date
          (launched w pm)
          (inputs_of sm co date ts (launched w pm))
          (run_turns sm co date ts (launched w pm))
    pub accounted : All Accounted (inputs_of sm co date ts (launched w pm))

  -- Start a process with a new manager for some permissions, and let peers connect, send packets and
  -- leave in any order, with acts of the node itself between them. The state of the node and all that
  -- it has started are those of the run of its handlers over the acts and the packets that were
  -- dispatched while the process was alive. Each of these packets is no step of a handler, or the
  -- permissions have a key text for the identifier of its session, and the packet holds an envelope
  -- with a signature that verifies under the key to which that text decodes when it is decoded twice.
  pub run_turns-Answers :
      (w : Worker) (network_id : ℕ) (pm : ProtocolManager Prv) (ts : List (ℕ × Turn))
      → new_protocol_manager network_id service ≡ some pm
      → Answers w pm ts
  run_turns-Answers w network_id pm ts e = record {
    replays = run_turns-Replays sm co date ts (launched w pm);
    accounted =
        inputs_of-Accounted ts (launched w pm)
          (new_protocol_manager-IsKeyed service network_id pm e);
  }
