-- ===== src/Network/Dispatch.antt =====
-- `handleMsg` of eth/handler.go: from a packet of a peer to a step of the node.
--
-- The part behind the decoding of the envelope runs in a goroutine of its own; it is taken here as
-- one step, whose error ends the session as the errors before it do. A panic in it ends the process.
pub mod Source
pub mod Delivery
pub mod Keyless
pub mod Traffic
pub mod Refinement
pub mod Commitment
use pbft_block.Common.{ℕ, Option, none, some, List, [], ltb, eqb, if◌then◌else◌, ◌==◌, bytes_eq}
use pbft_block.Text.{Str, codes}
use pbft_block.Msg.{Effect}
use pbft_block.Worker.{Worker, Reply, done, fail, panic}
use pbft_block.Node.{Event, request, pre_prepare, prepare, commit, checkpoint, handle}
use pbft_block.Network.Wire.{
  CommunicationInfo, TestMsg, Packet, Rlp, Json, Codec, Sm2, con_msg, checkpoin, zhuanfa,
  test_send_msg, test_recive_msg, protocol_max_msg_size,
}
use pbft_block.Network.Envelope.{valid, invalid, crashed, validate_sig}
use pbft_block.Network.Peers.{Peer}
use pbft_block.Network.Manager.{ProtocolManager}
use pbft_block.Network.Broadcast.{Sent, nothing_sent, answer_test}

pub data ErrCode : Type 0 where
  err_msg_too_large err_decode err_invalid_msg_code err_illegal_sig : ErrCode

pub data Outcome : Type 0 where
  accepted : Outcome
  refused : ErrCode → Outcome
  process_ends : Outcome

pub record Served : Type 0 where
  pub node : Worker
  pub effects : List Effect
  pub replies : Sent
  pub outcome : Outcome

abbrev pub unchanged : Outcome → Worker → Served
unchanged o w = record { node = w; effects = []; replies = nothing_sent; outcome = o }

-- Errors of the handlers are left; a panic that comes through is not.
abbrev outcome_of : Reply → Outcome
outcome_of done = accepted
outcome_of (fail e) = accepted
outcome_of panic = process_ends

unfoldable pub serve_event : ℕ → Event → Worker → Served
serve_event now e w =
    let r = handle now e w in
    record {
      node = r.node;
      effects = r.effects;
      replies = nothing_sent;
      outcome = outcome_of r.reply;
    }

-- The message that a type and a text stand for.
unfoldable pub event_of : Json → Str → Str → Option Event
event_of js typ text =
    if typ == codes "PBFTRequest"
    then some (request (js.to_request text))
    else if typ == codes "PBFTPrePrepare"
    then some (pre_prepare (js.to_pre_prepare text))
    else if typ == codes "PBFTPrepare"
    then some (prepare (js.to_prepare text))
    else if typ == codes "PBFTCommit"
    then some (commit (js.to_commit text))
    else none

-- Other types do nothing to the node.
abbrev pub serve_text : Json → ℕ → Str → Str → Worker → Served
serve_text js now typ text w = elim (event_of js typ text) [
  | none ↦ unchanged accepted w
  | some e ↦ serve_event now e w
]

-- An envelope that is opened, or why it is not.
pub data Opened (A : Type 0) : Type 0 where
  opens : A → Opened A
  shut : Outcome → Opened A

abbrev read_payload : {A : Type 0} → Option A → Opened A
read_payload none = shut (refused err_decode)
read_payload (some a) = opens a

module _ {Prv Pub : Type 0} (sm : Sm2 Prv Pub) (co : Codec) where
  unfoldable pub open_info : {A : Type 0} → Rlp A → Peer → Option CommunicationInfo → Opened A
  open_info rlp p none = shut (refused err_decode)
  open_info rlp p (some ci) = elim (validate_sig sm p.node_pk ci) [
    | valid ↦ read_payload (rlp.decode ci.pay_load)
    | invalid ↦ shut (refused err_illegal_sig)
    | crashed ↦ shut process_ends
  ]

  abbrev pub open_packet : {A : Type 0} → Rlp A → Peer → Packet → Opened A
  open_packet rlp p packet = open_info rlp p (co.info.decode packet.payload)

  abbrev pub serve_opened : {A : Type 0} → Opened A → (A → Worker → Served) → Worker → Served
  serve_opened (opens a) f w = f a w
  serve_opened (shut o) f w = unchanged o w

  abbrev answer : ℕ → (ℕ → Str) → TestMsg
  answer now date = record { msg = codes "TestReciveMsg"; sender = codes "Node2"; time = date now }

  abbrev pub serve_test :
      ℕ → (ℕ → Str) → (Str → ℕ) → ProtocolManager Prv → TestMsg → Worker → Served
  serve_test now date seeds pm m w = record {
    node = w;
    effects = [];
    replies = answer_test sm co seeds (answer now date) pm;
    outcome = accepted;
  }

  -- `date` is `Format("2006/01/02 15:04:05")` of a time.
  unfoldable pub handle_msg :
      ℕ → (ℕ → Str) → (Str → ℕ) → ProtocolManager Prv → Peer → Packet → Worker → Served
  handle_msg now date seeds pm p packet w =
      if ltb protocol_max_msg_size packet.size
      then unchanged (refused err_msg_too_large) w
      else if eqb packet.code test_send_msg
      then serve_opened (open_packet co.test p packet) (serve_test now date seeds pm) w
      else if eqb packet.code test_recive_msg
      then serve_opened (open_packet co.test p packet) (λ m. unchanged accepted) w
      else if eqb packet.code con_msg
      then serve_opened (open_packet co.cons p packet) (λ m. serve_text co.json now m.typ m.msg) w
      else if eqb packet.code checkpoin
      then serve_opened (open_packet co.check p packet) (λ c. serve_event now (checkpoint c)) w
      else if eqb packet.code zhuanfa
      then serve_opened (open_packet co.cons2 p packet) (λ m. serve_text co.json now m.typ m.msg) w
      else unchanged (refused err_invalid_msg_code) w
