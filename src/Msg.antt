-- ===== src/Msg.antt =====
-- The data of eth/pbft-core.go and eth/worker.go: blocks, requests, the messages of the three
-- phases, and what a handler hands to the event muxes or to a goroutine of its own.
--
-- A pointer that may be nil is an `Option`. A message is posted as the value whose JSON text the
-- source posts (`Tostring`).
use pbft_block.Common.{ℕ, List, Option, Bool, Eq, nat_eq, ◌==◌, ◌≡◌, ◌&&◌, ◌↔◌, true, arith}
use pbft_block.Text.{Str}

pub record Transaction : Type 0 where
  pub string : Str

pub record Receipt : Type 0 where
  pub string : Str

pub record Header : Type 0 where
  pub parent_hash : Str
  pub number : ℕ
  pub coinbase : Str
  pub extra : Str
  pub time : ℕ
  pub chain_name : Str
  pub root : Str

-- `Valid` is only ever compared with 0.
pub record Block : Type 0 where
  pub number : ℕ  -- uint64
  pub valid : ℕ
  pub timee : ℕ
  pub header : Option Header
  pub txs : List (Option Transaction)
  pub uncles : List (Option Header)
  pub receipt : List (Option Receipt)

-- Two arrays of 50 numbers.
pub record TxsExeSequences : Type 0 where
  pub objects_exe_seqs : List ℕ
  pub dependency_tx : List ℕ

pub record Request : Type 0 where
  pub req_id : ℕ  -- uint64
  pub sender : Str
  pub view : ℕ  -- uint64
  pub timestamp : ℕ
  pub block_height : ℕ  -- uint64
  pub block_hash : Str
  pub block_creator : Str
  pub block : Str
  pub real_block : Option Block

pub record PrePrepare : Type 0 where
  pub sender : Str
  pub view : ℕ
  pub timestamp : ℕ
  pub req_id : ℕ
  pub request_digest : Str
  pub request : Option Request

pub record Prepare : Type 0 where
  pub sender : Str
  pub view : ℕ
  pub timestamp : ℕ
  pub req_id : ℕ
  pub request_digest : Str
  pub txs_exe_seqs : Str
  pub real_txs_exe_seqs : Option TxsExeSequences

pub record ValidResultForBlock : Type 0 where
  pub sender : Str
  pub block_height : ℕ
  pub block_hash : Str
  pub block_creator : Str
  pub opinion : Bool
  pub sign : Str

pub record Commit : Type 0 where
  pub sender : Str
  pub view : ℕ
  pub timestamp : ℕ
  pub req_id : ℕ
  pub request_digest : Str
  pub vr : ValidResultForBlock

pub record Checkpoint : Type 0 where
  pub sender : Str
  pub block_height : ℕ
  pub req_id : ℕ
  pub block_hash : Str

-- The key of the certificates: view and request number.
pub record MsgId : Type 0 where
  pub v : ℕ
  pub n : ℕ

abbrev pub msg_id_beq : MsgId → MsgId → Bool
msg_id_beq a b = a.v == b.v && a.n == b.n

pub msg_id_beq_iff : (a b : MsgId) → (msg_id_beq a b ≡ true) ↔ (a ≡ b)
msg_id_beq_iff a b = ground arith

instance abbrev pub msg_id_eq : Eq MsgId
msg_id_eq = record { beq = msg_id_beq; beq_iff = msg_id_beq_iff }

-- What a node has collected for one view and request number.
pub record MsgCert : Type 0 where
  pub pre_prepare : Option PrePrepare
  pub sent_prepare : Bool
  pub prepare : List Prepare
  pub sent_commit : Bool
  pub commit : List Commit
  pub is_prepre : Bool
  pub is_pre : Bool
  pub is_comitt : Bool

-- The value in `ConsensusMsg.Msg`; its constructor is `ConsensusMsg.Type`.
pub data Payload : Type 0 where
  pbft_request : Request → Payload
  pbft_pre_prepare : PrePrepare → Payload
  pbft_prepare : Prepare → Payload
  pbft_commit : Commit → Payload
  con_status_request : Str → Payload

pub record ConsensusMsg : Type 0 where
  pub msg : Payload
  pub timestamp : ℕ
  pub sender : Str

-- A message that is passed on for another sender.
pub record ConsensusMsg2 : Type 0 where
  pub msg : Payload
  pub timestamp : ℕ
  pub sender : Str
  pub newsender : Str

-- What a handler starts with `go`.
pub data Effect : Type 0 where
  post : ConsensusMsg → Effect  -- `PbftMux.Post` of a ConsensusMsg
  forward : ConsensusMsg2 → Effect  -- `PbftMux.Post` of a ConsensusMsg2
  checkpoint : Checkpoint → Effect  -- `mux.Post`
  force_sync : Effect  -- `PbftMux.Post(BlockForceSync{})`
  go_request : Request → Effect
  go_pre_prepare : PrePrepare → Effect
  go_prepare : Prepare → Effect
  go_prepare_not_transfer : Prepare → Effect
  go_commit : Commit → Effect
