-- ===== src/Worker.antt =====
-- The node of eth/worker.go (`worker`) with the package variables of eth/pbft-core.go that its
-- handlers share, its start (`Initt` of eth/star_up.go) and its plain accessors.
--
-- One record holds both, since a process has one worker. Every handler is one step on this record:
-- the locks of the source are the boundaries of what it does alone, and the model takes a whole
-- handler as one such stretch. Time is an argument.
pub mod Quorum
use pbft_block.Common.{
  ℕ, ◌+◌, ◌-◌, ◌*◌, ◌/◌, ◌%◌, ◌^◌, Bool, true, false, Option, none, some, List, [], ◌∷◌, ◌++◌, Map,
  ltb, eqb, if◌then◌else◌, ◌==◌, nat_eq, bytes_eq, lookup,
}
use pbft_block.Text.{Str, codes}
use pbft_block.Text.Hex.{zero_address}
use pbft_block.Msg.{Block, Request, MsgCert, MsgId, Effect}

-- `consensusCtx` with its cancel function: nil, running, or cancelled.
pub data Context : Type 0 where
  unset running cancelled : Context

pub record Worker : Type 0 where
  pub node_id : Str
  pub n : ℕ  -- int
  pub leader : Str
  pub view : ℕ  -- uint64
  pub ready : Bool
  pub active_view : Bool
  pub chkpt : Bool
  pub mining : ℕ  -- int32
  pub tx_num_startconsens : ℕ
  pub has_un_deal_txs : Bool
  pub coinbase : Str
  pub extra : Str
  pub chain_name : Str
  -- `chain.CurrentBlock`, and the package variable `currentblock`
  pub current_block : ℕ  -- uint64
  pub static_block : Block
  pub last_req_id : ℕ  -- uint64
  pub req_store : Map Str Request
  pub cert_store : Map MsgId MsgCert
  pub possible_valid_block : Map ℕ (Map Str Block)
  pub blockbeats : Map Str ℕ
  -- the field `checkpointStore`, and the package variable of that name
  pub own_checkpoint_store : Map Str ℕ
  pub checkpoint_store : Map Str ℕ
  pub checkpoint_bh : ℕ
  pub commit_store : Map ℕ Str
  pub consensus : Context
  pub lease_beat : ℕ
  pub max_consensus_lifetime : ℕ

-- The errors that the handlers return, by their texts.
pub data Error : Type 0 where
  being_selection_leader wrong_leader_or_view req_exists already_onchain : Error
  prepare_view commit_view duplicate_prepare duplicate_commit no_request : Error
  commit_sent already_prepared sign_err cert_is_nil no_consensus_txs : Error
  checkpoint_error consensus_error caught_panic : Error

-- How a handler ends. A panic in a handler that recovers comes back as the error `caught_panic`; in
-- one that does not, it ends the process.
pub data Reply : Type 0 where
  done : Reply
  fail : Error → Reply
  panic : Reply

pub record Run : Type 0 where
  pub node : Worker
  pub effects : List Effect
  pub reply : Reply

abbrev pub stop : Worker → Reply → Run
stop w r = record { node = w; effects = []; reply = r }

-- Effects that were started before the rest of a handler ran.
abbrev pub after : List Effect → Run → Run
after es r = record r { effects = es ++ r.effects }

abbrev pub u64 : ℕ → ℕ
u64 n = n % 2 ^ 64

abbrev pub second : ℕ
second = 1000000000

-- Effects that follow where the part before has not returned an error.
abbrev pub and_then : Run → List Effect → Run
and_then r es = elim r.reply [
  | done ↦ record r { effects = r.effects ++ es }
  | fail e ↦ r
  | panic ↦ r
]

-- The leader that `GetConStatus` returns first.
unfoldable pub primary : Worker → Str
primary w = w.leader

unfoldable pub is_leader : Worker → Bool
is_leader w = w.leader == w.node_id

unfoldable pub in_v : ℕ → Worker → Bool
in_v v w = w.view == v

unfoldable pub set_ready : Bool → Worker → Worker
set_ready flag w = record w { ready = flag }

unfoldable pub set_active_view : Bool → Worker → Worker
set_active_view flag w = record w { active_view = flag }

unfoldable pub set_chkpt : Bool → Worker → Worker
set_chkpt flag w = record w { chkpt = flag }

-- The commit threshold.
unfoldable pub get_quorum : ℕ → ℕ
get_quorum n =
    if ltb n 2 then 10000000 else if eqb n 2 then n else if eqb n 3 then n - 1 else n - n / 3

unfoldable pub get_election_quorum : ℕ → ℕ
get_election_quorum n =
    if ltb n 2 then 10000000 else if eqb n 2 then n else if eqb n 3 then n - 1 else n / 2 + 1

-- Only a larger height replaces the stored one.
unfoldable pub update_checkpoint_bh : ℕ → Worker → Worker
update_checkpoint_bh bh w = if ltb w.checkpoint_bh bh then record w { checkpoint_bh = bh } else w

unfoldable pub update_lease_beat : ℕ → Worker → Worker
update_lease_beat now w = record w { lease_beat = now }

unfoldable pub reset_commit_store : Worker → Worker
reset_commit_store w = record w { commit_store = [] }

unfoldable pub cancel_consensus : Worker → Worker
cancel_consensus w = elim w.consensus [
  | unset ↦ w
  | running ↦ record w { consensus = cancelled }
  | cancelled ↦ w
]

-- A request with a larger number than any before sets `LastReqID`.
unfoldable pub note_req_id : ℕ → Worker → Worker
note_req_id id w = if ltb w.last_req_id id then record w { last_req_id = id } else w

unfoldable pub get_request_from_store : Str → Worker → Option Request
get_request_from_store digest w = lookup digest w.req_store

-- `var currentblock`: number 1, and no header.
abbrev pub genesis : Block
genesis = record {
  number = 1;
  valid = 1;
  timee = 0;
  header = none;
  txs = none ∷ [];
  uncles = none ∷ [];
  receipt = none ∷ [];
}

-- `Initt`: the node at `port` of a network of `peersnum` nodes, whose first port is the leader's.
unfoldable pub initt : Str → Str → ℕ → Worker
initt port leader_port peersnum = record {
  node_id = codes "127.0.0.1" ++ port;
  n = peersnum;
  leader = codes "127.0.0.1" ++ leader_port;
  view = 1;
  ready = true;
  active_view = false;
  chkpt = false;
  mining = 0;
  tx_num_startconsens = 0;
  has_un_deal_txs = false;
  coinbase = zero_address;
  extra = [];
  chain_name = [];
  current_block = 1;
  static_block = genesis;
  last_req_id = 1;
  req_store = [];
  cert_store = [];
  possible_valid_block = [];
  blockbeats = [];
  own_checkpoint_store = [];
  checkpoint_store = [];
  checkpoint_bh = 0;
  commit_store = [];
  consensus = unset;
  lease_beat = 0;
  max_consensus_lifetime = 40 * second;
}
