-- ===== src/Tests/Data.antt =====
-- A network of four nodes and one request on its way through a node.
use pbft_block.Common.{Bool, true, false, none, some, List, [], ◌∷◌, ◌*◌}
use pbft_block.Text.{Str}
use pbft_block.Msg.{Block, Request, PrePrepare, Prepare, Commit, Checkpoint, MsgCert, MsgId}
use pbft_block.Worker.{Worker, genesis, unset, second}
use pbft_block.Cert.{msg_id, empty_cert}

abbrev pub one : Str
one = 0x31 ∷ []

abbrev pub two : Str
two = 0x32 ∷ []

abbrev pub three : Str
three = 0x33 ∷ []

abbrev pub four : Str
four = 0x34 ∷ []

abbrev pub network : List Str
network = one ∷ two ∷ three ∷ four ∷ []

-- The leader, as it starts.
abbrev pub leader : Worker
leader = record {
  node_id = one;
  n = 4;
  leader = one;
  view = 1;
  ready = true;
  active_view = false;
  chkpt = false;
  mining = 0;
  tx_num_startconsens = 0;
  has_un_deal_txs = false;
  coinbase = [];
  extra = [];
  chain_name = [];
  current_block = 1;
  static_block = genesis;
  last_req_id = 1;
  req_store = [];
  cert_store = [];
  possible_valid_block = [];
  blockbeats = [];
  own_checkpoint_store = [];
  checkpoint_store = [];
  checkpoint_bh = 0;
  commit_store = [];
  consensus = unset;
  lease_beat = 0;
  max_consensus_lifetime = 40 * second;
}

-- A block for the height after the first.
abbrev pub block : Block
block = record {
  number = 2;
  valid = 0;
  timee = 0;
  header = none;
  txs = [];
  uncles = [];
  receipt = [];
}

abbrev pub req : Request
req = record {
  req_id = 7;
  sender = one;
  view = 1;
  timestamp = 0;
  block_height = 2;
  block_hash = two;
  block_creator = one;
  block = [];
  real_block = some block;
}

-- The digest of the request, the text of its number.
abbrev pub digest : Str
digest = 0x37 ∷ []

abbrev pub pre : PrePrepare
pre = record {
  sender = two;
  view = 1;
  timestamp = 0;
  req_id = 7;
  request_digest = digest;
  request = some req;
}

-- A pre-prepare with a digest that is not the request's.
abbrev pub odd : PrePrepare
odd = record pre { request_digest = four }

abbrev pub prepare_from : Str → Prepare
prepare_from s = record {
  sender = s;
  view = 1;
  timestamp = 0;
  req_id = 7;
  request_digest = digest;
  txs_exe_seqs = three;
  real_txs_exe_seqs = none;
}

abbrev pub commit_from : Str → Bool → Commit
commit_from s opinion = record {
  sender = s;
  view = 1;
  timestamp = 0;
  req_id = 7;
  request_digest = digest;
  vr = record {
    sender = s;
    block_height = 2;
    block_hash = two;
    block_creator = one;
    opinion = opinion;
    sign = s;
  };
}

abbrev pub cert_id : MsgId
cert_id = msg_id 1 7

abbrev pub cert_with : List Prepare → List Commit → MsgCert
cert_with prepares commits = record empty_cert {
  pre_prepare = some pre;
  prepare = prepares;
  commit = commits;
}

-- A node that knows the request and has the certificate.
abbrev pub node_with : MsgCert → Worker
node_with cert = record leader { req_store = (digest, req) ∷ []; cert_store = (cert_id, cert) ∷ [] }

-- One prepare short of prepared, and one commit short of committed.
abbrev pub preparing : Worker
preparing = node_with (cert_with (prepare_from one ∷ prepare_from two ∷ []) [])

abbrev pub prepares : List Prepare
prepares = prepare_from one ∷ prepare_from two ∷ prepare_from three ∷ []

abbrev pub committing : Worker
committing = node_with (cert_with prepares (commit_from one true ∷ commit_from two true ∷ []))

abbrev pub decided : Worker
decided =
    node_with (
      cert_with prepares (commit_from one true ∷ commit_from two true ∷ commit_from four true ∷ []))

abbrev pub checkpoint2 : Checkpoint
checkpoint2 = record { sender = two; block_height = 2; req_id = 7; block_hash = two }

-- A node with the block in its pool since time 5.
abbrev pub pooled : Worker
pooled = record leader {
  possible_valid_block = (2, (two, block) ∷ []) ∷ [];
  blockbeats = (two, 5) ∷ [];
}
