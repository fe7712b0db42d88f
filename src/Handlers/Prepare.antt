-- ===== src/Handlers/Prepare.antt =====
-- `RecvPrepare` and `RecvPrepare_notTransfer` of eth/pbft-core.go, which recover from a panic.
use pbft_block.Common.{
  ℕ, Bool, true, false, not, ◌&&◌, Option, none, some, List, [], ◌∷◌, leb, ltb, eqb, if◌then◌else◌,
  ◌==◌, nat_eq, bytes_eq, has, ◌++◌, any, insert, retain,
}
use pbft_block.Text.{Str}
use pbft_block.Msg.{
  Block, Request, Prepare, ValidResultForBlock, Commit, pbft_commit, Effect, go_commit,
}
use pbft_block.Worker.{
  Worker, Run, done, fail, stop, and_then, being_selection_leader, prepare_view, duplicate_prepare,
  no_request, already_onchain, commit_sent, already_prepared, caught_panic, in_v,
  get_request_from_store,
}
use pbft_block.Pool.{get_block}
use pbft_block.Cert.{
  msg_id, cert_at, set_cert, get_cert, prepared, TxExes, exes, err, get_consensus_tx_exes,
}
use pbft_block.Handlers.Transfer.{broadcast, send_con_msg_transfer2}

-- A block is valid if its field is 0.
unfoldable pub is_valid : Block → Bool
is_valid b = eqb b.valid 0

-- `vrsign` signs with the node's name.
unfoldable pub vr_sign : Worker → ValidResultForBlock → ValidResultForBlock
vr_sign w vr = record vr { sign = w.node_id }

-- The block of the pool, or the one in the request.
unfoldable pub block_of : Request → Worker → Option Block
block_of req w = elim (get_block req.block_height req.block_hash w.possible_valid_block) [
  | some block ↦ some block
  | none ↦ req.real_block
]

abbrev pub is_exes : TxExes → Bool
is_exes (exes seq) = true
is_exes (err e) = false

-- Positive for a valid block on whose transactions a quorum agrees.
unfoldable pub opinion_on : Block → Prepare → Worker → Bool
opinion_on block prep w =
    is_valid block
    && is_exes (get_consensus_tx_exes prep.request_digest (msg_id prep.view prep.req_id) w)

unfoldable pub commit_of : ℕ → Prepare → Request → Bool → Worker → Commit
unfolding vr_sign
commit_of now prep req opinion w = record {
  sender = w.node_id;
  view = prep.view;
  timestamp = now;
  req_id = prep.req_id;
  request_digest = prep.request_digest;
  vr = vr_sign w (record {
    sender = w.node_id;
    block_height = req.block_height;
    block_hash = req.block_hash;
    block_creator = req.block_creator;
    opinion = opinion;
    sign = [];
  });
}

-- The height is marked, and heights below the chain's are forgotten.
unfoldable pub mark_commit : ℕ → Str → Worker → Worker
mark_commit height hash w = record w {
  commit_store =
      retain (λ bh h. not (ltb bh w.current_block))
        (if has height w.commit_store then w.commit_store else insert height hash w.commit_store);
}

unfoldable pub send_commit : ℕ → Prepare → Request → Bool → Worker → Run
send_commit now prep req opinion w =
    let id = msg_id prep.view prep.req_id in
    let w' = mark_commit req.block_height req.block_hash w in
    let commit = commit_of now prep req opinion w in
    if has req.block_height w.commit_store then stop w' (fail commit_sent) else record {
      node = set_cert id (record (cert_at id w') { sent_commit = true }) w';
      effects = broadcast now (pbft_commit commit) w' ∷ go_commit commit ∷ [];
      reply = done;
    }

-- With no block to judge, `is_valid` panics.
unfoldable pub judge_block : ℕ → Prepare → Request → Option Block → Worker → Run
judge_block now prep req none w = stop w (fail caught_panic)
judge_block now prep req (some block) w = send_commit now prep req (opinion_on block prep w) w

-- The part under "up to threshold".
unfoldable pub reach_prepared : ℕ → Prepare → Request → Worker → Run
reach_prepared now prep req w =
    if leb req.block_height w.current_block
    then stop w (fail commit_sent)
    else judge_block now prep req (block_of req w) w

unfoldable pub add_prepare : Prepare → Worker → Worker
add_prepare prep w =
    let id = msg_id prep.view prep.req_id in
    set_cert id (record (cert_at id w) { prepare = (cert_at id w).prepare ++ prep ∷ [] }) w

-- The prepare joins the certificate; when that makes it prepared, a commit goes out. Then the rest.
unfoldable pub count_prepare : ℕ → Prepare → Request → List Effect → Worker → Run
count_prepare now prep req rest w =
    let id = msg_id prep.view prep.req_id in
    let w' = add_prepare prep w in
    if prepared prep.request_digest id w && (cert_at id w).sent_commit
    then stop w (fail already_prepared)
    else if prepared prep.request_digest id w' && not (cert_at id w').sent_commit
    then and_then (reach_prepared now prep req w') rest
    else and_then (stop w' done) rest

-- The request that the prepare is for, and its guards.
unfoldable pub find_request : ℕ → Prepare → Option Request → List Effect → Worker → Run
find_request now prep none rest w = stop w (fail no_request)
find_request now prep (some req) rest w =
    if leb req.block_height w.current_block
    then stop w (fail already_onchain)
    else if has req.block_height w.commit_store
    then stop w (fail commit_sent)
    else count_prepare now prep req rest w

abbrev pub prepared_by : Str → List Prepare → Bool
prepared_by s ps = any (λ (p : Prepare). p.sender == s) ps

unfoldable pub recv_prepare : ℕ → Prepare → Worker → Run
recv_prepare now prep w =
    let id = msg_id prep.view prep.req_id in
    let w' = get_cert id w in
    if not (in_v prep.view w)
    then stop w (fail prepare_view)
    else if not w.ready
    then stop w (fail being_selection_leader)
    else if prepared_by prep.sender (cert_at id w').prepare
    then stop w' (fail duplicate_prepare)
    else find_request now prep (get_request_from_store prep.request_digest w')
        (send_con_msg_transfer2 now prep w') w'

-- A sender seen before is no reason to stop, only not to forward.
unfoldable pub recv_prepare_not_transfer : ℕ → Prepare → Worker → Run
recv_prepare_not_transfer now prep w =
    let id = msg_id prep.view prep.req_id in
    let w' = get_cert id w in
    if not (in_v prep.view w)
    then stop w (fail prepare_view)
    else if not w.ready
    then stop w (fail being_selection_leader)
    else find_request now prep (get_request_from_store prep.request_digest w')
        (if prepared_by prep.sender (cert_at id w').prepare
          then []
          else send_con_msg_transfer2 now prep w')
        w'
