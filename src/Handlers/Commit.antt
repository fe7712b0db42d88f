-- ===== src/Handlers/Commit.antt =====
-- `RecvCommit` of eth/pbft-core.go, which recovers from a panic.
use pbft_block.Common.{
  ℕ, ◌+◌, Bool, not, Option, none, some, List, [], ◌∷◌, leb, ltb, if◌then◌else◌, ◌==◌, bytes_eq,
  ◌++◌, any,
}
use pbft_block.Text.{Str}
use pbft_block.Msg.{Request, Commit, Checkpoint, Effect, checkpoint}
use pbft_block.Worker.{
  Worker, Run, done, fail, stop, and_then, being_selection_leader, commit_view, duplicate_commit,
  no_request, already_onchain, in_v, get_request_from_store, u64,
}
use pbft_block.Cert.{
  msg_id, cert_at, set_cert, get_cert, committed, get_valid_res_from_commit, VotesRes, possitive,
  future_possitive, negative, remove_old_con_msg,
}
use pbft_block.Handlers.Transfer.{send_con_msg_transfer3}

unfoldable pub checkpoint_of : Commit → Worker → Checkpoint
checkpoint_of c w = record {
  sender = w.node_id;
  block_height = c.vr.block_height;
  req_id = c.req_id;
  block_hash = c.vr.block_hash;
}

-- The request is over: a checkpoint is posted and its messages are removed.
unfoldable pub finish : Commit → Worker → Run
finish c w = record {
  node = remove_old_con_msg c.req_id w;
  effects = checkpoint (checkpoint_of c w) ∷ [];
  reply = done;
}

-- The chain grows by one block; the pool of blocks and the request are only read for it.
unfoldable pub insert_block : Worker → Worker
insert_block w = record w { current_block = u64 (w.current_block + 1) }

-- Enough positive votes: the chain grows if the height is above it; if not, the handler is over.
unfoldable pub accept_block : Commit → List Effect → Worker → Run
accept_block c rest w =
    if not w.ready
    then stop w (fail being_selection_leader)
    else if ltb w.current_block c.vr.block_height
    then and_then (finish c (insert_block w)) rest
    else stop w done

unfoldable pub act_on_votes : VotesRes → Commit → List Effect → Worker → Run
act_on_votes possitive c rest w = accept_block c rest w
act_on_votes future_possitive c rest w = and_then (stop w done) rest
act_on_votes negative c rest w = and_then (finish c w) rest

-- The part under "up to committed".
unfoldable pub reach_committed : Commit → Option Request → List Effect → Worker → Run
reach_committed c none rest w = stop w (fail no_request)
reach_committed c (some req) rest w =
    act_on_votes (get_valid_res_from_commit w.n (cert_at (msg_id c.view c.req_id) w)) c rest w

unfoldable pub add_commit : Commit → Worker → Worker
add_commit c w =
    let id = msg_id c.view c.req_id in
    set_cert id (record (cert_at id w) { commit = (cert_at id w).commit ++ c ∷ [] }) w

unfoldable pub count_commit : Commit → List Effect → Worker → Run
count_commit c rest w =
    if committed c.request_digest (msg_id c.view c.req_id) w
    then reach_committed c (get_request_from_store c.request_digest w) rest w
    else and_then (stop w done) rest

abbrev pub committed_by : Str → List Commit → Bool
committed_by s cs = any (λ (c : Commit). c.sender == s) cs

unfoldable pub recv_commit : ℕ → Commit → Worker → Run
recv_commit now c w =
    let id = msg_id c.view c.req_id in
    let w' = get_cert id w in
    if not (in_v c.view w)
    then stop w (fail commit_view)
    else if not w.ready
    then stop w (fail being_selection_leader)
    else if leb c.vr.block_height w.current_block
    then stop w (fail already_onchain)
    else if committed_by c.sender (cert_at id w').commit
    then stop w' (fail duplicate_commit)
    else count_commit c (send_con_msg_transfer3 now c w') (add_commit c w')
