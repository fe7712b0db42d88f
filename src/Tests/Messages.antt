-- ===== src/Tests/Messages.antt =====
-- Requests, pre-prepares, prepares and checkpoints.
use pbft_block.Common.{
  ◌≤◌, ◌≡◌, ◌≢◌, ◌↔◌, refl, true, none, some, ◌&&◌, eqb, [], ◌∷◌, ◌++◌, arith, lookup, insert,
  bytes_eq, bytes_beq, nat_eq, leb, if◌then◌else◌, retain,
}
use pbft_block.Text.{Str}
use pbft_block.Text.Itoa.{itoa}
use pbft_block.Msg.{Block, Request, Prepare, Commit, msg_id_eq}
use pbft_block.Worker.{
  stop, fail, done, panic, duplicate_prepare, checkpoint_error, get_quorum, in_v, note_req_id,
  get_request_from_store, update_lease_beat, update_checkpoint_bh,
}
use pbft_block.Pool.{get_block}
use pbft_block.Cert.{
  cert_at, get_cert, set_cert, pre_prepared, prepared, msg_id, get_consensus_tx_exes, tx_exe_counts,
  best,
}
use pbft_block.Cert.Txs.{txs_votes}
use pbft_block.Handlers.Transfer.{send_con_msg_transfer2}
use pbft_block.Handlers.Request.{recv_request, accept_request, propose, store_request, new_hash_req}
use pbft_block.Handlers.PrePrepare.{recv_pre_prepare}
use pbft_block.Handlers.Prepare.{
  recv_prepare, recv_prepare_not_transfer, find_request, count_prepare, reach_prepared, judge_block,
  send_commit, mark_commit, add_prepare, commit_of, vr_sign, opinion_on, is_valid, is_exes,
  block_of,
}
use pbft_block.Handlers.Checkpoint.{recv_checkpoint}
use pbft_block.Node.Requests.{Admissible, recv_request_panics}
use pbft_block.Node.PrePrepares.{recv_pre_prepare_stores}
use pbft_block.Node.Prepares.Outgoing.{commits_out, counted}
use pbft_block.Node.Prepares.{recv_prepare_votes, recv_prepare_approves}
use pbft_block.Handlers.Txs.{txs_exe_of, txs_exe_to_string}
use pbft_block.Node.Retries.{recv_prepare-Again}
use pbft_block.Node.Checkpoints.{recv_checkpoint_leaves}
use pbft_block.Tests.Data.{
  two, three, four, leader, block, req, odd, prepare_from, preparing, pooled, checkpoint2,
}

abbrev no_block : Request
no_block = record req { real_block = none }

recv_request_panics_example :
    ((recv_request 9 no_block leader).reply ≡ panic)
    ↔ (Admissible no_block leader × (no_block.real_block ≡ none))
recv_request_panics_example = recv_request_panics 9 no_block leader

-- A request of the leader with no block.
panics : (recv_request 9 no_block leader).reply ≡ panic
unfolding recv_request accept_request propose new_hash_req itoa note_req_id bytes_beq lookup in_v
    store_request
panics = refl

recv_pre_prepare_stores_example :
    (recv_pre_prepare 9 odd leader).node.req_store ≡ insert four req []
recv_pre_prepare_stores_example =
    recv_pre_prepare_stores 9 odd req leader refl
      (refl, refl, unfold lookup in refl, refl, omega arith, omega arith)

abbrev answer : Prepare
answer = record {
  sender = leader.node_id;
  view = odd.view;
  timestamp = 9;
  req_id = odd.req_id;
  request_digest = odd.request_digest;
  txs_exe_seqs = txs_exe_to_string (txs_exe_of block);
  real_txs_exe_seqs = some (txs_exe_of block);
}

-- The third prepare makes the node commit itself, with a positive vote.
abbrev third_commit : Commit
third_commit = record {
  sender = preparing.node_id;
  view = (prepare_from three).view;
  timestamp = 9;
  req_id = (prepare_from three).req_id;
  request_digest = (prepare_from three).request_digest;
  vr = record {
    sender = preparing.node_id;
    block_height = req.block_height;
    block_hash = req.block_hash;
    block_creator = req.block_creator;
    opinion = true;
    sign = preparing.node_id;
  };
}

third :
    commits_out (recv_prepare 9 (prepare_from three) preparing).effects
    ≡ third_commit ∷ third_commit ∷ []
unfolding recv_prepare find_request count_prepare reach_prepared judge_block send_commit mark_commit
    add_prepare commit_of vr_sign get_cert set_cert cert_at in_v get_request_from_store prepared
    pre_prepared get_quorum block_of get_block opinion_on is_valid get_consensus_tx_exes
    tx_exe_counts best lookup insert retain send_con_msg_transfer2 bytes_beq
third = refl

recv_prepare_votes_example :
    let p = prepare_from three in
    (commits_out (recv_prepare 9 p preparing).effects ≡ third_commit ∷ third_commit ∷ [])
    × (prepared p.request_digest (msg_id p.view p.req_id) (counted p preparing) ≡ true)
    × ((r : Request) × (b : Block) × (get_request_from_store p.request_digest (counted p preparing)
          ≡ some r)
        × (block_of r (counted p preparing) ≡ some b)
        × (third_commit ≡ record {
          sender = preparing.node_id;
          view = p.view;
          timestamp = 9;
          req_id = p.req_id;
          request_digest = p.request_digest;
          vr = record {
            sender = preparing.node_id;
            block_height = r.block_height;
            block_hash = r.block_hash;
            block_creator = r.block_creator;
            opinion =
                eqb b.valid 0
                && is_exes (
                    get_consensus_tx_exes p.request_digest
                      (msg_id p.view p.req_id)
                      (counted p preparing));
            sign = preparing.node_id;
          };
        }))
recv_prepare_votes_example =
    recv_prepare_votes 9 (prepare_from three) preparing third_commit [] (third_commit ∷ []) third

recv_prepare_approves_example :
    let p = prepare_from three in
    ((r : Request) × (b : Block) × (get_request_from_store p.request_digest (counted p preparing)
        ≡ some r)
      × (block_of r (counted p preparing) ≡ some b)
      × (b.valid ≡ 0))
    × ((seq : Str) × (seq ≢ [])
        × (get_quorum (counted p preparing).n
            ≤ txs_votes p.request_digest
                (msg_id p.view p.req_id)
                seq
                (cert_at (msg_id p.view p.req_id) (counted p preparing)).prepare))
recv_prepare_approves_example =
    recv_prepare_approves 9 (prepare_from three) preparing third_commit [] (third_commit ∷ []) third
      refl

recv_prepare-Again_example :
    let p = prepare_from two in
    (recv_prepare 9 p preparing ≡ stop preparing (fail duplicate_prepare))
    × ((cert_at (msg_id p.view p.req_id) (recv_prepare_not_transfer 9 p preparing).node).prepare
        ≡ (cert_at (msg_id p.view p.req_id) preparing).prepare ++ p ∷ [])
unfolding in_v cert_at lookup get_request_from_store bytes_beq prepared pre_prepared get_quorum
recv_prepare-Again_example =
    recv_prepare-Again 9 (prepare_from two) req preparing
      (refl, refl, refl, refl, omega arith, refl, refl)

checkpoint_taken : (recv_checkpoint 9 checkpoint2 pooled).reply ≡ done
unfolding recv_checkpoint lookup update_lease_beat update_checkpoint_bh
checkpoint_taken = refl

recv_checkpoint_leaves_example :
    (get_block 2 two (recv_checkpoint 9 checkpoint2 pooled).node.possible_valid_block ≡ (
      if leb 2 checkpoint2.block_height then none else get_block 2 two pooled.possible_valid_block))
    × (lookup checkpoint2.block_hash (recv_checkpoint 9 checkpoint2 pooled).node.checkpoint_store
        ≡ some checkpoint2.block_height)
    × (lookup checkpoint2.block_hash (recv_checkpoint 9 checkpoint2 pooled).node.blockbeats ≡ none)
    × ((recv_checkpoint 11 checkpoint2 (recv_checkpoint 9 checkpoint2 pooled).node).reply
        ≡ fail checkpoint_error)
recv_checkpoint_leaves_example =
    recv_checkpoint_leaves 9 11 2 two checkpoint2 pooled tt checkpoint_taken
