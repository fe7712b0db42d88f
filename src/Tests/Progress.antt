-- ===== src/Tests/Progress.antt =====
-- The third prepare and the third commit of four nodes.
use pbft_block.Common.{
  ◌≡◌, ◌+◌, ◌%◌, ◌^◌, refl, true, none, [], ◌∷◌, arith, bytes_beq, bytes_eq, ◌==◌, if◌then◌else◌,
  ltb, lookup, insert, mem, retain,
}
use pbft_block.Msg.{
  Request, Commit, MsgId, pbft_prepare, forward, post, checkpoint, pbft_commit, go_commit,
  msg_id_eq,
}
use pbft_block.Worker.{done, in_v, get_request_from_store, get_quorum}
use pbft_block.Pool.{get_block}
use pbft_block.Cert.{
  cert_at, get_cert, set_cert, pre_prepared, prepared, committed, commit_quorum, tally,
  get_valid_res_from_commit, get_consensus_tx_exes, tx_exe_counts, best,
}
use pbft_block.Handlers.Prepare.{recv_prepare, add_prepare, block_of}
use pbft_block.Handlers.Commit.{recv_commit, add_commit}
use pbft_block.Node.Progress.{recv_commit_accepts, recv_prepare_commits}
use pbft_block.Tests.Data.{three, block, req, prepare_from, commit_from, preparing, committing}

recv_commit_accepts_example :
    let c = commit_from three true in
    let after = recv_commit 9 c committing in
    (after.reply ≡ done)
    × (after.effects
        ≡ checkpoint (record {
          sender = committing.node_id;
          block_height = c.vr.block_height;
          req_id = c.req_id;
          block_hash = c.vr.block_hash;
        })
          ∷ (if c.sender == committing.node_id
              then []
              else forward (record {
                msg = pbft_commit c;
                timestamp = 9;
                sender = c.sender;
                newsender = committing.node_id;
              })
                ∷ []))
    × (after.node.current_block ≡ (committing.current_block + 1) % 2 ^ 64)
    × ((id : MsgId)
        → lookup id after.node.cert_store
          ≡ (if ltb c.req_id id.n then lookup id committing.cert_store else none))
    × (after.node.req_store
        ≡ retain (λ digest (r : Request). ltb c.req_id r.req_id) committing.req_store)
unfolding bytes_beq lookup insert mem in_v get_request_from_store get_quorum cert_at get_cert
    set_cert pre_prepared prepared committed commit_quorum tally get_valid_res_from_commit
    add_commit
recv_commit_accepts_example =
    recv_commit_accepts 9 (commit_from three true) req committing (refl, refl, omega arith, refl)
      refl refl refl

-- The commit that the third prepare brings about.
abbrev own_commit : Commit
own_commit = record {
  sender = preparing.node_id;
  view = (prepare_from three).view;
  timestamp = 9;
  req_id = (prepare_from three).req_id;
  request_digest = (prepare_from three).request_digest;
  vr = record {
    sender = preparing.node_id;
    block_height = req.block_height;
    block_hash = req.block_hash;
    block_creator = req.block_creator;
    opinion = true;
    sign = preparing.node_id;
  };
}

recv_prepare_commits_example :
    let p = prepare_from three in
    (recv_prepare 9 p preparing).effects
    ≡ post (record { msg = pbft_commit own_commit; timestamp = 9; sender = preparing.node_id })
      ∷ go_commit own_commit
      ∷ (if p.sender == preparing.node_id
          then []
          else forward (record {
            msg = pbft_prepare p;
            timestamp = 9;
            sender = p.sender;
            newsender = preparing.node_id;
          })
            ∷ [])
unfolding bytes_beq lookup insert in_v get_request_from_store get_quorum cert_at get_cert set_cert
    pre_prepared prepared add_prepare block_of get_block get_consensus_tx_exes tx_exe_counts best
recv_prepare_commits_example =
    recv_prepare_commits 9 (prepare_from three) req block preparing
      (refl, refl, refl, refl, omega arith, refl, refl) refl refl
