-- ===== src/Node/Progress.antt =====
-- When `RecvPrepare` and `RecvCommit` of eth/pbft-core.go must act: the conditions under which a node
-- commits itself, and its chain grows.
pub mod Acting
use pbft_block.Common.{
  ℕ, ◌+◌, ◌%◌, ◌^◌, ◌≡◌, refl, true, none, some, [], ◌∷◌, ◌&&◌, arith, nat_eq, ltb, eqb, ◌==◌,
  if◌then◌else◌, bytes_eq, lookup, lookup-retain_key, retain,
}
use pbft_block.Msg.{
  Block, Request, Prepare, Commit, MsgId, msg_id_eq, checkpoint, pbft_commit, pbft_prepare,
  go_commit, forward, post,
}
use pbft_block.Worker.{Worker, done, get_request_from_store}
use pbft_block.Cert.{
  msg_id, cert_at, get_cert, set_cert, prepared, committed, get_valid_res_from_commit, possitive,
  get_consensus_tx_exes, remove_old_con_msg,
}
use pbft_block.Handlers.Transfer.{send_con_msg_transfer2, send_con_msg_transfer3}
use pbft_block.Handlers.Prepare.{
  recv_prepare, commit_of, block_of, opinion_on, is_valid, is_exes, vr_sign,
}
use pbft_block.Handlers.Commit.{recv_commit, insert_block, checkpoint_of, add_commit}
use pbft_block.Node.Height.{counted, counted-Frame}
use pbft_block.Node.Prepares.Outgoing.{counted as tallied}
use pbft_block.Node.Progress.Acting.{
  Counts, Tallies, recv_commit-now, counted-above, recv_prepare-now, tallied_keeps,
}

-- Let a ready node get a commit of its view for a height above its chain, from a sender new to
-- the certificate, and let the request, which it has, be committed with it and the votes be
-- positive. Then a checkpoint of the node with the height, number and hash of the commit is posted,
-- and the commit is passed on under the name of its sender unless that is the node itself. The chain
-- gets one block longer (modulo 2^64), exactly the certificates of larger numbers are left, each as
-- it was, and exactly the requests of larger numbers.
pub recv_commit_accepts :
    (now : ℕ) (c : Commit) (req : Request) (w : Worker)
    → Counts c w
    → committed c.request_digest (msg_id c.view c.req_id) (counted c w) ≡ true
    → get_request_from_store c.request_digest (counted c w) ≡ some req
    → get_valid_res_from_commit w.n (cert_at (msg_id c.view c.req_id) (counted c w)) ≡ possitive
    → ((recv_commit now c w).reply ≡ done)
      × ((recv_commit now c w).effects
          ≡ checkpoint (record {
            sender = w.node_id;
            block_height = c.vr.block_height;
            req_id = c.req_id;
            block_hash = c.vr.block_hash;
          })
            ∷ (if c.sender == w.node_id
                then []
                else forward (record {
                  msg = pbft_commit c;
                  timestamp = now;
                  sender = c.sender;
                  newsender = w.node_id;
                })
                  ∷ []))
      × ((recv_commit now c w).node.current_block ≡ (w.current_block + 1) % 2 ^ 64)
      × ((id : MsgId)
          → lookup id (recv_commit now c w).node.cert_store
            ≡ (if ltb c.req_id id.n then lookup id w.cert_store else none))
      × ((recv_commit now c w).node.req_store
          ≡ retain (λ digest (r : Request). ltb c.req_id r.req_id) w.req_store)
unfolding checkpoint_of insert_block send_con_msg_transfer3 remove_old_con_msg add_commit get_cert
    set_cert
recv_commit_accepts now c req w counts all known good =
    let f = counted-Frame c w in
    rw (recv_commit-now now c req w counts all known good) (
      refl,
      ground arith,
      ground (arith, f.current_block),
      λ id. ground (
        arith,
        lookup-retain_key (λ (i : MsgId). ltb c.req_id i.n) id (counted c w).cert_store,
        counted-above c w id,
      ),
      ground arith,
    )

-- Let a ready node get a prepare of its view from a sender new to the certificate, for a request
-- that it has, above its chain, and let it have posted no commit for that height or certificate.
-- If the request is prepared with it and the pool or the request has the block, the node broadcasts a
-- commit of its own and handles it itself, and it passes the prepare on under the name of its sender
-- unless that is the node itself. The commit is for the view, number and digest of the prepare and
-- for the height, hash and creator of the request, and its vote is positive exactly when the field
-- `valid` of the block is 0 and a sequence of transactions is agreed on.
pub recv_prepare_commits :
    (now : ℕ) (p : Prepare) (req : Request) (b : Block) (w : Worker)
    → Tallies p req w
    → prepared p.request_digest (msg_id p.view p.req_id) (tallied p w) ≡ true
    → block_of req (tallied p w) ≡ some b
    → let agrees = get_consensus_tx_exes p.request_digest (msg_id p.view p.req_id) (tallied p w) in
      let c : Commit = record {
        sender = w.node_id;
        view = p.view;
        timestamp = now;
        req_id = p.req_id;
        request_digest = p.request_digest;
        vr = record {
          sender = w.node_id;
          block_height = req.block_height;
          block_hash = req.block_hash;
          block_creator = req.block_creator;
          opinion = eqb b.valid 0 && is_exes agrees;
          sign = w.node_id;
        };
      } in
      (recv_prepare now p w).effects
      ≡ post (record { msg = pbft_commit c; timestamp = now; sender = w.node_id })
        ∷ go_commit c
        ∷ (if p.sender == w.node_id
            then []
            else forward (record {
              msg = pbft_prepare p;
              timestamp = now;
              sender = p.sender;
              newsender = w.node_id;
            })
              ∷ [])
unfolding commit_of vr_sign opinion_on is_valid send_con_msg_transfer2
recv_prepare_commits now p req b w tallies ready found =
    let (_, _, _, same) = tallied_keeps p w in
    rw (recv_prepare-now now p req b w tallies ready found, same) (ground arith)
