-- ===== src/Node/Progress/Acting.antt =====
-- The runs of `RecvPrepare` and `RecvCommit` of eth/pbft-core.go where they act, by their parts.
use pbft_block.Common.{
  ℕ, ◌<◌, ◌≡◌, true, false, some, List, [], ◌∷◌, ◌++◌, arith, has, nat_eq, bytes_eq, lookup,
  lookup-insert,
}
use pbft_block.Msg.{
  Block, Request, Prepare, Commit, Effect, MsgId, msg_id_eq, checkpoint, pbft_commit, go_commit,
}
use pbft_block.Worker.{Worker, done, in_v, get_request_from_store}
use pbft_block.Cert.{
  msg_id, cert_at, get_cert, set_cert, prepared, committed, get_valid_res_from_commit, possitive,
  remove_old_con_msg, empty_cert,
}
use pbft_block.Handlers.Transfer.{broadcast, send_con_msg_transfer2, send_con_msg_transfer3}
use pbft_block.Handlers.Prepare.{
  recv_prepare, find_request, count_prepare, reach_prepared, judge_block, send_commit, mark_commit,
  add_prepare, commit_of, block_of, opinion_on, prepared_by,
}
use pbft_block.Handlers.Commit.{
  recv_commit, count_commit, reach_committed, act_on_votes, accept_block, finish, insert_block,
  checkpoint_of, committed_by, add_commit,
}
use pbft_block.Node.Frame.{get_cert-Frame, set_cert-Frame}
use pbft_block.Node.Height.{counted, counted-Frame}
use pbft_block.Node.Retries.{cert_at-set_cert}
use pbft_block.Node.Prepares.Outgoing.{counted as tallied}

-- A commit that this node counts: of its view, above its chain, from a sender that is new.
abbrev pub Counts : Commit → Worker → Type 0
Counts c w =
    (in_v c.view w ≡ true)
    × (w.ready ≡ true)
    × (w.current_block < c.vr.block_height)
    × (committed_by c.sender
          (cert_at (msg_id c.view c.req_id) (get_cert (msg_id c.view c.req_id) w)).commit
        ≡ false)

accept_now :
    (c : Commit) (req : Request) (rest : List Effect) (w : Worker)
    → w.ready ≡ true
    → w.current_block < c.vr.block_height
    → get_valid_res_from_commit w.n (cert_at (msg_id c.view c.req_id) w) ≡ possitive
    → reach_committed c (some req) rest w ≡ record {
      node = remove_old_con_msg c.req_id (insert_block w);
      effects = checkpoint (checkpoint_of c (insert_block w)) ∷ rest;
      reply = done;
    }
unfolding reach_committed act_on_votes accept_block finish
accept_now c req rest w ready above good = rw good (ground arith)

-- The run of the handler, by its parts.
pub recv_commit-now :
    (now : ℕ) (c : Commit) (req : Request) (w : Worker)
    → Counts c w
    → committed c.request_digest (msg_id c.view c.req_id) (counted c w) ≡ true
    → get_request_from_store c.request_digest (counted c w) ≡ some req
    → get_valid_res_from_commit w.n (cert_at (msg_id c.view c.req_id) (counted c w)) ≡ possitive
    → recv_commit now c w ≡ record {
      node = remove_old_con_msg c.req_id (insert_block (counted c w));
      effects = checkpoint (checkpoint_of c w) ∷ send_con_msg_transfer3 now c w;
      reply = done;
    }
unfolding recv_commit count_commit checkpoint_of insert_block send_con_msg_transfer3
recv_commit-now now c req w counts all known good =
    let id = msg_id c.view c.req_id in
    let f = counted-Frame c w in
    let g = get_cert-Frame id w in
    ground (
      arith,
      f.ready,
      f.current_block,
      f.n,
      f.node_id,
      g.node_id,
      accept_now c req (send_con_msg_transfer3 now c (get_cert id w)) (counted c w),
    )

-- The certificates of larger numbers are those from before the handler.
pub counted-above :
    (c : Commit) (w : Worker) (id : MsgId)
    → c.req_id < id.n
    → lookup id (counted c w).cert_store ≡ lookup id w.cert_store
unfolding add_commit get_cert set_cert cert_at
counted-above c w id above =
    let own = msg_id c.view c.req_id in
    let w' = get_cert own w in
    ground (
      arith,
      lookup-insert own id empty_cert w.cert_store,
      lookup-insert own id (record (cert_at own w') { commit = (cert_at own w').commit ++ c ∷ [] })
          w'.cert_store,
    )

-- A prepare that this node counts: of its view, from a sender that is new, for a request that the
-- node has, above its chain and not committed to.
abbrev pub Tallies : Prepare → Request → Worker → Type 0
Tallies p req w =
    (in_v p.view w ≡ true)
    × (w.ready ≡ true)
    × (prepared_by p.sender
          (cert_at (msg_id p.view p.req_id) (get_cert (msg_id p.view p.req_id) w)).prepare
        ≡ false)
    × (get_request_from_store p.request_digest w ≡ some req)
    × (w.current_block < req.block_height)
    × (has req.block_height w.commit_store ≡ false)
    × ((cert_at (msg_id p.view p.req_id) (get_cert (msg_id p.view p.req_id) w)).sent_commit ≡ false)

send_now :
    (now : ℕ) (p : Prepare) (req : Request) (b : Block) (w : Worker)
    → w.current_block < req.block_height
    → has req.block_height w.commit_store ≡ false
    → block_of req w ≡ some b
    → let c = commit_of now p req (opinion_on b p w) w in
      ((reach_prepared now p req w).effects ≡ broadcast now (pbft_commit c) w ∷ go_commit c ∷ [])
      × ((reach_prepared now p req w).reply ≡ done)
unfolding reach_prepared judge_block send_commit mark_commit
send_now now p req b w above fresh found = ground arith

pub tallied_keeps :
    (p : Prepare) (w : Worker)
    → let id = msg_id p.view p.req_id in
      ((cert_at id (tallied p w)).sent_commit ≡ (cert_at id (get_cert id w)).sent_commit)
      × ((tallied p w).current_block ≡ w.current_block)
      × ((tallied p w).commit_store ≡ w.commit_store)
      × ((tallied p w).node_id ≡ w.node_id)
unfolding add_prepare
tallied_keeps p w =
    let id = msg_id p.view p.req_id in
    let w' = get_cert id w in
    let g = get_cert-Frame id w in
    let cert = record (cert_at id w') { prepare = (cert_at id w').prepare ++ p ∷ [] } in
    ground (
      arith,
      cert_at-set_cert id cert w',
      (set_cert-Frame id cert w').current_block,
      (set_cert-Frame id cert w').commit_store,
      (set_cert-Frame id cert w').node_id,
      g.current_block,
      g.commit_store,
      g.node_id,
    )

get_cert-request :
    (p : Prepare) (w : Worker)
    → get_request_from_store p.request_digest (get_cert (msg_id p.view p.req_id) w)
      ≡ get_request_from_store p.request_digest w
unfolding get_cert set_cert get_request_from_store
get_cert-request p w = ground arith

-- The effects of the handler, by its parts.
pub recv_prepare-now :
    (now : ℕ) (p : Prepare) (req : Request) (b : Block) (w : Worker)
    → Tallies p req w
    → prepared p.request_digest (msg_id p.view p.req_id) (tallied p w) ≡ true
    → block_of req (tallied p w) ≡ some b
    → let c = commit_of now p req (opinion_on b p (tallied p w)) (tallied p w) in
      (recv_prepare now p w).effects
      ≡ broadcast now (pbft_commit c) w ∷ go_commit c ∷ send_con_msg_transfer2 now p w
unfolding recv_prepare find_request count_prepare send_con_msg_transfer2
recv_prepare-now now p req b w tallies ready found =
    let id = msg_id p.view p.req_id in
    let g = get_cert-Frame id w in
    ground (
      arith,
      g.current_block,
      g.commit_store,
      g.node_id,
      get_cert-request p w,
      tallied_keeps p w,
      send_now now p req b (tallied p w),
    )
