-- ===== src/Node/Prepares.antt =====
-- When a prepare makes a node commit itself (`RecvPrepare` of eth/pbft-core.go), and what the node
-- then votes.
pub mod Outgoing
use pbft_block.Common.{
  ℕ, ◌≤◌, ◌≡◌, ◌≢◌, refl, true, ◌&&◌, some, List, [], ◌∷◌, ◌++◌, arith, eqb, ◌∙◌, nat_eq,
}
use pbft_block.Text.{Str}
use pbft_block.Msg.{Block, Request, Prepare, Commit, msg_id_eq}
use pbft_block.Worker.{Worker, get_quorum, get_request_from_store}
use pbft_block.Cert.{msg_id, cert_at, prepared, exes, get_consensus_tx_exes, TxExes, err}
use pbft_block.Cert.Voters.{prepared_cert}
use pbft_block.Cert.Txs.{txs_votes, get_consensus_tx_exes_agreed}
use pbft_block.Handlers.Prepare.{
  recv_prepare, commit_of, opinion_on, is_valid, is_exes, block_of, vr_sign,
}
use pbft_block.Node.Prepares.Outgoing.{commits_out, counted, counted-node_id, sent_twice}

exes_found : (t : TxExes) → is_exes t ≡ true → (seq : Str) × (t ≡ exes seq)
exes_found (exes seq) h = (seq, refl)
exes_found (err e) h = ground arith

-- A positive vote: a quorum of the prepares agrees on a sequence.
agreed :
    (block : Block) (p : Prepare) (w : Worker)
    → prepared p.request_digest (msg_id p.view p.req_id) w ≡ true
    → opinion_on block p w ≡ true
    → (seq : Str) × (seq ≢ [])
      × (get_quorum w.n
          ≤ txs_votes p.request_digest
              (msg_id p.view p.req_id)
              seq
              (cert_at (msg_id p.view p.req_id) w).prepare)
unfolding opinion_on
agreed block p w ready positive =
    let id = msg_id p.view p.req_id in
    let (cert, there) = prepared_cert p.request_digest w id ready in
    let (seq, e) = exes_found (get_consensus_tx_exes p.request_digest id w) (ground arith) in
    let found = get_consensus_tx_exes_agreed p.request_digest id w cert there seq e in
    (seq, found.0, unfold cert_at in ground (arith, found.1))

-- Let a commit be among those that go out with the handler of a prepare: broadcast, passed on for
-- another node, or handed to the node itself. Then exactly two go out, both equal to it, and the
-- request of the prepare is prepared. The commit is under the node's own name, for the view, number
-- and digest of the prepare and for the height, hash and creator of the request that is stored under
-- the digest. Its vote is positive exactly when the field `valid` is 0 in the block that the pool or
-- the request has for that height and hash and a sequence of transactions is agreed on.
pub recv_prepare_votes :
    (now : ℕ) (p : Prepare) (w : Worker) (c : Commit) (before later : List Commit)
    → commits_out (recv_prepare now p w).effects ≡ before ++ c ∷ later
    → (commits_out (recv_prepare now p w).effects ≡ c ∷ c ∷ [])
      × (prepared p.request_digest (msg_id p.view p.req_id) (counted p w) ≡ true)
      × ((req : Request) × (block : Block) × (get_request_from_store p.request_digest (counted p w)
            ≡ some req)
          × (block_of req (counted p w) ≡ some block)
          × (c ≡ record {
            sender = w.node_id;
            view = p.view;
            timestamp = now;
            req_id = p.req_id;
            request_digest = p.request_digest;
            vr = record {
              sender = w.node_id;
              block_height = req.block_height;
              block_hash = req.block_hash;
              block_creator = req.block_creator;
              opinion =
                  eqb block.valid 0
                  && is_exes (
                      get_consensus_tx_exes p.request_digest
                        (msg_id p.view p.req_id)
                        (counted p w));
              sign = w.node_id;
            };
          }))
unfolding commit_of vr_sign opinion_on is_valid
recv_prepare_votes now p w c before later e =
    let (two, v) = sent_twice now p w c before later e in
    (two, v.ready, (v.req, v.block, v.requested, v.found, v.made ∙ rw (counted-node_id p w) refl))

-- Let a commit with a positive vote be among those that go out with the handler of a prepare:
-- broadcast, passed on for another node, or handed to the node itself. Then the field `valid` is 0 in
-- the block of the request, and a quorum of the matching prepares gives one and the same sequence of
-- transactions, which is not empty.
pub recv_prepare_approves :
    (now : ℕ) (p : Prepare) (w : Worker) (c : Commit) (before later : List Commit)
    → commits_out (recv_prepare now p w).effects ≡ before ++ c ∷ later
    → c.vr.opinion ≡ true
    → ((req : Request) × (block : Block) × (get_request_from_store p.request_digest (counted p w)
          ≡ some req)
        × (block_of req (counted p w) ≡ some block)
        × (block.valid ≡ 0))
      × ((seq : Str) × (seq ≢ [])
          × (get_quorum (counted p w).n
              ≤ txs_votes p.request_digest
                  (msg_id p.view p.req_id)
                  seq
                  (cert_at (msg_id p.view p.req_id) (counted p w)).prepare))
unfolding commit_of vr_sign
recv_prepare_approves now p w c before later e positive =
    let (two, v) = sent_twice now p w c before later e in
    let opinion : opinion_on v.block p (counted p w) ≡ true = ground (arith, v.made) in
    (
      (v.req, v.block, v.requested, v.found, unfold opinion_on is_valid in ground (arith, opinion)),
      agreed v.block p (counted p w) v.ready opinion,
    )
