-- ===== src/Node/Round/Prepares.antt =====
-- The commit that a node of eth/pbft-core.go posts on a quorum of prepares.
use pbft_block.Common.{
  ℕ, ◌≡◌, ◌≢◌, ◌∙◌, ap, refl, sym, Bool, true, false, List, [], ◌∷◌, ◌++◌, All, length, arith,
  bytes_eq,
}
use mathlib.Core.List.{append_assoc}
use pbft_block.Text.{Str}
use pbft_block.Msg.{Block, Request, Prepare, Commit, Effect, post, pbft_commit, go_commit}
use pbft_block.Worker.{Worker, get_quorum, and_then}
use pbft_block.Cert.{msg_id, get_consensus_tx_exes}
use pbft_block.Cert.Txs.{get_consensus_tx_exes_found}
use pbft_block.Handlers.Prepare.{send_commit, opinion_on, is_valid, commit_of, mark_commit, vr_sign}
use pbft_block.Node.{Event, prepare}
use pbft_block.Node.Round.{Gathers, same_id}
use pbft_block.Node.Round.Counts.{Fits, Approves, txs_votes-Fits}

abbrev pub as_prepares : List (ℕ × Prepare) → List (ℕ × Event)
as_prepares [] = []
as_prepares ((now, p) ∷ ms) = (now, prepare p) ∷ as_prepares ms

abbrev pub prepares_of : List (ℕ × Prepare) → List Prepare
prepares_of [] = []
prepares_of ((now, p) ∷ ms) = p ∷ prepares_of ms

module _ (v n : ℕ) (digest seq : Str) (req : Request) (block : Block) where
  abbrev Gathered : Bool → List Prepare → List Commit → Worker → Type 0
  Gathered = Gathers v n digest seq req block

  -- The node has posted a commit with a positive vote for the block of the request.
  pub record Says (node_id : Str) (es : List Effect) : Type 0 where
    pub before : List Effect
    pub after : List Effect
    pub at : ℕ
    pub c : Commit
    pub split :
        es
        ≡ before ++ post (record { msg = pbft_commit c; timestamp = at; sender = node_id }) ∷ after
    pub approves : Approves v n digest seq c
    pub height : c.vr.block_height ≡ req.block_height
    pub sender : c.sender ≡ node_id

  -- A quorum of prepares with the one sequence, and a valid block, make a positive vote.
  pub opinion_on-quorum :
      (ps : List Prepare) (cs : List Commit) (w : Worker) (p : Prepare)
      → is_valid block ≡ true
      → seq ≢ []
      → All (Fits v n digest seq) ps
      → length ps ≡ get_quorum w.n
      → Fits v n digest seq p
      → Gathered false ps cs w
      → opinion_on block p w ≡ true
  unfolding opinion_on
  opinion_on-quorum ps cs w p valid named fit enough f g =
      let (found, e) =
        get_consensus_tx_exes_found digest (msg_id v n) w g.cert g.held seq named
          (ground (arith, txs_votes-Fits v n digest seq ps fit, enough, g.prepares)) in
      let same =
        ap (λ d. get_consensus_tx_exes d (msg_id p.view p.req_id) w) f.request_digest
        ∙ ap (λ i. get_consensus_tx_exes digest i w) (same_id v n digest seq req block p f)
        ∙ e in
      ground (arith, valid, same)

  -- The commit that the node posts.
  pub sends_commit :
      (now : ℕ) (ps : List Prepare) (cs : List Commit) (w : Worker) (p : Prepare)
      (rest : List Effect)
      → Fits v n digest seq p
      → Gathered false ps cs w
      → Says w.node_id (and_then (send_commit now p req true w) rest).effects
  unfolding send_commit commit_of mark_commit vr_sign
  sends_commit now ps cs w p rest f g = record {
    before = [];
    after = go_commit (commit_of now p req true w) ∷ rest;
    at = now;
    c = commit_of now p req true w;
    split = ground (arith, g.marked);
    approves = record {
      view = f.view;
      req_id = f.req_id;
      opinion = refl;
      request_digest = f.request_digest;
    };
    height = refl;
    sender = refl;
  }

  pub later_Says : (id : Str) (es fs : List Effect) → Says id fs → Says id (es ++ fs)
  later_Says id es fs s = record {
    before = es ++ s.before;
    after = s.after;
    at = s.at;
    c = s.c;
    split = ap (λ x. es ++ x) s.split ∙ sym (append_assoc es s.before _);
    approves = s.approves;
    height = s.height;
    sender = s.sender;
  }

  pub sooner_Says : (id : Str) (es fs : List Effect) → Says id es → Says id (es ++ fs)
  sooner_Says id es fs s = record {
    before = s.before;
    after = s.after ++ fs;
    at = s.at;
    c = s.c;
    split = ap (λ x. x ++ fs) s.split ∙ append_assoc s.before _ fs;
    approves = s.approves;
    height = s.height;
    sender = s.sender;
  }

  pub and_then-node :
      (now : ℕ) (p : Prepare) (opinion : Bool) (w : Worker) (rest : List Effect)
      → (and_then (send_commit now p req opinion w) rest).node
        ≡ (send_commit now p req opinion w).node
  unfolding send_commit
  and_then-node now p opinion w rest = ground arith
