-- ===== src/Node/Round/Complete.antt =====
-- A whole round of the consensus at one node of eth/pbft-core.go: from the request of the leader to a
-- longer chain.
use pbft_block.Common.{
  ℕ, ◌+◌, ◌≡◌, ◌≢◌, ◌∙◌, ap, refl, sym, subst, true, false, some, List, [], ◌∷◌, ◌++◌, All,
  Distinct, length, arith, bytes_eq, bytes_beq_iff,
}
use pbft_block.Text.{Str}
use pbft_block.Msg.{
  Block, Request, PrePrepare, Prepare, Commit, Effect, pbft_pre_prepare, pbft_prepare,
  go_pre_prepare, go_prepare,
}
use pbft_block.Worker.{Worker, get_quorum, u64, note_req_id}
use pbft_block.Pool.{hash, get_block, put_pvb_and_beats}
use pbft_block.Pool.Laws.{get_block-put_block}
use pbft_block.Cert.{put_pre_prepare_in_cert, get_cert, set_cert, cert_at}
use pbft_block.Handlers.Transfer.{broadcast, send_con_msg_transfer1}
use pbft_block.Handlers.Request.{new_hash_req, pre_prepare_of, store_request}
use pbft_block.Handlers.PrePrepare.{prepare_of}
use pbft_block.Handlers.Prepare.{is_valid}
use pbft_block.Node.{Event, request, pre_prepare, handle, run, sent}
use pbft_block.Node.Runs.{run-append, sent-append}
use pbft_block.Node.Round.{Gathers}
use pbft_block.Node.Round.Counting.{reached}
use pbft_block.Node.Round.Counts.{Fits, count_if-Fits, prepare_senders, commit_senders}
use pbft_block.Node.Round.Prepares.{as_prepares, prepares_of, Says, later_Says}
use pbft_block.Node.Round.Voting.{Commits, prepares_commit}
use pbft_block.Node.Round.Commits.{as_commits, commits_of, Accepts}
use pbft_block.Node.Round.Growth.{commits_grow}
use pbft_block.Node.Round.Opening.{
  Opens, opened, recv_request-opened, opened-Gathers, opened-rest, opened-cert,
}
use pbft_block.Node.Round.Answering.{Proposes, recv_pre_prepare-Answers}

filed :
    (now : ℕ) (req : Request) (block : Block) (w : Worker)
    → Opens req block w
    → get_block req.block_height req.block_hash (opened now req block w).possible_valid_block
      ≡ some block
unfolding put_pre_prepare_in_cert get_cert set_cert cert_at put_pvb_and_beats store_request
    note_req_id
filed now req block w o = ground (
  arith,
  o.number,
  o.hash,
  get_block-put_block block req.block_height req.block_hash w.possible_valid_block,
  bytes_beq_iff (hash block) req.block_hash,
)

module _ (seq : Str) (req : Request) (block : Block) where
  abbrev Gathered : Worker → Type 0
  Gathered = Gathers req.view req.req_id (new_hash_req req) seq req block false [] []

  -- The node's pre-prepare for the request.
  abbrev pub own_pre_prepare : ℕ → Worker → PrePrepare
  own_pre_prepare now w = pre_prepare_of now (new_hash_req req) req w

  -- The request, and the node's own pre-prepare.
  abbrev pub opening : ℕ → ℕ → Worker → List (ℕ × Event)
  opening t0 t1 w = (t0, request req) ∷ (t1, pre_prepare (own_pre_prepare t0 w)) ∷ []

  -- The node has proposed the block and posted its prepare for it.
  pub record Begins (t0 t1 : ℕ) (w w' : Worker) (es : List Effect) : Type 0 where
    pub gathers : Gathered w'
    pub effects :
        es
        ≡ go_pre_prepare (own_pre_prepare t0 w)
          ∷ broadcast t0 (pbft_pre_prepare (own_pre_prepare t0 w)) w
          ∷ broadcast t1 (pbft_prepare (prepare_of t1 (own_pre_prepare t0 w) block w)) w
          ∷ go_prepare (prepare_of t1 (own_pre_prepare t0 w) block w)
          ∷ []
    pub size : w'.n ≡ w.n
    pub node_id : w'.node_id ≡ w.node_id
    pub current_block : w'.current_block ≡ w.current_block

  own-Proposes : (now : ℕ) (w : Worker) → Proposes seq req block (own_pre_prepare now w)
  own-Proposes now w = record { view = refl; req_id = refl; request_digest = refl; request = refl }

  pub begins :
      (t0 t1 : ℕ) (w : Worker)
      → Opens req block w
      → Begins t0 t1 w (run w (opening t0 t1 w)) (sent w (opening t0 t1 w))
  unfolding run sent handle prepare_of send_con_msg_transfer1
  begins t0 t1 w o =
      let p = own_pre_prepare t0 w in
      let w' = opened t0 req block w in
      let g = opened-Gathers seq req block t0 w o in
      let (_, _, current_block, _, size, node_id) = opened-rest t0 req block w in
      let unsent : g.cert.sent_prepare ≡ false =
        ground (arith, g.held, opened-cert t0 req block w o) in
      let a =
        recv_pre_prepare-Answers seq req block t1 p w' (own-Proposes t0 w) (filed t0 req block w o)
          g unsent in
      rw (run, recv_request-opened t0 req block w o)
        (record {
          gathers = a.gathers;
          effects = ground (arith, a.effects, node_id, bytes_beq_iff w.node_id w.node_id);
          size = a.size ∙ size;
          node_id = a.node_id ∙ node_id;
          current_block = a.current_block ∙ current_block;
        })

  -- The prepares after the opening.
  prepares_after :
      (t0 t1 now : ℕ) (p : Prepare) (ms : List (ℕ × Prepare)) (w : Worker)
      → Opens req block w
      → is_valid block ≡ true
      → seq ≢ []
      → All (Fits req.view req.req_id (new_hash_req req) seq) (p ∷ prepares_of ms)
      → Distinct (prepare_senders (p ∷ prepares_of ms))
      → length (p ∷ prepares_of ms) ≡ get_quorum w.n
      → let w' = run w (opening t0 t1 w) in
        Commits req.view req.req_id
          (new_hash_req req)
          seq
          req
          block
          (p ∷ prepares_of ms)
          []
          w'
          (run w' (as_prepares ((now, p) ∷ ms)))
          (sent w' (as_prepares ((now, p) ∷ ms)))
  prepares_after t0 t1 now p ms w o valid named fit d enough =
      let b = begins t0 t1 w o in
      prepares_commit req.view req.req_id (new_hash_req req) seq req block [] now p ms []
        (run w (opening t0 t1 w)) valid named fit d (enough ∙ ap get_quorum (sym b.size)) b.gathers

  -- The node's own commit comes out of the prepares.
  pub round-Says :
      (t0 t1 now : ℕ) (p : Prepare) (ms : List (ℕ × Prepare)) (w : Worker)
      → Opens req block w
      → is_valid block ≡ true
      → seq ≢ []
      → All (Fits req.view req.req_id (new_hash_req req) seq) (p ∷ prepares_of ms)
      → Distinct (prepare_senders (p ∷ prepares_of ms))
      → length (p ∷ prepares_of ms) ≡ get_quorum w.n
      → Says req.view req.req_id
          (new_hash_req req)
          seq
          req
          block
          w.node_id
          (sent w (opening t0 t1 w ++ as_prepares ((now, p) ∷ ms)))
  round-Says t0 t1 now p ms w o valid named fit d enough =
      let c = prepares_after t0 t1 now p ms w o valid named fit d enough in
      let b = begins t0 t1 w o in
      let w' = run w (opening t0 t1 w) in
      let es = sent w' (as_prepares ((now, p) ∷ ms)) in
      subst (λ x. Says req.view req.req_id (new_hash_req req) seq req block w.node_id x)
        (sym (sent-append w (opening t0 t1 w) (as_prepares ((now, p) ∷ ms))))
        (later_Says req.view req.req_id (new_hash_req req) seq req block w.node_id
          (sent w (opening t0 t1 w)) es
          (subst (λ i. Says req.view req.req_id (new_hash_req req) seq req block i es) b.node_id
            c.says))

  -- Let a ready node with nothing of a request yet get it from the leader, in its view and with a
  -- valid block above its chain, and then its own pre-prepare, a quorum of prepares from different
  -- senders for the request with the one sequence, which is not empty, and a quorum of positive
  -- commits from different senders for the request and its height. Then its chain is one block longer
  -- (modulo 2^64).
  pub round_grows :
      (t0 t1 now then_ : ℕ) (p : Prepare) (ms : List (ℕ × Prepare)) (c : Commit)
      (ks : List (ℕ × Commit)) (w : Worker)
      → Opens req block w
      → is_valid block ≡ true
      → seq ≢ []
      → All (Fits req.view req.req_id (new_hash_req req) seq) (p ∷ prepares_of ms)
      → Distinct (prepare_senders (p ∷ prepares_of ms))
      → length (p ∷ prepares_of ms) ≡ get_quorum w.n
      → All (Accepts req.view req.req_id (new_hash_req req) seq req block) (c ∷ commits_of ks)
      → Distinct (commit_senders (c ∷ commits_of ks))
      → length (c ∷ commits_of ks) ≡ get_quorum w.n
      → (run w (
          opening t0 t1 w
          ++ (as_prepares ((now, p) ∷ ms) ++ as_commits ((then_, c) ∷ ks)))).current_block
        ≡ u64 (w.current_block + 1)
  round_grows t0 t1 now then_ p ms c ks w o valid named fit d enough fits ds many =
      let a = prepares_after t0 t1 now p ms w o valid named fit d enough in
      let b = begins t0 t1 w o in
      let w' = run w (opening t0 t1 w) in
      let w'' = run w' (as_prepares ((now, p) ∷ ms)) in
      let size = a.size ∙ b.size in
      let all : reached req.view req.req_id (new_hash_req req) seq req block w''.n
            (p ∷ prepares_of ms)
          ≡ true =
        ground (
          arith,
          count_if-Fits req.view req.req_id (new_hash_req req) seq (p ∷ prepares_of ms) fit,
          enough,
          size,
        ) in
      let g =
        commits_grow req.view req.req_id (new_hash_req req) seq req block [] then_ c ks
          (p ∷ prepares_of ms) w'' all fits ds (many ∙ ap get_quorum (sym size)) a.gathers in
      ap (λ (x : Worker). x.current_block)
        (run-append w (opening t0 t1 w) _ ∙ run-append w' (as_prepares ((now, p) ∷ ms)) _)
      ∙ g.current_block
      ∙ ap (λ h. u64 (h + 1)) (a.current_block ∙ b.current_block)
