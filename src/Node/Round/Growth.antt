-- ===== src/Node/Round/Growth.antt =====
-- The second half of a round: a quorum of positive commits lets the chain of a node of
-- eth/pbft-core.go grow.
use pbft_block.Common.{
  ℕ, ◌+◌, ◌≡◌, ◌∙◌, ap, refl, sym, subst, Bool, true, false, ◌&&◌, List, [], ◌∷◌, ◌++◌, All, All-at,
  Distinct, length, length-append, leb, arith, bytes_eq, nat_eq,
}
use mathlib.Core.List.{append_assoc}
use pbft_block.Text.{Str}
use pbft_block.Msg.{Block, Request, Prepare, Commit, MsgCert, Effect, checkpoint}
use pbft_block.Worker.{Worker, get_quorum, get_request_from_store, u64}
use pbft_block.Cert.{
  msg_id, set_cert, cert_at, committed, commit_quorum, tally, get_valid_res_from_commit, possitive,
  remove_old_con_msg,
}
use pbft_block.Handlers.Transfer.{send_con_msg_transfer3}
use pbft_block.Handlers.Commit.{recv_commit, add_commit, committed_by, checkpoint_of, insert_block}
use pbft_block.Node.{handle, run, sent}
use pbft_block.Node.Progress.Acting.{recv_commit-now}
use pbft_block.Node.Round.{Gathers, cert_at-Gathers}
use pbft_block.Node.Round.Counting.{reached}
use pbft_block.Node.Round.Counts.{
  commit_quorum-le, commit_quorum-Approves, commit_senders, commit_senders-append, committed_by-mem,
  Distinct-before,
}
use pbft_block.Node.Round.Commits.{
  as_commits, commits_of, Counts-now, counted-Gathers, add_commit-Gathers, committed_with,
  add_commit-same, recv_commit-waits, same_id, Accepts, All-Approves,
}

module _ (v n : ℕ) (digest seq : Str) (req : Request) (block : Block) where
  abbrev Gathered : List Prepare → List Commit → Worker → Type 0
  Gathered = Gathers v n digest seq req block true

  votes_possitive :
      (size : ℕ) (cert : MsgCert)
      → leb (get_quorum size) (tally [] cert.commit).poss ≡ true
      → get_valid_res_from_commit size cert ≡ possitive
  unfolding get_valid_res_from_commit
  votes_possitive size cert h = ground (arith, h)

  -- What a node has after a quorum of commits.
  pub record Grows (w w' : Worker) (es : List Effect) : Type 0 where
    pub current_block : w'.current_block ≡ u64 (w.current_block + 1)
    pub before : List Effect
    pub after : List Effect
    pub c : Commit
    pub split : es ≡ before ++ checkpoint (checkpoint_of c w) ∷ after
    pub accepts : Accepts v n digest seq req block c

  both_true : (a b : Bool) → a ≡ true → b ≡ true → (a && b) ≡ true
  both_true a b h h' = ground arith

  last_commit :
      (now : ℕ) (ps : List Prepare) (cs : List Commit) (w : Worker) (c : Commit)
      → reached v n digest seq req block w.n ps ≡ true
      → All (Accepts v n digest seq req block) (cs ++ c ∷ [])
      → Distinct (commit_senders (cs ++ c ∷ []))
      → length (cs ++ c ∷ []) ≡ get_quorum w.n
      → Accepts v n digest seq req block c
      → committed_by c.sender cs ≡ false
      → Gathered ps cs w
      → Grows w (recv_commit now c w).node (recv_commit now c w).effects
  unfolding remove_old_con_msg insert_block get_request_from_store
  last_commit now ps cs w c all fit d enough a new g =
      let (voters, poss) =
        commit_quorum-Approves v n digest seq (cs ++ c ∷ [])
          (All-Approves v n digest seq req block (cs ++ c ∷ []) fit) d in
      let e = counted-Gathers v n digest seq req block ps cs w c a g in
      let g' = add_commit-Gathers v n digest seq req block ps cs w c a g in
      let enough_voters : leb (get_quorum w.n) (commit_quorum (msg_id v n) [] (cs ++ c ∷ []))
          ≡ true =
        ground (arith, voters, enough) in
      let enough_votes : leb (get_quorum w.n) (tally [] (cs ++ c ∷ [])).poss ≡ true =
        ground (arith, poss, enough) in
      let is_committed =
        ap (committed c.request_digest (msg_id c.view c.req_id)) e
        ∙ committed_with v n digest seq req block ps cs w c a g
        ∙ both_true _ _ all enough_voters in
      let known =
        ap (get_request_from_store c.request_digest) e
        ∙ ap (λ d. get_request_from_store d (add_commit c w)) a.approves.request_digest
        ∙ g'.known in
      let votes =
        ap (λ x. get_valid_res_from_commit w.n (cert_at (msg_id c.view c.req_id) x)) e
        ∙ ap (λ i. get_valid_res_from_commit w.n (cert_at i (add_commit c w)))
            (same_id v n digest seq req block c a)
        ∙ ap (get_valid_res_from_commit w.n)
            (cert_at-Gathers v n digest seq req block true ps (cs ++ c ∷ []) (add_commit c w) g')
        ∙ votes_possitive w.n g'.cert (
            subst (λ xs. leb (get_quorum w.n) (tally [] xs).poss ≡ true) (sym g'.commits)
              enough_votes) in
      rw
        (recv_commit-now now c req w (Counts-now v n digest seq req block ps cs w c a new g)
          is_committed known votes)
        (record {
          current_block =
              ap (λ (x : Worker). u64 (x.current_block + 1)) e
              ∙ ap (λ h. u64 (h + 1)) (add_commit-same v n digest seq req block c w).2;
          before = [];
          after = send_con_msg_transfer3 now c w;
          c = c;
          split = refl;
          accepts = a;
        })

  new_sender :
      (cs ds : List Commit) (c : Commit)
      → Distinct (commit_senders (cs ++ c ∷ ds))
      → committed_by c.sender cs ≡ false
  new_sender cs ds c d =
      committed_by-mem c.sender cs
      ∙ Distinct-before c.sender (commit_senders cs) (commit_senders ds)
          (subst (λ xs. Distinct xs) (commit_senders-append cs (c ∷ ds)) d)

  too_few :
      (size : ℕ) (cs ds : List Commit) (c e : Commit)
      → length ((cs ++ c ∷ []) ++ e ∷ ds) ≡ get_quorum size
      → leb (get_quorum size) (commit_quorum (msg_id v n) [] (cs ++ c ∷ [])) ≡ false
  too_few size cs ds c e enough = ground (
    arith,
    commit_quorum-le v n digest seq [] (cs ++ c ∷ []),
    length-append (cs ++ c ∷ []) (e ∷ ds),
    enough,
  )

  -- Let a node have gathered a quorum of prepares and some commits. With the commits of others that
  -- make a quorum its chain grows, and it posts a checkpoint.
  pub commits_grow :
      (done : List Commit) (now : ℕ) (c : Commit) (ms : List (ℕ × Commit)) (ps : List Prepare)
      (w : Worker)
      → reached v n digest seq req block w.n ps ≡ true
      → All (Accepts v n digest seq req block) (done ++ c ∷ commits_of ms)
      → Distinct (commit_senders (done ++ c ∷ commits_of ms))
      → length (done ++ c ∷ commits_of ms) ≡ get_quorum w.n
      → Gathered ps done w
      → Grows w (run w (as_commits ((now, c) ∷ ms))) (sent w (as_commits ((now, c) ∷ ms)))
  unfolding run sent handle add_commit set_cert checkpoint_of
  commits_grow done now c [] ps w all fit d enough g =
      let r =
        last_commit now ps done w c all fit d enough
          (All-at (Accepts v n digest seq req block) done [] c fit) (new_sender done [] c d) g in
      record {
        current_block = r.current_block;
        before = r.before;
        after = r.after ++ [];
        c = r.c;
        split = ap (λ x. x ++ []) r.split ∙ append_assoc r.before _ [];
        accepts = r.accepts;
      }
  commits_grow done now c ((t, e) ∷ ms) ps w all fit d enough g =
      let assoc = append_assoc done (c ∷ []) (e ∷ commits_of ms) in
      let a = All-at (Accepts v n digest seq req block) done (e ∷ commits_of ms) c fit in
      let enough' = ap length assoc ∙ enough in
      let rest = as_commits ((t, e) ∷ ms) in
      let waits =
        recv_commit-waits v n digest seq req block now ps done w c a
          (new_sender done (e ∷ commits_of ms) c d) (too_few w.n done (commits_of ms) c e enough')
          g in
      let same = add_commit-same v n digest seq req block c w in
      let r =
        commits_grow (done ++ c ∷ []) t e ms ps (add_commit c w)
          (ap (λ k. reached v n digest seq req block k ps) same.0 ∙ all)
          (subst (λ xs. All (Accepts v n digest seq req block) xs) (sym assoc) fit)
          (subst (λ xs. Distinct (commit_senders xs)) (sym assoc) d)
          (enough' ∙ ap get_quorum (sym same.0))
          (add_commit-Gathers v n digest seq req block ps done w c a g) in
      let first = (recv_commit now c w).effects in
      subst (λ x. Grows w (run x rest) (first ++ sent x rest)) (sym waits)
        (record {
          current_block = r.current_block ∙ ap (λ h. u64 (h + 1)) same.2;
          before = first ++ r.before;
          after = r.after;
          c = r.c;
          split = ap (λ x. first ++ x) r.split ∙ sym (append_assoc first r.before _);
          accepts = r.accepts;
        })
