-- ===== src/Node/Round/Commits.antt =====
-- How `RecvCommit` of eth/pbft-core.go adds a commit to what a node has gathered.
use pbft_block.Common.{
  ℕ, ◌<◌, ◌≡◌, ◌∙◌, ap, refl, sym, subst, true, false, ◌&&◌, List, [], ◌∷◌, ◌++◌, All, leb, arith,
  bytes_eq, nat_eq,
}
use pbft_block.Text.{Str}
use pbft_block.Msg.{Block, Request, Prepare, Commit, MsgCert}
use pbft_block.Worker.{Worker, get_quorum, in_v}
use pbft_block.Cert.{msg_id, set_cert, get_cert, cert_at, committed, commit_quorum}
use pbft_block.Handlers.Commit.{recv_commit, count_commit, add_commit, committed_by}
use pbft_block.Node.{Event, commit}
use pbft_block.Node.Height.{counted}
use pbft_block.Node.Progress.Acting.{Counts}
use pbft_block.Node.Round.{
  Gathers, prepared-Gathers, set_cert-Gathers, get_cert-Gathers, cert_at-Gathers,
}
use pbft_block.Node.Round.Counting.{reached}
use pbft_block.Node.Round.Counts.{Approves}

abbrev pub as_commits : List (ℕ × Commit) → List (ℕ × Event)
as_commits [] = []
as_commits ((now, c) ∷ ms) = (now, commit c) ∷ as_commits ms

abbrev pub commits_of : List (ℕ × Commit) → List Commit
commits_of [] = []
commits_of ((now, c) ∷ ms) = c ∷ commits_of ms

module _ (v n : ℕ) (digest seq : Str) (req : Request) (block : Block) where
  abbrev Gathered : List Prepare → List Commit → Worker → Type 0
  Gathered = Gathers v n digest seq req block true

  -- A positive commit for the block of the request.
  pub record Accepts (c : Commit) : Type 0 where
    pub approves : Approves v n digest seq c
    pub height : c.vr.block_height ≡ req.block_height

  pub All-Approves : (cs : List Commit) → All Accepts cs → All (Approves v n digest seq) cs
  All-Approves [] h = tt
  All-Approves (c ∷ cs) h = (h.0.approves, All-Approves cs h.1)

  pub same_id : (c : Commit) → Accepts c → msg_id c.view c.req_id ≡ msg_id v n
  same_id c a = rw (a.approves.view, a.approves.req_id) refl

  committed-Gathers :
      (ps : List Prepare) (cs : List Commit) (w : Worker)
      → Gathered ps cs w
      → committed digest (msg_id v n) w ≡ (
          reached v n digest seq req block w.n ps
          && leb (get_quorum w.n) (commit_quorum (msg_id v n) [] cs))
  unfolding committed
  committed-Gathers ps cs w g =
      ground (arith, prepared-Gathers v n digest seq req block true ps cs w g, g.held, g.commits)

  add_commit-set_cert :
      (ps : List Prepare) (cs : List Commit) (w : Worker) (c : Commit)
      → Accepts c
      → (g : Gathered ps cs w)
      → add_commit c w ≡ set_cert (msg_id v n) (record (g.cert) { commit = cs ++ c ∷ [] }) w
  unfolding add_commit cert_at
  add_commit-set_cert ps cs w c a g = ground (arith, same_id c a, g.held, g.commits)

  pub add_commit-Gathers :
      (ps : List Prepare) (cs : List Commit) (w : Worker) (c : Commit)
      → Accepts c
      → Gathered ps cs w
      → Gathered ps (cs ++ c ∷ []) (add_commit c w)
  add_commit-Gathers ps cs w c a g =
      let cert = record (g.cert) { commit = cs ++ c ∷ [] } in
      let more =
        set_cert-Gathers v n digest seq req block true ps cs w cert g.pre g.sent_commit g in
      subst (λ w'. Gathered ps (cs ++ c ∷ []) w') (sym (add_commit-set_cert ps cs w c a g))
        (subst (λ x. Gathered x (cs ++ c ∷ []) (set_cert (msg_id v n) cert w)) g.prepares more)

  pub add_commit-same :
      (c : Commit) (w : Worker)
      → ((add_commit c w).n ≡ w.n)
        × ((add_commit c w).node_id ≡ w.node_id)
        × ((add_commit c w).current_block ≡ w.current_block)
  unfolding add_commit set_cert
  add_commit-same c w = (refl, refl, refl)

  pub counted-Gathers :
      (ps : List Prepare) (cs : List Commit) (w : Worker) (c : Commit)
      → Accepts c
      → Gathered ps cs w
      → counted c w ≡ add_commit c w
  counted-Gathers ps cs w c a g =
      ap (λ i. add_commit c (get_cert i w)) (same_id c a)
      ∙ ap (add_commit c) (get_cert-Gathers v n digest seq req block true ps cs w g)

  pub committed_with :
      (ps : List Prepare) (cs : List Commit) (w : Worker) (c : Commit)
      → Accepts c
      → Gathered ps cs w
      → committed c.request_digest (msg_id c.view c.req_id) (add_commit c w) ≡ (
          reached v n digest seq req block w.n ps
          && leb (get_quorum w.n) (commit_quorum (msg_id v n) [] (cs ++ c ∷ [])))
  unfolding add_commit set_cert
  committed_with ps cs w c a g =
      ap (λ d. committed d (msg_id c.view c.req_id) (add_commit c w)) a.approves.request_digest
      ∙ ap (λ i. committed digest i (add_commit c w)) (same_id c a)
      ∙ committed-Gathers ps (cs ++ c ∷ []) (add_commit c w) (add_commit-Gathers ps cs w c a g)

  pub Counts-now :
      (ps : List Prepare) (cs : List Commit) (w : Worker) (c : Commit)
      → Accepts c
      → committed_by c.sender cs ≡ false
      → Gathered ps cs w
      → Counts c w
  Counts-now ps cs w c a new g = (
    subst (λ x. in_v x w ≡ true) (sym a.approves.view) g.in_view,
    g.ready,
    subst (λ h. w.current_block < h) (sym a.height) g.above,
    subst (λ xs. committed_by c.sender xs ≡ false) (sym there) new,
  )
    where
      there : (cert_at (msg_id c.view c.req_id) (get_cert (msg_id c.view c.req_id) w)).commit ≡ cs
      there =
          ap (λ i. (cert_at i (get_cert i w)).commit) (same_id c a)
          ∙ ap (λ x. (cert_at (msg_id v n) x).commit)
              (get_cert-Gathers v n digest seq req block true ps cs w g)
          ∙ ap (λ (x : MsgCert). x.commit) (cert_at-Gathers v n digest seq req block true ps cs w g)
          ∙ g.commits

  pub recv_commit-waits :
      (now : ℕ) (ps : List Prepare) (cs : List Commit) (w : Worker) (c : Commit)
      → Accepts c
      → committed_by c.sender cs ≡ false
      → leb (get_quorum w.n) (commit_quorum (msg_id v n) [] (cs ++ c ∷ [])) ≡ false
      → Gathered ps cs w
      → (recv_commit now c w).node ≡ add_commit c w
  unfolding recv_commit count_commit
  recv_commit-waits now ps cs w c a new few g =
      let k = Counts-now ps cs w c a new g in
      ground (arith, k, counted-Gathers ps cs w c a g, committed_with ps cs w c a g, few)
