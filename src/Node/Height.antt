-- ===== src/Node/Height.antt =====
-- When the chain grows: `RecvCommit` of eth/pbft-core.go.
use pbft_block.Common.{
  ℕ, ◌+◌, ◌≤◌, ◌<◌, ◌^◌, ◌≡◌, ◌≢◌, refl, ◌⊎◌, inl, inr, true, Option, none, some, List, [], ◌∷◌,
  ◌++◌, arith, Bool-cases,
}
use pbft_block.Msg.{Request, Commit, Effect}
use pbft_block.Worker.{Worker, Run, get_quorum, get_request_from_store}
use pbft_block.Cert.{
  msg_id, cert_at, get_cert, committed, prepared, tally, get_valid_res_from_commit, VotesRes,
  possitive, future_possitive, negative, remove_old_con_msg,
}
use pbft_block.Cert.Voters.{Quorum, committed_iff}
use pbft_block.Cert.Votes.{possitive_votes}
use pbft_block.Handlers.Transfer.{send_con_msg_transfer3}
use pbft_block.Handlers.Commit.{
  recv_commit, add_commit, count_commit, reach_committed, act_on_votes, accept_block, finish,
  insert_block,
}
use pbft_block.Node.Frame.{Frame, get_cert-Frame, set_cert-Frame}
use pbft_block.Node.Careful.{commit_heights}

-- What a stage of the handler does: it leaves the chain, or adds one block under `Why`.
record Grows {ℓ} (Why : Type ℓ) (w : Worker) (r : Run) : Type ℓ where
  store : r.node.commit_store ≡ w.commit_store
  quiet : commit_heights r.effects ≡ []
  chain :
      (r.node.current_block ≡ w.current_block)
      ⊎ ((r.node.current_block ≡ w.current_block + 1) × Why)

-- Why the chain grows: the votes in the certificate of the commit.
abbrev Why : Commit → Worker → Type 0
Why c w =
    (w.current_block < c.vr.block_height)
    × (committed c.request_digest (msg_id c.view c.req_id) w ≡ true)
    × (get_valid_res_from_commit w.n (cert_at (msg_id c.view c.req_id) w) ≡ possitive)

module _ (c : Commit) (small : c.vr.block_height < 2 ^ 64) (rest : List Effect)
    (quiet : commit_heights rest ≡ []) where
  accept_block-Grows :
      (w : Worker) → Grows (w.current_block < c.vr.block_height) w (accept_block c rest w)
  unfolding accept_block finish insert_block remove_old_con_msg
  accept_block-Grows w = record {
    store = ground arith;
    quiet = ground (arith, quiet);
    chain = ground arith;
  }

  act_on_votes-Grows :
      (v : VotesRes) (w : Worker)
      → Grows ((w.current_block < c.vr.block_height) × (v ≡ possitive)) w (act_on_votes v c rest w)
  unfolding act_on_votes finish remove_old_con_msg
  act_on_votes-Grows possitive w =
      let g = accept_block-Grows w in
      record { store = g.store; quiet = g.quiet; chain = ground (arith, g.chain) }
  act_on_votes-Grows future_possitive w = record { store = refl; quiet = quiet; chain = inl refl }
  act_on_votes-Grows negative w = record { store = refl; quiet = quiet; chain = inl refl }

  reach_committed-Grows :
      (req : Option Request) (w : Worker)
      → Grows
          ((w.current_block < c.vr.block_height)
            × (get_valid_res_from_commit w.n (cert_at (msg_id c.view c.req_id) w) ≡ possitive))
          w
          (reach_committed c req rest w)
  unfolding reach_committed
  reach_committed-Grows none w = record { store = refl; quiet = refl; chain = inl refl }
  reach_committed-Grows (some req) w = act_on_votes-Grows _ w

  count_commit-Grows : (w : Worker) → Grows (Why c w) w (count_commit c rest w)
  unfolding count_commit
  count_commit-Grows w = elim (Bool-cases (committed c.request_digest (msg_id c.view c.req_id) w)) [
    | inl e ↦ rw e (
        let g = reach_committed-Grows (get_request_from_store c.request_digest w) w in
        record { store = g.store; quiet = g.quiet; chain = ground (arith, g.chain) })
    | inr e ↦ rw e (record { store = refl; quiet = quiet; chain = inl refl })
  ]

transfer3_quiet :
    (now : ℕ) (c : Commit) (w : Worker) → commit_heights (send_con_msg_transfer3 now c w) ≡ []
unfolding send_con_msg_transfer3
transfer3_quiet now c w = ground arith

-- The node as it is when the handler has counted the commit.
abbrev pub counted : Commit → Worker → Worker
counted c w = add_commit c (get_cert (msg_id c.view c.req_id) w)

pub counted-Frame : (c : Commit) (w : Worker) → Frame w (counted c w)
unfolding add_commit
counted-Frame c w =
    let id = msg_id c.view c.req_id in
    let w' = get_cert id w in
    ground (
      arith,
      get_cert-Frame id w,
      set_cert-Frame id (record (cert_at id w') { commit = (cert_at id w').commit ++ c ∷ [] }) w',
    )

recv_commit-Grows :
    (now : ℕ) (c : Commit) (w : Worker)
    → c.vr.block_height < 2 ^ 64
    → Grows (Why c (counted c w)) w (recv_commit now c w)
unfolding recv_commit
recv_commit-Grows now c w small =
    let w' = get_cert (msg_id c.view c.req_id) w in
    let f = get_cert-Frame (msg_id c.view c.req_id) w in
    let h = counted-Frame c w in
    let g =
      count_commit-Grows c small (send_con_msg_transfer3 now c w') (transfer3_quiet now c w')
        (counted c w) in
    record {
      store = ground (arith, f.commit_store, h.commit_store, g.store);
      quiet = ground (arith, g.quiet);
      chain = ground (arith, f.current_block, h.current_block, g.chain);
    }

-- A commit message for a height below 2^64 that changes the chain adds one block to it. The
-- height is then above the chain's, with the message the request is prepared, a quorum of
-- different senders has committed in its view and number, and at least a quorum of the votes
-- counted are positive.
pub recv_commit_extends :
    (now : ℕ) (c : Commit) (w : Worker)
    → c.vr.block_height < 2 ^ 64
    → (recv_commit now c w).node.current_block ≢ w.current_block
    → let id = msg_id c.view c.req_id in
      ((recv_commit now c w).node.current_block ≡ w.current_block + 1)
      × (w.current_block < c.vr.block_height)
      × (prepared c.request_digest id (counted c w) ≡ true)
      × Quorum (counted c w) id
      × (get_quorum w.n ≤ (tally [] (cert_at id (counted c w)).commit).poss)
recv_commit_extends now c w small changed = elim (recv_commit-Grows now c w small).chain [
  | inl same ↦ absurd (changed same)
  | inr (one, why) ↦
      let (ready, q) = (committed_iff c.request_digest _ (counted c w)).0 why.1 in
      (
        one,
        ground (arith, (counted-Frame c w).current_block, why.0),
        ready,
        q,
        ground (arith, (counted-Frame c w).n, possitive_votes _ _ why.2),
      )
]

pub recv_commit_quiet :
    (now : ℕ) (c : Commit) (w : Worker)
    → c.vr.block_height < 2 ^ 64
    → (commit_heights (recv_commit now c w).effects ≡ [])
      × ((recv_commit now c w).node.commit_store ≡ w.commit_store)
      × (w.current_block ≤ (recv_commit now c w).node.current_block)
recv_commit_quiet now c w small =
    let g = recv_commit-Grows now c w small in (g.quiet, g.store, ground (arith, g.chain))
