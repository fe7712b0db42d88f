-- ===== src/Node/Commits.antt =====
-- How often a node commits itself to a block height, over any run: `commitStore` of eth/pbft-core.go.
use pbft_block.Common.{
  ℕ, ◌≤◌, ◌≡◌, refl, inl, inr, false, List, [], ◌∷◌, arith, All, mem, Distinct, nat_eq,
}
use pbft_block.Worker.{Worker}
use pbft_block.Node.{
  Event, request, pre_prepare, prepare, prepare_not_transfer, commit, checkpoint, start, tick,
  handle, run, sent, InRange,
}
use pbft_block.Node.Frame.{
  recv_request-Frame, recv_pre_prepare-Frame, recv_checkpoint-Frame, start_consensus-Frame,
  expire-Frame,
}
use pbft_block.Node.Careful.{Careful, Spent, commit_heights, commit_heights-append, idle-Careful}
use pbft_block.Node.Committing.{recv_prepare-Careful, recv_prepare_not_transfer-Careful}
use pbft_block.Node.Quiet.{
  recv_checkpoint_quiet, recv_pre_prepare_quiet, recv_request_quiet, start_consensus_quiet,
}
use pbft_block.Node.Height.{recv_commit_quiet}

handle-Careful : (now : ℕ) (e : Event) (w : Worker) → InRange (now, e) → Careful w (handle now e w)
unfolding handle
handle-Careful now (request req) w small =
    let f = recv_request-Frame now req w in
    idle-Careful w _ _ f.commit_store f.current_block refl (recv_request_quiet now req w)
handle-Careful now (pre_prepare p) w small =
    let f = recv_pre_prepare-Frame now p w in
    idle-Careful w _ _ f.commit_store f.current_block refl (recv_pre_prepare_quiet now p w)
handle-Careful now (prepare p) w small = recv_prepare-Careful now p w
handle-Careful now (prepare_not_transfer p) w small = recv_prepare_not_transfer-Careful now p w
handle-Careful now (commit c) w small =
    let (quiet, store, above) = recv_commit_quiet now c w small in
    record { height = above; keeps = λ h s. ground (arith, above, store); posts = inl quiet }
handle-Careful now (checkpoint c) w small =
    let f = recv_checkpoint-Frame now c w in
    idle-Careful w _ _ f.commit_store f.current_block refl (recv_checkpoint_quiet now c w)
handle-Careful now start w small =
    let f = start_consensus-Frame now w in
    idle-Careful w _ _ f.commit_store f.current_block refl (start_consensus_quiet now w)
handle-Careful now tick w small =
    let f = expire-Frame now w in idle-Careful w _ _ f.commit_store f.current_block refl refl

-- The chain never gets shorter in a run whose commits name heights below 2^64.
pub run_height :
    (w : Worker) (es : List (ℕ × Event))
    → All InRange es
    → w.current_block ≤ (run w es).current_block
unfolding run
run_height w [] small = omega arith
run_height w ((now, e) ∷ es) small =
    omega
      (arith, (handle-Careful now e w small.0).height, run_height (handle now e w).node es small.1)

-- No commit goes out for a height that is spent.
sent_unspent :
    (w : Worker) (es : List (ℕ × Event))
    → All InRange es
    → (h : ℕ) → Spent h w
    → mem h (commit_heights (sent w es)) ≡ false
unfolding sent mem
sent_unspent w [] small h s = refl
sent_unspent w ((now, e) ∷ es) small h s =
    let c = handle-Careful now e w small.0 in
    let rest = sent_unspent (handle now e w).node es small.1 h (c.keeps h s) in
    ground (
      arith,
      commit_heights-append (handle now e w).effects (sent (handle now e w).node es),
      c.posts,
      rest,
    )

-- Whatever events a node handles and in whatever order, where the commits that come in name
-- heights below 2^64: it posts at most one commit for each block height.
pub commits_once :
    (w : Worker) (es : List (ℕ × Event)) → All InRange es → Distinct (commit_heights (sent w es))
unfolding sent
commits_once w [] small = tt
commits_once w ((now, e) ∷ es) small = elim (handle-Careful now e w small.0).posts [
  | inl none_sent ↦
      rw (commit_heights-append (handle now e w).effects (sent (handle now e w).node es), none_sent)
        (commits_once (handle now e w).node es small.1)
  | inr (h, one, fresh, above, spent) ↦
      rw (commit_heights-append (handle now e w).effects (sent (handle now e w).node es), one)
        (
          sent_unspent (handle now e w).node es small.1 h spent,
          commits_once (handle now e w).node es small.1,
        )
]
