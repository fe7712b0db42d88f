-- ===== src/Node/Kept/Commits.antt =====
-- What the handler of commits leaves of the commits in the certificates, once it has added its own.
use pbft_block.Common.{refl, not, Option, none, some, List, ltb, bytes_eq, nat_eq}
use pbft_block.Msg.{Request, Commit, msg_id_eq, Effect}
use pbft_block.Worker.{Worker, done, fail, stop, being_selection_leader, no_request}
use pbft_block.Cert.{msg_id, committed, VotesRes, possitive, future_possitive, negative}
use pbft_block.Handlers.Commit.{
  count_commit, reach_committed, act_on_votes, accept_block, finish, insert_block,
}
use pbft_block.Node.Kept.{
  Kept, same-Kept, remove_old_con_msg-Kept, Keeps, leaf, Keeps-from, stop-Keeps, and_then-Keeps,
  either-Keeps,
}

insert_block-Kept : (w : Worker) → Kept w (insert_block w)
unfolding insert_block
insert_block-Kept w = same-Kept w (insert_block w) refl

finish-Keeps : (c : Commit) (w : Worker) → Keeps w (finish c w)
unfolding finish
finish-Keeps c w = leaf w (finish c w) (remove_old_con_msg-Kept c.req_id w)

accept_block-Keeps :
    (c : Commit) (rest : List Effect) (w : Worker) → Keeps w (accept_block c rest w)
unfolding accept_block
accept_block-Keeps c rest w =
    let w' = insert_block w in
    either-Keeps w (not w.ready) _ _ (stop-Keeps w (fail being_selection_leader)) (
      either-Keeps w (ltb w.current_block c.vr.block_height) _ _
        (and_then-Keeps w (finish c w') rest
          (Keeps-from w w' (finish c w') (insert_block-Kept w) (finish-Keeps c w')))
        (stop-Keeps w done))

act_on_votes-Keeps :
    (v : VotesRes) (c : Commit) (rest : List Effect) (w : Worker)
    → Keeps w (act_on_votes v c rest w)
unfolding act_on_votes
act_on_votes-Keeps possitive c rest w = accept_block-Keeps c rest w
act_on_votes-Keeps future_possitive c rest w =
    and_then-Keeps w (stop w done) rest (stop-Keeps w done)
act_on_votes-Keeps negative c rest w = and_then-Keeps w (finish c w) rest (finish-Keeps c w)

reach_committed-Keeps :
    (c : Commit) (found : Option Request) (rest : List Effect) (w : Worker)
    → Keeps w (reach_committed c found rest w)
unfolding reach_committed
reach_committed-Keeps c none rest w = stop-Keeps w (fail no_request)
reach_committed-Keeps c (some req) rest w = act_on_votes-Keeps _ c rest w

pub count_commit-Keeps :
    (c : Commit) (rest : List Effect) (w : Worker) → Keeps w (count_commit c rest w)
unfolding count_commit
count_commit-Keeps c rest w =
    either-Keeps w (committed c.request_digest (msg_id c.view c.req_id) w) _ _
      (reach_committed-Keeps c _ rest w) (and_then-Keeps w (stop w done) rest (stop-Keeps w done))
