-- ===== src/Node/Kept/Prepares.antt =====
-- What the handlers of prepares leave of the commits in the certificates.
use pbft_block.Common.{
  ℕ, refl, Bool, true, not, Option, none, some, List, [], ◌∷◌, ◌++◌, ◌&&◌, bytes_eq, nat_eq, leb,
  has,
}
use pbft_block.Text.{Str}
use pbft_block.Msg.{Block, Request, Prepare, Effect}
use pbft_block.Worker.{
  Worker, done, fail, caught_panic, stop, in_v, being_selection_leader, prepare_view,
  duplicate_prepare, no_request, already_onchain, commit_sent, already_prepared,
}
use pbft_block.Cert.{msg_id, cert_at, get_cert, prepared}
use pbft_block.Handlers.Prepare.{
  recv_prepare, recv_prepare_not_transfer, prepared_by, find_request, count_prepare, reach_prepared,
  judge_block, send_commit, mark_commit, add_prepare, block_of, opinion_on,
}
use pbft_block.Node.Kept.{
  Kept, same-Kept, set_cert-Kept, get_cert-Kept, Keeps, leaf, Keeps-from, stop-Keeps,
  and_then-Keeps, either-Keeps,
}

mark_commit-Kept : (h : ℕ) (hash : Str) (w : Worker) → Kept w (mark_commit h hash w)
unfolding mark_commit
mark_commit-Kept h hash w = same-Kept w (mark_commit h hash w) refl

send_commit-Keeps :
    (now : ℕ) (prep : Prepare) (req : Request) (opinion : Bool) (w : Worker)
    → Keeps w (send_commit now prep req opinion w)
unfolding send_commit
send_commit-Keeps now prep req opinion w =
    let id = msg_id prep.view prep.req_id in
    let w' = mark_commit req.block_height req.block_hash w in
    Keeps-from w w' _ (mark_commit-Kept req.block_height req.block_hash w) (
      either-Keeps w' (has req.block_height w.commit_store) _ _ (stop-Keeps w' (fail commit_sent))
        (leaf w' _ (set_cert-Kept id (record (cert_at id w') { sent_commit = true }) w' refl)))

judge_block-Keeps :
    (now : ℕ) (prep : Prepare) (req : Request) (b : Option Block) (w : Worker)
    → Keeps w (judge_block now prep req b w)
unfolding judge_block
judge_block-Keeps now prep req none w = stop-Keeps w (fail caught_panic)
judge_block-Keeps now prep req (some b) w = send_commit-Keeps now prep req (opinion_on b prep w) w

reach_prepared-Keeps :
    (now : ℕ) (prep : Prepare) (req : Request) (w : Worker)
    → Keeps w (reach_prepared now prep req w)
unfolding reach_prepared
reach_prepared-Keeps now prep req w =
    either-Keeps w (leb req.block_height w.current_block) _ _ (stop-Keeps w (fail commit_sent))
      (judge_block-Keeps now prep req (block_of req w) w)

add_prepare-Kept : (prep : Prepare) (w : Worker) → Kept w (add_prepare prep w)
unfolding add_prepare
add_prepare-Kept prep w =
    let id = msg_id prep.view prep.req_id in
    set_cert-Kept id (record (cert_at id w) { prepare = (cert_at id w).prepare ++ prep ∷ [] }) w
      refl

count_prepare-Keeps :
    (now : ℕ) (prep : Prepare) (req : Request) (rest : List Effect) (w : Worker)
    → Keeps w (count_prepare now prep req rest w)
unfolding count_prepare
count_prepare-Keeps now prep req rest w =
    let id = msg_id prep.view prep.req_id in
    let w' = add_prepare prep w in
    either-Keeps w (prepared prep.request_digest id w && (cert_at id w).sent_commit) _ _
      (stop-Keeps w (fail already_prepared))
      (Keeps-from w w' _ (add_prepare-Kept prep w) (
        either-Keeps w' (prepared prep.request_digest id w' && not (cert_at id w').sent_commit) _ _
          (and_then-Keeps w' (reach_prepared now prep req w') rest
            (reach_prepared-Keeps now prep req w'))
          (and_then-Keeps w' (stop w' done) rest (stop-Keeps w' done))))

find_request-Keeps :
    (now : ℕ) (prep : Prepare) (found : Option Request) (rest : List Effect) (w : Worker)
    → Keeps w (find_request now prep found rest w)
unfolding find_request
find_request-Keeps now prep none rest w = stop-Keeps w (fail no_request)
find_request-Keeps now prep (some req) rest w =
    either-Keeps w (leb req.block_height w.current_block) _ _ (stop-Keeps w (fail already_onchain))
      (either-Keeps w (has req.block_height w.commit_store) _ _ (stop-Keeps w (fail commit_sent))
        (count_prepare-Keeps now prep req rest w))

pub recv_prepare-Keeps : (now : ℕ) (prep : Prepare) (w : Worker) → Keeps w (recv_prepare now prep w)
unfolding recv_prepare
recv_prepare-Keeps now prep w =
    let id = msg_id prep.view prep.req_id in
    let w' = get_cert id w in
    either-Keeps w (not (in_v prep.view w)) _ _ (stop-Keeps w (fail prepare_view)) (
      either-Keeps w (not w.ready) _ _ (stop-Keeps w (fail being_selection_leader)) (
        Keeps-from w w' _ (get_cert-Kept id w) (
          either-Keeps w' (prepared_by prep.sender (cert_at id w').prepare) _ _
            (stop-Keeps w' (fail duplicate_prepare)) (find_request-Keeps now prep _ _ w'))))

pub recv_prepare_not_transfer-Keeps :
    (now : ℕ) (prep : Prepare) (w : Worker) → Keeps w (recv_prepare_not_transfer now prep w)
unfolding recv_prepare_not_transfer
recv_prepare_not_transfer-Keeps now prep w =
    let id = msg_id prep.view prep.req_id in
    let w' = get_cert id w in
    either-Keeps w (not (in_v prep.view w)) _ _ (stop-Keeps w (fail prepare_view)) (
      either-Keeps w (not w.ready) _ _ (stop-Keeps w (fail being_selection_leader))
        (Keeps-from w w' _ (get_cert-Kept id w) (find_request-Keeps now prep _ _ w')))
