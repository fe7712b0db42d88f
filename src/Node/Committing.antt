-- ===== src/Node/Committing.antt =====
-- What `RecvPrepare` and `RecvPrepare_notTransfer` of eth/pbft-core.go do to `commitStore`.
use pbft_block.Common.{
  ℕ, ◌<◌, ◌≡◌, refl, inl, inr, Bool, true, false, not, Option, none, some, List, [], arith,
  if◌then◌else◌, has, lookup-insert, lookup-retain_key, nat_eq, ltb, Bool-cases, leb, ◌&&◌, ◌==◌,
  insert,
}
use pbft_block.Text.{Str}
use pbft_block.Msg.{Block, Request, Prepare, MsgId, Effect}
use pbft_block.Worker.{
  Worker, stop, done, fail, prepare_view, being_selection_leader, duplicate_prepare,
  get_request_from_store,
}
use pbft_block.Cert.{prepared, cert_at, set_cert, msg_id, get_cert}
use pbft_block.Handlers.Prepare.{
  recv_prepare, recv_prepare_not_transfer, find_request, count_prepare, reach_prepared, judge_block,
  send_commit, mark_commit, add_prepare, commit_of, prepared_by,
}
use pbft_block.Node.Frame.{get_cert-Frame}
use pbft_block.Handlers.Transfer.{send_con_msg_transfer2}
use pbft_block.Node.Careful.{Careful, commit_heights, idle-Careful, Careful-from, and_then-Careful}

has-mark_commit :
    (height : ℕ) (hash : Str) (w : Worker) (h : ℕ)
    → has h (mark_commit height hash w).commit_store ≡ (
        if ltb h w.current_block
        then false
        else if has height w.commit_store
        then has h w.commit_store
        else if height == h
        then true
        else has h w.commit_store)
unfolding mark_commit
has-mark_commit height hash w h = ground (
  arith,
  lookup-retain_key (λ bh. not (ltb bh w.current_block)) h
      (if has height w.commit_store then w.commit_store else insert height hash w.commit_store),
  lookup-insert height h hash w.commit_store,
)

mark_commit-current_block :
    (height : ℕ) (hash : Str) (w : Worker)
    → (mark_commit height hash w).current_block ≡ w.current_block
unfolding mark_commit
mark_commit-current_block height hash w = refl

send_commit-Careful :
    (now : ℕ) (p : Prepare) (req : Request) (opinion : Bool) (w : Worker)
    → w.current_block < req.block_height
    → has req.block_height w.commit_store ≡ false
    → Careful w (send_commit now p req opinion w)
unfolding send_commit set_cert commit_of
send_commit-Careful now p req opinion w above open_height = rw open_height (record {
  height = omega (arith, kept_height);
  keeps = λ h s. ground (arith, kept_height, has-mark_commit req.block_height req.block_hash w h);
  posts = inr (
    req.block_height,
    refl,
    open_height,
    above,
    ground (arith, kept_height, has-mark_commit req.block_height req.block_hash w req.block_height),
  );
})
  where
    kept_height : (mark_commit req.block_height req.block_hash w).current_block ≡ w.current_block
    kept_height = mark_commit-current_block req.block_height req.block_hash w

judge_block-Careful :
    (now : ℕ) (p : Prepare) (req : Request) (b : Option Block) (w : Worker)
    → w.current_block < req.block_height
    → has req.block_height w.commit_store ≡ false
    → Careful w (judge_block now p req b w)
unfolding judge_block
judge_block-Careful now p req none w above open_height = idle-Careful w w _ refl refl refl refl
judge_block-Careful now p req (some b) w above open_height =
    send_commit-Careful now p req _ w above open_height

reach_prepared-Careful :
    (now : ℕ) (p : Prepare) (req : Request) (w : Worker)
    → has req.block_height w.commit_store ≡ false
    → Careful w (reach_prepared now p req w)
unfolding reach_prepared
reach_prepared-Careful now p req w open_height =
    elim (Bool-cases (leb req.block_height w.current_block)) [
      | inl e ↦ rw e (idle-Careful w w _ refl refl refl refl)
      | inr e ↦ rw e (judge_block-Careful now p req _ w (ground arith) open_height)
    ]

count_prepare-Careful :
    (now : ℕ) (p : Prepare) (req : Request) (rest : List Effect) (w : Worker)
    → has req.block_height w.commit_store ≡ false
    → commit_heights rest ≡ []
    → Careful w (count_prepare now p req rest w)
unfolding count_prepare add_prepare set_cert
count_prepare-Careful now p req rest w open_height quiet =
    elim (Bool-cases (prepared p.request_digest id w && (cert_at id w).sent_commit)) [
      | inl e ↦ rw e (idle-Careful w w _ refl refl refl refl)
      | inr e ↦
          rw e
            (elim (Bool-cases
              (prepared p.request_digest id w' && not (cert_at id w').sent_commit)) [
                | inl f ↦ rw f (
                    and_then-Careful w _ rest quiet (
                      Careful-from w w' _ refl refl
                        (reach_prepared-Careful now p req w' open_height)))
                | inr f ↦ rw f (
                    and_then-Careful w (stop w' done) rest quiet
                      (idle-Careful w w' _ refl refl refl refl))
              ])
    ]
  where
    id : MsgId
    id = msg_id p.view p.req_id

    w' : Worker
    w' = add_prepare p w

find_request-Careful :
    (now : ℕ) (p : Prepare) (req : Option Request) (rest : List Effect) (w : Worker)
    → commit_heights rest ≡ []
    → Careful w (find_request now p req rest w)
unfolding find_request
find_request-Careful now p none rest w quiet = idle-Careful w w _ refl refl refl refl
find_request-Careful now p (some req) rest w quiet =
    elim (Bool-cases (leb req.block_height w.current_block)) [
      | inl e ↦ rw e (idle-Careful w w _ refl refl refl refl)
      | inr e ↦ rw e (elim (Bool-cases (has req.block_height w.commit_store)) [
        | inl f ↦ rw f (idle-Careful w w _ refl refl refl refl)
        | inr f ↦ rw f (count_prepare-Careful now p req rest w f quiet)
      ])
    ]

transfer2_quiet :
    (now : ℕ) (p : Prepare) (w : Worker) → commit_heights (send_con_msg_transfer2 now p w) ≡ []
unfolding send_con_msg_transfer2
transfer2_quiet now p w = ground arith

pub recv_prepare-Careful : (now : ℕ) (p : Prepare) (w : Worker) → Careful w (recv_prepare now p w)
unfolding recv_prepare
recv_prepare-Careful now p w =
    let w' = get_cert (msg_id p.view p.req_id) w in
    let f = get_cert-Frame (msg_id p.view p.req_id) w in
    ground (
      arith,
      idle-Careful w w (stop w (fail prepare_view)) refl refl refl refl,
      idle-Careful w w (stop w (fail being_selection_leader)) refl refl refl refl,
      idle-Careful w w' (stop w' (fail duplicate_prepare)) f.commit_store f.current_block refl refl,
      Careful-from w w' _ f.commit_store f.current_block (
          find_request-Careful now p (get_request_from_store p.request_digest w')
            (send_con_msg_transfer2 now p w') w' (transfer2_quiet now p w')),
    )

pub recv_prepare_not_transfer-Careful :
    (now : ℕ) (p : Prepare) (w : Worker) → Careful w (recv_prepare_not_transfer now p w)
unfolding recv_prepare_not_transfer
recv_prepare_not_transfer-Careful now p w =
    let w' = get_cert (msg_id p.view p.req_id) w in
    let f = get_cert-Frame (msg_id p.view p.req_id) w in
    let seen = prepared_by p.sender (cert_at (msg_id p.view p.req_id) w').prepare in
    ground (
      arith,
      idle-Careful w w (stop w (fail prepare_view)) refl refl refl refl,
      idle-Careful w w (stop w (fail being_selection_leader)) refl refl refl refl,
      Careful-from w w' _ f.commit_store f.current_block (
          find_request-Careful now p (get_request_from_store p.request_digest w')
            (if seen then [] else send_con_msg_transfer2 now p w') w'
            (ground (arith, transfer2_quiet now p w'))),
    )
