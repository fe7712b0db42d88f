-- ===== src/Node/Kept/PrePrepares.antt =====
-- What the handlers of requests and of pre-prepares leave of the commits in the certificates.
use pbft_block.Common.{ℕ, refl, true, Option, none, some, bytes_eq, not, ltb, leb, has, ◌==◌, ◌||◌}
use pbft_block.Text.{Str}
use pbft_block.Msg.{Block, Request, PrePrepare, MsgId}
use pbft_block.Worker.{
  Worker, done, fail, panic, caught_panic, in_v, being_selection_leader, wrong_leader_or_view,
  req_exists, already_onchain, note_req_id,
}
use pbft_block.Cert.{msg_id, cert_at, get_cert, put_pre_prepare_in_cert}
use pbft_block.Pool.{put_pvb_and_beats}
use pbft_block.Handlers.Request.{store_request, new_hash_req, recv_request, accept_request, propose}
use pbft_block.Handlers.PrePrepare.{
  recv_pre_prepare, admit_request, check_height, enter_cert, answer_pre_prepare, check_digest,
  file_block, use_block, send_prepare, track_pre_prepare,
}
use pbft_block.Node.Kept.{
  Kept, same-Kept, Kept-trans, set_cert-Kept, get_cert-Kept, put_pvb_and_beats-Kept,
  note_req_id-Kept, Keeps, leaf, Keeps-from, stop-Keeps, after-Keeps, either-Keeps,
}

send_prepare-Keeps :
    (now : ℕ) (p : PrePrepare) (id : MsgId) (b : Block) (w : Worker)
    → Keeps w (send_prepare now p id b w)
unfolding send_prepare
send_prepare-Keeps now p id b w =
    either-Keeps w _ _ _
      (leaf w _ (set_cert-Kept id (record (cert_at id w) { sent_prepare = true }) w refl))
      (stop-Keeps w done)

use_block-Keeps :
    (now : ℕ) (p : PrePrepare) (id : MsgId) (found real : Option Block) (w : Worker)
    → Keeps w (use_block now p id found real w)
unfolding use_block
use_block-Keeps now p id (some b) real w = send_prepare-Keeps now p id b w
use_block-Keeps now p id none (some b) w =
    Keeps-from w (put_pvb_and_beats now b w) _ (put_pvb_and_beats-Kept now b w)
      (send_prepare-Keeps now p id b (put_pvb_and_beats now b w))
use_block-Keeps now p id none none w = stop-Keeps w (fail caught_panic)

check_digest-Keeps :
    (now : ℕ) (p : PrePrepare) (req : Request) (w : Worker) → Keeps w (check_digest now p req w)
unfolding check_digest file_block store_request
check_digest-Keeps now p req w =
    let stored = store_request (new_hash_req req) req w in
    either-Keeps w _ _ _ (use_block-Keeps now p _ _ _ w) (
      either-Keeps w _ _ _ (stop-Keeps w _)
        (Keeps-from w stored _ (same-Kept w stored refl) (use_block-Keeps now p _ _ _ stored)))

answer_pre_prepare-Keeps :
    (now : ℕ) (p : PrePrepare) (req : Request) (w : Worker)
    → Keeps w (answer_pre_prepare now p req w)
unfolding answer_pre_prepare
answer_pre_prepare-Keeps now p req w =
    either-Keeps w _ _ _ (stop-Keeps w _) (check_digest-Keeps now p req w)

track_pre_prepare-Kept :
    (p : PrePrepare) (id : MsgId) (w : Worker) → Kept w (track_pre_prepare p id w)
unfolding track_pre_prepare
track_pre_prepare-Kept p id w =
    set_cert-Kept id (record (cert_at id w) { pre_prepare = some p; is_prepre = true }) w refl

enter_cert-Keeps :
    (now : ℕ) (p : PrePrepare) (req : Request) (w : Worker) → Keeps w (enter_cert now p req w)
unfolding enter_cert
enter_cert-Keeps now p req w =
    let id = msg_id p.view req.req_id in
    let w' = get_cert id w in
    let tracked = track_pre_prepare p id w' in
    either-Keeps w _ _ _ (leaf w _ (get_cert-Kept id w)) (
      either-Keeps w _ _ _
        (Keeps-from w w' _ (get_cert-Kept id w) (answer_pre_prepare-Keeps now p req w'))
        (Keeps-from w w' _ (get_cert-Kept id w) (
          after-Keeps w' _ _ (
            Keeps-from w' tracked _ (track_pre_prepare-Kept p id w')
              (answer_pre_prepare-Keeps now p req tracked)))))

check_height-Keeps :
    (now : ℕ) (p : PrePrepare) (real : Option Request) (w : Worker)
    → Keeps w (check_height now p real w)
unfolding check_height
check_height-Keeps now p none w = stop-Keeps w (fail caught_panic)
check_height-Keeps now p (some req) w =
    either-Keeps w _ _ _ (stop-Keeps w _) (enter_cert-Keeps now p req w)

admit_request-Keeps :
    (now : ℕ) (p : PrePrepare) (real : Option Request) (w : Worker)
    → Keeps w (admit_request now p real w)
unfolding admit_request store_request
admit_request-Keeps now p none w = stop-Keeps w (fail caught_panic)
admit_request-Keeps now p (some req) w =
    let noted = note_req_id p.req_id w in
    let stored = store_request p.request_digest req noted in
    either-Keeps w _ _ _ (stop-Keeps w _) (
      Keeps-from w noted _ (note_req_id-Kept p.req_id w) (
        Keeps-from noted stored _ (same-Kept noted stored refl)
          (check_height-Keeps now p (some req) stored)))

pub recv_pre_prepare-Keeps :
    (now : ℕ) (p : PrePrepare) (w : Worker) → Keeps w (recv_pre_prepare now p w)
unfolding recv_pre_prepare
recv_pre_prepare-Keeps now p w = either-Keeps w (not (in_v p.view w)) _ _ (stop-Keeps w done) (
    either-Keeps w (not w.ready) _ _ (stop-Keeps w (fail being_selection_leader)) (
      either-Keeps w (has p.request_digest w.req_store) _ _ (check_height-Keeps now p p.request w)
        (admit_request-Keeps now p p.request w)))

put_pre_prepare-Kept :
    (view req_id : ℕ) (p : PrePrepare) (w : Worker)
    → Kept w (put_pre_prepare_in_cert view req_id p w)
unfolding put_pre_prepare_in_cert
put_pre_prepare-Kept view req_id p w =
    let id = msg_id view req_id in
    let w' = get_cert id w in
    Kept-trans w w' _ (get_cert-Kept id w)
      (set_cert-Kept id (record (cert_at id w') { pre_prepare = some p }) w' refl)

propose-Keeps :
    (now : ℕ) (digest : Str) (req : Request) (real : Option Block) (w : Worker)
    → Keeps w (propose now digest req real w)
unfolding propose
propose-Keeps now digest req none w = stop-Keeps w panic
propose-Keeps now digest req (some b) w =
    let w' = put_pvb_and_beats now b w in
    leaf w _ (
      Kept-trans w w' _ (put_pvb_and_beats-Kept now b w)
        (put_pre_prepare-Kept req.view req.req_id _ w'))

pub recv_request-Keeps : (now : ℕ) (req : Request) (w : Worker) → Keeps w (recv_request now req w)
unfolding recv_request accept_request store_request
recv_request-Keeps now req w =
    let noted = note_req_id req.req_id w in
    let stored = store_request (new_hash_req req) req noted in
    Keeps-from w noted _ (note_req_id-Kept req.req_id w) (
      either-Keeps noted (not noted.ready) _ _ (stop-Keeps noted (fail being_selection_leader)) (
        either-Keeps noted (not (req.sender == noted.leader) || ltb req.view noted.view) _ _
          (stop-Keeps noted (fail wrong_leader_or_view))
          (either-Keeps noted (has (new_hash_req req) noted.req_store) _ _
            (stop-Keeps noted (fail req_exists))
            (either-Keeps noted (leb req.block_height noted.current_block) _ _
              (stop-Keeps noted (fail already_onchain))
              (Keeps-from noted stored _ (same-Kept noted stored refl) (
                either-Keeps stored (in_v req.view stored) _ _
                  (propose-Keeps now (new_hash_req req) req req.real_block stored)
                  (stop-Keeps stored done)))))))
