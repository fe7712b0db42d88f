-- ===== src/Node/Invariant.antt =====
-- The invariant of the block pool over the runs of a node: every handler uses the pool only by its
-- operations.
use pbft_block.Common.{
  ℕ, ◌≡◌, ◌-◌, refl, true, false, if◌then◌else◌, ltb, leb, not, has, length, ◌||◌, ◌&&◌, ◌==◌,
  lookup, Bool-cases, nat_eq, bytes_eq, Bool, Option, ◌⊎◌, inl, inr, none, some, List, [], ◌∷◌,
  arith, Map,
}
use pbft_block.Text.{Str}
use pbft_block.Msg.{Block, Request, PrePrepare, Checkpoint, Effect}
use pbft_block.Worker.{
  Worker, Run, after, Context, unset, running, cancelled, initt, note_req_id, cancel_consensus,
  update_lease_beat, update_checkpoint_bh, set_chkpt, in_v,
}
use pbft_block.Pool.{put_pvb_and_beats, get_block}
use pbft_block.Pool.Invariant.{
  IsPooled, delete_pvb_and_beats-IsPooled, delete_pvb_and_beats_by_hash-IsPooled,
}
use pbft_block.Cert.{msg_id, cert_at, pre_prepared, get_cert, set_cert}
use pbft_block.Handlers.Request.{recv_request, accept_request, store_request, new_hash_req}
use pbft_block.Handlers.PrePrepare.{
  recv_pre_prepare, admit_request, check_height, enter_cert, answer_pre_prepare, check_digest,
  file_block, track_pre_prepare, conflicts,
}
use pbft_block.Handlers.Checkpoint.{recv_checkpoint, store_checkpoint}
use pbft_block.Handlers.Txs.{tx_pool}
use pbft_block.Mining.{
  block_text, can_mining, start_consensus, build_block, send_request, new_block, expire, expire_all,
  expire_one,
}
use pbft_block.Node.{
  Event, request, pre_prepare, prepare, prepare_not_transfer, commit, checkpoint, start, tick,
  handle, run,
}
use pbft_block.Node.Pools.{
  SamePool, SamePool-IsPooled, recv_prepare-SamePool, recv_commit-SamePool, get_cert-SamePool,
  Filed, Filed-IsPooled, propose-Filed, use_block-Filed,
}

-- A run of a handler that ends with the pool in order.
Pooled : Run → Type 0
Pooled r = IsPooled r.node

leaf : (r : Run) → IsPooled r.node → Pooled r
unfolding Pooled
leaf r v = v

after-Pooled : (es : List Effect) (r : Run) → Pooled r → Pooled (after es r)
unfolding Pooled
after-Pooled es r v = v

either-Pooled : (b : Bool) (x y : Run) → Pooled x → Pooled y → Pooled (if b then x else y)
either-Pooled true x y u v = u
either-Pooled false x y u v = v

note_req_id-IsPooled : (id : ℕ) (w : Worker) → IsPooled w → IsPooled (note_req_id id w)
note_req_id-IsPooled id w v =
    SamePool-IsPooled w (note_req_id id w) (unfold SamePool note_req_id in ground arith) v

recv_request-IsPooled :
    (now : ℕ) (req : Request) (w : Worker) → IsPooled w → Pooled (recv_request now req w)
unfolding recv_request accept_request store_request
recv_request-IsPooled now req w v =
    let noted = note_req_id-IsPooled req.req_id w v in
    either-Pooled (not (note_req_id req.req_id w).ready) _ _ (leaf _ noted) (
      either-Pooled
        (not (req.sender == (note_req_id req.req_id w).leader)
          || ltb req.view (note_req_id req.req_id w).view)
        _ _ (leaf _ noted)
        (either-Pooled (has (new_hash_req req) (note_req_id req.req_id w).req_store) _ _
          (leaf _ noted)
          (either-Pooled (leb req.block_height (note_req_id req.req_id w).current_block) _ _
            (leaf _ noted)
            (either-Pooled
              (in_v req.view (store_request (new_hash_req req) req (note_req_id req.req_id w))) _ _
              (leaf _ (Filed-IsPooled now _ _ (propose-Filed now _ req req.real_block _) noted))
              (leaf _ noted)))))

answer-IsPooled :
    (now : ℕ) (p : PrePrepare) (req : Request) (w : Worker)
    → IsPooled w
    → Pooled (answer_pre_prepare now p req w)
unfolding answer_pre_prepare check_digest file_block store_request
answer-IsPooled now p req w v =
    either-Pooled (not (pre_prepared p.request_digest (msg_id p.view p.req_id) w)) _ _ (leaf _ v) (
      either-Pooled (has p.request_digest w.req_store) _ _
        (leaf _ (Filed-IsPooled now _ _ (use_block-Filed now p _ _ _ _) v))
        (either-Pooled (not (new_hash_req req == p.request_digest)) _ _ (leaf _ v)
          (leaf _ (Filed-IsPooled now _ _ (use_block-Filed now p _ _ _ _) v))))

check_height-IsPooled :
    (now : ℕ) (p : PrePrepare) (req : Option Request) (w : Worker)
    → IsPooled w
    → Pooled (check_height now p req w)
unfolding check_height enter_cert track_pre_prepare set_cert
check_height-IsPooled now p none w v = leaf _ v
check_height-IsPooled now p (some req) w v =
    let kept = SamePool-IsPooled w _ (get_cert-SamePool (msg_id p.view req.req_id) w) v in
    either-Pooled (leb req.block_height w.current_block) _ _ (leaf _ v) (
      either-Pooled
        (pre_prepared p.request_digest (msg_id p.view p.req_id)
            (get_cert (msg_id p.view req.req_id) w)
          && (cert_at (msg_id p.view req.req_id)
              (get_cert (msg_id p.view req.req_id) w)).sent_prepare)
        _ _ (leaf _ kept)
        (either-Pooled
          (conflicts p.request_digest
            (cert_at (msg_id p.view req.req_id)
              (get_cert (msg_id p.view req.req_id) w)).pre_prepare)
          _ _ (answer-IsPooled now p req _ kept)
          (after-Pooled _ _ (answer-IsPooled now p req _ kept))))

admit_request-IsPooled :
    (now : ℕ) (p : PrePrepare) (req : Option Request) (w : Worker)
    → IsPooled w
    → Pooled (admit_request now p req w)
unfolding admit_request store_request
admit_request-IsPooled now p none w v = leaf _ v
admit_request-IsPooled now p (some req) w v =
    either-Pooled (not (req.sender == w.leader) || ltb req.view w.view) _ _ (leaf _ v)
      (check_height-IsPooled now p (some req) _ (note_req_id-IsPooled p.req_id w v))

recv_pre_prepare-IsPooled :
    (now : ℕ) (p : PrePrepare) (w : Worker) → IsPooled w → Pooled (recv_pre_prepare now p w)
unfolding recv_pre_prepare
recv_pre_prepare-IsPooled now p w v = either-Pooled (not (in_v p.view w)) _ _ (leaf _ v) (
    either-Pooled (not w.ready) _ _ (leaf _ v) (
      either-Pooled (has p.request_digest w.req_store) _ _
        (check_height-IsPooled now p p.request w v) (admit_request-IsPooled now p p.request w v)))

cancel_consensus-IsPooled : (w : Worker) → IsPooled w → IsPooled (cancel_consensus w)
cancel_consensus-IsPooled w v =
    SamePool-IsPooled w (cancel_consensus w) (unfold SamePool cancel_consensus in ground arith) v

recv_checkpoint-IsPooled :
    (now : ℕ) (c : Checkpoint) (w : Worker) → IsPooled w → Pooled (recv_checkpoint now c w)
unfolding recv_checkpoint set_chkpt update_lease_beat store_checkpoint
recv_checkpoint-IsPooled now c w v =
    let bh = update_checkpoint_bh c.block_height (update_lease_beat now w) in
    let noted = SamePool-IsPooled w bh (unfold SamePool update_checkpoint_bh in ground arith) v in
    either-Pooled (has c.block_hash w.checkpoint_store) _ _ (leaf _ v) (
      either-Pooled (ltb c.block_height bh.current_block) _ _ (leaf _ noted) (
        leaf _ (
          delete_pvb_and_beats-IsPooled c.block_height c.block_hash _
            (cancel_consensus-IsPooled bh noted))))

send_request-SamePool :
    (now : ℕ) (b : Block) (text : Str) (w : Worker) → SamePool w (send_request now b text w).node
unfolding SamePool send_request
send_request-SamePool now b text w = ground arith

build_block-Filed : (now : ℕ) (w : Worker) → Filed now w (build_block now w).node
unfolding Filed SamePool build_block put_pvb_and_beats
build_block-Filed now w = build_cases w.consensus refl
  where
    sent :
        let b = new_block now w in
        let v = put_pvb_and_beats now b (record w { consensus = running; mining = 1 }) in
        (text : Str) → SamePool v (send_request now b text v).node
    sent text = send_request-SamePool now (new_block now w) text _

    build_cases :
        (c : Context)
        → w.consensus ≡ c
        → SamePool w (build_block now w).node
          ⊎ ((b : Block) × SamePool (put_pvb_and_beats now b w) (build_block now w).node)
    build_cases running e = inl (ground arith)
    build_cases unset e = inr (new_block now w, ground (arith, sent block_text))
    build_cases cancelled e = inr (new_block now w, ground (arith, sent block_text))

start_consensus-IsPooled : (now : ℕ) (w : Worker) → IsPooled w → Pooled (start_consensus now w)
unfolding start_consensus
start_consensus-IsPooled now w v =
    either-Pooled (ltb 0 w.tx_num_startconsens && ltb (length tx_pool.0) w.tx_num_startconsens) _ _
      (leaf _ v)
      (either-Pooled (can_mining w) _ _
        (leaf _ (Filed-IsPooled now w _ (build_block-Filed now w) v)) (leaf _ v))

expire_one-IsPooled :
    (now : ℕ) (id : Str) (beat : ℕ) (s : Worker × Bool)
    → IsPooled s.0
    → IsPooled (expire_one now id beat s).0
unfolding expire_one
expire_one-IsPooled now id beat s v =
    elim (Bool-cases (ltb s.0.max_consensus_lifetime (now - beat))) [
      | inl e ↦ rw e (delete_pvb_and_beats_by_hash-IsPooled id s.0 v)
      | inr e ↦ rw e v
    ]

expire_all-IsPooled :
    (now : ℕ) (beats : Map Str ℕ) (s : Worker × Bool)
    → IsPooled s.0
    → IsPooled (expire_all now beats s).0
unfolding expire_all
expire_all-IsPooled now [] s v = v
expire_all-IsPooled now ((id, beat) ∷ beats) s v =
    expire_all-IsPooled now beats _ (expire_one-IsPooled now id beat s v)

expire-IsPooled : (now : ℕ) (w : Worker) → IsPooled w → IsPooled (expire now w)
unfolding expire
expire-IsPooled now w v =
    let s = expire_all now w.blockbeats (w, false) in
    let kept = expire_all-IsPooled now w.blockbeats (w, false) v in
    elim (Bool-cases s.1) [ inl e ↦ rw e (cancel_consensus-IsPooled s.0 kept) | inr e ↦ rw e kept ]

handle-IsPooled : (now : ℕ) (e : Event) (w : Worker) → IsPooled w → IsPooled (handle now e w).node
unfolding handle Pooled
handle-IsPooled now (request req) w v = recv_request-IsPooled now req w v
handle-IsPooled now (pre_prepare p) w v = recv_pre_prepare-IsPooled now p w v
handle-IsPooled now (prepare p) w v = SamePool-IsPooled w _ (recv_prepare-SamePool now p w).0 v
handle-IsPooled now (prepare_not_transfer p) w v =
    SamePool-IsPooled w _ (recv_prepare-SamePool now p w).1 v
handle-IsPooled now (commit c) w v = SamePool-IsPooled w _ (recv_commit-SamePool now c w) v
handle-IsPooled now (checkpoint c) w v = recv_checkpoint-IsPooled now c w v
handle-IsPooled now start w v = start_consensus-IsPooled now w v
handle-IsPooled now tick w v = expire-IsPooled now w v

-- After any run that starts from a node whose pool is in order, each block of the pool is filed
-- under its own height and hash, and each time belongs to a block that is there.
pub run-IsPooled : (w : Worker) (es : List (ℕ × Event)) → IsPooled w → IsPooled (run w es)
unfolding run
run-IsPooled w [] v = v
run-IsPooled w ((now, e) ∷ es) v = run-IsPooled (handle now e w).node es (handle-IsPooled now e w v)

-- A node starts with its pool in order.
pub initt-IsPooled :
    (port leader_port : Str) (peersnum : ℕ) → IsPooled (initt port leader_port peersnum)
unfolding initt get_block lookup
initt-IsPooled port leader_port peersnum = record {
  one_entry = tt;
  filed = λ bn h b e. cc;
  timed = λ h t e. cc;
}
