-- ===== src/Node/Certificates.antt =====
-- What the certificates of a node hold after any run: `RecvCommit` of eth/pbft-core.go adds a commit
-- to the certificate of its view and number, once for a sender, and nothing else adds any.
use pbft_block.Common.{
  ℕ, ◌≡◌, refl, sym, subst, ◌∙◌, Map, Bool, true, false, not, ◌&&◌, List, [], ◌∷◌, ◌++◌, arith,
  length, leb, mem, lookup, if◌then◌else◌, inl, inr, bytes_eq, nat_eq, Option-cases,
}
use pbft_block.Text.{Str}
use pbft_block.Msg.{Commit, MsgId, msg_id_eq, msg_id_beq, msg_id_beq_iff, MsgCert, Checkpoint}
use pbft_block.Worker.{
  Worker, Run, done, fail, stop, initt, in_v, commit_view, being_selection_leader, already_onchain,
  duplicate_commit, get_quorum, update_lease_beat, update_checkpoint_bh, cancel_consensus,
  set_chkpt,
}
use pbft_block.Cert.{msg_id, cert_at, get_cert, prepared, committed, tally}
use pbft_block.Cert.Voters.{prepared_cert}
use pbft_block.Cert.Counted.{Certified, Certified-append, commit_quorum-length, tally-length}
use pbft_block.Handlers.Transfer.{send_con_msg_transfer3}
use pbft_block.Handlers.Commit.{recv_commit, committed_by, add_commit}
use pbft_block.Handlers.Checkpoint.{recv_checkpoint, store_checkpoint}
use pbft_block.Mining.{start_consensus, build_block, send_request, expire, expire_one, expire_all}
use pbft_block.Pool.{put_pvb_and_beats, delete_pvb_and_beats, delete_pvb_and_beats_by_hash}
use pbft_block.Node.{
  Event, request, pre_prepare, prepare, prepare_not_transfer, commit, checkpoint, start, tick,
  handle, run,
}
use pbft_block.Node.Kept.{Kept, same-Kept, cert_at-set_cert, get_cert-Kept, Keeps, kept, stop-Keeps}
use pbft_block.Node.Kept.Commits.{count_commit-Keeps}
use pbft_block.Node.Kept.PrePrepares.{recv_request-Keeps, recv_pre_prepare-Keeps}
use pbft_block.Node.Kept.Prepares.{recv_prepare-Keeps, recv_prepare_not_transfer-Keeps}

pub record IsCertified (w : Worker) : Type 0 where
  pub certs : (id : MsgId) → Certified id (cert_at id w).commit

Kept-IsCertified : (w w' : Worker) → Kept w w' → IsCertified w → IsCertified w'
Kept-IsCertified w w' k f = record {
  certs = λ id. elim (k.commits id) [
    | inl e ↦ subst (Certified id) (sym e) (f.certs id)
    | inr e ↦ subst (Certified id) (sym e) tt
  ];
}

either_cert :
    (key id : MsgId) (cert old : MsgCert) (t : Bool)
    → msg_id_beq key id ≡ t
    → Certified key cert.commit
    → Certified id old.commit
    → Certified id (if t then cert else old).commit
either_cert key id cert old true e h h' =
    subst (λ i. Certified i cert.commit) ((msg_id_beq_iff key id).0 e) h
either_cert key id cert old false e h h' = h'

add_commit-IsCertified :
    (c : Commit) (w : Worker)
    → committed_by c.sender (cert_at (msg_id c.view c.req_id) w).commit ≡ false
    → IsCertified w
    → IsCertified (add_commit c w)
unfolding add_commit
add_commit-IsCertified c w fresh f =
    let key = msg_id c.view c.req_id in
    let cert : MsgCert = record (cert_at key w) { commit = (cert_at key w).commit ++ c ∷ [] } in
    record {
      certs = λ id.
          subst (λ x. Certified id x.commit) (sym (cert_at-set_cert key id cert w))
            (either_cert key id cert (cert_at id w) (msg_id_beq key id) refl
              (Certified-append key (cert_at key w).commit c (f.certs key) refl refl fresh)
              (f.certs id));
    }

-- A handler that is given certificates in order leaves them so.
CertifiedAfter : Run → Type 0
CertifiedAfter r = IsCertified r.node

after_kept : (w : Worker) (r : Run) → Keeps w r → IsCertified w → CertifiedAfter r
unfolding CertifiedAfter
after_kept w r k f = Kept-IsCertified w r.node (kept w r k) f

either_after :
    (t : Bool) (r s : Run)
    → (t ≡ true → CertifiedAfter r)
    → (t ≡ false → CertifiedAfter s)
    → CertifiedAfter (if t then r else s)
either_after true r s h h' = h refl
either_after false r s h h' = h' refl

recv_commit-after :
    (now : ℕ) (c : Commit) (w : Worker) → IsCertified w → CertifiedAfter (recv_commit now c w)
unfolding recv_commit
recv_commit-after now c w f =
    let id = msg_id c.view c.req_id in
    let w' = get_cert id w in
    let f' = Kept-IsCertified w w' (get_cert-Kept id w) f in
    either_after (not (in_v c.view w)) _ _ (λ e. after_kept w _ (stop-Keeps w (fail commit_view)) f)
      (λ e.
        either_after (not w.ready) _ _
          (λ e. after_kept w _ (stop-Keeps w (fail being_selection_leader)) f)
          (λ e.
            either_after (leb c.vr.block_height w.current_block) _ _
              (λ e. after_kept w _ (stop-Keeps w (fail already_onchain)) f)
              (λ e.
                either_after (committed_by c.sender (cert_at id w').commit) _ _
                  (λ e. after_kept w' _ (stop-Keeps w' (fail duplicate_commit)) f')
                  (λ e.
                    after_kept (add_commit c w') _
                      (count_commit-Keeps c (send_con_msg_transfer3 now c w') (add_commit c w'))
                      (add_commit-IsCertified c w' e f')))))

same_store-after :
    (w : Worker) (r : Run) → r.node.cert_store ≡ w.cert_store → IsCertified w → CertifiedAfter r
unfolding CertifiedAfter
same_store-after w r e f = Kept-IsCertified w r.node (same-Kept w r.node e) f

recv_checkpoint_store :
    (now : ℕ) (c : Checkpoint) (w : Worker)
    → (recv_checkpoint now c w).node.cert_store ≡ w.cert_store
unfolding recv_checkpoint store_checkpoint delete_pvb_and_beats update_lease_beat
    update_checkpoint_bh cancel_consensus set_chkpt
recv_checkpoint_store now c w = ground arith

start_consensus_store :
    (now : ℕ) (w : Worker) → (start_consensus now w).node.cert_store ≡ w.cert_store
unfolding start_consensus build_block send_request put_pvb_and_beats
start_consensus_store now w = ground arith

expire_one_store :
    (now : ℕ) (id : Str) (beat : ℕ) (w : Worker) (old : Bool)
    → (expire_one now id beat (w, old)).0.cert_store ≡ w.cert_store
unfolding expire_one delete_pvb_and_beats_by_hash
expire_one_store now id beat w old = ground arith

expire_all_store :
    (now : ℕ) (beats : Map Str ℕ) (w : Worker) (old : Bool)
    → (expire_all now beats (w, old)).0.cert_store ≡ w.cert_store
unfolding expire_all
expire_all_store now [] w old = refl
expire_all_store now ((id, beat) ∷ beats) w old =
    let next = expire_one now id beat (w, old) in
    expire_all_store now beats (next.0) (next.1) ∙ expire_one_store now id beat w old

expire_store : (now : ℕ) (w : Worker) → (expire now w).cert_store ≡ w.cert_store
unfolding expire cancel_consensus
expire_store now w = ground (arith, expire_all_store now w.blockbeats w false)

handle-after : (now : ℕ) (e : Event) (w : Worker) → IsCertified w → CertifiedAfter (handle now e w)
unfolding handle
handle-after now (request req) w f = after_kept w _ (recv_request-Keeps now req w) f
handle-after now (pre_prepare p) w f = after_kept w _ (recv_pre_prepare-Keeps now p w) f
handle-after now (prepare p) w f = after_kept w _ (recv_prepare-Keeps now p w) f
handle-after now (prepare_not_transfer p) w f =
    after_kept w _ (recv_prepare_not_transfer-Keeps now p w) f
handle-after now (commit c) w f = recv_commit-after now c w f
handle-after now (checkpoint c) w f = same_store-after w _ (recv_checkpoint_store now c w) f
handle-after now start w f = same_store-after w _ (start_consensus_store now w) f
handle-after now tick w f = same_store-after w (stop (expire now w) done) (expire_store now w) f

run-IsCertified : (w : Worker) (es : List (ℕ × Event)) → IsCertified w → IsCertified (run w es)
unfolding run CertifiedAfter
run-IsCertified w [] f = f
run-IsCertified w ((now, e) ∷ es) f =
    run-IsCertified (handle now e w).node es (handle-after now e w f)

initt-IsCertified :
    (port leader_port : Str) (peersnum : ℕ) → IsCertified (initt port leader_port peersnum)
unfolding initt cert_at lookup
initt-IsCertified port leader_port peersnum = record { certs = λ id. tt }

committed-certified :
    (digest : Str) (id : MsgId) (w : Worker)
    → IsCertified w
    → committed digest id w
      ≡ (prepared digest id w && leb (get_quorum w.n) (length (cert_at id w).commit))
unfolding committed cert_at mem
committed-certified digest id w f = ground (
  arith,
  prepared_cert digest w id,
  commit_quorum-length id [] (cert_at id w).commit (f.certs id) (λ s h. refl),
  Option-cases (lookup id w.cert_store),
)

-- Whatever a node has handled since its start, for any view and number: its certificate holds commits
-- of that view and number alone, no two from one sender, so that a request is committed exactly when it
-- is prepared and the commits held are as many as the quorum, and the vote is over all of them.
pub run-committed :
    (port leader_port : Str) (peersnum : ℕ) (es : List (ℕ × Event)) (digest : Str) (id : MsgId)
    → let w = run (initt port leader_port peersnum) es in
      let commits = (cert_at id w).commit in
      Certified id commits
      × (committed digest id w ≡ (prepared digest id w && leb (get_quorum w.n) (length commits)))
      × ((tally [] commits).all ≡ length commits)
unfolding mem
run-committed port leader_port peersnum es digest id =
    let w = run (initt port leader_port peersnum) es in
    let f =
      run-IsCertified (initt port leader_port peersnum) es
        (initt-IsCertified port leader_port peersnum) in
    (
      f.certs id,
      committed-certified digest id w f,
      tally-length id [] (cert_at id w).commit (f.certs id) (λ s h. refl),
    )
