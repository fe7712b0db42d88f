-- ===== src/Node/Kept.antt =====
-- What the handlers of eth/pbft-core.go leave of the commits in the certificates: a certificate keeps
-- its commits or is removed, except where a commit is added.
pub mod PrePrepares
pub mod Prepares
pub mod Commits
use pbft_block.Common.{
  ℕ, ◌≡◌, refl, sym, ◌∙◌, ap, ◌⊎◌, inl, inr, Bool, true, false, Option, none, some, List, [], ◌∷◌,
  arith, lookup, insert, lookup-insert, lookup-retain_key, if◌then◌else◌, Option-cases, Bool-cases,
  ltb,
}
use pbft_block.Text.{Str}
use pbft_block.Msg.{
  Block, Request, PrePrepare, Prepare, Commit, Checkpoint, MsgId, msg_id_eq, msg_id_beq,
  msg_id_beq_iff, MsgCert, Effect,
}
use pbft_block.Worker.{Worker, Run, Reply, done, fail, panic, after, and_then, stop, note_req_id}
use pbft_block.Cert.{
  empty_cert, msg_id, cert_at, get_cert, set_cert, put_pre_prepare_in_cert, remove_old_con_msg,
}
use pbft_block.Pool.{put_pvb_and_beats}
use pbft_block.Handlers.Request.{store_request, new_hash_req, recv_request, accept_request, propose}
use pbft_block.Handlers.PrePrepare.{
  recv_pre_prepare, admit_request, check_height, enter_cert, answer_pre_prepare, check_digest,
  file_block, use_block, send_prepare, track_pre_prepare,
}

pub record Kept (w w' : Worker) : Type 0 where
  pub commits :
      (id : MsgId)
      → ((cert_at id w').commit ≡ (cert_at id w).commit) ⊎ ((cert_at id w').commit ≡ [])

pub same-Kept : (w w' : Worker) → w'.cert_store ≡ w.cert_store → Kept w w'
unfolding cert_at
same-Kept w w' e = record { commits = λ id. inl (rw e refl) }

pub Kept-trans : (w w' w'' : Worker) → Kept w w' → Kept w' w'' → Kept w w''
Kept-trans w w' w'' k l = record { commits = λ id. ground (arith, k.commits id, l.commits id) }

pub cert_at-set_cert :
    (id j : MsgId) (c : MsgCert) (w : Worker)
    → cert_at j (set_cert id c w) ≡ (if msg_id_beq id j then c else cert_at j w)
unfolding cert_at set_cert
cert_at-set_cert id j c w = ground (arith, lookup-insert id j c w.cert_store)

pub set_cert-Kept :
    (id : MsgId) (c : MsgCert) (w : Worker)
    → c.commit ≡ (cert_at id w).commit
    → Kept w (set_cert id c w)
set_cert-Kept id c w same = record {
  commits = λ j. ground (arith, cert_at-set_cert id j c w, msg_id_beq_iff id j, same);
}

empty_commits :
    (id : MsgId) (w : Worker) → lookup id w.cert_store ≡ none → [] ≡ (cert_at id w).commit
unfolding cert_at
empty_commits id w e = rw (cert_at, e) refl

pub get_cert-Kept : (id : MsgId) (w : Worker) → Kept w (get_cert id w)
unfolding get_cert
get_cert-Kept id w = elim (Option-cases (lookup id w.cert_store)) [
  | inl e ↦ rw (get_cert, e) (set_cert-Kept id empty_cert w (empty_commits id w e))
  | inr (c, e) ↦ rw (get_cert, e) (same-Kept w w refl)
]

pub remove_old_con_msg-Kept : (n : ℕ) (w : Worker) → Kept w (remove_old_con_msg n w)
unfolding remove_old_con_msg cert_at
remove_old_con_msg-Kept n w = record {
  commits = λ j. ground (
    arith,
    lookup-retain_key (λ (id : MsgId). ltb n id.n) j w.cert_store,
    Option-cases (lookup j w.cert_store),
  );
}

and_then-node : (r : Run) (es : List Effect) → (and_then r es).node ≡ r.node
and_then-node r es = ground arith

-- A handler whose node has kept the commits.
pub Keeps : Worker → Run → Type 0
Keeps w r = Kept w r.node

pub leaf : (w : Worker) (r : Run) → Kept w r.node → Keeps w r
unfolding Keeps
leaf w r k = k

pub kept : (w : Worker) (r : Run) → Keeps w r → Kept w r.node
unfolding Keeps
kept w r k = k

pub Keeps-from : (w w' : Worker) (r : Run) → Kept w w' → Keeps w' r → Keeps w r
unfolding Keeps
Keeps-from w w' r k l = Kept-trans w w' r.node k l

pub stop-Keeps : (w : Worker) (reply : Reply) → Keeps w (stop w reply)
unfolding Keeps
stop-Keeps w reply = same-Kept w w refl

pub after-Keeps : (w : Worker) (es : List Effect) (r : Run) → Keeps w r → Keeps w (after es r)
unfolding Keeps
after-Keeps w es r k = k

pub and_then-Keeps : (w : Worker) (r : Run) (es : List Effect) → Keeps w r → Keeps w (and_then r es)
unfolding Keeps
and_then-Keeps w r es k = rw (and_then-node r es) k

pub either-Keeps :
    (w : Worker) (t : Bool) (r s : Run) → Keeps w r → Keeps w s → Keeps w (if t then r else s)
either-Keeps w true r s k l = k
either-Keeps w false r s k l = l

pub put_pvb_and_beats-Kept : (now : ℕ) (b : Block) (w : Worker) → Kept w (put_pvb_and_beats now b w)
unfolding put_pvb_and_beats
put_pvb_and_beats-Kept now b w = same-Kept w (put_pvb_and_beats now b w) refl

pub note_req_id-Kept : (id : ℕ) (w : Worker) → Kept w (note_req_id id w)
unfolding note_req_id
note_req_id-Kept id w = same-Kept w (note_req_id id w) (ground arith)
