-- ===== src/Node/Round.antt =====
-- A round of the consensus at one node of eth/pbft-core.go, from the request to the block: what the
-- node has gathered, and how a prepare adds to it.
pub mod Counts
pub mod Counting
pub mod Prepares
pub mod Voting
pub mod Commits
pub mod Growth
pub mod Opening
pub mod Answering
pub mod Complete
use pbft_block.Common.{
  ℕ, ◌<◌, ◌≤◌, ◌≡◌, refl, sym, subst, Bool, true, false, not, ◌&&◌, Option, none, some, List, [],
  ◌∷◌, ◌++◌, leb, ltb, if◌then◌else◌, ◌==◌, nat_eq, nat_eq, bytes_eq, bytes_beq_iff, lookup,
  lookup-insert, lookup-retain_key, insert, retain, has, count_if, arith, any,
}
use pbft_block.Text.{Str}
use pbft_block.Msg.{
  Block, Request, PrePrepare, Prepare, Commit, MsgCert, MsgId, msg_id_eq, msg_id_beq_iff,
}
use pbft_block.Worker.{Worker, and_then, in_v, get_quorum, get_request_from_store}
use pbft_block.Cert.{
  msg_id, cert_at, set_cert, get_cert, stored_fits, fits_prepare, pre_prepared, prepared, committed,
  commit_quorum,
}
use pbft_block.Handlers.Prepare.{
  recv_prepare, find_request, count_prepare, reach_prepared, judge_block, send_commit, mark_commit,
  add_prepare, block_of, opinion_on, prepared_by,
}
use pbft_block.Handlers.Transfer.{send_con_msg_transfer2}
use pbft_block.Node.Round.Counts.{Fits}

module _ (v n : ℕ) (digest seq : Str) (req : Request) (block : Block) where
  -- What the node has for the request: the prepares and the commits, and whether it has committed.
  pub record Gathers (sent : Bool) (ps : List Prepare) (cs : List Commit) (w : Worker)
      : Type 0 where
    pub in_view : in_v v w ≡ true
    pub ready : w.ready ≡ true
    pub above : w.current_block < req.block_height
    pub known : lookup digest w.req_store ≡ some req
    pub has_block : block_of req w ≡ some block
    pub cert : MsgCert
    pub held : lookup (msg_id v n) w.cert_store ≡ some cert
    pub pre : stored_fits digest (msg_id v n) cert.pre_prepare ≡ true
    pub prepares : cert.prepare ≡ ps
    pub commits : cert.commit ≡ cs
    pub sent_commit : cert.sent_commit ≡ sent
    pub marked : has req.block_height w.commit_store ≡ sent

  pub prepared-Gathers :
      (sent : Bool) (ps : List Prepare) (cs : List Commit) (w : Worker)
      → Gathers sent ps cs w
      → prepared digest (msg_id v n) w
        ≡ leb (get_quorum w.n) (count_if (fits_prepare digest (msg_id v n)) ps)
  unfolding prepared pre_prepared
  prepared-Gathers sent ps cs w g = ground (arith, g.held, g.known, g.pre, g.prepares)

  pub lookup-set_cert :
      (cert : MsgCert) (w : Worker)
      → lookup (msg_id v n) (set_cert (msg_id v n) cert w).cert_store ≡ some cert
  unfolding set_cert
  lookup-set_cert cert w = ground (
    arith,
    lookup-insert (msg_id v n) (msg_id v n) cert w.cert_store,
    msg_id_beq_iff (msg_id v n) (msg_id v n),
  )

  pub set_cert-Gathers :
      (sent : Bool) (ps : List Prepare) (cs : List Commit) (w : Worker) (cert : MsgCert)
      → stored_fits digest (msg_id v n) cert.pre_prepare ≡ true
      → cert.sent_commit ≡ sent
      → Gathers sent ps cs w
      → Gathers sent cert.prepare cert.commit (set_cert (msg_id v n) cert w)
  unfolding set_cert in_v block_of
  set_cert-Gathers sent ps cs w cert fits e g = record {
    in_view = g.in_view;
    ready = g.ready;
    above = g.above;
    known = g.known;
    has_block = g.has_block;
    cert = cert;
    held = lookup-set_cert cert w;
    pre = fits;
    prepares = refl;
    commits = refl;
    sent_commit = e;
    marked = g.marked;
  }

  pub same_id : (p : Prepare) → Fits v n digest seq p → msg_id p.view p.req_id ≡ msg_id v n
  same_id p f = rw (f.view, f.req_id) refl

  add_prepare-set_cert :
      (sent : Bool) (ps : List Prepare) (cs : List Commit) (w : Worker) (p : Prepare)
      → Fits v n digest seq p
      → (g : Gathers sent ps cs w)
      → add_prepare p w ≡ set_cert (msg_id v n) (record (g.cert) { prepare = ps ++ p ∷ [] }) w
  unfolding add_prepare cert_at
  add_prepare-set_cert sent ps cs w p f g = ground (arith, same_id p f, g.held, g.prepares)

  pub add_prepare-Gathers :
      (sent : Bool) (ps : List Prepare) (cs : List Commit) (w : Worker) (p : Prepare)
      → Fits v n digest seq p
      → Gathers sent ps cs w
      → Gathers sent (ps ++ p ∷ []) cs (add_prepare p w)
  add_prepare-Gathers sent ps cs w p f g =
      let cert = record (g.cert) { prepare = ps ++ p ∷ [] } in
      let more = set_cert-Gathers sent ps cs w cert g.pre g.sent_commit g in
      subst (λ w'. Gathers sent (ps ++ p ∷ []) cs w')
        (sym (add_prepare-set_cert sent ps cs w p f g))
        (subst (λ x. Gathers sent (ps ++ p ∷ []) x (set_cert (msg_id v n) cert w)) g.commits more)

  pub get_cert-Gathers :
      (sent : Bool) (ps : List Prepare) (cs : List Commit) (w : Worker)
      → Gathers sent ps cs w
      → get_cert (msg_id v n) w ≡ w
  unfolding get_cert
  get_cert-Gathers sent ps cs w g = rw (get_cert, g.held) refl

  pub cert_at-Gathers :
      (sent : Bool) (ps : List Prepare) (cs : List Commit) (w : Worker)
      → (g : Gathers sent ps cs w) → cert_at (msg_id v n) w ≡ g.cert
  unfolding cert_at
  cert_at-Gathers sent ps cs w g = rw (cert_at, g.held) refl
