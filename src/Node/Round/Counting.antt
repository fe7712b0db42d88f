-- ===== src/Node/Round/Counting.antt =====
-- What `RecvPrepare` of eth/pbft-core.go does with a prepare that a node has not had, before and at
-- the quorum.
use pbft_block.Common.{
  ℕ, ◌<◌, ◌≡◌, refl, sym, subst, Bool, true, false, not, List, [], ◌∷◌, ◌++◌, leb, ltb, nat_eq,
  nat_eq, bytes_eq, lookup-insert, lookup-retain_key, insert, retain, has, count_if, arith,
}
use pbft_block.Text.{Str}
use pbft_block.Msg.{Block, Request, Prepare, Commit, msg_id_eq}
use pbft_block.Worker.{Worker, and_then, in_v, get_quorum, get_request_from_store}
use pbft_block.Cert.{msg_id, cert_at, set_cert, fits_prepare, prepared}
use pbft_block.Handlers.Prepare.{
  recv_prepare, find_request, count_prepare, reach_prepared, judge_block, send_commit, mark_commit,
  add_prepare, block_of, opinion_on, prepared_by,
}
use pbft_block.Handlers.Transfer.{send_con_msg_transfer2}
use pbft_block.Node.Round.Counts.{Fits}
use pbft_block.Node.Round.{
  Gathers, same_id, get_cert-Gathers, cert_at-Gathers, prepared-Gathers, add_prepare-Gathers,
  lookup-set_cert,
}

module _ (v n : ℕ) (digest seq : Str) (req : Request) (block : Block) where
  -- A prepare that reaches the count, before the node has committed.
  recv_prepare-counts :
      (now : ℕ) (ps : List Prepare) (cs : List Commit) (w : Worker) (p : Prepare)
      → Fits v n digest seq p
      → prepared_by p.sender ps ≡ false
      → Gathers v n digest seq req block false ps cs w
      → recv_prepare now p w ≡ count_prepare now p req (send_con_msg_transfer2 now p w) w
  unfolding recv_prepare find_request get_request_from_store
  recv_prepare-counts now ps cs w p f new g = ground (
    arith,
    same_id v n digest seq req block p f,
    f.view,
    f.request_digest,
    get_cert-Gathers v n digest seq req block false ps cs w g,
    cert_at-Gathers v n digest seq req block false ps cs w g,
    g.prepares,
    g.in_view,
    g.ready,
    g.known,
    g.above,
    g.marked,
    new,
  )

  abbrev pub reached : ℕ → List Prepare → Bool
  reached size ps = leb (get_quorum size) (count_if (fits_prepare digest (msg_id v n)) ps)

  prepared_with :
      (ps : List Prepare) (cs : List Commit) (w : Worker) (p : Prepare)
      → Fits v n digest seq p
      → Gathers v n digest seq req block false ps cs w
      → prepared p.request_digest (msg_id p.view p.req_id) (add_prepare p w)
        ≡ reached w.n (ps ++ p ∷ [])
  unfolding add_prepare set_cert
  prepared_with ps cs w p f g =
      subst
        (λ d. prepared d (msg_id p.view p.req_id) (add_prepare p w) ≡ reached w.n (ps ++ p ∷ []))
        (sym f.request_digest)
        (subst (λ i. prepared digest i (add_prepare p w) ≡ reached w.n (ps ++ p ∷ []))
          (sym (same_id v n digest seq req block p f))
          (prepared-Gathers v n digest seq req block false (ps ++ p ∷ []) cs (add_prepare p w)
            (add_prepare-Gathers v n digest seq req block false ps cs w p f g)))

  not_sent :
      (ps : List Prepare) (cs : List Commit) (w : Worker) (p : Prepare)
      → Fits v n digest seq p
      → Gathers v n digest seq req block false ps cs w
      → (cert_at (msg_id p.view p.req_id) w).sent_commit ≡ false
  not_sent ps cs w p f g = ground (
    arith,
    same_id v n digest seq req block p f,
    cert_at-Gathers v n digest seq req block false ps cs w g,
    g.sent_commit,
  )

  pub recv_prepare-waits :
      (now : ℕ) (ps : List Prepare) (cs : List Commit) (w : Worker) (p : Prepare)
      → Fits v n digest seq p
      → prepared_by p.sender ps ≡ false
      → reached w.n (ps ++ p ∷ []) ≡ false
      → Gathers v n digest seq req block false ps cs w
      → (recv_prepare now p w).node ≡ add_prepare p w
  unfolding count_prepare
  recv_prepare-waits now ps cs w p f new few g =
      rw
        (
          recv_prepare-counts now ps cs w p f new g,
          count_prepare,
          not_sent ps cs w p f g,
          prepared_with ps cs w p f g,
          few,
        )
        (ground arith)

  pub recv_prepare-sends :
      (now : ℕ) (ps : List Prepare) (cs : List Commit) (w : Worker) (p : Prepare)
      → Fits v n digest seq p
      → prepared_by p.sender ps ≡ false
      → reached w.n (ps ++ p ∷ []) ≡ true
      → Gathers v n digest seq req block false ps cs w
      → (recv_prepare now p w)
        ≡ and_then
            (send_commit now p req (opinion_on block p (add_prepare p w)) (add_prepare p w))
            (send_con_msg_transfer2 now p w)
  unfolding count_prepare reach_prepared judge_block
  recv_prepare-sends now ps cs w p f new all g =
      let g' = add_prepare-Gathers v n digest seq req block false ps cs w p f g in
      rw
        (
          recv_prepare-counts now ps cs w p f new g,
          count_prepare,
          not_sent ps cs w p f g,
          prepared_with ps cs w p f g,
          all,
          not_sent (ps ++ p ∷ []) cs (add_prepare p w) p f g',
          reach_prepared,
          g'.has_block,
        )
        (ground (arith, g'.above))

  has-insert :
      (w : Worker)
      → w.current_block < req.block_height
      → has req.block_height (
          retain
            (λ h s. not (ltb h w.current_block))
            (insert req.block_height req.block_hash w.commit_store))
        ≡ true
  has-insert w above = ground (
    arith,
    lookup-insert req.block_height req.block_height req.block_hash w.commit_store,
    lookup-retain_key (λ h. not (ltb h w.current_block)) req.block_height
        (insert req.block_height req.block_hash w.commit_store),
  )

  pub send_commit-Gathers :
      (now : ℕ) (ps : List Prepare) (cs : List Commit) (w : Worker) (p : Prepare) (opinion : Bool)
      → Fits v n digest seq p
      → Gathers v n digest seq req block false ps cs w
      → Gathers v n digest seq req block true ps cs (send_commit now p req opinion w).node
  unfolding send_commit set_cert in_v block_of mark_commit cert_at
  send_commit-Gathers now ps cs w p opinion f g =
      rw (send_commit, g.marked, same_id v n digest seq req block p f, cert_at, g.held)
        (record {
          in_view = g.in_view;
          ready = g.ready;
          above = g.above;
          known = g.known;
          has_block = g.has_block;
          cert = record (g.cert) { sent_commit = true };
          held =
              lookup-set_cert v n digest seq req block (record (g.cert) { sent_commit = true }) w;
          pre = g.pre;
          prepares = g.prepares;
          commits = g.commits;
          sent_commit = refl;
          marked = has-insert w g.above;
        })
