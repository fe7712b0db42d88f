-- ===== src/Node/Round/Answering.antt =====
-- What a node of eth/pbft-core.go does with the pre-prepare that it hands itself for a request.
use pbft_block.Common.{
  ℕ, ◌≡◌, ◌∙◌, ap, refl, subst, Bool, true, false, some, List, [], ◌∷◌, bytes_eq, nat_eq,
  bytes_beq_iff, arith,
}
use pbft_block.Text.{Str}
use pbft_block.Msg.{
  Block, Request, PrePrepare, Prepare, Commit, MsgCert, MsgId, msg_id_eq, pbft_prepare, go_prepare,
}
use pbft_block.Worker.{Worker, Run, done, in_v}
use pbft_block.Worker.Quorum.{get_quorum-pos}
use pbft_block.Pool.{get_block}
use pbft_block.Cert.{msg_id, cert_at, set_cert, stored_fits, pre_prepared}
use pbft_block.Handlers.Transfer.{broadcast, send_con_msg_transfer1}
use pbft_block.Handlers.Request.{new_hash_req}
use pbft_block.Handlers.PrePrepare.{
  recv_pre_prepare, check_height, enter_cert, answer_pre_prepare, check_digest, file_block,
  use_block, send_prepare, prepare_of, track_pre_prepare, retry_prepare, conflicts,
}
use pbft_block.Node.Round.{
  Gathers, lookup-set_cert, set_cert-Gathers, cert_at-Gathers, get_cert-Gathers, prepared-Gathers,
}

module _ (seq : Str) (req : Request) (block : Block) where
  abbrev Gathered : Bool → List Prepare → List Commit → Worker → Type 0
  Gathered = Gathers req.view req.req_id (new_hash_req req) seq req block

  -- What the node does with its own pre-prepare: it posts its prepare.
  pub record Answers (now : ℕ) (p : PrePrepare) (w : Worker) (r : Run) : Type 0 where
    pub gathers : Gathered false [] [] r.node
    pub effects :
        r.effects
        ≡ broadcast now (pbft_prepare (prepare_of now p block w)) w
          ∷ go_prepare (prepare_of now p block w)
          ∷ send_con_msg_transfer1 now p w
    pub size : r.node.n ≡ w.n
    pub node_id : r.node.node_id ≡ w.node_id
    pub current_block : r.node.current_block ≡ w.current_block

  -- A pre-prepare of the round's request.
  pub record Proposes (p : PrePrepare) : Type 0 where
    pub view : p.view ≡ req.view
    pub req_id : p.req_id ≡ req.req_id
    pub request_digest : p.request_digest ≡ new_hash_req req
    pub request : p.request ≡ some req

  recv_pre_prepare-enters :
      (now : ℕ) (p : PrePrepare) (w : Worker)
      → Proposes p
      → Gathered false [] [] w
      → recv_pre_prepare now p w ≡ enter_cert now p req w
  unfolding recv_pre_prepare check_height in_v
  recv_pre_prepare-enters now p w f g =
      ground (arith, f.view, f.request_digest, f.request, g.in_view, g.ready, g.above, g.known)

  abbrev id : MsgId
  id = msg_id req.view req.req_id

  -- The certificate with the pre-prepare, and then with the note that the prepare is sent.
  abbrev tracked : PrePrepare → MsgCert → MsgCert
  tracked p cert = record cert { pre_prepare = some p; is_prepre = true }

  fits_own : (p : PrePrepare) → Proposes p → stored_fits (new_hash_req req) id (some p) ≡ true
  fits_own p f = ground (
    arith,
    f.view,
    f.req_id,
    f.request_digest,
    bytes_beq_iff (new_hash_req req) (new_hash_req req),
  )

  pre_prepared-Gathers :
      (w : Worker) → Gathered false [] [] w → pre_prepared (new_hash_req req) id w ≡ true
  unfolding pre_prepared
  pre_prepared-Gathers w g = ground (arith, g.held, g.known, g.pre)

  same_id : (p : PrePrepare) → Proposes p → msg_id p.view req.req_id ≡ id
  same_id p f = rw f.view refl

  own_id : (p : PrePrepare) → Proposes p → msg_id p.view p.req_id ≡ id
  own_id p f = rw (f.view, f.req_id) refl

  send_prepare-own :
      (now : ℕ) (p : PrePrepare) (w : Worker)
      → Proposes p
      → (g : Gathered false [] [] w) → g.cert.sent_prepare ≡ false
      → send_prepare now p id block w ≡ record {
        node = set_cert id (record (g.cert) { sent_prepare = true }) w;
        effects =
            broadcast now (pbft_prepare (prepare_of now p block w)) w
            ∷ go_prepare (prepare_of now p block w)
            ∷ send_con_msg_transfer1 now p w;
        reply = done;
      }
  unfolding send_prepare cert_at
  send_prepare-own now p w f g unsent =
      ground (arith, f.request_digest, own_id p f, pre_prepared-Gathers w g, g.held, unsent)

  answer-own :
      (now : ℕ) (p : PrePrepare) (w : Worker)
      → Proposes p
      → get_block req.block_height req.block_hash w.possible_valid_block ≡ some block
      → Gathered false [] [] w
      → answer_pre_prepare now p req w ≡ send_prepare now p id block w
  unfolding answer_pre_prepare check_digest file_block use_block
  answer-own now p w f filed g =
      ground
        (arith, f.request_digest, own_id p f, same_id p f, pre_prepared-Gathers w g, g.known, filed)

  track-own :
      (p : PrePrepare) (w : Worker) (g : Gathered false [] [] w)
      → track_pre_prepare p id w ≡ set_cert id (tracked p g.cert) w
  unfolding track_pre_prepare
  track-own p w g =
      ap (λ c. set_cert id (tracked p c) w)
        (cert_at-Gathers req.view req.req_id (new_hash_req req) seq req block false [] [] w g)

  -- Another certificate with no messages.
  empty-Gathers :
      (cert : MsgCert) (w : Worker)
      → stored_fits (new_hash_req req) id cert.pre_prepare ≡ true
      → cert.sent_commit ≡ false
      → cert.prepare ≡ []
      → cert.commit ≡ []
      → Gathered false [] [] w
      → Gathered false [] [] (set_cert id cert w)
  empty-Gathers cert w fits sent no_prepare no_commit g =
      let more =
        set_cert-Gathers req.view req.req_id (new_hash_req req) seq req block false [] [] w cert
          fits sent g in
      subst (λ ps. Gathered false ps [] (set_cert id cert w)) no_prepare
        (subst (λ cs. Gathered false cert.prepare cs (set_cert id cert w)) no_commit more)

  track-Gathers :
      (p : PrePrepare) (w : Worker)
      → Proposes p
      → (g : Gathered false [] [] w) → Gathered false [] [] (set_cert id (tracked p g.cert) w)
  track-Gathers p w f g =
      empty-Gathers (tracked p g.cert) w (fits_own p f) g.sent_commit g.prepares g.commits g

  no_retry :
      (p : PrePrepare) (w : Worker)
      → Proposes p
      → Gathered false [] [] w
      → retry_prepare p id w ≡ []
  unfolding retry_prepare
  no_retry p w f g = ground (
    arith,
    f.request_digest,
    prepared-Gathers req.view req.req_id (new_hash_req req) seq req block false [] [] w g,
    get_quorum-pos w.n,
  )

  no_conflict :
      (p : PrePrepare) (w : Worker)
      → Proposes p
      → (g : Gathered false [] [] w) → conflicts p.request_digest g.cert.pre_prepare ≡ false
  no_conflict p w f g = ground (arith, f.request_digest, g.pre)

  enter_cert-own :
      (now : ℕ) (p : PrePrepare) (w : Worker)
      → Proposes p
      → (g : Gathered false [] [] w) → g.cert.sent_prepare ≡ false
      → enter_cert now p req w ≡ answer_pre_prepare now p req (set_cert id (tracked p g.cert) w)
  unfolding enter_cert
  enter_cert-own now p w f g unsent =
      rw
        (
          enter_cert,
          same_id p f,
          get_cert-Gathers req.view req.req_id (new_hash_req req) seq req block false [] [] w g,
          cert_at-Gathers req.view req.req_id (new_hash_req req) seq req block false [] [] w g,
          no_conflict p w f g,
          track-own p w g,
          no_retry p (set_cert id (tracked p g.cert) w) f (track-Gathers p w f g),
        )
        (ground (arith, unsent))

  pub recv_pre_prepare-Answers :
      (now : ℕ) (p : PrePrepare) (w : Worker)
      → Proposes p
      → get_block req.block_height req.block_hash w.possible_valid_block ≡ some block
      → (g : Gathered false [] [] w) → g.cert.sent_prepare ≡ false
      → Answers now p w (recv_pre_prepare now p w)
  unfolding set_cert prepare_of send_con_msg_transfer1
  recv_pre_prepare-Answers now p w f filed g unsent =
      let w' = set_cert id (tracked p g.cert) w in
      let g' = track-Gathers p w f g in
      let same : recv_pre_prepare now p w ≡ send_prepare now p id block w' =
        recv_pre_prepare-enters now p w f g
        ∙ enter_cert-own now p w f g unsent
        ∙ answer-own now p w' f filed g' in
      let k : g'.cert.sent_prepare ≡ false = ground (
        arith,
        g'.held,
        lookup-set_cert req.view req.req_id (new_hash_req req) seq req block (tracked p g.cert) w,
        unsent,
      ) in
      rw (same, send_prepare-own now p w' f g' k)
        (record {
          gathers =
              empty-Gathers (record (g'.cert) { sent_prepare = true }) w' g'.pre g'.sent_commit
                g'.prepares g'.commits g';
          effects = refl;
          size = refl;
          node_id = refl;
          current_block = refl;
        })
