-- ===== src/Node/Round/Voting.antt =====
-- The first half of a round: a quorum of prepares makes a node of eth/pbft-core.go commit itself.
use pbft_block.Common.{
  ℕ, ◌≡◌, ◌≢◌, ◌∙◌, ap, refl, sym, subst, Bool, true, false, List, [], ◌∷◌, ◌++◌, All, All-front,
  All-at, Distinct, length, length-append, arith, bytes_eq,
}
use mathlib.Core.List.{append_assoc}
use pbft_block.Text.{Str}
use pbft_block.Msg.{Block, Request, Prepare, Commit, Effect}
use pbft_block.Worker.{Worker, get_quorum}
use pbft_block.Cert.{set_cert}
use pbft_block.Handlers.Transfer.{send_con_msg_transfer2}
use pbft_block.Handlers.Prepare.{
  recv_prepare, send_commit, add_prepare, is_valid, prepared_by, mark_commit,
}
use pbft_block.Node.{handle, run, sent}
use pbft_block.Node.Round.{Gathers, add_prepare-Gathers}
use pbft_block.Node.Round.Counting.{
  reached, recv_prepare-waits, recv_prepare-sends, send_commit-Gathers,
}
use pbft_block.Node.Round.Counts.{
  Fits, count_if-Fits, prepare_senders, prepare_senders-append, prepared_by-mem, Distinct-before,
}
use pbft_block.Node.Round.Prepares.{
  as_prepares, prepares_of, Says, later_Says, sooner_Says, sends_commit, opinion_on-quorum,
  and_then-node,
}

module _ (v n : ℕ) (digest seq : Str) (req : Request) (block : Block) where
  abbrev Gathered : Bool → List Prepare → List Commit → Worker → Type 0
  Gathered = Gathers v n digest seq req block

  -- What a node has after a quorum of prepares.
  pub record Commits (ps : List Prepare) (cs : List Commit) (w w' : Worker) (es : List Effect)
      : Type 0 where
    pub gathers : Gathered true ps cs w'
    pub says : Says v n digest seq req block w.node_id es
    pub size : w'.n ≡ w.n
    pub node_id : w'.node_id ≡ w.node_id
    pub current_block : w'.current_block ≡ w.current_block

  send_commit-same :
      (now : ℕ) (p : Prepare) (opinion : Bool) (w : Worker)
      → let w' = (send_commit now p req opinion w).node in
        (w'.n ≡ w.n) × (w'.node_id ≡ w.node_id) × (w'.current_block ≡ w.current_block)
  unfolding send_commit mark_commit set_cert
  send_commit-same now p opinion w = ground arith

  add_prepare-same :
      (p : Prepare) (w : Worker)
      → ((add_prepare p w).n ≡ w.n)
        × ((add_prepare p w).node_id ≡ w.node_id)
        × ((add_prepare p w).current_block ≡ w.current_block)
  unfolding add_prepare set_cert
  add_prepare-same p w = (refl, refl, refl)

  -- The prepare that makes the quorum.
  last_prepare :
      (now : ℕ) (ps : List Prepare) (cs : List Commit) (w : Worker) (p : Prepare)
      → is_valid block ≡ true
      → seq ≢ []
      → All (Fits v n digest seq) (ps ++ p ∷ [])
      → length (ps ++ p ∷ []) ≡ get_quorum w.n
      → Fits v n digest seq p
      → prepared_by p.sender ps ≡ false
      → Gathered false ps cs w
      → Commits (ps ++ p ∷ []) cs w (recv_prepare now p w).node (recv_prepare now p w).effects
  unfolding add_prepare set_cert
  last_prepare now ps cs w p valid named fit enough f new g =
      let w' = add_prepare p w in
      let g' = add_prepare-Gathers v n digest seq req block false ps cs w p f g in
      let same = add_prepare-same p w in
      let all : reached v n digest seq req block w.n (ps ++ p ∷ []) ≡ true =
        ground (arith, count_if-Fits v n digest seq (ps ++ p ∷ []) fit, enough) in
      let good =
        opinion_on-quorum v n digest seq req block (ps ++ p ∷ []) cs w' p valid named fit
          (enough ∙ ap get_quorum (sym same.0)) f g' in
      let rest = send_con_msg_transfer2 now p w in
      rw
        (
          recv_prepare-sends v n digest seq req block now ps cs w p f new all g,
          good,
          and_then-node v n digest seq req block now p true w' rest,
        )
        (record {
          gathers =
              send_commit-Gathers v n digest seq req block now (ps ++ p ∷ []) cs w' p true f g';
          says = sends_commit v n digest seq req block now (ps ++ p ∷ []) cs w' p rest f g';
          size = (send_commit-same now p true w').0 ∙ same.0;
          node_id = (send_commit-same now p true w').1 ∙ same.1;
          current_block = (send_commit-same now p true w').2 ∙ same.2;
        })

  new_sender :
      (ps qs : List Prepare) (p : Prepare)
      → Distinct (prepare_senders (ps ++ p ∷ qs))
      → prepared_by p.sender ps ≡ false
  new_sender ps qs p d =
      prepared_by-mem p.sender ps
      ∙ Distinct-before p.sender (prepare_senders ps) (prepare_senders qs)
          (subst (λ xs. Distinct xs) (prepare_senders-append ps (p ∷ qs)) d)

  too_few :
      (size : ℕ) (ps qs : List Prepare) (p q : Prepare)
      → All (Fits v n digest seq) ((ps ++ p ∷ []) ++ q ∷ qs)
      → length ((ps ++ p ∷ []) ++ q ∷ qs) ≡ get_quorum size
      → reached v n digest seq req block size (ps ++ p ∷ []) ≡ false
  too_few size ps qs p q fit enough = ground (
    arith,
    count_if-Fits v n digest seq (ps ++ p ∷ [])
        (All-front (Fits v n digest seq) (ps ++ p ∷ []) (q ∷ qs) fit),
    length-append (ps ++ p ∷ []) (q ∷ qs),
    enough,
  )

  -- Let a node have gathered the request, its block and some prepares. With the prepares of others
  -- that make a quorum it commits itself.
  pub prepares_commit :
      (done : List Prepare) (now : ℕ) (p : Prepare) (ms : List (ℕ × Prepare)) (cs : List Commit)
      (w : Worker)
      → is_valid block ≡ true
      → seq ≢ []
      → All (Fits v n digest seq) (done ++ p ∷ prepares_of ms)
      → Distinct (prepare_senders (done ++ p ∷ prepares_of ms))
      → length (done ++ p ∷ prepares_of ms) ≡ get_quorum w.n
      → Gathered false done cs w
      → Commits
          (done ++ p ∷ prepares_of ms)
          cs
          w
          (run w (as_prepares ((now, p) ∷ ms)))
          (sent w (as_prepares ((now, p) ∷ ms)))
  unfolding run sent handle
  prepares_commit done now p [] cs w valid named fit d enough g =
      let c =
        last_prepare now done cs w p valid named fit enough
          (All-at (Fits v n digest seq) done [] p fit) (new_sender done [] p d) g in
      record {
        gathers = c.gathers;
        says = sooner_Says v n digest seq req block w.node_id _ [] c.says;
        size = c.size;
        node_id = c.node_id;
        current_block = c.current_block;
      }
  prepares_commit done now p ((t, q) ∷ ms) cs w valid named fit d enough g =
      let all = append_assoc done (p ∷ []) (q ∷ prepares_of ms) in
      let f = All-at (Fits v n digest seq) done (q ∷ prepares_of ms) p fit in
      let fit' = subst (λ xs. All (Fits v n digest seq) xs) (sym all) fit in
      let enough' = ap length all ∙ enough in
      let rest = as_prepares ((t, q) ∷ ms) in
      let waits =
        recv_prepare-waits v n digest seq req block now done cs w p f
          (new_sender done (q ∷ prepares_of ms) p d)
          (too_few w.n done (prepares_of ms) p q fit' enough') g in
      let same = add_prepare-same p w in
      let c =
        prepares_commit (done ++ p ∷ []) t q ms cs (add_prepare p w) valid named fit'
          (subst (λ xs. Distinct (prepare_senders xs)) (sym all) d)
          (enough' ∙ ap get_quorum (sym same.0))
          (add_prepare-Gathers v n digest seq req block false done cs w p f g) in
      subst
        (λ x.
          Commits (done ++ p ∷ q ∷ prepares_of ms) cs w (run x rest)
            ((recv_prepare now p w).effects ++ sent x rest))
        (sym waits)
        (record {
          gathers = subst (λ xs. Gathered true xs cs (run (add_prepare p w) rest)) all c.gathers;
          says =
              later_Says v n digest seq req block w.node_id (recv_prepare now p w).effects
                (sent (add_prepare p w) rest)
                (subst (λ i. Says v n digest seq req block i (sent (add_prepare p w) rest)) same.1
                  c.says);
          size = c.size ∙ same.0;
          node_id = c.node_id ∙ same.1;
          current_block = c.current_block ∙ same.2;
        })
