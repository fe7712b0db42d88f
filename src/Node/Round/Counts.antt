-- ===== src/Node/Round/Counts.antt =====
-- How many messages of different senders count: a prepare or a commit each.
use pbft_block.Common.{
  ℕ, ◌≤◌, ◌≡◌, refl, true, false, List, [], ◌∷◌, ◌++◌, length, mem, mem-append, Distinct, All, any,
  count_if, ◌==◌, nat_eq, bytes_eq, bytes_beq_iff, arith,
}
use pbft_block.Text.{Str}
use pbft_block.Msg.{Prepare, Commit}
use pbft_block.Cert.{msg_id, fits_prepare, commit_quorum, tally}
use pbft_block.Cert.Txs.{txs_votes}

-- An element is not in the part before it.
pub Distinct-before : (x : Str) (xs ys : List Str) → Distinct (xs ++ x ∷ ys) → mem x xs ≡ false
unfolding mem
Distinct-before x [] ys d = refl
Distinct-before x (y ∷ xs) ys d = ground (
  arith,
  d,
  bytes_beq_iff y x,
  bytes_beq_iff x x,
  mem-append y xs (x ∷ ys),
  Distinct-before x xs ys d.1,
)

abbrev pub prepare_senders : List Prepare → List Str
prepare_senders [] = []
prepare_senders (p ∷ ps) = p.sender ∷ prepare_senders ps

abbrev pub commit_senders : List Commit → List Str
commit_senders [] = []
commit_senders (c ∷ cs) = c.sender ∷ commit_senders cs

pub prepared_by-mem :
    (s : Str) (ps : List Prepare)
    → any (λ (p : Prepare). p.sender == s) ps ≡ mem s (prepare_senders ps)
unfolding mem
prepared_by-mem s [] = refl
prepared_by-mem s (p ∷ ps) = ground (arith, prepared_by-mem s ps)

pub committed_by-mem :
    (s : Str) (cs : List Commit)
    → any (λ (c : Commit). c.sender == s) cs ≡ mem s (commit_senders cs)
unfolding mem
committed_by-mem s [] = refl
committed_by-mem s (c ∷ cs) = ground (arith, committed_by-mem s cs)

pub prepare_senders-append :
    (ps qs : List Prepare) → prepare_senders (ps ++ qs) ≡ prepare_senders ps ++ prepare_senders qs
prepare_senders-append [] qs = refl
prepare_senders-append (p ∷ ps) qs = rw (prepare_senders-append ps qs) refl

pub commit_senders-append :
    (cs ds : List Commit) → commit_senders (cs ++ ds) ≡ commit_senders cs ++ commit_senders ds
commit_senders-append [] ds = refl
commit_senders-append (c ∷ cs) ds = rw (commit_senders-append cs ds) refl

module _ (v n : ℕ) (digest seq : Str) where
  -- A prepare for the request with this view and number, with a sequence of transactions.
  pub record Fits (p : Prepare) : Type 0 where
    pub view : p.view ≡ v
    pub req_id : p.req_id ≡ n
    pub request_digest : p.request_digest ≡ digest
    pub txs : p.txs_exe_seqs ≡ seq

  fits_prepare-Fits : (p : Prepare) → Fits p → fits_prepare digest (msg_id v n) p ≡ true
  fits_prepare-Fits p f =
      ground (arith, f.view, f.req_id, f.request_digest, bytes_beq_iff digest digest)

  pub count_if-Fits :
      (ps : List Prepare) → All Fits ps → count_if (fits_prepare digest (msg_id v n)) ps ≡ length ps
  count_if-Fits [] h = refl
  count_if-Fits (p ∷ ps) h = ground (arith, fits_prepare-Fits p h.0, count_if-Fits ps h.1)

  pub txs_votes-Fits :
      (ps : List Prepare) → All Fits ps → txs_votes digest (msg_id v n) seq ps ≡ length ps
  txs_votes-Fits [] h = refl
  txs_votes-Fits (p ∷ ps) h =
      ground (arith, fits_prepare-Fits p h.0, h.0.txs, bytes_beq_iff seq seq, txs_votes-Fits ps h.1)

  -- A commit of this view and number, with a positive vote.
  pub record Approves (c : Commit) : Type 0 where
    pub view : c.view ≡ v
    pub req_id : c.req_id ≡ n
    pub opinion : c.vr.opinion ≡ true
    pub request_digest : c.request_digest ≡ digest

  pub commit_quorum-le :
      (seen : List Str) (cs : List Commit) → commit_quorum (msg_id v n) seen cs ≤ length cs
  unfolding commit_quorum
  commit_quorum-le seen [] = omega arith
  commit_quorum-le seen (c ∷ cs) =
      ground (arith, commit_quorum-le (c.sender ∷ seen) cs, commit_quorum-le seen cs)

  each_once :
      (seen : List Str) (cs : List Commit)
      → All Approves cs
      → Distinct (commit_senders cs)
      → ((s : Str) → mem s seen ≡ true → mem s (commit_senders cs) ≡ false)
      → (commit_quorum (msg_id v n) seen cs ≡ length cs) × ((tally seen cs).poss ≡ length cs)
  unfolding commit_quorum tally mem
  each_once seen [] h d apart = (refl, refl)
  each_once seen (c ∷ cs) h d apart =
      let rest =
        each_once (c.sender ∷ seen) cs h.1 d.1
          (λ s m. ground (arith, apart s, bytes_beq_iff c.sender s, d.0)) in
      let new : mem c.sender seen ≡ false =
        ground (arith, apart c.sender, bytes_beq_iff c.sender c.sender) in
      ground (arith, h.0.view, h.0.req_id, h.0.opinion, new, rest)

  -- Every commit of different senders counts, and its vote does.
  pub commit_quorum-Approves :
      (cs : List Commit)
      → All Approves cs
      → Distinct (commit_senders cs)
      → (commit_quorum (msg_id v n) [] cs ≡ length cs) × ((tally [] cs).poss ≡ length cs)
  unfolding mem
  commit_quorum-Approves cs h d = each_once [] cs h d (λ s m. ground (arith, m))
