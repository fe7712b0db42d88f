-- ===== src/Cert/Txs.antt =====
-- What `getConsensusTxExes` (eth/pbft-core_basic.go) finds, whatever order a map is walked in.
use pbft_block.Common.{
  ℕ, ◌+◌, ◌≤◌, ◌≡◌, ◌≢◌, ◌⊎◌, inl, refl, ◌&&◌, none, some, List, [], ◌∷◌, Map, ◌==◌, nat_eq,
  bytes_eq, bytes_beq_iff, lookup, insert, lookup-nil, lookup-insert, Unique, insert-Unique,
  count_if, arith,
}
use pbft_block.Text.{Str}
use pbft_block.Msg.{Prepare, MsgId, msg_id_eq, MsgCert}
use pbft_block.Worker.{Worker, get_quorum}
use pbft_block.Worker.Quorum.{get_quorum-pos}
use pbft_block.Cert.{fits_prepare, tx_exe_counts, best, exes, get_consensus_tx_exes}

-- The matching prepares that give the sequence.
abbrev pub txs_votes : Str → MsgId → Str → List Prepare → ℕ
txs_votes digest id seq ps =
    count_if (λ (p : Prepare). fits_prepare digest id p && p.txs_exe_seqs == seq) ps

abbrev counted : Str → Map Str ℕ → ℕ
counted k m = elim (lookup k m) [ none ↦ 0 | some c ↦ c ]

counted-tx_exe_counts :
    (digest : Str) (id : MsgId) (k : Str) (m : Map Str ℕ) (ps : List Prepare)
    → k ≢ []
    → counted k (tx_exe_counts digest id m ps) ≡ counted k m + txs_votes digest id k ps
unfolding tx_exe_counts
counted-tx_exe_counts digest id k m [] h = omega arith
counted-tx_exe_counts digest id k m (p ∷ ps) h = ground (
  arith,
  counted-tx_exe_counts digest id k (insert p.txs_exe_seqs (counted p.txs_exe_seqs m + 1) m) ps h,
  counted-tx_exe_counts digest id k m ps h,
  lookup-insert p.txs_exe_seqs k (counted p.txs_exe_seqs m + 1) m,
  bytes_beq_iff p.txs_exe_seqs k,
  bytes_beq_iff p.txs_exe_seqs [],
)

tx_exe_counts-Unique :
    (digest : Str) (id : MsgId) (m : Map Str ℕ) (ps : List Prepare)
    → Unique m
    → Unique (tx_exe_counts digest id m ps)
unfolding tx_exe_counts
tx_exe_counts-Unique digest id m [] u = u
tx_exe_counts-Unique digest id m (p ∷ ps) u = ground (
  arith,
  insert-Unique p.txs_exe_seqs (counted p.txs_exe_seqs m + 1) m,
  tx_exe_counts-Unique digest id (insert p.txs_exe_seqs (counted p.txs_exe_seqs m + 1) m) ps,
  tx_exe_counts-Unique digest id m ps,
)

-- No prepare without a sequence is counted.
tx_exe_counts_named :
    (digest : Str) (id : MsgId) (m : Map Str ℕ) (ps : List Prepare)
    → lookup [] m ≡ none
    → lookup [] (tx_exe_counts digest id m ps) ≡ none
unfolding tx_exe_counts
tx_exe_counts_named digest id m [] u = u
tx_exe_counts_named digest id m (p ∷ ps) u = ground (
  arith,
  bytes_beq_iff p.txs_exe_seqs [],
  lookup-insert p.txs_exe_seqs [] (counted p.txs_exe_seqs m + 1) m,
  tx_exe_counts_named digest id (insert p.txs_exe_seqs (counted p.txs_exe_seqs m + 1) m) ps,
  tx_exe_counts_named digest id m ps,
)

best_above :
    (count : ℕ) (exe k : Str) (m : Map Str ℕ)
    → (count ≤ (best count exe m).1) × (counted k m ≤ (best count exe m).1)
unfolding best lookup
best_above count exe k [] = omega arith
best_above count exe k ((seq, c) ∷ m) =
    ground (arith, bytes_beq_iff seq k, best_above c seq k m, best_above count exe k m)

best_attained :
    (count : ℕ) (exe : Str) (m : Map Str ℕ)
    → Unique m
    → (best count exe m ≡ (exe, count))
      ⊎ (lookup (best count exe m).0 m ≡ some (best count exe m).1)
unfolding best lookup
best_attained count exe [] u = inl refl
best_attained count exe ((seq, c) ∷ m) u = ground (
  arith,
  bytes_beq_iff seq (best c seq m).0,
  bytes_beq_iff seq (best count exe m).0,
  best_attained c seq m u.1,
  best_attained count exe m u.1,
)

module _ (digest : Str) (id : MsgId) (w : Worker) (cert : MsgCert)
    (there : lookup id w.cert_store ≡ some cert) where
  counts : Map Str ℕ
  counts = tx_exe_counts digest id [] cert.prepare

  best_named : 1 ≤ (best 0 [] counts).1 → (best 0 [] counts).0 ≢ []
  unfolding counts lookup
  best_named h e = ground (
    arith,
    best_attained 0 [] counts (tx_exe_counts-Unique digest id [] cert.prepare tt),
    tx_exe_counts_named digest id [] cert.prepare refl,
  )

  votes-best :
      1 ≤ (best 0 [] counts).1
      → (best 0 [] counts).1 ≡ txs_votes digest id (best 0 [] counts).0 cert.prepare
  unfolding counts lookup
  votes-best h = ground (
    arith,
    best_attained 0 [] counts (tx_exe_counts-Unique digest id [] cert.prepare tt),
    counted-tx_exe_counts digest id (best 0 [] counts).0 [] cert.prepare (best_named h),
  )

  -- A sequence that is returned for a certificate is not empty, and a quorum of the matching prepares
  -- gives it.
  pub get_consensus_tx_exes_agreed :
      (seq : Str)
      → get_consensus_tx_exes digest id w ≡ exes seq
      → (seq ≢ []) × (get_quorum w.n ≤ txs_votes digest id seq cert.prepare)
  unfolding get_consensus_tx_exes counts
  get_consensus_tx_exes_agreed seq e = ground (arith, get_quorum-pos w.n, best_named, votes-best)

  -- Where a quorum of the matching prepares of the certificate gives one sequence that is not
  -- empty, a sequence is returned.
  pub get_consensus_tx_exes_found :
      (seq : Str)
      → seq ≢ []
      → get_quorum w.n ≤ txs_votes digest id seq cert.prepare
      → (found : Str) × (get_consensus_tx_exes digest id w ≡ exes found)
  unfolding get_consensus_tx_exes counts
  get_consensus_tx_exes_found seq named q = (
    (best 0 [] counts).0,
    ground (
      arith,
      best_above 0 [] seq counts,
      counted-tx_exe_counts digest id seq [] cert.prepare named,
      lookup-nil {V = ℕ} seq,
    ),
  )
