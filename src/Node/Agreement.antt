-- ===== src/Node/Agreement.antt =====
-- Agreement of the nodes of a network: what `committed` of eth/pbft-core_basic.go and `commitStore` of
-- eth/pbft-core.go come to together, with the faults that the thresholds allow for.
use pbft_block.Common.{
  ℕ, ◌≡◌, refl, ◌≤◌, ◌<◌, ◌⊎◌, inl, inr, Bool, true, false, List, [], ◌∷◌, ◌==◌, ◌&&◌, ◌||◌, arith,
  length, mem, Distinct, Subset, length-le_of_Subset, nat_eq, bytes_eq, bytes_beq_iff, Bool-cases,
}
use pbft_block.Text.{Str}
use pbft_block.Msg.{
  MsgId, Payload, pbft_request, pbft_pre_prepare, pbft_prepare, pbft_commit, con_status_request,
  Effect, post, forward, checkpoint, force_sync, go_request, go_pre_prepare, go_prepare,
  go_prepare_not_transfer, go_commit,
}
use pbft_block.Worker.{Worker}
use pbft_block.Worker.Quorum.{faults}
use pbft_block.Cert.{cert_at, committed}
use pbft_block.Cert.Voters.{has_voted}
use pbft_block.Cert.Overlap.{Senders, committed_overlap}
use pbft_block.Node.Careful.{commit_heights}

abbrev payload_names : ℕ → Str → Payload → Bool
payload_names h a (pbft_commit c) = c.vr.block_height == h && c.vr.block_hash == a
payload_names h a _ = false

abbrev effect_names : ℕ → Str → Effect → Bool
effect_names h a (post m) = payload_names h a m.msg
effect_names h a _ = false

-- A commit is posted that names the height and the hash.
unfoldable pub names_block : ℕ → Str → List Effect → Bool
names_block h a [] = false
names_block h a (e ∷ es) = effect_names h a e || names_block h a es

effect_names-height :
    (h : ℕ) (a : Str) (e : Effect) (es : List Effect)
    → effect_names h a e ≡ true
    → commit_heights (e ∷ es) ≡ h ∷ commit_heights es
effect_names-height h a (post m) es n = ground arith
effect_names-height h a _ es n = ground arith

-- An effect adds a height or none.
commit_heights-cases :
    (e : Effect) (es : List Effect)
    → (commit_heights (e ∷ es) ≡ commit_heights es)
      ⊎ ((x : ℕ) × (commit_heights (e ∷ es) ≡ x ∷ commit_heights es))
commit_heights-cases (post m) es = go m.msg
  where
    go :
        (p : Payload)
        → (commit_heights (post (record m { msg = p }) ∷ es) ≡ commit_heights es)
          ⊎ ((x : ℕ) × (commit_heights (post (record m { msg = p }) ∷ es) ≡ x ∷ commit_heights es))
    go (pbft_commit c) = inr (c.vr.block_height, refl)
    go (pbft_request r) = inl refl
    go (pbft_pre_prepare q) = inl refl
    go (pbft_prepare q) = inl refl
    go (con_status_request q) = inl refl
commit_heights-cases (forward m) es = inl refl
commit_heights-cases (checkpoint c) es = inl refl
commit_heights-cases force_sync es = inl refl
commit_heights-cases (go_request r) es = inl refl
commit_heights-cases (go_pre_prepare q) es = inl refl
commit_heights-cases (go_prepare q) es = inl refl
commit_heights-cases (go_prepare_not_transfer q) es = inl refl
commit_heights-cases (go_commit c) es = inl refl

names_block-mem :
    (h : ℕ) (a : Str) (es : List Effect)
    → names_block h a es ≡ true
    → mem h (commit_heights es) ≡ true
unfolding names_block mem
names_block-mem h a [] n = ground arith
names_block-mem h a (e ∷ es) n =
    ground (arith, effect_names-height h a e es, commit_heights-cases e es, names_block-mem h a es)

payload_names-same :
    (h : ℕ) (a b : Str) (p : Payload)
    → payload_names h a p ≡ true
    → payload_names h b p ≡ true
    → a ≡ b
payload_names-same h a b (pbft_commit c) n n' =
    ground (arith, bytes_beq_iff c.vr.block_hash a, bytes_beq_iff c.vr.block_hash b)
payload_names-same h a b _ n n' = ground arith

effect_names-same :
    (h : ℕ) (a b : Str) (e : Effect) → effect_names h a e ≡ true → effect_names h b e ≡ true → a ≡ b
effect_names-same h a b (post m) n n' = payload_names-same h a b m.msg n n'
effect_names-same h a b _ n n' = ground arith

-- Commits for one height, where there is at most one for each, name one block.
names_block-once :
    (h : ℕ) (a b : Str) (es : List Effect)
    → Distinct (commit_heights es)
    → names_block h a es ≡ true
    → names_block h b es ≡ true
    → a ≡ b
unfolding names_block
names_block-once h a b [] d n n' = ground arith
names_block-once h a b (e ∷ es) d n n' = ground (
  arith,
  effect_names-same h a b e,
  effect_names-height h a e es,
  effect_names-height h b e es,
  names_block-mem h a es,
  names_block-mem h b es,
  commit_heights-cases e es,
  names_block-once h a b es,
  d,
)

outside : (xs ys : List Str) → ((s : Str) × (mem s xs ≡ true) × (mem s ys ≡ false)) ⊎ Subset xs ys
unfolding mem
outside [] ys = inr (λ s h. ground arith)
outside (x ∷ xs) ys = elim (Bool-cases (mem x ys)) [
  | inl e ↦ elim (outside xs ys) [
    | inl (s, i, o) ↦ inl (s, ground arith, o)
    | inr sub ↦ inr (λ s h. ground (arith, bytes_beq_iff x s, sub s))
  ]
  | inr e ↦ inl (x, ground (arith, bytes_beq_iff x x), e)
]

-- More different senders than there are faulty ones: one of them is not faulty.
some_correct :
    (xs faulty : List Str)
    → Distinct xs
    → length faulty < length xs
    → (s : Str) × (mem s xs ≡ true) × (mem s faulty ≡ false)
some_correct xs faulty d more = elim (outside xs faulty) [
  | inl found ↦ found
  | inr sub ↦ ground (arith, length-le_of_Subset xs faulty d sub)
]

-- The commits that a certificate has under the names of members that are not faulty are among what
-- those have started, and name the block.
abbrev pub Backed : (Str → List Effect) → List Str → ℕ → Str → MsgId → Worker → Type 0
Backed posts faulty h a id w =
    (s : Str)
    → mem s faulty ≡ false
    → has_voted id (cert_at id w).commit s ≡ true
    → names_block h a (posts s) ≡ true

-- Agreement of nodes that commit themselves once for a height.
pub committed_agreement :
    (network faulty : List Str) (posts : Str → List Effect) (digest digest' : Str) (id id' : MsgId)
    (v w : Worker) (h : ℕ) (a b : Str)
    → ((s : Str) → Distinct (commit_heights (posts s)))
    → 2 ≤ length network
    → length faulty ≤ faults (length network)
    → v.n ≡ length network
    → w.n ≡ length network
    → Senders network id v
    → Senders network id' w
    → Backed posts faulty h a id v
    → Backed posts faulty h b id' w
    → committed digest id v ≡ true
    → committed digest' id' w ≡ true
    → a ≡ b
committed_agreement network faulty posts digest digest' id id' v w h a b once two few nv nw sv sw bv
      bw cv cw =
    let shared = committed_overlap network digest digest' id id' v w two nv nw sv sw cv cw in
    let (s, there, correct) =
      some_correct shared.both faulty shared.different (omega (arith, shared.more, few)) in
    names_block-once h a b (posts s) (once s) (bv s correct (shared.first s there))
      (bw s correct (shared.second s there))
