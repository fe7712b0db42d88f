-- ===== src/Pool/Invariant.antt =====
-- What holds of `possibleValidBlock` and `blockbeats` between two operations: each block is filed
-- under its own height and hash, and a hash is timed only while its block is there.
use pbft_block.Common.{
  ℕ, ◌≤◌, ◌≡◌, ◌⊎◌, refl, true, false, ◌&&◌, not, none, some, [], ◌∷◌, if◌then◌else◌, ◌==◌, nat_eq,
  bytes_eq, lookup, lookup-insert, lookup-retain_key, lookup-delete, has, arith, inl, inr, Map,
  Unique, Bool-cases, insert-Unique, retain-Unique, bytes_beq_iff,
}
use pbft_block.Text.{Str}
use pbft_block.Msg.{Block}
use pbft_block.Worker.{Worker}
use pbft_block.Pool.{
  Blocks, hash, put_block, get_block, hash_upto, put_pvb_and_beats, delete_upto,
  delete_pvb_and_beats, delete_pvb_and_beats_by_hash, delete_block_by_hash, add_beats,
  reset_pvb_and_beats,
}
use pbft_block.Pool.Laws.{get_block-put_block, get_block-delete_upto}

pub record PoolInv (m : Blocks) (beats : Map Str ℕ) : Type 0 where
  pub one_entry : Unique m
  pub filed :
      (bn : ℕ) (h : Str) (b : Block) → get_block bn h m ≡ some b → (b.number ≡ bn) × (hash b ≡ h)
  pub timed :
      (h : Str) (t : ℕ)
      → lookup h beats ≡ some t
      → (bn : ℕ) × (b : Block) × (get_block bn h m ≡ some b)

abbrev pub IsPooled : Worker → Type 0
IsPooled w = PoolInv w.possible_valid_block w.blockbeats

-- A stored block makes its hash one of those that go with its height.
get_block-hash_upto :
    (bn dbn : ℕ) (h : Str) (b : Block) (m : Blocks)
    → get_block bn h m ≡ some b
    → bn ≤ dbn
    → hash_upto dbn h m ≡ true
unfolding get_block hash_upto lookup
get_block-hash_upto bn dbn h b [] e le = cc
get_block-hash_upto bn dbn h b ((i, blocks) ∷ m) e le =
    ground (arith, get_block-hash_upto bn dbn h b m)

lookup-add_beats :
    (now : ℕ) (h k : Str) (beats : Map Str ℕ)
    → lookup k (add_beats now h beats)
      ≡ (if has h beats then lookup k beats else if h == k then some now else lookup k beats)
unfolding add_beats
lookup-add_beats now h k beats = ground (arith, lookup-insert h k now beats)

pub put_pvb_and_beats-IsPooled :
    (now : ℕ) (b : Block) (w : Worker) → IsPooled w → IsPooled (put_pvb_and_beats now b w)
unfolding put_pvb_and_beats put_block
put_pvb_and_beats-IsPooled now b w v = record {
  one_entry = insert-Unique _ _ _ v.one_entry;
  filed = λ bn h c e. ground (
    arith,
    get_block-put_block b bn h w.possible_valid_block,
    bytes_beq_iff (hash b) h,
    v.filed bn h c,
  );
  timed = λ h t e. elim (Bool-cases (hash b == h)) [
    | inl same ↦ (b.number, b, put_here h same)
    | inr other ↦ kept h (v.timed h t (before h t other e))
  ];
}
  where
    put_here :
        (h : Str)
        → (hash b == h) ≡ true
        → get_block b.number h (put_block b w.possible_valid_block) ≡ some b
    put_here h same = ground (arith, get_block-put_block b b.number h w.possible_valid_block)

    before :
        (h : Str) (t : ℕ)
        → (hash b == h) ≡ false
        → lookup h (add_beats now (hash b) w.blockbeats) ≡ some t
        → lookup h w.blockbeats ≡ some t
    before h t other e = ground (arith, lookup-add_beats now (hash b) h w.blockbeats)

    kept :
        (h : Str)
        → (bn : ℕ) × (c : Block) × (get_block bn h w.possible_valid_block ≡ some c)
        → (bn : ℕ) × (c : Block) × (get_block bn h (put_block b w.possible_valid_block) ≡ some c)
    kept h (bn, c, e) = elim (Bool-cases (b.number == bn && hash b == h)) [
      | inl new ↦ (bn, b, ground (arith, get_block-put_block b bn h w.possible_valid_block))
      | inr old ↦ (bn, c, ground (arith, get_block-put_block b bn h w.possible_valid_block))
    ]

pub delete_upto-IsPooled : (dbn : ℕ) (w : Worker) → IsPooled w → IsPooled (delete_upto dbn w)
unfolding delete_upto
delete_upto-IsPooled dbn w v = record {
  one_entry = retain-Unique _ _ v.one_entry;
  filed = λ bn h c e. ground (arith, get_block-delete_upto dbn bn h w, v.filed bn h c);
  timed = λ h t e.
      let (bn, c, there) = v.timed h t (
        ground (
          arith,
          lookup-retain_key (λ k. not (hash_upto dbn k w.possible_valid_block)) h w.blockbeats,
        )) in
      (
        bn,
        c,
        ground (
          arith,
          get_block-delete_upto dbn bn h w,
          get_block-hash_upto bn dbn h c w.possible_valid_block,
          lookup-retain_key (λ k. not (hash_upto dbn k w.possible_valid_block)) h w.blockbeats,
        ),
      );
}

pub delete_pvb_and_beats-IsPooled :
    (dbn : ℕ) (k : Str) (w : Worker) → IsPooled w → IsPooled (delete_pvb_and_beats dbn k w)
unfolding delete_pvb_and_beats
delete_pvb_and_beats-IsPooled dbn k w v = record {
  one_entry = (delete_upto-IsPooled dbn w v).one_entry;
  filed = (delete_upto-IsPooled dbn w v).filed;
  timed = λ h t e.
      (delete_upto-IsPooled dbn w v).timed h t
        (ground (arith, lookup-delete k h (delete_upto dbn w).blockbeats));
}

pub reset_pvb_and_beats-IsPooled : (w : Worker) → IsPooled (reset_pvb_and_beats w)
unfolding reset_pvb_and_beats get_block lookup
reset_pvb_and_beats-IsPooled w = record {
  one_entry = tt;
  filed = λ bn h c e. cc;
  timed = λ h t e. cc;
}

-- Taking a hash out leaves each lookup as it was or makes it fail.
get_block-delete_block :
    (h : Str) (bn : ℕ) (k : Str) (m : Blocks)
    → Unique m
    → (get_block bn k (delete_block_by_hash h m) ≡ get_block bn k m)
      ⊎ ((k ≡ h) × (get_block bn k (delete_block_by_hash h m) ≡ none))
unfolding get_block delete_block_by_hash lookup
get_block-delete_block h bn k [] u = inl refl
get_block-delete_block h bn k ((i, blocks) ∷ m) u =
    ground (arith, lookup-delete h k blocks, bytes_beq_iff k h, get_block-delete_block h bn k m u.1)

lookup-delete_block :
    (h : Str) (bn : ℕ) (m : Blocks)
    → lookup bn m ≡ none
    → lookup bn (delete_block_by_hash h m) ≡ none
unfolding delete_block_by_hash lookup
lookup-delete_block h bn [] e = refl
lookup-delete_block h bn ((i, blocks) ∷ m) e = ground (arith, lookup-delete_block h bn m)

delete_block-Unique : (h : Str) (m : Blocks) → Unique m → Unique (delete_block_by_hash h m)
unfolding delete_block_by_hash
delete_block-Unique h [] u = tt
delete_block-Unique h ((i, blocks) ∷ m) u =
    ground (arith, delete_block-Unique h m u.1, lookup-delete_block h i m u.0)

pub delete_pvb_and_beats_by_hash-IsPooled :
    (h : Str) (w : Worker) → IsPooled w → IsPooled (delete_pvb_and_beats_by_hash h w)
unfolding delete_pvb_and_beats_by_hash
delete_pvb_and_beats_by_hash-IsPooled h w v = record {
  one_entry = delete_block-Unique h w.possible_valid_block v.one_entry;
  filed = λ bn k c e.
      ground
        (arith, get_block-delete_block h bn k w.possible_valid_block v.one_entry, v.filed bn k c);
  timed = λ k t e.
      let (bn, c, there) = v.timed k t (ground (arith, lookup-delete h k w.blockbeats)) in
      (
        bn,
        c,
        ground (
          arith,
          lookup-delete h k w.blockbeats,
          bytes_beq_iff k h,
          get_block-delete_block h bn k w.possible_valid_block v.one_entry,
        ),
      );
}
