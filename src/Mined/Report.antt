-- ===== src/Mined/Report.antt =====
-- The loop of `logLocalMinedBlocks` of eth/worker.go: it ends by its own test, and what it reports.
use pbft_block.Common.{
  ℕ, zero, suc, ◌+◌, ◌-◌, ◌%◌, ◌^◌, ◌≤◌, ◌<◌, ◌≡◌, refl, Bool, true, false, List, [], ◌∷◌, ltb,
  if◌then◌else◌, arith, keep, Bool-cases, inl, inr,
}
use pbft_block.Mined.{
  Ring, take_out, is_block_locally_mined, LoggedBlocks, report, inspected, check_blocks,
}
use pbft_block.Mined.Window.{holds, take_out-holds}

-- So many numbers from the given one on.
abbrev pub range : ℕ → ℕ → List ℕ
range zero n = []
range (suc k) n = n ∷ range k (suc n)

keep-range :
    (p q : ℕ → Bool) (k n : ℕ)
    → ((m : ℕ) → n ≤ m → p m ≡ q m)
    → keep p (range k n) ≡ keep q (range k n)
keep-range p q zero n same = refl
keep-range p q (suc k) n same =
    ground (arith, same n (omega arith), keep-range p q k (suc n) (λ m h. same m (omega arith)))

-- A slot that is set to 0 counts for no other number.
holds-take_out : (m n : ℕ) (xs : List ℕ) → n < m → holds m (take_out n xs).1 ≡ holds m xs
unfolding take_out holds
holds-take_out m n [] h = refl
holds-take_out m n (x ∷ xs) h = ground (arith, holds-take_out m n xs h)

-- The loop has ended at the number `next`, and has reported the numbers of the ring.
pub record Ends (check next : ℕ) (r : Ring) (c : LoggedBlocks) : Type 0 where
  pub stopped : ltb c.at next ≡ false
  pub reports : c.reported ≡ keep (λ n. holds n r.ints) (range (next - check) (check - 5))

idle-Ends :
    (check next : ℕ) (r : Ring) (c : LoggedBlocks)
    → ltb check next ≡ false
    → c.at ≡ check
    → c.reported ≡ []
    → Ends check next r c
idle-Ends check next r c h e e' = ground arith

check_blocks-stop :
    (fuel check next : ℕ) (r : Ring)
    → ltb check next ≡ false
    → check_blocks fuel check next r ≡ record { reported = []; ring = r; at = check }
unfolding check_blocks
check_blocks-stop zero check next r h = refl
check_blocks-stop (suc fuel) check next r h = rw (check_blocks, h) refl

check_blocks-go :
    (fuel check next : ℕ) (r : Ring)
    → ltb check next ≡ true
    → 5 ≤ check
    → next < 2 ^ 64
    → check_blocks (suc fuel) check next r
      ≡ report
          (is_block_locally_mined (check - 5) r).0
          (check - 5)
          (check_blocks fuel (suc check) next (is_block_locally_mined (check - 5) r).1)
unfolding check_blocks
check_blocks-go fuel check next r h low high =
    let e : inspected check ≡ check - 5 = ground arith in
    let e' : (check + 1) % 2 ^ 64 ≡ suc check = ground arith in rw (check_blocks, h, e, e') refl

next_range :
    (check next : ℕ)
    → 5 ≤ check
    → check < next
    → range (next - check) (check - 5) ≡ (check - 5) ∷ range (next - suc check) (suc check - 5)
next_range check next low more = rw (count, start) refl
  where
    count : next - check ≡ suc (next - suc check)
    count = omega arith

    start : suc check - 5 ≡ suc (check - 5)
    start = omega arith

report-reported :
    (found : Bool) (n : ℕ) (c : LoggedBlocks)
    → (report found n c).reported ≡ (if found then n ∷ c.reported else c.reported)
report-reported true n c = refl
report-reported false n c = refl

report-at : (found : Bool) (n : ℕ) (c : LoggedBlocks) → (report found n c).at ≡ c.at
report-at true n c = refl
report-at false n c = refl

-- One round in which a number is looked for, and the rounds after it.
report-Ends :
    (check next : ℕ) (r r' : Ring) (c : LoggedBlocks)
    → ((m : ℕ) → check - 5 < m → holds m r'.ints ≡ holds m r.ints)
    → 5 ≤ check
    → check < next
    → Ends (suc check) next r' c
    → Ends check next r (report (holds (check - 5) r.ints) (check - 5) c)
report-Ends check next r r' c same low more ends = record {
  stopped = rw (report-at (holds (check - 5) r.ints) (check - 5) c) ends.stopped;
  reports =
      rw
        (
          next_range check next low more,
          report-reported (holds (check - 5) r.ints) (check - 5) c,
          ends.reports,
          keep-range (λ n. holds n r'.ints) (λ n. holds n r.ints) (next - suc check) (suc check - 5)
              (λ m h. same m (omega arith)),
        )
        refl;
}

-- Let the loop start at 5 or more, below or above the number where it ends, which is a uint64. With
-- as many rounds as the difference of the two, or more, it ends by its own test, and it reports, in
-- order, those numbers from five below its start to five below its end that are in the ring.
pub check_blocks-Ends :
    (fuel check next : ℕ) (r : Ring)
    → next - check ≤ fuel
    → 5 ≤ check
    → next < 2 ^ 64
    → Ends check next r (check_blocks fuel check next r)
unfolding is_block_locally_mined
check_blocks-Ends zero check next r enough low high =
    let e : ltb check next ≡ false = ground arith in
    rw (check_blocks-stop zero check next r e) (idle-Ends check next r _ e refl refl)
check_blocks-Ends (suc fuel) check next r enough low high = elim (Bool-cases (ltb check next)) [
  | inr e ↦ rw (check_blocks-stop (suc fuel) check next r e) (idle-Ends check next r _ e refl refl)
  | inl e ↦
      let less : check < next = ground (arith, e) in
      let r' = (is_block_locally_mined (check - 5) r).1 in
      rw (check_blocks-go fuel check next r e low high, take_out-holds (check - 5) r.ints)
        (report-Ends check next r r' (check_blocks fuel (suc check) next r')
          (λ m above. holds-take_out m (check - 5) r.ints above) low less
          (check_blocks-Ends fuel (suc check) next r' (omega arith) (omega arith) high))
]
