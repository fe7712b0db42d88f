-- ===== src/Common/Sets.antt =====
-- Lists of different elements, compared by a Boolean equality: sets of voters, and how far two of
-- them must overlap.
use Prim.Native.Nat.{suc, ◌+◌, ◌≤◌}
use mathlib.Core.Path.{◌≡◌, refl}
use mathlib.Core.Bool.{Bool, true, false, ◌||◌, not}
use mathlib.Core.List.{List, [], ◌∷◌, ◌++◌}
use native.Mathlib.Omega.{arith}
use pbft_block.Common.Tests.{if◌then◌else◌}
use pbft_block.Common.Lists.{length, length-append, keep}
use pbft_block.Common.Classes.{Eq, ◌==◌}

module _ {ℓ} {A : Type ℓ} ⦃e : Eq A⦄ where
  unfoldable pub mem : A → List A → Bool
  mem a [] = false
  mem a (x ∷ xs) = x == a || mem a xs

  abbrev pub Distinct : List A → Type 0
  Distinct [] = Unit
  Distinct (x ∷ xs) = (mem x xs ≡ false) × Distinct xs

  abbrev pub Subset : List A → List A → Type ℓ
  Subset xs ys = (a : A) → mem a xs ≡ true → mem a ys ≡ true

  remove : A → List A → List A
  remove a [] = []
  remove a (x ∷ xs) = if x == a then xs else x ∷ remove a xs

  length-remove : (a : A) (xs : List A) → mem a xs ≡ true → length xs ≡ suc (length (remove a xs))
  unfolding mem remove
  length-remove a [] h = ground arith
  length-remove a (x ∷ xs) h = ground (arith, length-remove a xs)

  mem-remove :
      (a b : A) (xs : List A) → mem b xs ≡ true → (a == b) ≡ false → mem b (remove a xs) ≡ true
  unfolding mem remove
  mem-remove a b [] h ne = ground arith
  mem-remove a b (x ∷ xs) h ne =
      ground (arith, e.beq_iff x a, e.beq_iff x b, e.beq_iff a b, mem-remove a b xs)

  pub mem-append : (a : A) (xs ys : List A) → mem a (xs ++ ys) ≡ (mem a xs || mem a ys)
  unfolding mem
  mem-append a [] ys = refl
  mem-append a (x ∷ xs) ys = ground (arith, mem-append a xs ys)

  -- The rest of a list without repetitions lies in the larger list without the head.
  Subset-remove :
      (x : A) (xs ys : List A) → mem x xs ≡ false → Subset (x ∷ xs) ys → Subset xs (remove x ys)
  unfolding mem
  Subset-remove x xs ys d s a h =
      mem-remove x a ys (ground (arith, s a)) (ground (arith, e.beq_iff x a))

  -- No more different elements than the list that holds them all.
  pub length-le_of_Subset : (xs ys : List A) → Distinct xs → Subset xs ys → length xs ≤ length ys
  unfolding mem
  length-le_of_Subset [] ys d s = omega arith
  length-le_of_Subset (x ∷ xs) ys d s = omega (
    arith,
    length-remove x ys (s x (ground (arith, e.beq_iff x x))),
    length-le_of_Subset xs (remove x ys) d.1 (Subset-remove x xs ys d.0 s),
  )

  pub mem-keep :
      (p : A → Bool) (a : A) (xs : List A)
      → mem a (keep p xs) ≡ true
      → (mem a xs ≡ true) × (p a ≡ true)
  unfolding mem
  mem-keep p a [] h = ground arith
  mem-keep p a (x ∷ xs) h = ground (arith, e.beq_iff x a, mem-keep p a xs)

  pub keep-Distinct : (p : A → Bool) (xs : List A) → Distinct xs → Distinct (keep p xs)
  keep-Distinct p [] d = tt
  keep-Distinct p (x ∷ xs) d = ground (arith, keep-Distinct p xs d.1, mem-keep p x xs)

  append-Distinct :
      (xs ys : List A)
      → Distinct xs
      → Distinct ys
      → ((a : A) → mem a xs ≡ true → mem a ys ≡ false)
      → Distinct (xs ++ ys)
  unfolding mem
  append-Distinct [] ys dx dy apart = dy
  append-Distinct (x ∷ xs) ys dx dy apart = (
    ground (arith, mem-append x xs ys, apart x, e.beq_iff x x),
    append-Distinct xs ys dx.1 dy (λ a h. ground (arith, apart a)),
  )

  keep-split :
      (p : A → Bool) (xs : List A)
      → length xs ≡ length (keep p xs) + length (keep (λ x. not (p x)) xs)
  keep-split p [] = omega arith
  keep-split p (x ∷ xs) = ground (arith, keep-split p xs)

  -- Two sets of voters out of `members` share at least as many as their sizes exceed its size.
  pub overlap :
      (xs ys members : List A)
      → Distinct xs
      → Distinct ys
      → Subset xs members
      → Subset ys members
      → length xs + length ys ≤ length members + length (keep (λ x. mem x ys) xs)
  overlap xs ys members dx dy sx sy =
      omega (arith, keep-split (λ x. mem x ys) xs, length-append rest ys, together)
    where
      rest : List A
      rest = keep (λ x. not (mem x ys)) xs

      apart : (a : A) → mem a rest ≡ true → mem a ys ≡ false
      apart a h = ground (arith, mem-keep (λ x. not (mem x ys)) a xs h)

      inside : Subset (rest ++ ys) members
      inside a h =
          ground (arith, mem-append a rest ys, mem-keep (λ x. not (mem x ys)) a xs, sx a, sy a)

      together : length (rest ++ ys) ≤ length members
      together =
          length-le_of_Subset (rest ++ ys) members
            (append-Distinct rest ys (keep-Distinct (λ x. not (mem x ys)) xs dx) dy apart) inside
