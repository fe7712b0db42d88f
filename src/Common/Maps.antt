-- ===== src/Common/Maps.antt =====
-- Go maps as association lists: the operations the program uses, and their laws by lookup.
use mathlib.Core.Path.{◌≡◌, refl}
use mathlib.Core.Bool.{Bool, not}
use mathlib.Core.Option.{Option, none, some}
use mathlib.Core.List.{List, [], ◌∷◌}
use native.Mathlib.Omega.{arith}
use pbft_block.Common.Tests.{if◌then◌else◌, is_some}
use pbft_block.Common.Classes.{Eq, ◌==◌}

abbrev pub Map {ℓ κ} : Type ℓ → Type κ → Type (ℓ ⊔ κ)
Map K V = List (K × V)

module _ {ℓ κ} {K : Type ℓ} {V : Type κ} ⦃e : Eq K⦄ where
  -- `m[k]`, with `none` for a missing key.
  unfoldable pub lookup : K → Map K V → Option V
  lookup key [] = none
  lookup key ((other, value) ∷ rest) = if other == key then some value else lookup key rest

  -- `m[k] = v`.
  unfoldable pub insert : K → V → Map K V → Map K V
  insert key value [] = (key, value) ∷ []
  insert key value ((other, old) ∷ rest) =
      if other == key then (key, value) ∷ rest else (other, old) ∷ insert key value rest

  -- `for k := range m { if !p(k) { delete(m, k) } }`.
  unfoldable pub retain : (K → V → Bool) → Map K V → Map K V
  retain p [] = []
  retain p ((j, w) ∷ m) = if p j w then (j, w) ∷ retain p m else retain p m

  -- `delete(m, k)`.
  unfoldable pub delete : K → Map K V → Map K V
  delete k = retain (λ j v. not (j == k))

  abbrev pub has : K → Map K V → Bool
  has k m = is_some (lookup k m)

  pub lookup-nil : (k : K) → lookup k [] ≡ none
  unfolding lookup
  lookup-nil k = refl

  pub lookup-insert :
      (new asked : K) (value : V) (m : Map K V)
      → lookup asked (insert new value m) ≡ (if new == asked then some value else lookup asked m)
  unfolding lookup insert
  lookup-insert new asked value [] = refl
  lookup-insert new asked value ((first, old) ∷ m) = ground (
    arith,
    e.beq_iff new asked,
    e.beq_iff first new,
    e.beq_iff first asked,
    lookup-insert new asked value m,
  )

  -- A test on keys alone.
  pub lookup-retain_key :
      (p : K → Bool) (j : K) (m : Map K V)
      → lookup j (retain (λ k v. p k) m) ≡ (if p j then lookup j m else none)
  unfolding lookup retain
  lookup-retain_key p j [] = ground arith
  lookup-retain_key p j ((i, w) ∷ m) = ground (arith, e.beq_iff i j, lookup-retain_key p j m)

  pub lookup-delete :
      (k j : K) (m : Map K V) → lookup j (delete k m) ≡ (if j == k then none else lookup j m)
  unfolding delete
  lookup-delete k j m = ground (arith, lookup-retain_key (λ i. not (i == k)) j m)

  -- No key twice, as in a Go map.
  abbrev pub Unique : Map K V → Type κ
  Unique [] = Unit
  Unique ((k, v) ∷ m) = (lookup k m ≡ none) × Unique m

  pub insert-Unique : (k : K) (v : V) (m : Map K V) → Unique m → Unique (insert k v m)
  unfolding insert
  insert-Unique k v [] u = (unfold lookup in refl, tt)
  insert-Unique k v ((i, w) ∷ m) u =
      ground (arith, e.beq_iff i k, e.beq_iff k i, lookup-insert k i v m, insert-Unique k v m u.1)

  lookup-retain-none :
      (p : K → V → Bool) (j : K) (m : Map K V) → lookup j m ≡ none → lookup j (retain p m) ≡ none
  unfolding lookup retain
  lookup-retain-none p j [] h = refl
  lookup-retain-none p j ((i, w) ∷ m) h = ground (arith, lookup-retain-none p j m)

  pub retain-Unique : (p : K → V → Bool) (m : Map K V) → Unique m → Unique (retain p m)
  unfolding retain
  retain-Unique p [] u = tt
  retain-Unique p ((i, w) ∷ m) u =
      ground (arith, lookup-retain-none p i m u.0, retain-Unique p m u.1)

  pub delete-Unique : (k : K) (m : Map K V) → Unique m → Unique (delete k m)
  unfolding delete
  delete-Unique k m u = retain-Unique (λ j v. not (j == k)) m u

  -- What is left after the deletions, entry by entry.
  pub lookup-retain :
      (p : K → V → Bool) (j : K) (m : Map K V)
      → Unique m
      → lookup j (retain p m)
        ≡ elim (lookup j m) [ none ↦ none | some v ↦ if p j v then some v else none ]
  unfolding lookup retain
  lookup-retain p j [] u = refl
  lookup-retain p j ((i, w) ∷ m) u =
      ground (arith, e.beq_iff i j, lookup-retain p j m u.1, lookup-retain-none p i m u.0)
