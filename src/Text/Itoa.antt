-- ===== src/Text/Itoa.antt =====
-- `strconv.Itoa(int(n))` for a uint64 `n`. From 2^63 on the conversion to `int` makes it negative.
use native.Mathlib.Nat.{pow-suc}
use pbft_block.Common.{
  ℕ, zero, suc, ◌+◌, ◌-◌, ◌*◌, ◌/◌, ◌%◌, ◌^◌, ◌≤◌, ◌<◌, ◌≡◌, refl, ◌∙◌, ap, sym, inl, inr, List, [],
  ◌∷◌, ◌++◌, arith, ltb, eqb, if◌then◌else◌, All, Bool-cases,
}

-- The digits of `n`, most significant first; 20 digits hold every uint64.
unfoldable pub decimal : ℕ → ℕ → List ℕ
decimal zero n = []
decimal (suc f) n =
    let more = decimal f (n / 10) ++ (b'0' + n % 10) ∷ [] in
    if ltb n 10 then (b'0' + n) ∷ [] else more

abbrev pub int_limit : ℕ
int_limit = 2 ^ 63

abbrev pub uint64_mod : ℕ
uint64_mod = 2 ^ 64

unfoldable pub itoa : ℕ → List ℕ
unfolding decimal
itoa n = if ltb n int_limit then decimal 20 n else b'-' ∷ decimal 20 (uint64_mod - n)

parse_from : ℕ → List ℕ → ℕ
parse_from acc [] = acc
parse_from acc (c ∷ cs) = parse_from (acc * 10 + (c - b'0')) cs

parse_from-append :
    (acc : ℕ) (xs : List ℕ) (c : ℕ)
    → parse_from acc (xs ++ c ∷ []) ≡ parse_from acc xs * 10 + (c - b'0')
unfolding parse_from
parse_from-append acc [] c = refl
parse_from-append acc (x ∷ xs) c = parse_from-append (acc * 10 + (x - b'0')) xs c

parse-decimal : (f n : ℕ) → n < 10 ^ f → parse_from 0 (decimal f n) ≡ n
unfolding decimal parse_from
parse-decimal zero n h = omega arith
parse-decimal (suc f) n h = elim (Bool-cases (ltb n 10)) [
  | inl small ↦ rw small (omega arith)
  | inr big ↦ rw big (
      omega (
        arith,
        parse_from-append 0 (decimal f (n / 10)) (b'0' + n % 10),
        parse-decimal f (n / 10) (omega (arith, pow-suc 10 f)),
      ))
]

All-append :
    (xs ys : List ℕ)
    → All (λ c. b'0' ≤ c) xs
    → All (λ c. b'0' ≤ c) ys
    → All (λ c. b'0' ≤ c) (xs ++ ys)
All-append [] ys hx hy = hy
All-append (x ∷ xs) ys hx hy = (hx.0, All-append xs ys hx.1 hy)

All-decimal : (f n : ℕ) → All (λ c. b'0' ≤ c) (decimal f n)
unfolding decimal
All-decimal zero n = tt
All-decimal (suc f) n = elim (Bool-cases (ltb n 10)) [
  | inl small ↦ rw small (omega arith, tt)
  | inr big ↦ rw big (All-append (decimal f (n / 10)) _ (All-decimal f (n / 10)) (omega arith, tt))
]

read : List ℕ → ℕ
read [] = 0
read (c ∷ cs) = if eqb c b'-' then uint64_mod - parse_from 0 cs else parse_from 0 (c ∷ cs)

read_digits : (xs : List ℕ) → All (λ c. b'0' ≤ c) xs → read xs ≡ parse_from 0 xs
unfolding read
read_digits [] h = unfold parse_from in refl
read_digits (c ∷ cs) h = ground arith

-- The text determines the number, so `itoa` loses nothing.
read-itoa : (n : ℕ) → n < uint64_mod → read (itoa n) ≡ n
unfolding itoa
read-itoa n h = elim (Bool-cases (ltb n int_limit)) [
  | inl small ↦
      rw small (read_digits (decimal 20 n) (All-decimal 20 n) ∙ parse-decimal 20 n (omega arith))
  | inr big ↦ rw big (unfold read in omega (arith, parse-decimal 20 (uint64_mod - n) (omega arith)))
]

-- Two uint64 with the same text are equal.
pub itoa-injective : (m n : ℕ) → m < uint64_mod → n < uint64_mod → itoa m ≡ itoa n → m ≡ n
itoa-injective m n hm hn e = sym (read-itoa m hm) ∙ ap read e ∙ read-itoa n hn
