-- ===== src/Text/Base64/RoundTrip.antt =====
-- What `EncodeToString` of encoding/base64 writes, `DecodeString` reads back.
use pbft_block.Common.{
  ℕ, ◌+◌, ◌*◌, ◌/◌, ◌%◌, ◌<◌, ◌≡◌, refl, true, false, none, some, List, [], ◌∷◌, arith, eqb, keep,
  All,
}
use pbft_block.Text.Base64.{
  digit_of, letter_of, byte0, byte1, byte2, decode_letters, no_line_end, decode_string,
  encode_to_string, IsByte,
}

digit_of-letter_of : (d : ℕ) → d < 64 → digit_of (letter_of d) ≡ some d
unfolding digit_of letter_of
digit_of-letter_of d small = ground arith

letter_of-IsByte : (d : ℕ) → d < 64 → IsByte (letter_of d)
unfolding letter_of
letter_of-IsByte d small = ground arith

letter_kept : (d : ℕ) → no_line_end (letter_of d) ≡ true
unfolding letter_of
letter_kept d = ground arith

letter_no_pad : (d : ℕ) → d < 64 → eqb (letter_of d) b'=' ≡ false
unfolding letter_of
letter_no_pad d small = ground arith

-- A text of the encoder has no line ends.
keep-encode_to_string : (s : List ℕ) → keep no_line_end (encode_to_string s) ≡ encode_to_string s
unfolding encode_to_string
keep-encode_to_string [] = refl
keep-encode_to_string (x ∷ []) = ground (arith, letter_kept (x / 4), letter_kept (x % 4 * 16))
keep-encode_to_string (x ∷ y ∷ []) =
    ground (arith, letter_kept (x / 4), letter_kept (x % 4 * 16 + y / 16), letter_kept (y % 16 * 4))
keep-encode_to_string (x ∷ y ∷ z ∷ rest) = ground (
  arith,
  letter_kept (x / 4),
  letter_kept (x % 4 * 16 + y / 16),
  letter_kept (y % 16 * 4 + z / 64),
  letter_kept (z % 64),
  keep-encode_to_string rest,
)

digit_of-pad : digit_of b'=' ≡ none
unfolding digit_of
digit_of-pad = refl

-- Bytes cut into digits and put together again.
cut0 : (x y : ℕ) → IsByte x → IsByte y → byte0 (x / 4) (x % 4 * 16 + y / 16) ≡ x
cut0 x y small small' = omega arith

cut1 : (x y z : ℕ) → IsByte y → IsByte z → byte1 (x % 4 * 16 + y / 16) (y % 16 * 4 + z / 64) ≡ y
cut1 x y z small small' = omega arith

cut2 : (y z : ℕ) → IsByte z → byte2 (y % 16 * 4 + z / 64) (z % 64) ≡ z
cut2 y z small = omega arith

decode_letters-encode_to_string :
    (s : List ℕ)
    → All IsByte s
    → decode_letters (encode_to_string s) ≡ record { bytes = s; ok = true }
unfolding decode_letters encode_to_string
decode_letters-encode_to_string [] small = refl
decode_letters-encode_to_string (x ∷ []) small = ground (
  arith,
  digit_of-letter_of (x / 4) (omega arith),
  digit_of-letter_of (x % 4 * 16) (omega arith),
  digit_of-pad,
)
decode_letters-encode_to_string (x ∷ y ∷ []) small = ground (
  arith,
  digit_of-letter_of (x / 4) (omega arith),
  digit_of-letter_of (x % 4 * 16 + y / 16) (omega arith),
  digit_of-letter_of (y % 16 * 4) (omega arith),
)
decode_letters-encode_to_string (x ∷ y ∷ z ∷ rest) small =
    rw
      (
        digit_of-letter_of (x / 4) (omega arith),
        digit_of-letter_of (x % 4 * 16 + y / 16) (omega arith),
        digit_of-letter_of (y % 16 * 4 + z / 64) (omega arith),
        digit_of-letter_of (z % 64) (omega arith),
        decode_letters-encode_to_string rest small.1.1.1,
        cut0 x y small.0 small.1.0,
        cut1 x y z small.1.0 small.1.1.0,
        cut2 y z small.1.1.0,
      )
      refl

-- Bytes that are encoded are decoded again, with no error.
pub decode_string-encode_to_string :
    (s : List ℕ)
    → All IsByte s
    → decode_string (encode_to_string s) ≡ record { bytes = s; ok = true }
unfolding decode_string
decode_string-encode_to_string s small =
    rw (keep-encode_to_string s) (decode_letters-encode_to_string s small)

-- The encoder writes bytes.
pub encode_to_string-IsByte : (s : List ℕ) → All IsByte s → All IsByte (encode_to_string s)
unfolding encode_to_string
encode_to_string-IsByte [] small = tt
encode_to_string-IsByte (x ∷ []) small =
    ground
      (arith, letter_of-IsByte (x / 4) (omega arith), letter_of-IsByte (x % 4 * 16) (omega arith))
encode_to_string-IsByte (x ∷ y ∷ []) small = ground (
  arith,
  letter_of-IsByte (x / 4) (omega arith),
  letter_of-IsByte (x % 4 * 16 + y / 16) (omega arith),
  letter_of-IsByte (y % 16 * 4) (omega arith),
)
encode_to_string-IsByte (x ∷ y ∷ z ∷ rest) small = ground (
  arith,
  letter_of-IsByte (x / 4) (omega arith),
  letter_of-IsByte (x % 4 * 16 + y / 16) (omega arith),
  letter_of-IsByte (y % 16 * 4 + z / 64) (omega arith),
  letter_of-IsByte (z % 64) (omega arith),
  encode_to_string-IsByte rest small.1.1.1,
)
