-- ===== src/Text/Base64.antt =====
-- The package encoding/base64 of Go as pns/PNService.go, eth/handler.go, eth/MsgED.go and
-- eth/star_up.go use it: the standard alphabet with padding. The decoder skips line ends, and where
-- it fails it leaves the bytes that it has decoded before.
pub mod RoundTrip
use pbft_block.Common.{
  ℕ, ◌+◌, ◌-◌, ◌*◌, ◌/◌, ◌%◌, ◌<◌, ◌≡◌, refl, ◌&&◌, ◌||◌, not, Bool, true, false, Option, none,
  some, List, [], ◌∷◌, arith, ltb, leb, eqb, if◌then◌else◌, keep, All,
}

unfoldable pub digit_of : ℕ → Option ℕ
digit_of c =
    if leb b'A' c && leb c b'Z'
    then some (c - b'A')
    else if leb b'a' c && leb c b'z'
    then some (c - b'a' + 26)
    else if leb b'0' c && leb c b'9'
    then some (c - b'0' + 52)
    else if eqb c b'+'
    then some 62
    else if eqb c b'/'
    then some 63
    else none

unfoldable pub letter_of : ℕ → ℕ
letter_of d =
    if ltb d 26
    then d + b'A'
    else if ltb d 52
    then d - 26 + b'a'
    else if ltb d 62
    then d - 52 + b'0'
    else if eqb d 62
    then b'+'
    else b'/'

-- The bytes, and whether all of the text was read.
pub record Decoded : Type 0 where
  pub bytes : List ℕ
  pub ok : Bool

abbrev pub bad : Decoded
bad = record { bytes = []; ok = false }

abbrev pub is_empty : List ℕ → Bool
is_empty [] = true
is_empty (x ∷ xs) = false

-- The three bytes of four digits.
abbrev pub byte0 : ℕ → ℕ → ℕ
byte0 a b = a * 4 + b / 16

abbrev pub byte1 : ℕ → ℕ → ℕ
byte1 b c = b % 16 * 16 + c / 4

abbrev pub byte2 : ℕ → ℕ → ℕ
byte2 c d = c % 4 * 64 + d

-- Four letters, what the text behind them decodes to, and whether there is none.
abbrev pub quantum :
    Option ℕ → Option ℕ → Option ℕ → Option ℕ → Bool → Bool → Bool → Decoded → Decoded
quantum (some a) (some b) (some c) (some d) pad2 pad3 last more = record {
  bytes = byte0 a b ∷ byte1 b c ∷ byte2 c d ∷ more.bytes;
  ok = more.ok;
}
quantum (some a) (some b) (some c) none pad2 pad3 last more =
    if pad3 then record { bytes = byte0 a b ∷ byte1 b c ∷ []; ok = last } else bad
quantum (some a) (some b) none d pad2 pad3 last more =
    if pad2 && pad3 then record { bytes = byte0 a b ∷ []; ok = last } else bad
quantum _ _ _ _ _ _ _ _ = bad

unfoldable pub decode_letters : List ℕ → Decoded
unfolding digit_of
decode_letters [] = record { bytes = []; ok = true }
decode_letters (a ∷ b ∷ c ∷ d ∷ rest) =
    quantum (digit_of a) (digit_of b) (digit_of c) (digit_of d) (eqb c b'=') (eqb d b'=')
      (is_empty rest) (decode_letters rest)
decode_letters _ = bad

abbrev pub no_line_end : ℕ → Bool
no_line_end c = not (eqb c 0x0A || eqb c 0x0D)

-- `base64.StdEncoding.DecodeString`.
unfoldable pub decode_string : List ℕ → Decoded
decode_string s = decode_letters (keep no_line_end s)

-- `base64.StdEncoding.EncodeToString`.
unfoldable pub encode_to_string : List ℕ → List ℕ
unfolding letter_of
encode_to_string [] = []
encode_to_string (x ∷ []) = letter_of (x / 4) ∷ letter_of (x % 4 * 16) ∷ b'=' ∷ b'=' ∷ []
encode_to_string (x ∷ y ∷ []) =
    letter_of (x / 4) ∷ letter_of (x % 4 * 16 + y / 16) ∷ letter_of (y % 16 * 4) ∷ b'=' ∷ []
encode_to_string (x ∷ y ∷ z ∷ rest) =
    letter_of (x / 4)
    ∷ letter_of (x % 4 * 16 + y / 16)
    ∷ letter_of (y % 16 * 4 + z / 64)
    ∷ letter_of (z % 64)
    ∷ encode_to_string rest

abbrev pub IsByte : ℕ → Type 0
IsByte b = b < 256
