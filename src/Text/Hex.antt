-- ===== src/Text/Hex.antt =====
-- common/bytes.go (`FromHex`, `Hex2Bytes`) and common/types.go (`HexToAddress`): the address that
-- stands for a node identifier. `hex.DecodeString` keeps what it decoded before a bad digit.
use pbft_block.Common.{
  ℕ, zero, suc, ◌+◌, ◌-◌, ◌*◌, ◌%◌, ◌≤◌, ◌≡◌, ◌&&◌, Option, none, some, List, [], ◌∷◌, ◌++◌, arith,
  ltb, leb, eqb, if◌then◌else◌, length, length-append,
}

hex_digit : ℕ → Option ℕ
hex_digit c =
    if leb b'0' c && leb c b'9'
    then some (c - b'0')
    else if leb b'a' c && leb c b'f'
    then some (c - b'a' + 10)
    else if leb b'A' c && leb c b'F'
    then some (c - b'A' + 10)
    else none

abbrev push_byte : Option ℕ → Option ℕ → List ℕ → List ℕ
push_byte (some a) (some b) rest = (a * 16 + b) ∷ rest
push_byte _ _ rest = []

unfoldable pub hex_2_bytes : List ℕ → List ℕ
unfolding hex_digit
hex_2_bytes [] = []
hex_2_bytes (a ∷ []) = []
hex_2_bytes (a ∷ b ∷ rest) = push_byte (hex_digit a) (hex_digit b) (hex_2_bytes rest)

abbrev strip_0x : List ℕ → List ℕ
strip_0x (a ∷ b ∷ rest) = if eqb a b'0' && eqb b b'x' then rest else a ∷ b ∷ rest
strip_0x s = s

abbrev even_length : List ℕ → List ℕ
even_length s = if eqb (length s % 2) 1 then b'0' ∷ s else s

-- `nil` and the empty slice are both the empty list.
unfoldable pub from_hex : List ℕ → List ℕ
unfolding hex_2_bytes
from_hex s = if ltb 1 (length s) then hex_2_bytes (even_length (strip_0x s)) else []

abbrev pub address_length : ℕ
address_length = 20

abbrev drop : ℕ → List ℕ → List ℕ
drop zero xs = xs
drop (suc n) [] = []
drop (suc n) (x ∷ xs) = drop n xs

abbrev zeros : ℕ → List ℕ
zeros zero = []
zeros (suc n) = 0 ∷ zeros n

abbrev pub zero_address : List ℕ
zero_address = zeros address_length

-- `SetBytes` on the zero address: the last 20 bytes, after zeros where there are fewer.
last_bytes : List ℕ → List ℕ
last_bytes b = if ltb address_length (length b) then drop (length b - address_length) b else b

set_bytes : List ℕ → List ℕ
unfolding last_bytes
set_bytes b = zeros (address_length - length (last_bytes b)) ++ last_bytes b

unfoldable pub hex_to_address : List ℕ → List ℕ
unfolding set_bytes from_hex
hex_to_address s = set_bytes (from_hex s)

length-drop : (n : ℕ) (xs : List ℕ) → length (drop n xs) ≡ length xs - n
length-drop zero xs = omega arith
length-drop (suc n) [] = omega arith
length-drop (suc n) (x ∷ xs) = omega (arith, length-drop n xs)

length-zeros : (n : ℕ) → length (zeros n) ≡ n
length-zeros zero = omega arith
length-zeros (suc n) = omega (arith, length-zeros n)

length-last_bytes : (b : List ℕ) → length (last_bytes b) ≤ address_length
unfolding last_bytes
length-last_bytes b = ground (arith, length-drop (length b - address_length) b)

length-set_bytes : (b : List ℕ) → length (set_bytes b) ≡ address_length
unfolding set_bytes
length-set_bytes b = omega (
  arith,
  length-append (zeros (address_length - length (last_bytes b))) (last_bytes b),
  length-zeros (address_length - length (last_bytes b)),
  length-last_bytes b,
)

-- An address has 20 bytes, whatever text it is made from.
pub length-hex_to_address : (s : List ℕ) → length (hex_to_address s) ≡ address_length
unfolding hex_to_address
length-hex_to_address s = length-set_bytes (from_hex s)
