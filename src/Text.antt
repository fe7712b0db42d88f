-- ===== src/Text.antt =====
-- Go strings as their bytes, and the decimal texts that `strconv.Itoa(int(n))` makes of a uint64 in
-- eth/pbft-core.go (`Block.Hash`, `newhashReq`).
pub mod Base64
pub mod Hex
pub mod Itoa
use Prim.Native.Char.{code}
use Prim.Native.String.{String}
use pbft_block.Common.{ℕ, List, [], ◌∷◌}

abbrev pub Str : Type 0
Str = List ℕ

abbrev pub codes : String → Str
codes (String.◌∷◌ letter more) = code letter ∷ codes more
codes String.[] = []
