-- ===== src/Pool.antt =====
-- The blocks under consensus and the time each was first seen: `possibleValidBlock` and `blockbeats`
-- of eth/pbft-core_basic.go. The outer key is the height and the inner key the hash.
pub mod Laws
pub mod Invariant
use pbft_block.Common.{
  ℕ, Bool, true, false, not, Option, none, some, List, [], ◌∷◌, Map, ltb, leb, is_some,
  if◌then◌else◌, ◌==◌, nat_eq, bytes_eq, lookup, insert, retain, delete, has, ◌&&◌, ◌+◌,
}
use pbft_block.Text.{Str}
use pbft_block.Text.Itoa.{itoa}
use pbft_block.Msg.{Block}
use pbft_block.Worker.{Worker}

abbrev pub Blocks : Type 0
Blocks = Map ℕ (Map Str Block)

-- `Block.Hash`: the decimal text of the height.
unfoldable pub hash : Block → Str
hash b = itoa b.number

-- The blocks at one height, none if the height has no entry.
abbrev pub blocks_at : ℕ → Blocks → Map Str Block
blocks_at h m = elim (lookup h m) [ none ↦ [] | some blocks ↦ blocks ]

unfoldable pub put_block : Block → Blocks → Blocks
put_block b m = insert b.number (insert (hash b) b (blocks_at b.number m)) m

unfoldable pub get_block : ℕ → Str → Blocks → Option Block
get_block bn bhash m = elim (lookup bn m) [ none ↦ none | some blocks ↦ lookup bhash blocks ]

-- The first height, in the order of the map, whose blocks include the hash. `none` is the error.
unfoldable pub get_bh_by_hash : Str → Blocks → Option ℕ
get_bh_by_hash h [] = none
get_bh_by_hash h ((bn, blocks) ∷ m) = if has h blocks then some bn else get_bh_by_hash h m

-- `GetBlockFromPVBlockByHash`, with `none` for `nil, 0`.
unfoldable pub get_block_by_hash : Str → Blocks → Option (Block × ℕ)
get_block_by_hash h [] = none
get_block_by_hash h ((bn, blocks) ∷ m) = elim (lookup h blocks) [
  | none ↦ get_block_by_hash h m
  | some b ↦ some (b, bn)
]

-- Takes the hash out of the first height that has it, and the height with its last block.
unfoldable pub delete_block_by_hash : Str → Blocks → Blocks
delete_block_by_hash h [] = []
delete_block_by_hash h ((bn, blocks) ∷ m) =
    if has h blocks
    then elim (delete h blocks) [ [] ↦ m | x ∷ left ↦ (bn, x ∷ left) ∷ m ]
    else (bn, blocks) ∷ delete_block_by_hash h m

unfoldable pub add_beats : ℕ → Str → Map Str ℕ → Map Str ℕ
add_beats now h beats = if has h beats then beats else insert h now beats

-- Whether some height up to `dbn` has the hash.
unfoldable pub hash_upto : ℕ → Str → Blocks → Bool
hash_upto dbn h [] = false
hash_upto dbn h ((bn, blocks) ∷ m) = if leb bn dbn && has h blocks then true else hash_upto dbn h m

unfoldable pub delete_upto : ℕ → Worker → Worker
delete_upto dbn w = record w {
  blockbeats = retain (λ h t. not (hash_upto dbn h w.possible_valid_block)) w.blockbeats;
  possible_valid_block = retain (λ bn blocks. ltb dbn bn) w.possible_valid_block;
}

unfoldable pub put_pvb_and_beats : ℕ → Block → Worker → Worker
unfolding put_block add_beats
put_pvb_and_beats now b w = record w {
  possible_valid_block = put_block b w.possible_valid_block;
  blockbeats = add_beats now (hash b) w.blockbeats;
}

unfoldable pub delete_pvb_and_beats : ℕ → Str → Worker → Worker
unfolding delete_upto
delete_pvb_and_beats bn bhash w =
    let w' = delete_upto bn w in record w' { blockbeats = delete bhash w'.blockbeats }

unfoldable pub delete_pvb_and_beats_by_hash : Str → Worker → Worker
delete_pvb_and_beats_by_hash bhash w = record w {
  blockbeats = delete bhash w.blockbeats;
  possible_valid_block = delete_block_by_hash bhash w.possible_valid_block;
}

unfoldable pub reset_pvb_and_beats : Worker → Worker
reset_pvb_and_beats w = record w { blockbeats = []; possible_valid_block = [] }
