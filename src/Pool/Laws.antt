-- ===== src/Pool/Laws.antt =====
-- What each operation of the block pool does to every lookup.
use pbft_block.Common.{
  ℕ, ◌≡◌, ◌&&◌, none, some, if◌then◌else◌, ◌==◌, nat_eq, bytes_eq, insert, lookup-nil,
  lookup-insert, lookup-retain_key, ltb, arith,
}
use pbft_block.Text.{Str}
use pbft_block.Msg.{Block}
use pbft_block.Worker.{Worker}
use pbft_block.Pool.{
  Blocks, hash, blocks_at, put_block, get_block, delete_upto, delete_pvb_and_beats,
}

-- After a block is put into the pool it is found at its height under its hash, and every other
-- block stays where it was.
pub get_block-put_block :
    (b : Block) (bn : ℕ) (h : Str) (m : Blocks)
    → get_block bn h (put_block b m)
      ≡ (if b.number == bn && hash b == h then some b else get_block bn h m)
unfolding get_block put_block
get_block-put_block b bn h m = ground (
  arith,
  lookup-nil {V = Block} h,
  lookup-insert b.number bn (insert (hash b) b (blocks_at b.number m)) m,
  lookup-insert (hash b) h b (blocks_at b.number m),
)

-- After the deletion up to a height, a block at or below it is not found any more, and the others
-- are found as before.
pub get_block-delete_upto :
    (dbn bn : ℕ) (h : Str) (w : Worker)
    → get_block bn h (delete_upto dbn w).possible_valid_block
      ≡ (if ltb dbn bn then get_block bn h w.possible_valid_block else none)
unfolding get_block delete_upto
get_block-delete_upto dbn bn h w =
    ground (arith, lookup-retain_key (ltb dbn) bn w.possible_valid_block)

pub get_block-delete_pvb_and_beats :
    (dbn bn : ℕ) (h k : Str) (w : Worker)
    → get_block bn h (delete_pvb_and_beats dbn k w).possible_valid_block
      ≡ (if ltb dbn bn then get_block bn h w.possible_valid_block else none)
unfolding delete_pvb_and_beats
get_block-delete_pvb_and_beats dbn bn h k w = get_block-delete_upto dbn bn h w
