-- ===== src/Miner.antt =====
-- `Miner` of eth/miner.go, which stands between the rest of a node and its worker: the extra data and
-- the address of the blocks to build, the block that is pending, and the leader. `Start` and `Stop`
-- are empty in the source.
pub mod Settings
use pbft_block.Common.{
  ℕ, ◌≤◌, ◌≡◌, refl, ap, ◌∙◌, Bool, Option, none, some, List, [], ◌∷◌, ltb, if◌then◌else◌, length,
  arith,
}
use pbft_block.Text.{Str}
use pbft_block.Msg.{Block, Header}
use pbft_block.Worker.{Worker, primary}
use pbft_block.Mined.{Work, pending}
use pbft_block.Mining.{new_block}

-- `current` is a field of the worker in the source.
pub record Miner : Type 0 where
  pub worker : Worker
  pub current : Work
  pub coinbase : Str
  pub mining : ℕ

pub data MinerError : Type 0 where
  extra_exceeds_max_length no_current_leader : MinerError

-- `params.MaximumExtraDataSize`
abbrev pub maximum_extra_data_size : ℕ
maximum_extra_data_size = 32

abbrev pub set_etherbase_of_worker : Str → Worker → Worker
set_etherbase_of_worker addr w = record w { coinbase = addr }

unfoldable pub set_etherbase : Str → Miner → Miner
set_etherbase addr m = record m { coinbase = addr; worker = set_etherbase_of_worker addr m.worker }

unfoldable pub set_extra : Str → Miner → Option MinerError × Miner
set_extra extra m =
    if ltb maximum_extra_data_size (length extra)
    then (some extra_exceeds_max_length, m)
    else (none, record m { worker = record (m.worker) { extra = extra } })

unfoldable pub is_mining : Miner → Bool
is_mining m = ltb 0 m.mining

unfoldable pub miner_pending : Miner → Option Block
miner_pending m = pending m.worker.mining m.current

-- The leader, and the error where there is none.
unfoldable pub get_cur_leader : Miner → Str × Option MinerError
get_cur_leader m = elim (primary m.worker) [
  | [] ↦ ([], some no_current_leader)
  | c ∷ cs ↦ (c ∷ cs, none)
]

unfoldable pub get_leader : Miner → Str
get_leader m = primary m.worker
