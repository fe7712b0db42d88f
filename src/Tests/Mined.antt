-- ===== src/Tests/Mined.antt =====
-- The ring of mined blocks, and what a miner sets.
use pbft_block.Common.{◌≡◌, refl, none, List, [], ◌∷◌, arith}
use pbft_block.Worker.{initt}
use pbft_block.Mined.{Ring, check_blocks, is_block_locally_mined, take_out}
use pbft_block.Mined.Window.{Lately, mine_all-Lately}
use pbft_block.Mined.Report.{Ends, check_blocks-Ends}
use pbft_block.Miner.{Miner}
use pbft_block.Miner.Settings.{Call, extra_data, etherbase, calls, Carries, calls-Carries}
use pbft_block.Mining.{new_block}
use pbft_block.Tests.Data.{one, two}

mine_all-Lately_example : Lately 7 (9 ∷ 4 ∷ [])
mine_all-Lately_example = mine_all-Lately 7 (9 ∷ 4 ∷ [])

abbrev ring : Ring
ring = record { ints = 7 ∷ 9 ∷ 4 ∷ 0 ∷ 0 ∷ 0 ∷ []; next = 3 }

-- The numbers 5 to 9 are looked for.
check_blocks-Ends_example : Ends 10 15 ring (check_blocks 5 10 15 ring)
check_blocks-Ends_example = check_blocks-Ends 5 10 15 ring (omega arith) (omega arith) (omega arith)

reports_two : (check_blocks 5 10 15 ring).reported ≡ 7 ∷ 9 ∷ []
unfolding check_blocks is_block_locally_mined take_out
reports_two = refl

-- A slot that was never written counts for the number 0.
never_mined : (check_blocks 1 5 6 (record { ints = 0 ∷ []; next = 0 })).reported ≡ 0 ∷ []
unfolding check_blocks is_block_locally_mined take_out
never_mined = refl

abbrev miner : Miner
miner = record {
  worker = initt one one 4;
  current = record {
    tcount = 0;
    local_mined_blocks = none;
    block = none;
    header = none;
    txs = [];
    receipts = [];
  };
  coinbase = [];
  mining = 0;
}

abbrev settings : List Call
settings = extra_data two ∷ etherbase one ∷ []

calls-Carries_example : Carries settings miner (new_block 9 (calls settings miner).worker)
unfolding initt
calls-Carries_example = calls-Carries 9 settings miner (omega arith)
