-- ===== src/Handlers/Txs.antt =====
-- Transactions and their dependencies, which eth/pbft-core.go and eth/worker.go stand in for by fixed
-- arrays, and the text in which a prepare carries them.
use pbft_block.Common.{ℕ, zero, suc, ◌+◌, ◌-◌, List, [], ◌∷◌, ◌++◌, map}
use pbft_block.Text.{Str, codes}
use pbft_block.Text.Itoa.{itoa}
use pbft_block.Msg.{TxsExeSequences, Block}

-- `for i := 0; i < n; i++ { a[i] = f(i) }`
fill : ℕ → (ℕ → ℕ) → List ℕ
fill zero f = []
fill (suc n) f = f 0 ∷ fill n (λ i. f (i + 1))

unfoldable pub transactions : Block → List ℕ × List ℕ
unfolding fill
transactions b = (fill 50 (λ i. i + 1), fill 50 (λ i. 50 - i))

unfoldable pub tx_dependency : List ℕ × List ℕ → List ℕ × List ℕ
tx_dependency bc = bc

-- `Backend.TxPool`
unfoldable pub tx_pool : List ℕ × List ℕ
unfolding fill
tx_pool = (fill 51 (λ i. i + 1), fill 51 (λ i. 50 - i))

abbrev first : ℕ → List ℕ → List ℕ
first zero xs = []
first (suc n) [] = []
first (suc n) (x ∷ xs) = x ∷ first n xs

-- The 50 of 51 that a block has room for.
unfoldable pub multi_v_select_with_limit2 : List ℕ × List ℕ → List ℕ × List ℕ
multi_v_select_with_limit2 (a, b) = (first 50 a, first 50 b)

abbrev commas : List Str → Str
commas [] = []
commas (x ∷ []) = x
commas (x ∷ y ∷ rest) = x ++ b',' ∷ commas (y ∷ rest)

json_array : List ℕ → Str
json_array xs = b'[' ∷ commas (map itoa xs) ++ b']' ∷ []

abbrev quote : Str
quote = 0x22 ∷ []

-- `Tostring(txsExe)`: the JSON text of the two arrays.
unfoldable pub txs_exe_to_string : TxsExeSequences → Str
unfolding json_array itoa
txs_exe_to_string t =
    codes "{"
    ++ (quote
        ++ (codes "Objects_ExeSeqs"
            ++ (quote
                ++ (b':'
                    ∷ (json_array t.objects_exe_seqs
                        ++ (codes ","
                            ++ (quote
                                ++ (codes "Dependency_TX"
                                    ++ (quote
                                        ++ (b':'
                                            ∷ (json_array t.dependency_tx ++ codes "}")))))))))))

-- What every node answers a pre-prepare with.
unfoldable pub txs_exe_of : Block → TxsExeSequences
unfolding transactions tx_dependency
txs_exe_of b =
    let deps = tx_dependency (transactions b) in
    record { objects_exe_seqs = deps.0; dependency_tx = deps.1 }
