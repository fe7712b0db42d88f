-- ===== src/Startup.antt =====
-- `ReadandWrite` of eth/star_up.go: from config.json, author.json and the key files to the files of
-- this node. Reading and decoding are outside; the arguments are what they leave in the variables.
pub mod StaticNodes
pub mod Boot
pub mod Main
use pbft_block.Common.{
  ℕ, zero, suc, ◌-◌, Bool, true, false, Option, none, some, List, [], ◌∷◌, ◌++◌, if◌then◌else◌,
  ◌==◌, bytes_eq, length, ltb,
}
use pbft_block.Text.{Str, codes}
use pbft_block.Text.Itoa.{itoa}
use pbft_block.Pns.{Node}

pub record Config : Type 0 where
  pub myport : Str
  pub peersnum : ℕ
  pub peers : List Str

pub record PartsP2pConfig : Type 0 where
  pub max_peers : ℕ
  pub max_pending_peers : ℕ
  pub discovery : Bool
  pub name : Str
  pub node_database : Str
  pub no_dial : Bool
  pub listen_addr : Str

-- The loop over the first `n` addresses: one more than the last place of the own port, or 0; `none`
-- for a panic on a place that is not there.
unfoldable pub serial_number : Str → ℕ → ℕ → List Str → ℕ → Option ℕ
serial_number myport i zero peers found = some found
serial_number myport i (suc n) [] found = none
serial_number myport i (suc n) (p ∷ peers) found =
    serial_number myport (suc i) n peers (if myport == p then suc i else found)

-- `append(xs[:s-1], xs[s:]...)`; `none` for a panic.
unfoldable pub without {ℓ} : {A : Type ℓ} → ℕ → List A → Option (List A)
without zero xs = none
without (suc s) [] = none
without (suc zero) (x ∷ xs) = some xs
without (suc (suc s)) (x ∷ xs) = elim (without (suc s) xs) [ none ↦ none | some ys ↦ some (x ∷ ys) ]

abbrev pub enode : Node → Str → Str
enode node port = codes "enode://" ++ node.node_id ++ codes "@127.0.0.1" ++ port

abbrev blanks : ℕ → List Str
blanks zero = []
blanks (suc n) = [] ∷ blanks n

-- The loop that fills `nodelist`, which has room for so many; `none` for a panic.
unfoldable pub node_list : ℕ → List Node → List Str → Option (List Str)
node_list room [] ports = some (blanks room)
node_list (suc room) (node ∷ nodes) (port ∷ ports) =
    let rest = node_list room nodes ports in
    elim rest [ none ↦ none | some list ↦ some (enode node port ∷ list) ]
node_list _ (node ∷ nodes) _ = none

-- What was written, and whether a panic came in between.
pub record Written : Type 0 where
  pub private_key : Option (List ℕ)
  pub p2p_config : Option PartsP2pConfig
  pub static_nodes : Option (List Str)
  pub panicked : Bool

abbrev nothing : Bool → Written
nothing p = record { private_key = none; p2p_config = none; static_nodes = none; panicked = p }

-- The list of the others, with a length that must not be negative.
unfoldable pub others : Config → ℕ → List Node → Option (List Str)
others config serial nodes = elim (without serial nodes) [
  | none ↦ none
  | some newnodes ↦ elim (without serial config.peers) [
    | none ↦ none
    | some staticports ↦
        if ltb 0 config.peersnum then node_list (config.peersnum - 1) newnodes staticports else none
  ]
]

abbrev pub with_nodes : List ℕ → PartsP2pConfig → Option (List Str) → Written
with_nodes key conf list = record {
  private_key = some key;
  p2p_config = some conf;
  static_nodes = list;
  panicked = elim list [ none ↦ true | some l ↦ false ];
}

unfoldable pub read_and_write :
    Config → (Str → Option (List ℕ)) → PartsP2pConfig → List Node → Written
read_and_write config key_file conf nodes =
    elim (serial_number config.myport 0 config.peersnum config.peers 0) [
      | none ↦ nothing true
      | some serial ↦ elim (key_file (codes "privatekey" ++ itoa serial ++ codes ".txt")) [
        | none ↦ nothing false
        | some key ↦
            with_nodes key (record conf { listen_addr = config.myport; name = config.myport })
              (others config serial nodes)
      ]
    ]
