-- ===== src/Startup/StaticNodes.antt =====
-- What `ReadandWrite` of eth/star_up.go writes for a node of a complete configuration.
use pbft_block.Common.{
  ℕ, suc, ◌+◌, ◌-◌, ◌≡◌, refl, subst, true, false, Option, some, List, [], ◌∷◌, ◌++◌, arith, length,
  length-append, mem, bytes_eq, bytes_beq_iff, ltb,
}
use pbft_block.Text.{Str, codes}
use pbft_block.Text.Itoa.{itoa}
use pbft_block.Pns.{Node}
use pbft_block.Startup.{
  Config, PartsP2pConfig, serial_number, without, node_list, enode, others, read_and_write,
}

-- The port is not met.
serial_number-absent :
    (port : Str) (i : ℕ) (qs : List Str) (found : ℕ)
    → mem port qs ≡ false
    → serial_number port i (length qs) qs found ≡ some found
unfolding serial_number mem
serial_number-absent port i [] found h = refl
serial_number-absent port i (q ∷ qs) found h =
    ground (
      arith,
      bytes_beq_iff port q,
      bytes_beq_iff q port,
      serial_number-absent port (suc i) qs found,
    )

serial_number-present :
    (port : Str) (i : ℕ) (ps qs : List Str) (found : ℕ)
    → mem port ps ≡ false
    → mem port qs ≡ false
    → serial_number port i (length (ps ++ port ∷ qs)) (ps ++ port ∷ qs) found
      ≡ some (suc (i + length ps))
unfolding serial_number mem
serial_number-present port i [] qs found h h' =
    ground (arith, bytes_beq_iff port port, serial_number-absent port (suc i) qs (suc i))
serial_number-present port i (p ∷ ps) qs found h h' = ground (
  arith,
  bytes_beq_iff port p,
  bytes_beq_iff p port,
  serial_number-present port (suc i) ps qs found,
)

without-middle {ℓ} :
    {A : Type ℓ} (xs ys : List A) (x : A)
    → without (suc (length xs)) (xs ++ x ∷ ys) ≡ some (xs ++ ys)
unfolding without
without-middle [] ys x = refl
without-middle (z ∷ xs) ys x = rw (without-middle xs ys x) refl

-- The URL of each node with its port.
abbrev pub enodes : List Node → List Str → List Str
enodes [] ports = []
enodes (node ∷ nodes) [] = []
enodes (node ∷ nodes) (port ∷ ports) = enode node port ∷ enodes nodes ports

node_list-enodes :
    (nodes : List Node) (ports : List Str)
    → length nodes ≡ length ports
    → node_list (length ports) nodes ports ≡ some (enodes nodes ports)
unfolding node_list
node_list-enodes [] [] h = refl
node_list-enodes [] (port ∷ ports) h = ground arith
node_list-enodes (node ∷ nodes) [] h = ground arith
node_list-enodes (node ∷ nodes) (port ∷ ports) h = ground (arith, node_list-enodes nodes ports)

abbrev pub complete : List Str → Str → List Str → Config
complete before port after = record {
  myport = port;
  peersnum = length (before ++ port ∷ after);
  peers = before ++ port ∷ after;
}

room :
    (before after : List Str) (port : Str)
    → length (before ++ port ∷ after) - 1 ≡ length (before ++ after)
room before after port =
    omega (arith, length-append before (port ∷ after), length-append before after)

some_room : (before after : List Str) (port : Str) → ltb 0 (length (before ++ port ∷ after)) ≡ true
some_room before after port = ground (arith, length-append before (port ∷ after))

serial_found :
    (before after : List Str) (port : Str)
    → mem port before ≡ false
    → mem port after ≡ false
    → serial_number port 0 (length (before ++ port ∷ after)) (before ++ port ∷ after) 0
      ≡ some (suc (length before))
serial_found before after port h h' =
    ground (arith, serial_number-present port 0 before after 0 h h')

without-at :
    (xs ys : List Node) (x : Node) (k : ℕ)
    → length xs ≡ k
    → without (suc k) (xs ++ x ∷ ys) ≡ some (xs ++ ys)
without-at xs ys x k h =
    subst (λ j. without (suc j) (xs ++ x ∷ ys) ≡ some (xs ++ ys)) h (without-middle xs ys x)

others-complete :
    (before after : List Str) (port : Str) (ns ms : List Node) (n : Node)
    → length ns ≡ length before
    → length ms ≡ length after
    → others (complete before port after) (suc (length before)) (ns ++ n ∷ ms)
      ≡ some (enodes (ns ++ ms) (before ++ after))
unfolding others
others-complete before after port ns ms n hn hm =
    rw
      (
        others,
        without-at ns ms n (length before) hn,
        without-middle before after port,
        some_room before after port,
        room before after port,
        node_list-enodes (ns ++ ms) (before ++ after)
            (omega (arith, length-append ns ms, length-append before after)),
      )
      refl

-- Let the configuration name the number of its addresses, with the own one among them once, and let
-- author.json list as many nodes in the same order. Where the key file of the own place can be read,
-- it becomes the private key, the own address becomes the listening address and the name, and the
-- static nodes are the URLs of all other nodes with their addresses, in order; nothing panics.
pub read_and_write-complete :
    (before after : List Str) (port : Str) (ns ms : List Node) (n : Node)
    (key_file : Str → Option (List ℕ)) (conf : PartsP2pConfig) (key : List ℕ)
    → mem port before ≡ false
    → mem port after ≡ false
    → length ns ≡ length before
    → length ms ≡ length after
    → key_file (codes "privatekey" ++ itoa (suc (length before)) ++ codes ".txt") ≡ some key
    → read_and_write (complete before port after) key_file conf (ns ++ n ∷ ms) ≡ record {
      private_key = some key;
      p2p_config = some (record conf { listen_addr = port; name = port });
      static_nodes = some (enodes (ns ++ ms) (before ++ after));
      panicked = false;
    }
unfolding read_and_write
read_and_write-complete before after port ns ms n key_file conf key h h' hn hm k =
    rw
      (
        read_and_write,
        serial_found before after port h h',
        k,
        others-complete before after port ns ms n hn hm,
      )
      refl
