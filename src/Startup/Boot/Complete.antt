-- ===== src/Startup/Boot/Complete.antt =====
-- What a node of a complete configuration runs with after the start of src/main.go.
use pbft_block.Common.{
  ℕ, suc, ◌≡◌, refl, sym, false, Option, none, some, is_some, if◌then◌else◌, List, [], ◌∷◌, ◌++◌,
  length, mem, bytes_eq,
}
use pbft_block.Text.{Str, codes}
use pbft_block.Text.Itoa.{itoa}
use pbft_block.Pns.{Node, PermissionedNodeService, load_p_nodes, new_permissioned_node_service}
use pbft_block.Worker.{initt}
use pbft_block.Network.Manager.{Protocol, ProtocolManager, new_protocol_manager, start}
use pbft_block.Startup.{enode}
use pbft_block.Startup.StaticNodes.{enodes, complete, read_and_write-complete}
use pbft_block.Startup.Boot.{
  Files, Keys, Server, urls, or_else, zero_conf, launch, managed, parse_urls,
  parse_persistent_nodes, node_key, init_p2p_node, start_p2p_node, configure, after_start,
  prepare_files, boot,
}

-- The URL of each node with its port can be parsed, and these are the results, in order.
unfoldable pub Parsed :
    {Url : Type 0} → (Str → Option Url) → List Node → List Str → List Url → Type 0
Parsed parse_node [] ports nodes = nodes ≡ []
Parsed parse_node (n ∷ ns) [] nodes = nodes ≡ []
Parsed parse_node (n ∷ ns) (port ∷ ports) [] = ⊥
Parsed parse_node (n ∷ ns) (port ∷ ports) (url ∷ nodes) =
    (parse_node (enode n port) ≡ some url) × Parsed parse_node ns ports nodes

module _ {Url : Type 0} (parse_node : Str → Option Url) where
  parse_urls-enodes :
      (ns : List Node) (ports : List Str) (nodes : List Url)
      → Parsed parse_node ns ports nodes
      → parse_urls parse_node (enodes ns ports) ≡ nodes
  unfolding parse_urls Parsed
  parse_urls-enodes [] ports nodes e = sym e
  parse_urls-enodes (n ∷ ns) [] nodes e = sym e
  parse_urls-enodes (n ∷ ns) (port ∷ ports) [] e = elim e [ ]
  parse_urls-enodes (n ∷ ns) (port ∷ ports) (url ∷ nodes) (e, es) =
      rw (e, parse_urls-enodes ns ports nodes es) refl

  parse_static :
      (ns : List Node) (ports : List Str) (nodes : List Url)
      → Parsed parse_node ns ports nodes
      → parse_persistent_nodes parse_node (urls (enodes ns ports)) ≡ nodes
  unfolding parse_persistent_nodes
  parse_static ns ports nodes es = parse_urls-enodes ns ports nodes es

-- The files that a complete configuration leads to.
abbrev complete_files : Str → List Str → List ℕ → Files → Files
complete_files port list key f = record f {
  private_key = some key;
  p2p_config = some (record (or_else f.p2p_config zero_conf) { listen_addr = port; name = port });
  static_nodes = urls list;
}

abbrev pub first : List Str → Str → Str
first [] port = port
first (p ∷ ps) port = p

-- What the node runs with.
module _ {Prv Url : Type 0} (keys : Keys Prv) (parse_node : Str → Option Url) where
  abbrev pub complete_server : Str → List Url → Files → Prv → List Protocol → Server Prv Url
  complete_server port others f prv protocols = record {
    private_key = prv;
    name = port;
    discovery = false;
    static_nodes = others;
    trusted_nodes = parse_persistent_nodes parse_node f.trusted_nodes;
    node_database = (or_else f.p2p_config zero_conf).node_database;
    listen_addr = port;
    no_dial = (or_else f.p2p_config zero_conf).no_dial;
    max_peers = (or_else f.p2p_config zero_conf).max_peers;
    max_pending_peers = (or_else f.p2p_config zero_conf).max_pending_peers;
    protocols = protocols;
  }

  prepare_files-complete :
      (before after : List Str) (port : Str) (ns ms : List Node) (n : Node)
      (key_file : Str → Option (List ℕ)) (f : Files) (key : List ℕ)
      → mem port before ≡ false
      → mem port after ≡ false
      → length ns ≡ length before
      → length ms ≡ length after
      → key_file (codes "privatekey" ++ itoa (suc (length before)) ++ codes ".txt") ≡ some key
      → f.author ≡ some (ns ++ n ∷ ms)
      → prepare_files keys parse_node (complete before port after) key_file f
        ≡ some (complete_files port (enodes (ns ++ ms) (before ++ after)) key f)
  unfolding prepare_files
  prepare_files-complete before after port ns ms n key_file f key h h' hn hm k a =
      rw
        (
          prepare_files,
          a,
          read_and_write-complete before after port ns ms n key_file
              (or_else f.p2p_config zero_conf) key h h' hn hm k,
        )
        refl

  -- The permissions of the nodes of a file.
  abbrev pub service_of : Prv → List Node → PermissionedNodeService Prv
  service_of prv nodes = record { p_nodes = load_p_nodes nodes []; node_prk = prv }

  init_p2p_node_complete :
      (port : Str) (list : List Str) (nodes : List Node) (f : Files) (key : List ℕ) (prv : Prv)
      (pm : ProtocolManager Prv)
      → keys.load key ≡ some prv
      → f.author ≡ some nodes
      → new_protocol_manager 20210704 (service_of prv nodes) ≡ some pm
      → init_p2p_node keys (complete_files port list key f)
        ≡ some (prv, pm, complete_files port list key f)
  unfolding init_p2p_node node_key new_permissioned_node_service
  init_p2p_node_complete port list nodes f key prv pm loads a made =
      rw (init_p2p_node, node_key, loads, a, new_permissioned_node_service, managed, made)
        (rw a refl)

  launch-complete :
      (before after : List Str) (port : Str) (server : Server Prv Url) (pm : ProtocolManager Prv)
      → launch keys parse_node (complete before port after) server pm
        ≡ some (record {
          server = server;
          manager = pm;
          node = initt port (first before port) (length (before ++ port ∷ after));
        })
  launch-complete [] after port server pm = refl
  launch-complete (p ∷ before) after port server pm = refl

  configure_complete :
      (port : Str) (ns : List Node) (ports : List Str) (others : List Url) (f : Files)
      (key : List ℕ) (prv : Prv) (pm : ProtocolManager Prv)
      → Parsed parse_node ns ports others
      → configure keys parse_node prv pm (complete_files port (enodes ns ports) key f)
        ≡ some (complete_server port others f prv pm.sub_protocols, start pm)
  unfolding configure
  configure_complete port ns ports others f key prv pm parses =
      rw (configure, parse_static parse_node ns ports others parses) refl

  -- The end of `main` before its loops, by what the start of the server gives.
  outcome :
      (start_server : Server Prv Url → Option Str) (before after : List Str) (port : Str)
      (server : Server Prv Url) (pm : ProtocolManager Prv) (err : Option Str)
      → after_start keys parse_node (complete before port after) (some (err, server, pm)) ≡ (
          if is_some err
          then none
          else some (record {
            server = server;
            manager = pm;
            node = initt port (first before port) (length (before ++ port ∷ after));
          }))
  outcome start_server before after port server pm none =
      launch-complete before after port server pm
  outcome start_server before after port server pm (some e) = refl

  -- Let the configuration name the number of its addresses, with the own one among them once, and let
  -- author.json list as many nodes in the same order. Let the key file of the own place be there, with
  -- a key that the library can load, and let the p2p stack parse the URLs of the other nodes with
  -- their addresses. If the p2p server gives an error when it is started, listening at the own
  -- address, with the loaded key and with the URLs of all other nodes, in order, as its static nodes,
  -- the process ends in a panic. If it gives none, it runs so, the node runs under the own address
  -- with the first address as its leader, and the manager has the permissions of author.json and the
  -- loaded key and is subscribed.
  pub boot-complete :
      (start_server : Server Prv Url → Option Str) (before after : List Str) (port : Str)
      (ns ms : List Node) (n : Node) (others : List Url) (key_file : Str → Option (List ℕ))
      (f : Files) (key : List ℕ) (prv : Prv) (pm : ProtocolManager Prv)
      → mem port before ≡ false
      → mem port after ≡ false
      → length ns ≡ length before
      → length ms ≡ length after
      → key_file (codes "privatekey" ++ itoa (suc (length before)) ++ codes ".txt") ≡ some key
      → f.author ≡ some (ns ++ n ∷ ms)
      → keys.load key ≡ some prv
      → Parsed parse_node (ns ++ ms) (before ++ after) others
      → new_protocol_manager 20210704 (service_of prv (ns ++ n ∷ ms)) ≡ some pm
      → let server = complete_server port others f prv pm.sub_protocols in
        boot keys parse_node start_server (complete before port after) key_file f ≡ (
          if is_some (start_server server)
          then none
          else some (record {
            server = server;
            manager = start pm;
            node = initt port (first before port) (length (before ++ port ∷ after));
          }))
  unfolding boot start_p2p_node
  boot-complete start_server before after port ns ms n others key_file f key prv pm h h' hn hm k a
        loads parses made =
      let server = complete_server port others f prv pm.sub_protocols in
      rw
        (
          boot,
          prepare_files-complete before after port ns ms n key_file f key h h' hn hm k a,
          init_p2p_node_complete port (enodes (ns ++ ms) (before ++ after)) (ns ++ n ∷ ms) f key prv
              pm loads a made,
          start_p2p_node,
          configure_complete port (ns ++ ms) (before ++ after) others f key prv pm parses,
        )
        (outcome start_server before after port server (start pm) (start_server server))
