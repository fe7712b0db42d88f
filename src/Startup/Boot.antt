-- ===== src/Startup/Boot.antt =====
-- From the files of a node to its network stack: `NodeKey` and `parsePersistentNodes` of eth/utils.go,
-- `InitP2PNode` and `StartP2PNode` of eth/star_up.go, after `ReadandWrite`.
--
-- The files are arguments: what reading and decoding each of them gives. Parsing a private key and a
-- URL, making a key, and starting the server are the cryptographic library's and the p2p stack's.
pub mod Complete
use pbft_block.Common.{
  ℕ, zero, suc, Bool, false, Option, none, some, List, [], ◌∷◌, if◌then◌else◌, bytes_eq,
}
use pbft_block.Text.{Str}
use pbft_block.Pns.{Node, PermissionedNodeService, new_permissioned_node_service}
use pbft_block.Network.Manager.{ProtocolManager, Protocol, new_protocol_manager, start}
use pbft_block.Worker.{Worker, initt}
use pbft_block.Startup.{Config, PartsP2pConfig, Written, read_and_write}

-- A file with a JSON list of URLs.
pub data NodeFile : Type 0 where
  missing unreadable malformed : NodeFile
  urls : List Str → NodeFile

module _ {Url : Type 0} (parse_node : Str → Option Url) where
  unfoldable pub parse_urls : List Str → List Url
  parse_urls [] = []
  parse_urls ([] ∷ list) = parse_urls list
  parse_urls ((c ∷ url) ∷ list) = elim (parse_node (c ∷ url)) [
    | none ↦ parse_urls list
    | some node ↦ node ∷ parse_urls list
  ]

  unfoldable pub parse_persistent_nodes : NodeFile → List Url
  parse_persistent_nodes missing = []
  parse_persistent_nodes unreadable = []
  parse_persistent_nodes malformed = []
  parse_persistent_nodes (urls list) = parse_urls list

-- The files that the start reads and writes.
pub record Files : Type 0 where
  pub private_key : Option (List ℕ)
  pub p2p_config : Option PartsP2pConfig
  pub static_nodes : NodeFile
  pub trusted_nodes : NodeFile
  pub author : Option (List Node)

-- The library: how a private key is read from its file, and what a new one is.
pub record Keys (Prv : Type 0) : Type 0 where
  pub load : List ℕ → Option Prv
  pub text : Prv → List ℕ
  pub generated : Option Prv

-- The configuration of the p2p server, and its protocols.
pub record Server (Prv Url : Type 0) : Type 0 where
  pub private_key : Prv
  pub name : Str
  pub discovery : Bool
  pub static_nodes : List Url
  pub trusted_nodes : List Url
  pub node_database : Str
  pub listen_addr : Str
  pub no_dial : Bool
  pub max_peers : ℕ
  pub max_pending_peers : ℕ
  pub protocols : List Protocol

abbrev renewed {ℓ} : {A : Type ℓ} → Option A → Option A → Option A
renewed (some a) old = some a
renewed none old = old

abbrev listed : Option (List Str) → NodeFile → NodeFile
listed (some list) old = urls list
listed none old = old

-- The files after `ReadandWrite`.
abbrev pub written : Written → Files → Files
written w f = record f {
  private_key = renewed w.private_key f.private_key;
  p2p_config = renewed w.p2p_config f.p2p_config;
  static_nodes = listed w.static_nodes f.static_nodes;
}

-- What stands in a variable before a file is decoded into it.
abbrev pub zero_conf : PartsP2pConfig
zero_conf = record {
  max_peers = 0;
  max_pending_peers = 0;
  discovery = false;
  name = [];
  node_database = [];
  no_dial = false;
  listen_addr = [];
}

abbrev pub blank_nodes : ℕ → List Node
blank_nodes zero = []
blank_nodes (suc n) =
    record { node_id = []; node_pk = []; node_type = []; node_status = [] } ∷ blank_nodes n

abbrev pub or_else {ℓ} : {A : Type ℓ} → Option A → A → A
or_else none a = a
or_else (some b) a = b

abbrev load_key : {Prv : Type 0} → Keys Prv → Option (List ℕ) → Option Prv
load_key keys none = none
load_key keys (some text) = keys.load text

module _ {Prv : Type 0} (keys : Keys Prv) where
  -- The key of the file, or a new one, which goes into the file; `none` where the process ends
  -- because no key can be made or no file for it.
  unfoldable pub node_key : Files → Option (Prv × Files)
  node_key f = elim (load_key keys f.private_key) [
    | some prv ↦ some (prv, f)
    | none ↦ elim keys.generated [
      | none ↦ none
      | some prv ↦ some (prv, record f { private_key = some (keys.text prv) })
    ]
  ]

  abbrev pub managed :
      Prv
      → Files
      → Option (PermissionedNodeService Prv)
      → Option (Prv × ProtocolManager Prv × Files)
  managed prv f none = none
  managed prv f (some service) = elim (new_protocol_manager 20210704 service) [
    | none ↦ none
    | some pm ↦ some (prv, pm, f)
  ]

  -- The key, the manager, and the files; `none` where the process ends.
  unfoldable pub init_p2p_node : Files → Option (Prv × ProtocolManager Prv × Files)
  init_p2p_node f = elim (node_key f) [
    | none ↦ none
    | some (prv, f') ↦ managed prv f' (new_permissioned_node_service prv f'.author)
  ]

  module _ {Url : Type 0} (parse_node : Str → Option Url) where
    -- The server that is to start, and the manager; `none` for a panic.
    unfoldable pub configure :
        Prv → ProtocolManager Prv → Files → Option (Server Prv Url × ProtocolManager Prv)
    configure prv pm f = elim f.p2p_config [
      | none ↦ none
      | some conf ↦ some (
        record {
          private_key = prv;
          name = conf.name;
          discovery = false;
          static_nodes = parse_persistent_nodes parse_node f.static_nodes;
          trusted_nodes = parse_persistent_nodes parse_node f.trusted_nodes;
          node_database = conf.node_database;
          listen_addr = conf.listen_addr;
          no_dial = conf.no_dial;
          max_peers = conf.max_peers;
          max_pending_peers = conf.max_pending_peers;
          protocols = pm.sub_protocols;
        },
        start pm,
      )
    ]

    -- `Start` of the p2p server: its error, if it gives one.
    module _ (start_server : Server Prv Url → Option Str) where
      abbrev pub started_server :
          Option (Server Prv Url × ProtocolManager Prv)
          → Option (Option Str × Server Prv Url × ProtocolManager Prv)
      started_server none = none
      started_server (some (server, pm)) = some (start_server server, server, pm)

      -- The error that is returned, the server, and the manager; `none` for a panic.
      unfoldable pub start_p2p_node :
          Prv
          → ProtocolManager Prv
          → Files
          → Option (Option Str × Server Prv Url × ProtocolManager Prv)
      start_p2p_node prv pm f = started_server (configure prv pm f)

    -- `ReadandWrite`; `none` for a panic.
    unfoldable pub prepare_files : Config → (Str → Option (List ℕ)) → Files → Option Files
    prepare_files config key_file f =
        let w =
          read_and_write config key_file (or_else f.p2p_config zero_conf)
            (or_else f.author (blank_nodes 20)) in
        if w.panicked then none else some (written w f)

    -- A node that has been started.
    pub record Started : Type 0 where
      pub server : Server Prv Url
      pub manager : ProtocolManager Prv
      pub node : Worker

    -- `Initt`, with the panic on a configuration with no address.
    abbrev pub launch : Config → Server Prv Url → ProtocolManager Prv → Option Started
    launch config server pm = elim config.peers [
      | [] ↦ none
      | leader_port ∷ ports ↦ some (record {
        server = server;
        manager = pm;
        node = initt config.myport leader_port config.peersnum;
      })
    ]

    -- An error of StartP2PNode is a panic of `main`.
    abbrev pub after_start :
        Config → Option (Option Str × Server Prv Url × ProtocolManager Prv) → Option Started
    after_start config none = none
    after_start config (some (some err, server, pm)) = none
    after_start config (some (none, server, pm)) = launch config server pm

    module _ (start_server : Server Prv Url → Option Str) where
      abbrev pub serve_files : Config → Option (Prv × ProtocolManager Prv × Files) → Option Started
      serve_files config none = none
      serve_files config (some (prv, pm, f)) =
          after_start config (start_p2p_node start_server prv pm f)

      -- The calls of `main` up to its loops; `none` where the process ends.
      unfoldable pub boot : Config → (Str → Option (List ℕ)) → Files → Option Started
      boot config key_file f = elim (prepare_files config key_file f) [
        | none ↦ none
        | some f' ↦ serve_files config (init_p2p_node f')
      ]
