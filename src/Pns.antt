-- ===== src/Pns.antt =====
-- pns/PNService.go: the nodes that are permitted, as the file author.json lists them.
--
-- The file is read outside the model: `nodes` is what the JSON decoder leaves in the slice. Go visits
-- a map in any order; the results here do not depend on it.
pub mod Permission
use pbft_block.Common.{
  Bool, true, false, Option, none, some, List, [], ◌∷◌, Map, if◌then◌else◌, ◌==◌, nat_eq, bytes_eq,
  lookup, insert, has, ℕ,
}
use pbft_block.Text.{Str, codes}
use pbft_block.Text.Base64.{Decoded, decode_string}

pub record PNode : Type 0 where
  pub id : Str
  pub typ : Str
  pub pk : Str

pub record Node : Type 0 where
  pub node_id : Str
  pub node_pk : Str
  pub node_type : Str
  pub node_status : Str

-- `PermissionedNodeService`, with the type of private keys.
pub record PermissionedNodeService (Prv : Type 0) : Type 0 where
  pub p_nodes : Map Str PNode
  pub node_prk : Prv

abbrev pub is_abled : Node → Bool
is_abled node = node.node_status == codes "N_ABLED"

abbrev pub p_node_of : Node → PNode
p_node_of node = record { id = node.node_id; typ = node.node_type; pk = node.node_pk }

-- The loop over the nodes of the file; a later entry replaces an earlier one of the same id.
unfoldable pub load_p_nodes : List Node → Map Str PNode → Map Str PNode
load_p_nodes [] m = m
load_p_nodes (node ∷ nodes) m =
    load_p_nodes nodes (if is_abled node then insert node.node_id (p_node_of node) m else m)

abbrev is_consensus : PNode → Bool
is_consensus node = node.typ == codes "ConsensusNode"

-- The result of `base64.StdEncoding.DecodeString` where it gives no error.
abbrev pub decoded : Decoded → Option (List ℕ)
decoded d = if d.ok then some d.bytes else none

-- The public keys of the nodes that pass a test, by their ids; nil where one does not decode.
unfoldable pub decode_keys : (PNode → Bool) → Map Str PNode → Option (Map Str (List ℕ))
decode_keys p [] = some []
decode_keys p ((nid, node) ∷ m) =
    let rest = decode_keys p m in
    if p node
    then elim (decoded (decode_string node.pk)) [
      | none ↦ none
      | some key ↦ elim rest [ none ↦ none | some keys ↦ some ((nid, key) ∷ keys) ]
    ]
    else rest

-- The ids and the key texts of the nodes that pass a test.
unfoldable pub key_texts : (PNode → Bool) → Map Str PNode → Map Str Str
key_texts p [] = []
key_texts p ((nid, node) ∷ m) = if p node then (nid, node.pk) ∷ key_texts p m else key_texts p m

module _ {Prv : Type 0} where
  -- `none` where the file cannot be opened.
  unfoldable pub new_permissioned_node_service :
      Prv → Option (List Node) → Option (PermissionedNodeService Prv)
  new_permissioned_node_service key none = none
  new_permissioned_node_service key (some nodes) =
      some (record { p_nodes = load_p_nodes nodes []; node_prk = key })

  unfoldable pub get_permissioned_nodes : PermissionedNodeService Prv → Map Str Str
  get_permissioned_nodes s = key_texts (λ node. true) s.p_nodes

  unfoldable pub get_permissioned_con_nodes : PermissionedNodeService Prv → Map Str Str
  get_permissioned_con_nodes s = key_texts is_consensus s.p_nodes

  unfoldable pub judge_con_permissioned : PermissionedNodeService Prv → Str → Bool
  judge_con_permissioned s nid = elim (lookup nid s.p_nodes) [
    | none ↦ false
    | some node ↦ is_consensus node
  ]

  unfoldable pub judge_permissioned : PermissionedNodeService Prv → Str → Bool
  judge_permissioned s nid = has nid s.p_nodes

  -- `none` for the error of a node that is not permitted.
  unfoldable pub get_pk_by_pid : PermissionedNodeService Prv → Str → Option Str
  get_pk_by_pid s nid = elim (lookup nid s.p_nodes) [ none ↦ none | some node ↦ some node.pk ]

  -- nil for a node that is not permitted and for a text that does not decode.
  unfoldable pub get_base64_pk_by_pid : PermissionedNodeService Prv → Str → Option (List ℕ)
  get_base64_pk_by_pid s nid = elim (lookup nid s.p_nodes) [
    | none ↦ none
    | some node ↦ decoded (decode_string node.pk)
  ]

  unfoldable pub get_all_nodes_pk64 : PermissionedNodeService Prv → Option (Map Str (List ℕ))
  get_all_nodes_pk64 s = decode_keys (λ node. true) s.p_nodes

  unfoldable pub get_con_nodes_pk64 : PermissionedNodeService Prv → Option (Map Str (List ℕ))
  get_con_nodes_pk64 s = decode_keys is_consensus s.p_nodes
