-- ===== src/Pns/Permission.antt =====
-- Which nodes pns/PNService.go permits, in terms of the entries of the file.
use pbft_block.Common.{
  ◌≡◌, refl, Bool, false, Option, none, some, is_some, List, [], ◌∷◌, ◌&&◌, Map, if◌then◌else◌,
  ◌==◌, bytes_eq, lookup, insert, lookup-insert, arith, Option-cases,
}
use pbft_block.Text.{Str, codes}
use pbft_block.Pns.{
  PNode, Node, PermissionedNodeService, is_abled, p_node_of, load_p_nodes, judge_con_permissioned,
  get_pk_by_pid, judge_permissioned, new_permissioned_node_service,
}

-- The last entry of the file for an id that is enabled.
unfoldable pub last_abled : Str → List Node → Option Node
last_abled nid [] = none
last_abled nid (node ∷ nodes) = elim (last_abled nid nodes) [
  | some later ↦ some later
  | none ↦ if is_abled node && node.node_id == nid then some node else none
]

abbrev filed : Option Node → Option PNode → Option PNode
filed none old = old
filed (some node) old = some (p_node_of node)

lookup-load_p_nodes :
    (nid : Str) (nodes : List Node) (m : Map Str PNode)
    → lookup nid (load_p_nodes nodes m) ≡ filed (last_abled nid nodes) (lookup nid m)
unfolding load_p_nodes last_abled
lookup-load_p_nodes nid [] m = refl
lookup-load_p_nodes nid (node ∷ nodes) m = ground (
  arith,
  lookup-load_p_nodes nid nodes (insert node.node_id (p_node_of node) m),
  lookup-load_p_nodes nid nodes m,
  lookup-insert node.node_id nid (p_node_of node) m,
  Option-cases (last_abled nid nodes),
)

abbrev grants : Option Node → Bool
grants none = false
grants (some node) = node.node_type == codes "ConsensusNode"

abbrev text_of : Option Node → Option Str
text_of none = none
text_of (some node) = some node.node_pk

-- A service that is made from the entries of a file: a node counts as a consensus node exactly when
-- the last enabled entry for its id says so, it is permitted exactly when there is such an entry, and
-- its key text is the one of that entry.
pub judge-new :
    {Prv : Type 0} (key : Prv) (nodes : List Node) (s : PermissionedNodeService Prv) (nid : Str)
    → new_permissioned_node_service key (some nodes) ≡ some s
    → (judge_con_permissioned s nid ≡ grants (last_abled nid nodes))
      × (judge_permissioned s nid ≡ is_some (last_abled nid nodes))
      × (get_pk_by_pid s nid ≡ text_of (last_abled nid nodes))
unfolding new_permissioned_node_service judge_con_permissioned judge_permissioned get_pk_by_pid
    lookup
judge-new key nodes s nid built =
    ground (arith, lookup-load_p_nodes nid nodes [], Option-cases (last_abled nid nodes))
