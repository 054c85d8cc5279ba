-- ===== src/Stack/Graph.antt =====
-- python/stackfile/models.py, `_validate_graph`, `_validate_no_hard_dependency_cycle` and
-- `StackSnapshot.__post_init__`.
pub mod Reach
pub mod Search
pub mod Acyclic
pub mod Validity
pub mod Snapshot
use sira_seil_cockroach_aws.Domain.Ids.{require_id, require_hash}
use sira_seil_cockroach_aws.Domain.Enums.{is_active}
use sira_seil_cockroach_aws.Base.Order.{text_le}
use sira_seil_cockroach_aws.Base.Sort.{sorted}
use sira_seil_cockroach_aws.Base.Dict.{Dict, lookup, index_by}
use sira_seil_cockroach_aws.Stack.Models.{
  EdgeType, fulfills, fulfilled_by, requires, requires_capability, is_instance_type, StackNode,
  StackEdge, StackSnapshot, SnapshotPayload, snapshot_payload, sort_nodes, sort_edges,
}
use sira_seil_cockroach_aws.Base.{
  ℕ, zero, suc, String, Bool, true, false, not, ◌&&◌, ◌||◌, Option, none, some, List, [], ◌∷◌, ltb,
  nat_eq, ◌==◌, if◌then◌else◌, is_none, length, elem, set_of, Error, Result, ◌>>=◌, ◌>>◌, raise_if,
  domain_validation, key_error, recursion_error, ok, err,
}

abbrev pub node_ids : List StackNode → List String
node_ids [] = []
node_ids (n ∷ ns) = n.node_id ∷ node_ids ns

abbrev pub aliases : List StackNode → List String
aliases [] = []
aliases (n ∷ ns) = n.alias ∷ aliases ns

abbrev pub edge_ids : List StackEdge → List String
edge_ids [] = []
edge_ids (e ∷ es) = e.edge_id ∷ edge_ids es

-- `edge_type in {EdgeType.REQUIRES, EdgeType.REQUIRES_CAPABILITY}`
abbrev pub is_hard_type : EdgeType → Bool
is_hard_type requires = true
is_hard_type requires_capability = true
is_hard_type _ = false

-- The targets of the hard dependency edges that leave a node, in the order of the edges: the list
-- that the source's dict `graph` ends up with at the node.
abbrev pub dependencies : List StackEdge → String → List String
dependencies [] n = []
dependencies (e ∷ es) n =
    let rest = dependencies es n in
    if e.hard && is_hard_type e.edge_type && e.from_node_id == n then e.to_node_id ∷ rest else rest

-- `graph[node_id]`: the dict has the nodes' identifiers for its keys.
unfoldable pub graph_at : List String → List StackEdge → String → Result (List String)
graph_at ids es n = if elem n ids then ok (dependencies es n) else err key_error

abbrev pub cycle_error : Error
cycle_error = domain_validation "hard directed dependency cycle detected"

-- The loop `for dependency_id in graph[node_id]`, over the set `visited`.
unfoldable pub visit_all :
    (List String → String → Result (List String)) → List String → List String → Result (List String)
visit_all step visited [] = ok visited
visit_all step visited (d ∷ ds) = step visited d >>= λ vs. visit_all step vs ds

-- `visit(node_id)`, which returns the set `visited`. The set `visiting` is back to what it was when
-- the call returns. The first argument is how many nested calls the interpreter has left.
unfoldable pub visit :
    List String → List StackEdge → ℕ → List String → List String → String → Result (List String)
unfolding graph_at visit_all
visit ids es zero visiting visited n = err recursion_error
visit ids es (suc depth) visiting visited n =
    if elem n visiting
    then err cycle_error
    else if elem n visited
    then ok visited
    else graph_at ids es n >>= λ ds.
        visit_all (visit ids es depth (n ∷ visiting)) visited ds >>= λ vs. ok (n ∷ vs)

-- `_validate_no_hard_dependency_cycle`, under the interpreter's limit on nested calls
unfoldable pub validate_no_hard_dependency_cycle :
    ℕ → List StackNode → List StackEdge → Result (Unit {0})
unfolding visit
validate_no_hard_dependency_cycle limit ns es =
    visit_all (visit (node_ids ns) es limit []) [] (sorted text_le (node_ids ns)) >>= λ _. ok tt

-- An instance that does not run cannot stand on the fulfilling side.
abbrev pub cannot_fulfil : Option StackNode → Bool
cannot_fulfil none = false
cannot_fulfil (some n) =
    is_instance_type n.node_type
    && not (elim n.product_instance_state [ none ↦ false | some s ↦ is_active s ])

-- Which end of the edge fulfils, if any: the two tests on the edge's type.
abbrev pub fulfilment_fails : EdgeType → Option StackNode → Option StackNode → Bool
fulfilment_fails fulfills source target = cannot_fulfil source
fulfilment_fails fulfilled_by source target = cannot_fulfil target
fulfilment_fails _ source target = false

-- The body of the loop over the edges.
unfoldable pub check_graph_edge : Dict StackNode → StackEdge → Result (Unit {0})
check_graph_edge by_id e = do
  let source = lookup e.from_node_id by_id
  let target = lookup e.to_node_id by_id
  raise_if (is_none source || is_none target)
      (domain_validation "Stackfile edges must reference nodes in the same snapshot")
  raise_if (fulfilment_fails e.edge_type source target)
      (domain_validation "only active product instances can fulfill a JTBD")

unfoldable pub check_graph_edges : Dict StackNode → List StackEdge → Result (Unit {0})
unfolding check_graph_edge
check_graph_edges by_id [] = ok tt
check_graph_edges by_id (e ∷ es) = check_graph_edge by_id e >> check_graph_edges by_id es

-- `_validate_graph`
unfoldable pub validate_graph : ℕ → List StackNode → List StackEdge → Result (Unit {0})
unfolding check_graph_edges validate_no_hard_dependency_cycle
validate_graph limit ns es = do
  raise_if (not (nat_eq (length (set_of (node_ids ns))) (length ns)))
      (domain_validation "Stackfile node IDs must be unique")
  raise_if (not (nat_eq (length (set_of (aliases ns))) (length ns)))
      (domain_validation "Stackfile aliases must be unique per snapshot")
  raise_if (not (nat_eq (length (set_of (edge_ids es))) (length es)))
      (domain_validation "Stackfile edge IDs must be unique")
  check_graph_edges (index_by (λ n. n.node_id) ns) es
  validate_no_hard_dependency_cycle limit ns es

-- The hash of a payload is the SHA-256 of its canonical JSON: a parameter.
module _ (limit : ℕ) (hash : SnapshotPayload → String) where
  -- the hash that the caller gives, if any, has to be that of the payload
  unfoldable pub settle_hash : String → String → Result String
  settle_hash given computed =
      if given == ""
      then ok computed
      else require_hash given
        >> raise_if (not (computed == given))
            (domain_validation "Stackfile content_hash does not match snapshot")
        >> ok given

  -- `StackSnapshot.__post_init__`
  unfoldable pub make_snapshot : StackSnapshot → Result StackSnapshot
  unfolding settle_hash
  make_snapshot s = do
    raise_if (s.schema_version == "") (domain_validation "Stackfile schema_version is required")
    require_id s.organization_id
    raise_if (ltb s.version 1) (domain_validation "Stackfile snapshot version must be positive")
    let nodes = sort_nodes s.nodes
    let edges = sort_edges s.edges
    validate_graph limit nodes edges
    let placed = record s { nodes = nodes; edges = edges }
    content_hash ← settle_hash s.content_hash (hash (snapshot_payload placed))
    ok (record placed { content_hash = content_hash })
