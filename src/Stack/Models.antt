-- ===== src/Stack/Models.antt =====
-- python/stackfile/models.py: nodes, edges and snapshots. The enumerations arrive as members: the
-- coercion from text (`_enum`) and `from_dict` belong to the loaders, which are not modelled.
use sira_seil_cockroach_aws.Domain.Ids.{require_id}
use sira_seil_cockroach_aws.Domain.Json.{Fields}
use sira_seil_cockroach_aws.Domain.Enums.{ProductInstanceState, StackRisk}
use sira_seil_cockroach_aws.Base.Order.{text_le}
use sira_seil_cockroach_aws.Base.Sort.{sorted}
use sira_seil_cockroach_aws.Base.{
  ℕ, String, Bool, true, false, not, Option, none, some, List, [], ◌∷◌, ◌==◌, if◌then◌else◌, elem,
  Result, ◌>>◌, raise_if, domain_validation, key_error, ok, err,
}

pub data NodeType : Type 0 where
  organization business_goal jtbd workflow capability team role person_ref product product_version
        product_instance implementation_project offer contract entitlement integration data_asset
        policy budget vendor decision outcome risk :
      NodeType

pub data EdgeType : Type 0 where
  fulfills fulfilled_by provides requires_capability deployed_for requires integrates_with
        sends_data_to replaces overlaps_with blocks constrained_by owned_by used_by paid_by
        provisioned_by governed_by measured_by renewed_by :
      EdgeType

-- `node_type is NodeType.PRODUCT_INSTANCE`
abbrev pub is_instance_type : NodeType → Bool
is_instance_type product_instance = true
is_instance_type _ = false

pub record StackNode : Type 0 where
  pub node_id : String
  pub alias : String
  pub node_type : NodeType
  pub attributes : Fields
  pub product_instance_state : Option ProductInstanceState

-- The lifecycle test of `StackNode.__post_init__`.
abbrev pub check_lifecycle : Bool → Option ProductInstanceState → Result (Unit {0})
check_lifecycle true none = err (domain_validation "product_instance nodes require lifecycle state")
check_lifecycle true (some s) = ok tt
check_lifecycle false none = ok tt
check_lifecycle false (some s) =
    err (domain_validation "only product_instance nodes have lifecycle state")

-- `StackNode.__post_init__`
unfoldable pub check_node : StackNode → Result StackNode
check_node n = do
  require_id n.node_id
  require_id n.alias
  check_lifecycle (is_instance_type n.node_type) n.product_instance_state
  ok n

pub record StackEdge : Type 0 where
  pub edge_id : String
  pub from_node_id : String
  pub to_node_id : String
  pub edge_type : EdgeType
  pub criticality : StackRisk
  pub hard : Bool
  pub evidence_ref : Option String
  pub confidence : String

abbrev confidences : List String
confidences = "confirmed" ∷ "measured" ∷ "observed" ∷ "inferred" ∷ "unknown" ∷ []

-- `StackEdge.__post_init__`
unfoldable pub check_edge : StackEdge → Result StackEdge
check_edge e = do
  require_id e.edge_id
  require_id e.from_node_id
  require_id e.to_node_id
  raise_if (e.from_node_id == e.to_node_id)
      (domain_validation "Stackfile self-edges are prohibited")
  raise_if (not (elem e.confidence confidences))
      (domain_validation "unsupported Stackfile edge confidence")
  ok e

pub record StackSnapshot : Type 0 where
  pub schema_version : String
  pub organization_id : String
  pub version : ℕ
  pub nodes : List StackNode
  pub edges : List StackEdge
  pub content_hash : String

-- `StackSnapshot.to_hash_payload`
pub record SnapshotPayload : Type 0 where
  pub schema_version : String
  pub organization_id : String
  pub version : ℕ
  pub nodes : List StackNode
  pub edges : List StackEdge

unfoldable pub snapshot_payload : StackSnapshot → SnapshotPayload
snapshot_payload s = record {
  schema_version = s.schema_version;
  organization_id = s.organization_id;
  version = s.version;
  nodes = s.nodes;
  edges = s.edges;
}

-- `sorted(self.nodes, key=lambda node: node.node_id)`
abbrev pub node_le : StackNode → StackNode → Bool
node_le a b = text_le a.node_id b.node_id

unfoldable pub sort_nodes : List StackNode → List StackNode
sort_nodes ns = sorted node_le ns

abbrev pub edge_le : StackEdge → StackEdge → Bool
edge_le a b = text_le a.edge_id b.edge_id

unfoldable pub sort_edges : List StackEdge → List StackEdge
sort_edges es = sorted edge_le es

-- `StackSnapshot.node`
unfoldable pub find_node : String → List StackNode → Result StackNode
find_node k [] = err key_error
find_node k (n ∷ ns) = let rest = find_node k ns in if n.node_id == k then ok n else rest
