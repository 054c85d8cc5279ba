-- ===== src/Stack/Tests.antt =====
-- Runs of the graph's validation and of a patch at a concrete snapshot.
use sira_seil_cockroach_aws.Domain.Ids.{require_id, require_hash}
use sira_seil_cockroach_aws.Base.Order.{text_le}
use sira_seil_cockroach_aws.Domain.Json.{no_fields}
use sira_seil_cockroach_aws.Domain.Enums.{
  ProductInstanceState, deploying, active, StackRisk, StackPatchStatus, draft,
}
use sira_seil_cockroach_aws.Stack.Models.{
  product_instance, jtbd, requires, StackNode, StackEdge, StackSnapshot, SnapshotPayload,
  snapshot_payload, find_node, sort_nodes, sort_edges,
}
use sira_seil_cockroach_aws.Stack.Graph.{
  validate_graph, validate_no_hard_dependency_cycle, cycle_error, make_snapshot,
}
use sira_seil_cockroach_aws.Stack.Graph.Reach.{Reach}
use sira_seil_cockroach_aws.Stack.Graph.Acyclic.{hard_cycle_check}
use sira_seil_cockroach_aws.Stack.Graph.Validity.{IsWellFormed, validate_graph_iff}
use sira_seil_cockroach_aws.Stack.Graph.Snapshot.{Made, make_snapshot-Made}
use sira_seil_cockroach_aws.Stack.Patch.{
  transition_product_instance, StackPatch, PatchPayload, PatchValidation, validate_patch,
  apply_approved_patch, transition_patch_status, check_operation,
}
use sira_seil_cockroach_aws.Stack.Patch.Evolution.{Becomes, IsInstance}
use sira_seil_cockroach_aws.Stack.Patch.Simulated.{
  applied_keeps_instances, validate_patch_valid, second_patch_is_stale,
}
use sira_seil_cockroach_aws.Stack.Patch.Activation.{applied_activation, activates}
use sira_seil_cockroach_aws.Stack.Patch.Status.{applied_needs_approval, transitions, approves}
use sira_seil_cockroach_aws.Base.{
  ◌+◌, String, ◌≡◌, refl, ◌↔◌, ◌⊎◌, true, false, none, some, List, [], ◌∷◌, arith, any, ok, err,
}

abbrev digest : String
digest = "sha256:0000000000000000000000000000000000000000000000000000000000000000"

abbrev hash : SnapshotPayload → String
hash p = digest

abbrev patch_hash_of : PatchPayload → String
patch_hash_of p = digest

abbrev instance_node : ProductInstanceState → StackNode
instance_node s = record {
  node_id = "inst-1";
  alias = "crm";
  node_type = product_instance;
  attributes = no_fields;
  product_instance_state = some s;
}

abbrev job : StackNode
job = record {
  node_id = "job-1";
  alias = "sell";
  node_type = jtbd;
  attributes = no_fields;
  product_instance_state = none;
}

abbrev dependency : String → String → String → StackEdge
dependency i a b = record {
  edge_id = i;
  from_node_id = a;
  to_node_id = b;
  edge_type = requires;
  criticality = StackRisk.low;
  hard = true;
  evidence_ref = none;
  confidence = "confirmed";
}

abbrev link : StackEdge
link = dependency "edge-1" "inst-1" "job-1"

abbrev base : StackSnapshot
base = record {
  schema_version = "1";
  organization_id = "org-1";
  version = 1;
  nodes = instance_node deploying ∷ job ∷ [];
  edges = link ∷ [];
  content_hash = digest;
}

abbrev next : StackSnapshot
next = record base { version = 2; nodes = instance_node active ∷ job ∷ [] }

abbrev patch : StackPatch
patch = record {
  schema_version = "1";
  patch_id = "patch-1";
  organization_id = "org-1";
  base_snapshot_version = 1;
  base_snapshot_hash = digest;
  operations = transition_product_instance "op-1" "inst-1" deploying active true ∷ [];
  status = StackPatchStatus.approved;
  patch_hash = digest;
}

base_is_accepted : validate_graph 10 base.nodes base.edges ≡ ok tt
unfolding validate_graph text_le
base_is_accepted = refl

base-IsWellFormed : IsWellFormed base.nodes base.edges
base-IsWellFormed = (validate_graph_iff 10 base.nodes base.edges (omega arith)).0 base_is_accepted

validate_graph_iff_example :
    (validate_graph 10 base.nodes base.edges ≡ ok tt) ↔ IsWellFormed base.nodes base.edges
validate_graph_iff_example = validate_graph_iff 10 base.nodes base.edges (omega arith)

abbrev circle : List StackEdge
circle = dependency "edge-1" "inst-1" "job-1" ∷ dependency "edge-2" "job-1" "inst-1" ∷ []

hard_cycle_check_example :
    ((validate_no_hard_dependency_cycle 10 base.nodes circle ≡ ok tt)
      × ((v : String) → ¬ Reach circle v v))
    ⊎ ((validate_no_hard_dependency_cycle 10 base.nodes circle ≡ err cycle_error)
        × ((v : String) × Reach circle v v))
hard_cycle_check_example =
    hard_cycle_check 10 base.nodes circle (omega arith) ((refl, refl), ((refl, refl), tt))

make_snapshot-Made_example : Made 10 hash base base
unfolding make_snapshot require_id validate_graph sort_nodes text_le sort_edges require_hash
make_snapshot-Made_example = make_snapshot-Made 10 hash base base refl

applied_keeps_instances_example :
    (m : StackNode) × (find_node "inst-1" next.nodes ≡ ok m) × Becomes (instance_node deploying) m
unfolding apply_approved_patch find_node make_snapshot require_id validate_graph sort_nodes text_le
    sort_edges
applied_keeps_instances_example =
    applied_keeps_instances 10 hash base patch next "inst-1" (instance_node deploying) deploying
      base-IsWellFormed refl refl (refl, refl)

applied_activation_example :
    ((n : StackNode) × (find_node "inst-1" base.nodes ≡ ok n) × IsInstance n active)
    ⊎ (any (activates "inst-1") patch.operations ≡ true)
unfolding apply_approved_patch find_node check_operation require_id make_snapshot validate_graph
    sort_nodes text_le sort_edges
applied_activation_example =
    applied_activation 10 hash base next patch "inst-1" (instance_node active) base-IsWellFormed
      (refl, tt) refl refl (refl, refl)

abbrev validation : PatchValidation
validation = record { valid = true; issues = []; simulated_snapshot = some next }

validate_patch_valid_example :
    (patch.organization_id ≡ base.organization_id)
    × (patch.base_snapshot_version ≡ base.version)
    × (patch.base_snapshot_hash ≡ base.content_hash)
    × ((t : StackSnapshot) × (validation.simulated_snapshot ≡ some t)
        × (t.organization_id ≡ base.organization_id)
        × (t.version ≡ base.version + 1)
        × (validate_graph 10 t.nodes t.edges ≡ ok tt)
        × (t.content_hash ≡ hash (snapshot_payload t)))
unfolding validate_patch make_snapshot require_id validate_graph sort_nodes text_le sort_edges
validate_patch_valid_example = validate_patch_valid 10 hash base patch validation refl refl

abbrev stale : PatchValidation
stale = record {
  valid = false;
  issues =
      record {
        code = "STALE_BASE";
        message = "Patch base version or hash is stale";
        operation = none;
      }
      ∷ [];
  simulated_snapshot = none;
}

second_patch_is_stale_example : stale.valid ≡ false
unfolding validate_patch apply_approved_patch make_snapshot require_id validate_graph sort_nodes
    text_le sort_edges
second_patch_is_stale_example =
    second_patch_is_stale 10 hash base next patch (record patch { patch_id = "patch-2" }) stale refl
      refl refl

abbrev statuses : List StackPatchStatus
statuses =
    StackPatchStatus.validated ∷ StackPatchStatus.awaiting_approval ∷ StackPatchStatus.approved
    ∷ StackPatchStatus.applying ∷ StackPatchStatus.applied ∷ []

applied_needs_approval_example : any (approves patch_hash_of) statuses ≡ true
unfolding transitions transition_patch_status require_id require_hash
applied_needs_approval_example =
    applied_needs_approval patch_hash_of (record patch { status = draft })
      (record patch { status = StackPatchStatus.applied }) statuses refl refl refl
