-- ===== src/Stack/Patch.antt =====
-- python/stackfile/patches.py: patches bound to a version of the snapshot, their simulation, their
-- status and their application.
pub mod Lifecycle
pub mod Evolution
pub mod Simulated
pub mod Activation
pub mod Status
use sira_seil_cockroach_aws.Domain.Ids.{require_id, require_hash}
use sira_seil_cockroach_aws.Domain.Enums.{
  ProductInstanceState, proposed, contracted, provisioned, deploying, active, degraded, retiring,
  cancelled, is_active, same_state, StackPatchStatus, draft, validated, awaiting_approval, approved,
  applying, applied, conflict, failed, compensating_patch,
}
use sira_seil_cockroach_aws.Base.Dict.{Dict, lookup, contains, insert, erase, values, index_by}
use sira_seil_cockroach_aws.Stack.Models.{
  is_instance_type, StackNode, StackEdge, StackSnapshot, SnapshotPayload,
}
use sira_seil_cockroach_aws.Stack.Graph.{make_snapshot}
use sira_seil_cockroach_aws.Base.{
  ℕ, zero, suc, ◌+◌, ◌-◌, ◌*◌, ◌/◌, ◌%◌, ◌≤◌, ◌<◌, String, ◌≡◌, refl, sym, ap, subst, ◌∙◌, ◌≢◌, ◌↔◌,
  ◌⊎◌, inl, inr, Bool, true, false, not, ◌&&◌, ◌||◌, Option, none, some, List, [], ◌∷◌, ◌++◌, map,
  arith, eq_iff, ltb, leb, nat_eq, ◌==◌, if◌then◌else◌, Bool-cases, Option-cases, is_none,
  text_cases, text_eq_self, length, select, any, all, is_empty, All, All-map, All-append, All-zip,
  elem, set_of, Distinct, elem-append, elem-set_of, length-set_of, set_of-Distinct, Distinct-set_of,
  elem_head, elem_tail, All_at, All-self, Error, Result, ◌>>=◌, ◌>>◌, raise_if, is_ok, Result-cases,
  >>=-eq-ok, raise_if-eq-ok, domain_validation, invalid_transition, exchange_conflict, value_error,
  key_error, recursion_error, ok, err,
}

-- The five classes of operations, each with its operation_id first.
pub data PatchOperation : Type 0 where
  add_node : String → StackNode → PatchOperation
  add_edge : String → StackEdge → PatchOperation
  -- node_id, from_state, to_state, deployment_validated
  transition_product_instance :
      String → String → ProductInstanceState → ProductInstanceState → Bool → PatchOperation
  remove_edge : String → String → PatchOperation
  remove_node : String → String → PatchOperation

abbrev pub operation_id : PatchOperation → String
operation_id (add_node i n) = i
operation_id (add_edge i e) = i
operation_id (transition_product_instance i k from to v) = i
operation_id (remove_edge i e) = i
operation_id (remove_node i n) = i

abbrev pub runs : Option ProductInstanceState → Bool
runs none = false
runs (some s) = is_active s

-- The `__post_init__` of each operation.
unfoldable pub check_operation : PatchOperation → Result (Unit {0})
check_operation (add_node i n) =
    require_id i
    >> raise_if (is_instance_type n.node_type && runs n.product_instance_state)
        (domain_validation "a purchased product must be staged before deployment activation")
check_operation (add_edge i e) = require_id i
check_operation (transition_product_instance i k from to v) = require_id i >> require_id k
check_operation (remove_edge i e) = require_id i >> require_id e
check_operation (remove_node i n) = require_id i >> require_id n

pub record StackPatch : Type 0 where
  pub schema_version : String
  pub patch_id : String
  pub organization_id : String
  pub base_snapshot_version : ℕ
  pub base_snapshot_hash : String
  pub operations : List PatchOperation
  pub status : StackPatchStatus
  pub patch_hash : String

-- `StackPatch.to_hash_payload`, without the status
pub record PatchPayload : Type 0 where
  pub schema_version : String
  pub patch_id : String
  pub organization_id : String
  pub base_snapshot_version : ℕ
  pub base_snapshot_hash : String
  pub operations : List PatchOperation

unfoldable pub patch_payload : StackPatch → PatchPayload
patch_payload p = record {
  schema_version = p.schema_version;
  patch_id = p.patch_id;
  organization_id = p.organization_id;
  base_snapshot_version = p.base_snapshot_version;
  base_snapshot_hash = p.base_snapshot_hash;
  operations = p.operations;
}

abbrev pub operation_ids : List PatchOperation → List String
operation_ids [] = []
operation_ids (o ∷ os) = operation_id o ∷ operation_ids os

-- The hash that the caller gives, if any, has to be that of the payload.
unfoldable pub settle_patch_hash : StackPatch → String → Result StackPatch
settle_patch_hash p computed =
    if p.patch_hash == ""
    then ok (record p { patch_hash = computed })
    else require_hash p.patch_hash
      >> raise_if (not (p.patch_hash == computed))
          (domain_validation "patch_hash does not match patch payload")
      >> ok p

-- `StackPatch.__post_init__`; the hash of a payload is a parameter
unfoldable pub check_patch : (PatchPayload → String) → StackPatch → Result StackPatch
unfolding settle_patch_hash
check_patch hash p = do
  require_id p.patch_id
  require_id p.organization_id
  require_hash p.base_snapshot_hash
  raise_if (ltb p.base_snapshot_version 1 || p.schema_version == "")
      (domain_validation "patch schema and positive base version are required")
  raise_if (is_empty p.operations)
      (domain_validation "a Stackfile patch requires at least one operation")
  raise_if (not (nat_eq (length (set_of (operation_ids p.operations))) (length p.operations)))
      (domain_validation "patch operation IDs must be unique")
  settle_patch_hash p (hash (patch_payload p))

pub record PatchIssue : Type 0 where
  pub code : String
  pub message : String
  pub operation : Option String

abbrev pub issue : String → String → Option String → PatchIssue
issue c m o = record { code = c; message = m; operation = o }

pub record PatchValidation : Type 0 where
  pub valid : Bool
  pub issues : List PatchIssue
  pub simulated_snapshot : Option StackSnapshot

-- `operation.to_state in _INSTANCE_TRANSITIONS[operation.from_state]`
abbrev pub may_transition : ProductInstanceState → ProductInstanceState → Bool
may_transition proposed contracted = true
may_transition contracted provisioned = true
may_transition contracted retiring = true
may_transition provisioned deploying = true
may_transition provisioned retiring = true
may_transition deploying active = true
may_transition deploying degraded = true
may_transition deploying retiring = true
may_transition active degraded = true
may_transition active retiring = true
may_transition degraded active = true
may_transition degraded retiring = true
may_transition retiring cancelled = true
may_transition _ _ = false

-- The local variables of the loop over the operations.
pub record Draft : Type 0 where
  pub issues : List PatchIssue
  pub nodes : Dict StackNode
  pub edges : Dict StackEdge

-- `issues.append(PatchIssue(...))`, and on to the next operation
abbrev pub report : String → String → String → Draft → Draft
report code message op d = record d { issues = d.issues ++ issue code message (some op) ∷ [] }

-- `node.product_instance_state is operation.from_state`
abbrev pub in_state : Option ProductInstanceState → ProductInstanceState → Bool
in_state none s = false
in_state (some t) s = same_state t s

unfoldable pub apply_add_node : String → StackNode → Draft → Draft
apply_add_node op n d =
    if contains n.node_id d.nodes
    then report "DUPLICATE_NODE" "Node ID already exists" op d
    else if any (λ m. m.alias == n.alias) (values d.nodes)
    then report "DUPLICATE_ALIAS" "Node alias already exists" op d
    else record d { nodes = insert n.node_id n d.nodes }

unfoldable pub apply_add_edge : String → StackEdge → Draft → Draft
apply_add_edge op e d =
    if contains e.edge_id d.edges
    then report "DUPLICATE_EDGE" "Edge ID already exists" op d
    else if not (contains e.from_node_id d.nodes) || not (contains e.to_node_id d.nodes)
    then report "MISSING_ENDPOINT" "Edge endpoint is absent" op d
    else record d { edges = insert e.edge_id e d.edges }

-- The tests on a node that is there.
unfoldable pub apply_transition :
    String → ProductInstanceState → ProductInstanceState → Bool → StackNode → Draft → Draft
apply_transition op from to is_validated n d =
    if not (is_instance_type n.node_type)
    then report "NOT_PRODUCT_INSTANCE" "Lifecycle target is absent or not a product instance" op d
    else if not (in_state n.product_instance_state from)
    then report "STALE_INSTANCE_STATE" "Lifecycle from_state does not match" op d
    else if not (may_transition from to)
    then report "INVALID_INSTANCE_TRANSITION" "Product lifecycle transition is not allowed" op d
    else if is_active to && not is_validated
    then report "DEPLOYMENT_NOT_VALIDATED" "Activation requires deployment validation" op d
    else record d {
      nodes = insert n.node_id (record n { product_instance_state = some to }) d.nodes;
    }

-- `operation.node_id in {edge.from_node_id, edge.to_node_id}`
abbrev pub touches : String → StackEdge → Bool
touches k e = e.from_node_id == k || e.to_node_id == k

unfoldable pub apply_remove_node : String → String → StackNode → Draft → Draft
apply_remove_node op k n d =
    if is_instance_type n.node_type
    then report "INSTANCE_HISTORY_REQUIRED" "Product instances are retired/cancelled, not deleted"
        op d
    else if not (is_empty (select (touches k) (values d.edges)))
    then report "DEPENDENCIES_REMAIN" "Remove related edges before removing a node" op d
    else record d { nodes = erase k d.nodes }

-- The body of the loop.
unfoldable pub apply_operation : PatchOperation → Draft → Draft
unfolding apply_add_node apply_add_edge apply_transition apply_remove_node
apply_operation (add_node op n) d = apply_add_node op n d
apply_operation (add_edge op e) d = apply_add_edge op e d
apply_operation (transition_product_instance op k from to v) d = elim (lookup k d.nodes) [
  | none ↦ report "NOT_PRODUCT_INSTANCE" "Lifecycle target is absent or not a product instance" op d
  | some n ↦ apply_transition op from to v n d
]
apply_operation (remove_edge op k) d =
    if contains k d.edges
    then record d { edges = erase k d.edges }
    else report "MISSING_EDGE" "Cannot remove absent edge" op d
apply_operation (remove_node op k) d = elim (lookup k d.nodes) [
  | none ↦ report "MISSING_NODE" "Cannot remove absent node" op d
  | some n ↦ apply_remove_node op k n d
]

unfoldable pub apply_operations : List PatchOperation → Draft → Draft
unfolding apply_operation
apply_operations [] d = d
apply_operations (o ∷ os) d = apply_operations os (apply_operation o d)

-- The dicts that the loop starts from.
unfoldable pub open_draft : StackSnapshot → Draft
open_draft base = record {
  issues = [];
  nodes = index_by (λ n. n.node_id) base.nodes;
  edges = index_by (λ e. e.edge_id) base.edges;
}

abbrev pub invalid : List PatchIssue → PatchValidation
invalid is = record { valid = false; issues = is; simulated_snapshot = none }

-- `except DomainValidationError`: any other exception goes on.
abbrev pub catch_invalid : Result StackSnapshot → Result PatchValidation
catch_invalid (ok s) = ok (record { valid = true; issues = []; simulated_snapshot = some s })
catch_invalid (err (domain_validation m)) = ok (invalid (issue "GRAPH_INVALID" m none ∷ []))
catch_invalid (err (invalid_transition m)) = ok (invalid (issue "GRAPH_INVALID" m none ∷ []))
catch_invalid (err e) = err e

-- The issues that stop the validation before the operations are read.
unfoldable pub binding_issues : StackSnapshot → StackPatch → List PatchIssue
binding_issues base patch =
    (if not (patch.organization_id == base.organization_id)
      then issue "TENANT_MISMATCH" "Patch organization does not match snapshot" none ∷ []
      else [])
    ++ (if not (nat_eq patch.base_snapshot_version base.version)
          || not (patch.base_snapshot_hash == base.content_hash)
        then issue "STALE_BASE" "Patch base version or hash is stale" none ∷ []
        else [])

module _ (limit : ℕ) (hash : SnapshotPayload → String) where
  -- The snapshot that the loop's dicts make.
  unfoldable pub close_draft : StackSnapshot → Draft → Result StackSnapshot
  close_draft base d = make_snapshot limit hash (record {
    schema_version = base.schema_version;
    organization_id = base.organization_id;
    version = base.version + 1;
    nodes = values d.nodes;
    edges = values d.edges;
    content_hash = "";
  })

  unfoldable pub validate_patch : StackSnapshot → StackPatch → Result PatchValidation
  unfolding binding_issues open_draft apply_operations close_draft
  validate_patch base patch =
      if not (is_empty (binding_issues base patch))
      then ok (invalid (binding_issues base patch))
      else let d = apply_operations patch.operations (open_draft base) in
        if not (is_empty d.issues)
        then ok (invalid d.issues)
        else catch_invalid (close_draft base d)

  abbrev pub or_invalid : PatchValidation → Result StackSnapshot
  or_invalid v = elim v.simulated_snapshot [
    | none ↦ err (domain_validation "invalid Stackfile patch")
    | some s ↦ if v.valid then ok s else err (domain_validation "invalid Stackfile patch")
  ]

  unfoldable pub simulate_patch : StackSnapshot → StackPatch → Result StackSnapshot
  unfolding validate_patch
  simulate_patch base patch = validate_patch base patch >>= or_invalid

  -- `patch.status is StackPatchStatus.APPROVED`
  abbrev pub is_approved : StackPatchStatus → Bool
  is_approved approved = true
  is_approved _ = false

  unfoldable pub apply_approved_patch : StackSnapshot → StackPatch → Result StackSnapshot
  unfolding simulate_patch
  apply_approved_patch base patch =
      if not (is_approved patch.status)
      then err (invalid_transition "only an approved Stackfile patch may be applied")
      else simulate_patch base patch

-- `target in _PATCH_TRANSITIONS[patch.status]`
abbrev pub may_become : StackPatchStatus → StackPatchStatus → Bool
may_become draft validated = true
may_become draft failed = true
may_become draft conflict = true
may_become validated awaiting_approval = true
may_become awaiting_approval approved = true
may_become awaiting_approval conflict = true
may_become approved applying = true
may_become approved conflict = true
may_become applying applied = true
may_become applying failed = true
may_become applied compensating_patch = true
may_become failed compensating_patch = true
may_become _ _ = false

-- `replace` runs `__post_init__` again, on an empty hash.
unfoldable pub transition_patch_status :
    (PatchPayload → String) → StackPatch → StackPatchStatus → Result StackPatch
unfolding check_patch
transition_patch_status hash p target =
    if not (may_become p.status target)
    then err (invalid_transition "Stack patch cannot transition")
    else check_patch hash (record p { status = target; patch_hash = "" })
