-- ===== src/Stack/Patch/Activation.antt =====
-- A product instance becomes active only by a validated deployment.
use sira_seil_cockroach_aws.Domain.Enums.{ProductInstanceState, active, is_active}
use sira_seil_cockroach_aws.Base.Dict.{
  values, contains, lookup-erase_ne, lookup-erase_self, erase, keys, Dict, lookup, insert,
  lookup-insert,
}
use sira_seil_cockroach_aws.Stack.Models.{
  StackSnapshot, SnapshotPayload, find_node, is_instance_type, StackNode,
}
use sira_seil_cockroach_aws.Stack.Graph.Validity.{IsWellFormed}
use sira_seil_cockroach_aws.Stack.Graph.Snapshot.{make_snapshot-Made}
use sira_seil_cockroach_aws.Stack.Patch.Simulated.{
  open_draft-Keyed, open_draft-find, lookup_of_find, apply_approved_patch-Accepted,
}
use sira_seil_cockroach_aws.Stack.Patch.{
  StackPatch, open_draft, close_draft, apply_approved_patch, remove_node, remove_edge,
  apply_add_edge, add_edge, touches, add_node, apply_transition, check_operation, apply_remove_node,
  apply_operation, apply_add_node, apply_operations, Draft, PatchOperation,
  transition_product_instance,
}
use sira_seil_cockroach_aws.Stack.Patch.Evolution.{
  apply_operations_good, apply_operation_good, node_id_of_lookup, moved, transition_nodes, Keyed,
  IsInstance,
}
use sira_seil_cockroach_aws.Base.{
  ℕ, String, ◌≡◌, refl, sym, subst, ◌∙◌, ◌⊎◌, inl, inr, Bool, true, false, not, ◌&&◌, ◌||◌, some,
  List, [], ◌∷◌, arith, eq_iff, ◌==◌, Bool-cases, Option-cases, some_path, text_cases, select, any,
  is_empty, All, Distinct, ok,
}

-- The operation is a transition of that node to ACTIVE with its deployment validated.
abbrev pub activates : String → PatchOperation → Bool
activates k (transition_product_instance op j from to v) = j == k && is_active to && v
activates k _ = false

-- The dict has an active instance under the identifier.
abbrev pub IsActiveAt : String → Dict StackNode → Type 0
IsActiveAt k d = (n : StackNode) × (lookup k d ≡ some n) × IsInstance n active

active_insert :
    (k j : String) (n : StackNode) (d : Dict StackNode)
    → IsActiveAt j (insert k n d)
    → IsActiveAt j d ⊎ (k ≡ j) × IsInstance n active
active_insert k j n d (m, e, i) = elim (text_cases k j) [
  | inl (q, t) ↦
      let same : n ≡ m = some_path n m (sym (rw (lookup-insert k j n d, t) refl) ∙ e) in
      inr (q, subst (λ x. IsInstance x active) (sym same) i)
  | inr (_, t) ↦
      let here : lookup j d ≡ some m = rw (lookup-insert k j n d, t) at e in inl (m, here, i)
]

active_erase :
    (k j : String) (d : Dict StackNode)
    → Distinct (keys d)
    → IsActiveAt j (erase k d)
    → IsActiveAt j d
active_erase k j d u (m, e, i) = elim (text_cases k j) [
  | inl (q, _) ↦
      absurd
        (ground (arith, lookup-erase_self j d u, subst (λ y. lookup j (erase y d) ≡ some m) q e))
  | inr (ne, _) ↦ (m, sym (lookup-erase_ne j k d ne) ∙ e, i)
]

module _ (k : String) (d : Draft) (keyed : Keyed d.nodes) where
  from_add_node :
      (op : String) (n : StackNode)
      → check_operation (add_node op n) ≡ ok tt
      → IsActiveAt k (apply_add_node op n d).nodes
      → IsActiveAt k d.nodes
  unfolding apply_add_node check_operation
  from_add_node op n c h =
      elim (Bool-cases
        (contains n.node_id d.nodes || any (λ m. m.alias == n.alias) (values d.nodes))) [
          | inl kept ↦
              let same : (apply_add_node op n d).nodes ≡ d.nodes = ground arith in rw same at h
          | inr free ↦
              let added : (apply_add_node op n d).nodes ≡ insert n.node_id n d.nodes =
                ground arith in
              let h' : IsActiveAt k (insert n.node_id n d.nodes) = rw added at h in
              elim (active_insert n.node_id k n d.nodes h') [
                | inl before ↦ before
                | inr (_, i) ↦ absurd (ground arith)
              ]
        ]

  from_transition :
      (op j : String) (from to : ProductInstanceState) (v : Bool) (n : StackNode)
      → lookup j d.nodes ≡ some n
      → IsActiveAt k (apply_transition op from to v n d).nodes
      → IsActiveAt k d.nodes ⊎ (activates k (transition_product_instance op j from to v) ≡ true)
  from_transition op j from to v n found h = elim (transition_nodes d keyed op from to v n) [
    | inl e ↦ inl (rw e at h)
    | inr (e, _, _, checked) ↦
        let h' : IsActiveAt k (insert n.node_id (moved n to) d.nodes) = rw e at h in
        elim (active_insert n.node_id k (moved n to) d.nodes h') [
          | inl before ↦ inl before
          | inr (q, i) ↦
              let here : n.node_id ≡ j = node_id_of_lookup j n d.nodes keyed.0 found in
              let named : (j == k) ≡ true = (eq_iff j k).1 (sym here ∙ q) in
              let reached : to ≡ active = some_path to active i.1 in inr (ground arith)
        ]
  ]

  from_remove_node :
      (op j : String) (n : StackNode)
      → IsActiveAt k (apply_remove_node op j n d).nodes
      → IsActiveAt k d.nodes
  unfolding apply_remove_node
  from_remove_node op j n h =
      elim (Bool-cases
        (is_instance_type n.node_type || not (is_empty (select (touches j) (values d.edges))))) [
          | inl kept ↦
              let same : (apply_remove_node op j n d).nodes ≡ d.nodes = ground arith in rw same at h
          | inr free ↦
              let gone : (apply_remove_node op j n d).nodes ≡ erase j d.nodes = ground arith in
              let h' : IsActiveAt k (erase j d.nodes) = rw gone at h in
              active_erase j k d.nodes keyed.1 h'
        ]

  -- One operation activates an instance only by naming it.
  from_operation :
      (o : PatchOperation)
      → check_operation o ≡ ok tt
      → IsActiveAt k (apply_operation o d).nodes
      → IsActiveAt k d.nodes ⊎ (activates k o ≡ true)
  unfolding apply_operation
  from_operation (add_node op n) c h = inl (from_add_node op n c h)
  from_operation (add_edge op e) c h =
      let same : (apply_operation (add_edge op e) d).nodes ≡ d.nodes =
        unfold apply_add_edge in ground arith in
      inl (rw same at h)
  from_operation (transition_product_instance op j from to v) c h =
      elim (Option-cases (lookup j d.nodes)) [
        | inl e ↦ inl (rw (e, apply_operation) at h)
        | inr (n, e) ↦ from_transition op j from to v n e (rw (e, apply_operation) at h)
      ]
  from_operation (remove_edge op j) c h =
      let same : (apply_operation (remove_edge op j) d).nodes ≡ d.nodes = ground arith in
      inl (rw same at h)
  from_operation (remove_node op j) c h = elim (Option-cases (lookup j d.nodes)) [
    | inl e ↦ inl (rw (e, apply_operation) at h)
    | inr (n, e) ↦ inl (from_remove_node op j n (rw (e, apply_operation) at h))
  ]

from_operations :
    (k : String) (os : List PatchOperation) (d : Draft)
    → Keyed d.nodes
    → All (λ o. check_operation o ≡ ok tt) os
    → IsActiveAt k (apply_operations os d).nodes
    → IsActiveAt k d.nodes ⊎ (any (activates k) os ≡ true)
unfolding apply_operations
from_operations k [] d keyed c h = inl h
from_operations k (o ∷ os) d keyed c h =
    elim (from_operations k os (apply_operation o d) (apply_operation_good d keyed o).1 c.1 h) [
      | inr later ↦ inr (ground arith)
      | inl now ↦ elim (from_operation k d keyed o c.0 now) [
        | inl before ↦ inl before
        | inr here ↦ inr (ground arith)
      ]
    ]

-- In the result of an approved patch of constructed operations over a well-formed snapshot, a
-- product instance that is active was active in that snapshot, or the patch holds a transition of
-- that very node to ACTIVE whose deployment is validated.
pub applied_activation :
    (limit : ℕ) (hash : SnapshotPayload → String) (base t : StackSnapshot) (patch : StackPatch)
    (k : String) (m : StackNode)
    → IsWellFormed base.nodes base.edges
    → All (λ o. check_operation o ≡ ok tt) patch.operations
    → apply_approved_patch limit hash base patch ≡ ok t
    → find_node k t.nodes ≡ ok m
    → IsInstance m active
    → ((n : StackNode) × (find_node k base.nodes ≡ ok n) × IsInstance n active)
      ⊎ (any (activates k) patch.operations ≡ true)
unfolding close_draft
applied_activation limit hash base t patch k m w checked h found i =
    let (_, a) = (apply_approved_patch-Accepted limit hash base patch t h).1 in
    let made = make_snapshot-Made limit hash _ t a.closed in
    let start = open_draft-Keyed base in
    let (_, keyed) = apply_operations_good patch.operations (open_draft base) start in
    let final : Dict StackNode = (apply_operations patch.operations (open_draft base)).nodes in
    let inside : lookup k final ≡ some m =
      lookup_of_find k final m keyed (subst (λ ns. find_node k ns ≡ ok m) made.in_order found) in
    elim (from_operations k patch.operations (open_draft base) start checked (m, inside, i)) [
      | inl (n, e, j) ↦ inl (n, open_draft-find base k n w.ids e, j)
      | inr named ↦ inr named
    ]
