-- ===== src/Stack/Patch/Simulated.antt =====
-- `validate_patch` and `apply_approved_patch`: what an accepted patch makes of the snapshot.
use sira_seil_cockroach_aws.Base.Dict.{keys, Dict, lookup, insert, values, index_onto}
use sira_seil_cockroach_aws.Base.Sort.{place, sorted, All-sorted}
use sira_seil_cockroach_aws.Stack.Models.{
  StackNode, StackSnapshot, SnapshotPayload, snapshot_payload, node_le, sort_nodes, find_node,
}
use sira_seil_cockroach_aws.Stack.Graph.{node_ids, validate_graph}
use sira_seil_cockroach_aws.Stack.Graph.Validity.{IsWellFormed, node_with, lookup-by_id}
use sira_seil_cockroach_aws.Stack.Graph.Snapshot.{make_snapshot-Made}
use sira_seil_cockroach_aws.Domain.Enums.{ProductInstanceState, approved}
use sira_seil_cockroach_aws.Stack.Patch.{
  StackPatch, PatchValidation, Draft, open_draft, apply_operations, binding_issues, close_draft,
  validate_patch, or_invalid, simulate_patch, apply_approved_patch,
}
use sira_seil_cockroach_aws.Stack.Patch.Evolution.{
  IsInstance, Becomes, Keyed, insert-Keyed, apply_operations_good,
}
use sira_seil_cockroach_aws.Base.{
  ℕ, ◌+◌, String, ◌≡◌, refl, sym, ap, subst, ◌∙◌, inl, inr, true, false, ◌||◌, some, List, [], ◌∷◌,
  arith, eq_iff, ◌==◌, Bool-cases, some_path, text_cases, All, All-map, elem, Distinct,
  Result-cases, >>=-eq-ok, ok,
}

index_onto-Keyed :
    (d : Dict StackNode) (ns : List StackNode) → Keyed d → Keyed (index_onto (λ n. n.node_id) d ns)
index_onto-Keyed d [] h = h
index_onto-Keyed d (n ∷ ns) h =
    index_onto-Keyed (insert n.node_id n d) ns (insert-Keyed n.node_id n d refl h)

pub open_draft-Keyed : (base : StackSnapshot) → Keyed (open_draft base).nodes
unfolding open_draft
open_draft-Keyed base = index_onto-Keyed [] base.nodes (tt, tt)

node_with_of_find :
    (k : String) (ns : List StackNode) (n : StackNode)
    → find_node k ns ≡ ok n
    → node_with k ns ≡ some n
unfolding find_node
node_with_of_find k [] n h = cc
node_with_of_find k (m ∷ ns) n h = ground (arith, node_with_of_find k ns n)

pub open_draft-lookup :
    (base : StackSnapshot) (k : String) (n : StackNode)
    → Distinct (node_ids base.nodes)
    → find_node k base.nodes ≡ ok n
    → lookup k (open_draft base).nodes ≡ some n
unfolding open_draft
open_draft-lookup base k n d h = lookup-by_id k base.nodes d ∙ node_with_of_find k base.nodes n h

-- The node of a snapshot under an identifier that all its nodes of that identifier share.
find_only :
    (k : String) (m : StackNode) (ns : List StackNode)
    → All (λ x. x.node_id ≡ k → x ≡ m) ns
    → elem k (node_ids ns) ≡ true
    → find_node k ns ≡ ok m
unfolding find_node
find_only k m [] h e = cc
find_only k m (n ∷ ns) h e = elim (text_cases n.node_id k) [
  | inl (q, t) ↦ rw t (ap ok (h.0 q))
  | inr (_, t) ↦ rw t (find_only k m ns h.1 (rw t at e))
]

elem-place :
    (k : String) (n : StackNode) (ns : List StackNode)
    → elem k (node_ids (place node_le n ns)) ≡ (n.node_id == k || elem k (node_ids ns))
elem-place k n [] = refl
elem-place k n (m ∷ ns) = ground (arith, elem-place k n ns)

elem-sorted :
    (k : String) (ns : List StackNode)
    → elem k (node_ids (sorted node_le ns)) ≡ elem k (node_ids ns)
elem-sorted k [] = refl
elem-sorted k (n ∷ ns) = rw (elem-place k n (sorted node_le ns), elem-sorted k ns)

elem_of_lookup :
    (k : String) (d : Dict StackNode) (m : StackNode)
    → All (λ e. e.1.node_id ≡ e.0) d
    → lookup k d ≡ some m
    → elem k (node_ids (values d)) ≡ true
elem_of_lookup k [] m h e = cc
elem_of_lookup k ((j, n) ∷ d) m h e =
    ground (arith, elem_of_lookup k d m h.1, eq_iff j k, eq_iff n.node_id k)

none_of_absent :
    (k : String) (d : Dict StackNode) (m : StackNode)
    → All (λ e. e.1.node_id ≡ e.0) d
    → elem k (keys d) ≡ false
    → All (λ x. x.node_id ≡ k → x ≡ m) (values d)
none_of_absent k [] m h e = tt
none_of_absent k ((j, n) ∷ d) m h e =
    ((λ q. absurd (ground (arith, eq_iff j k))), none_of_absent k d m h.1 (ground arith))

only_of_lookup :
    (k : String) (d : Dict StackNode) (m : StackNode)
    → Keyed d
    → lookup k d ≡ some m
    → All (λ x. x.node_id ≡ k → x ≡ m) (values d)
only_of_lookup k [] m h e = tt
only_of_lookup k ((j, n) ∷ d) m (h, u) e = elim (text_cases j k) [
  | inl (q, t) ↦ (
    (λ _. some_path n m (rw t at e)),
    none_of_absent k d m h.1 (subst (λ y. elem y (keys d) ≡ false) q u.0),
  )
  | inr (ne, t) ↦ ((λ q. absurd (ne (sym h.0 ∙ q))), only_of_lookup k d m (h.1, u.1) (rw t at e))
]

find_sorted :
    (k : String) (d : Dict StackNode) (m : StackNode)
    → Keyed d
    → lookup k d ≡ some m
    → find_node k (sort_nodes (values d)) ≡ ok m
unfolding sort_nodes
find_sorted k d m h e =
    find_only k m (sorted node_le (values d))
      (All-sorted node_le (λ x. x.node_id ≡ k → x ≡ m) (values d) (only_of_lookup k d m h e))
      (elem-sorted k (values d) ∙ elem_of_lookup k d m h.0 e)

find_of_node_with :
    (k : String) (ns : List StackNode) (n : StackNode)
    → node_with k ns ≡ some n
    → find_node k ns ≡ ok n
unfolding find_node
find_of_node_with k [] n h = cc
find_of_node_with k (m ∷ ns) n h = ground (arith, find_of_node_with k ns n)

pub open_draft-find :
    (base : StackSnapshot) (k : String) (n : StackNode)
    → Distinct (node_ids base.nodes)
    → lookup k (open_draft base).nodes ≡ some n
    → find_node k base.nodes ≡ ok n
unfolding open_draft
open_draft-find base k n d h =
    find_of_node_with k base.nodes n (sym (lookup-by_id k base.nodes d) ∙ h)

-- What holds of every node of a list holds of the one that is found.
found_has :
    (P : StackNode → Type 0) (k : String) (ns : List StackNode) (m : StackNode)
    → All P ns
    → find_node k ns ≡ ok m
    → P m × (m.node_id ≡ k)
unfolding find_node
found_has P k [] m h e = cc
found_has P k (n ∷ ns) m h e = elim (text_cases n.node_id k) [
  | inl (q, t) ↦
      let same : n ≡ m = ground arith in
      (subst P same h.0, ap (λ (x : StackNode). x.node_id) (sym same) ∙ q)
  | inr (_, t) ↦ found_has P k ns m h.1 (rw t at e)
]

values_found :
    (d : Dict StackNode)
    → Keyed d
    → All (λ x. (lookup x.node_id d ≡ some x) × (elem x.node_id (keys d) ≡ true)) (values d)
values_found [] h = tt
values_found ((j, n) ∷ d) (h, u) = (
  (ground (arith, eq_iff j n.node_id), ground (arith, eq_iff j n.node_id)),
  All-map (λ x. (lookup x.node_id d ≡ some x) × (elem x.node_id (keys d) ≡ true))
      (λ x. (lookup x.node_id ((j, n) ∷ d) ≡ some x) × (elem x.node_id (keys ((j, n) ∷ d)) ≡ true))
      (λ x p. elim (text_cases j x.node_id) [
        | inl (q, _) ↦ absurd (ground (arith, subst (λ y. elem y (keys d) ≡ false) q u.0))
        | inr (_, t) ↦ (rw t p.0, rw t p.1)
      ])
      (values d) (values_found d (h.1, u.1)),
)

pub lookup_of_find :
    (k : String) (d : Dict StackNode) (m : StackNode)
    → Keyed d
    → find_node k (sort_nodes (values d)) ≡ ok m
    → lookup k d ≡ some m
unfolding sort_nodes
lookup_of_find k d m h e =
    let (p, q) =
      found_has (λ x. (lookup x.node_id d ≡ some x) × (elem x.node_id (keys d) ≡ true)) k
        (sorted node_le (values d)) m
        (All-sorted node_le (λ x. (lookup x.node_id d ≡ some x) × (elem x.node_id (keys d) ≡ true))
          (values d) (values_found d h))
        e in
    subst (λ y. lookup y d ≡ some m) q p.0

module _ (limit : ℕ) (hash : SnapshotPayload → String) (base : StackSnapshot)
    (patch : StackPatch) where
  abbrev pub final_draft : Draft
  final_draft = apply_operations patch.operations (open_draft base)

  -- What an accepted patch has been through.
  pub record Accepted (v : PatchValidation) (t : StackSnapshot) : Type 0 where
    pub result : v.simulated_snapshot ≡ some t
    pub same_organization : patch.organization_id ≡ base.organization_id
    pub same_version : patch.base_snapshot_version ≡ base.version
    pub same_hash : patch.base_snapshot_hash ≡ base.content_hash
    pub closed : close_draft limit hash base final_draft ≡ ok t

  pub validate_patch-Accepted :
      (v : PatchValidation)
      → validate_patch limit hash base patch ≡ ok v
      → v.valid ≡ true
      → (t : StackSnapshot) × Accepted v t
  unfolding validate_patch binding_issues
  validate_patch-Accepted v h valid =
      let orgs = eq_iff patch.organization_id base.organization_id in
      let hashes = eq_iff patch.base_snapshot_hash base.content_hash in
      elim (Result-cases (close_draft limit hash base final_draft)) [
        | inl (t, e) ↦ (
          t,
          record {
            result = ground arith;
            same_organization = ground (arith, orgs);
            same_version = ground (arith, orgs);
            same_hash = ground (arith, hashes);
            closed = e;
          },
        )
        | inr (x, e) ↦ absurd (ground arith)
      ]

  -- A patch that the validation calls valid is bound to this very snapshot, and its result is the
  -- next version of it: the organization is the same, the version is one more, the graph is
  -- accepted, and the hash is that of the result.
  pub validate_patch_valid :
      (v : PatchValidation)
      → validate_patch limit hash base patch ≡ ok v
      → v.valid ≡ true
      → (patch.organization_id ≡ base.organization_id)
        × (patch.base_snapshot_version ≡ base.version)
        × (patch.base_snapshot_hash ≡ base.content_hash)
        × ((t : StackSnapshot) × (v.simulated_snapshot ≡ some t)
            × (t.organization_id ≡ base.organization_id)
            × (t.version ≡ base.version + 1)
            × (validate_graph limit t.nodes t.edges ≡ ok tt)
            × (t.content_hash ≡ hash (snapshot_payload t)))
  unfolding close_draft
  validate_patch_valid v h valid =
      let (t, a) = validate_patch-Accepted v h valid in
      let made = make_snapshot-Made limit hash _ t a.closed in
      (
        a.same_organization,
        a.same_version,
        a.same_hash,
        (t, a.result, made.organization, made.same_version, made.accepted, made.hashed),
      )

  simulate_patch-Accepted :
      (t : StackSnapshot)
      → simulate_patch limit hash base patch ≡ ok t
      → (v : PatchValidation) × Accepted v t
  unfolding simulate_patch
  simulate_patch-Accepted t h =
      let (v, e, q) = >>=-eq-ok (validate_patch limit hash base patch) (or_invalid limit hash) h in
      let valid : v.valid ≡ true = ground arith in
      let (t', a) = validate_patch-Accepted v e valid in
      let shown : v.simulated_snapshot ≡ some t = ground arith in
      let same : t' ≡ t = some_path t' t (sym a.result ∙ shown) in (v, subst (Accepted v) same a)

  pub apply_approved_patch-Accepted :
      (t : StackSnapshot)
      → apply_approved_patch limit hash base patch ≡ ok t
      → (patch.status ≡ approved) × ((v : PatchValidation) × Accepted v t)
  unfolding apply_approved_patch
  apply_approved_patch-Accepted t h = (ground arith, simulate_patch-Accepted t (ground arith))

  -- Applying an approved patch to a well-formed snapshot loses no product instance: each is found
  -- in the result under the same identifier, with the same alias and type, in a state that it
  -- reaches by allowed lifecycle transitions.
  pub applied_keeps_instances :
      (t : StackSnapshot) (k : String) (n : StackNode) (s : ProductInstanceState)
      → IsWellFormed base.nodes base.edges
      → apply_approved_patch limit hash base patch ≡ ok t
      → find_node k base.nodes ≡ ok n
      → IsInstance n s
      → (m : StackNode) × (find_node k t.nodes ≡ ok m) × Becomes n m
  unfolding close_draft
  applied_keeps_instances t k n s w h found i =
      let (_, a) = (apply_approved_patch-Accepted t h).1 in
      let made = make_snapshot-Made limit hash _ t a.closed in
      let (evolves, keyed) =
        apply_operations_good patch.operations (open_draft base) (open_draft-Keyed base) in
      let (m, e, b) = evolves k n s (open_draft-lookup base k n w.ids found) i in
      (m, rw (made.in_order) (find_sorted k final_draft.nodes m keyed e), b)

-- Of two patches of one version of a snapshot, only one can be applied: once the first has been,
-- the second is not valid any more.
pub second_patch_is_stale :
    (limit : ℕ) (hash : SnapshotPayload → String) (base next : StackSnapshot)
    (first second : StackPatch) (v : PatchValidation)
    → apply_approved_patch limit hash base first ≡ ok next
    → second.base_snapshot_version ≡ first.base_snapshot_version
    → validate_patch limit hash next second ≡ ok v
    → v.valid ≡ false
unfolding close_draft
second_patch_is_stale limit hash base next first second v h same e = elim (Bool-cases v.valid) [
  | inr no_more ↦ no_more
  | inl valid ↦
      let (_, a) = (apply_approved_patch-Accepted limit hash base first next h).1 in
      let made = make_snapshot-Made limit hash _ next a.closed in
      let (_, b) = validate_patch-Accepted limit hash next second v e valid in
      absurd (omega (arith, a.same_version, made.same_version, b.same_version))
]
