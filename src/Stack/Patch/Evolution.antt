-- ===== src/Stack/Patch/Evolution.antt =====
-- What the operations of a patch do to the product instances of the draft.
use sira_seil_cockroach_aws.Domain.Enums.{same_state-eq, is_active, ProductInstanceState}
use sira_seil_cockroach_aws.Base.Dict.{
  values, keys, erase-Distinct, insert-Distinct, Dict, lookup, insert, erase, contains,
  lookup-insert, lookup-erase_ne, contains-eq-lookup,
}
use sira_seil_cockroach_aws.Stack.Models.{StackEdge, product_instance, is_instance_type, StackNode}
use sira_seil_cockroach_aws.Stack.Patch.{
  add_node, add_edge, transition_product_instance, remove_node, in_state, touches, remove_edge,
  apply_transition, apply_add_edge, apply_operation, apply_add_node, PatchOperation,
  apply_remove_node, apply_operations, Draft, may_transition,
}
use sira_seil_cockroach_aws.Stack.Patch.Lifecycle.{Lifecycle, stay, move, Lifecycle-trans}
use sira_seil_cockroach_aws.Base.{
  String, ◌≡◌, refl, sym, ap, subst, ◌∙◌, ◌⊎◌, inl, inr, Bool, true, false, not, ◌&&◌, some, List,
  [], ◌∷◌, arith, eq_iff, ◌==◌, Bool-cases, Option-cases, some_path, text_cases, select, any,
  is_empty, All, Distinct,
}

-- A product instance and what has become of it: the same node, further along its lifecycle.
pub record Becomes (n m : StackNode) : Type 0 where
  pub same_id : m.node_id ≡ n.node_id
  pub same_alias : m.alias ≡ n.alias
  pub same_type : m.node_type ≡ n.node_type
  pub from : ProductInstanceState
  pub to : ProductInstanceState
  pub was : n.product_instance_state ≡ some from
  pub is : m.product_instance_state ≡ some to
  pub lived : Lifecycle from to

-- A product instance in its state.
abbrev pub IsInstance : StackNode → ProductInstanceState → Type 0
IsInstance n s = (n.node_type ≡ product_instance) × (n.product_instance_state ≡ some s)

-- Each node stands under its own identifier, and no identifier twice.
abbrev pub Keyed : Dict StackNode → Type 0
Keyed d = All (λ e. e.1.node_id ≡ e.0) d × Distinct (keys d)

-- Every product instance of the first dict is still in the second.
abbrev pub Evolves : Dict StackNode → Dict StackNode → Type 0
Evolves d e =
    (k : String) (n : StackNode) (s : ProductInstanceState)
    → lookup k d ≡ some n
    → IsInstance n s
    → (m : StackNode) × (lookup k e ≡ some m) × Becomes n m

Becomes-self : (n : StackNode) (s : ProductInstanceState) → IsInstance n s → Becomes n n
Becomes-self n s h = record {
  same_id = refl;
  same_alias = refl;
  same_type = refl;
  from = s;
  to = s;
  was = h.1;
  is = h.1;
  lived = stay;
}

pub Evolves-refl : (d : Dict StackNode) → Evolves d d
Evolves-refl d k n s h i = (n, h, Becomes-self n s i)

Becomes-IsInstance :
    (n m : StackNode) (s : ProductInstanceState) (b : Becomes n m)
    → IsInstance n s
    → IsInstance m b.to
Becomes-IsInstance n m s b i = (b.same_type ∙ i.0, b.is)

Becomes-trans : (n m o : StackNode) → Becomes n m → Becomes m o → Becomes n o
Becomes-trans n m o p q = record {
  same_id = q.same_id ∙ p.same_id;
  same_alias = q.same_alias ∙ p.same_alias;
  same_type = q.same_type ∙ p.same_type;
  from = p.from;
  to = q.to;
  was = p.was;
  is = q.is;
  lived =
      let e : p.to ≡ q.from = some_path _ _ (sym p.is ∙ q.was) in
      Lifecycle-trans p.lived (subst (λ x. Lifecycle x q.to) (sym e) q.lived);
}

Evolves-trans : (c d e : Dict StackNode) → Evolves c d → Evolves d e → Evolves c e
Evolves-trans c d e p q k n s h i =
    let (m, hm, b) = p k n s h i in
    let (o, ho, b') = q k m b.to hm (Becomes-IsInstance n m s b i) in
    (o, ho, Becomes-trans n m o b b')

-- A write under a key that is free loses no instance.
insert_fresh :
    (k : String) (n : StackNode) (d : Dict StackNode)
    → contains k d ≡ false
    → Evolves d (insert k n d)
insert_fresh k n d free j m s h i = elim (text_cases k j) [
  | inl (e, t) ↦ ground (arith, contains-eq-lookup k d, eq_iff k j)
  | inr (_, t) ↦ (m, rw (lookup-insert k j n d, t) h, Becomes-self m s i)
]

insert_keyed_entries :
    (k : String) (n : StackNode) (d : Dict StackNode)
    → n.node_id ≡ k
    → All (λ e. e.1.node_id ≡ e.0) d
    → All (λ e. e.1.node_id ≡ e.0) (insert k n d)
insert_keyed_entries k n [] e h = (e, tt)
insert_keyed_entries k n ((j, m) ∷ d) e h =
    ground (arith, eq_iff j k, insert_keyed_entries k n d e h.1)

pub insert-Keyed :
    (k : String) (n : StackNode) (d : Dict StackNode)
    → n.node_id ≡ k
    → Keyed d
    → Keyed (insert k n d)
insert-Keyed k n d e h = (insert_keyed_entries k n d e h.0, insert-Distinct k n d h.1)

pub node_id_of_lookup :
    (k : String) (n : StackNode) (d : Dict StackNode)
    → All (λ e. e.1.node_id ≡ e.0) d
    → lookup k d ≡ some n
    → n.node_id ≡ k
node_id_of_lookup k n [] h e = cc
node_id_of_lookup k n ((j, m) ∷ d) h e = ground (arith, eq_iff j k, node_id_of_lookup k n d h.1)

erase_keyed_entries :
    (k : String) (d : Dict StackNode)
    → All (λ e. e.1.node_id ≡ e.0) d
    → All (λ e. e.1.node_id ≡ e.0) (erase k d)
erase_keyed_entries k [] h = tt
erase_keyed_entries k ((j, m) ∷ d) h = ground (arith, erase_keyed_entries k d h.1)

erase-Keyed : (k : String) (d : Dict StackNode) → Keyed d → Keyed (erase k d)
erase-Keyed k d h = (erase_keyed_entries k d h.0, erase-Distinct k d h.1)

-- A deletion of what is no instance loses no instance.
erase_other :
    (k : String) (n : StackNode) (d : Dict StackNode)
    → lookup k d ≡ some n
    → is_instance_type n.node_type ≡ false
    → Evolves d (erase k d)
erase_other k n d found other j m s h i = elim (text_cases k j) [
  | inl (e, _) ↦
      let same : some m ≡ some n = sym h ∙ subst (λ y. lookup y d ≡ some n) e found in
      absurd (ground arith)
  | inr (u, _) ↦ (m, lookup-erase_ne j k d u ∙ h, Becomes-self m s i)
]

-- `replace(node, product_instance_state=operation.to_state)`
abbrev pub moved : StackNode → ProductInstanceState → StackNode
moved n to = record n { product_instance_state = some to }

-- A write of an instance in a state that the table allows moves that instance along.
insert-moved :
    (n : StackNode) (from to : ProductInstanceState) (d : Dict StackNode)
    → lookup n.node_id d ≡ some n
    → IsInstance n from
    → may_transition from to ≡ true
    → Evolves d (insert n.node_id (moved n to) d)
insert-moved n from to d found at allowed j m s h i = elim (text_cases n.node_id j) [
  | inl (e, t) ↦
      let same : n ≡ m = some_path _ _ (sym (subst (λ y. lookup y d ≡ some n) e found) ∙ h) in
      (
        moved n to,
        rw (lookup-insert n.node_id j (moved n to) d, t) refl,
        record {
          same_id = ap (λ (x : StackNode). x.node_id) same;
          same_alias = ap (λ (x : StackNode). x.alias) same;
          same_type = ap (λ (x : StackNode). x.node_type) same;
          from = from;
          to = to;
          was = ap (λ (x : StackNode). x.product_instance_state) (sym same) ∙ at.1;
          is = refl;
          lived = move stay allowed;
        },
      )
  | inr (_, t) ↦ (m, rw (lookup-insert n.node_id j (moved n to) d, t) h, Becomes-self m s i)
]

IsInstance-of_tests :
    (n : StackNode) (s : ProductInstanceState)
    → is_instance_type n.node_type ≡ true
    → in_state n.product_instance_state s ≡ true
    → IsInstance n s
IsInstance-of_tests n s i h = elim (Option-cases n.product_instance_state) [
  | inl e ↦ ground arith
  | inr (t, e) ↦ let same : t ≡ s = same_state-eq t s (rw e at h) in (ground arith, ground arith)
]

-- What one operation does to the nodes of the draft.
abbrev pub GoodStep : Draft → Draft → Type 0
GoodStep d e = Evolves d.nodes e.nodes × Keyed e.nodes

module _ (d : Draft) (keyed : Keyed d.nodes) where
  add_node_good : (op : String) (n : StackNode) → GoodStep d (apply_add_node op n d)
  unfolding apply_add_node
  add_node_good op n = elim (Bool-cases (contains n.node_id d.nodes)) [
    | inl e ↦ rw e (Evolves-refl d.nodes, keyed)
    | inr free ↦ elim (Bool-cases (any (λ m. m.alias == n.alias) (values d.nodes))) [
      | inl e ↦ rw (free, e) (Evolves-refl d.nodes, keyed)
      | inr e ↦
          rw (free, e)
            (insert_fresh n.node_id n d.nodes free, insert-Keyed n.node_id n d.nodes refl keyed)
    ]
  ]

  add_edge_good : (op : String) (e : StackEdge) → GoodStep d (apply_add_edge op e d)
  unfolding apply_add_edge
  add_edge_good op e =
      let same : (apply_add_edge op e d).nodes ≡ d.nodes = ground arith in
      rw same (Evolves-refl d.nodes, keyed)

  remove_edge_good : (op k : String) → GoodStep d (apply_operation (remove_edge op k) d)
  unfolding apply_operation
  remove_edge_good op k =
      let same : (apply_operation (remove_edge op k) d).nodes ≡ d.nodes = ground arith in
      rw same (Evolves-refl d.nodes, keyed)

  remove_node_good :
      (op k : String) (n : StackNode)
      → lookup k d.nodes ≡ some n
      → GoodStep d (apply_remove_node op k n d)
  unfolding apply_remove_node
  remove_node_good op k n found = elim (Bool-cases (is_instance_type n.node_type)) [
    | inl e ↦ rw e (Evolves-refl d.nodes, keyed)
    | inr plain ↦ elim (Bool-cases (not (is_empty (select (touches k) (values d.edges))))) [
      | inl e ↦ rw (plain, e) (Evolves-refl d.nodes, keyed)
      | inr e ↦ rw (plain, e) (erase_other k n d.nodes found plain, erase-Keyed k d.nodes keyed)
    ]
  ]

  -- The nodes after a transition: untouched, or with the node moved along.
  pub transition_nodes :
      (op : String) (from to : ProductInstanceState) (v : Bool) (n : StackNode)
      → ((apply_transition op from to v n d).nodes ≡ d.nodes)
        ⊎ ((apply_transition op from to v n d).nodes ≡ insert n.node_id (moved n to) d.nodes)
          × IsInstance n from
          × (may_transition from to ≡ true)
          × ((is_active to && not v) ≡ false)
  unfolding apply_transition
  transition_nodes op from to v n = elim (Bool-cases (is_instance_type n.node_type)) [
    | inr e ↦ inl (rw e)
    | inl i ↦ elim (Bool-cases (in_state n.product_instance_state from)) [
      | inr e ↦ inl (rw (i, e))
      | inl s ↦ elim (Bool-cases (may_transition from to)) [
        | inr e ↦ inl (rw (i, s, e))
        | inl m ↦ elim (Bool-cases (is_active to && not v)) [
          | inl e ↦ inl (rw (i, s, m, e))
          | inr e ↦ inr (rw (i, s, m, e), IsInstance-of_tests n from i s, m, e)
        ]
      ]
    ]
  ]

  transition_good :
      (op k : String) (from to : ProductInstanceState) (v : Bool) (n : StackNode)
      → lookup k d.nodes ≡ some n
      → GoodStep d (apply_transition op from to v n d)
  transition_good op k from to v n found = elim (transition_nodes op from to v n) [
    | inl e ↦ rw e (Evolves-refl d.nodes, keyed)
    | inr (e, i, allowed, _) ↦
        let found' : lookup n.node_id d.nodes ≡ some n =
          subst (λ y. lookup y d.nodes ≡ some n) (sym (node_id_of_lookup k n d.nodes keyed.0 found))
            found in
        rw e (
          insert-moved n from to d.nodes found' i allowed,
          insert-Keyed n.node_id (moved n to) d.nodes refl keyed,
        )
  ]

  pub apply_operation_good : (o : PatchOperation) → GoodStep d (apply_operation o d)
  unfolding apply_operation
  apply_operation_good (add_node op n) = add_node_good op n
  apply_operation_good (add_edge op e) = add_edge_good op e
  apply_operation_good (transition_product_instance op k from to v) =
      elim (Option-cases (lookup k d.nodes)) [
        | inl e ↦ rw (e, apply_operation) (Evolves-refl d.nodes, keyed)
        | inr (n, e) ↦ rw (e, apply_operation) (transition_good op k from to v n e)
      ]
  apply_operation_good (remove_edge op k) = remove_edge_good op k
  apply_operation_good (remove_node op k) = elim (Option-cases (lookup k d.nodes)) [
    | inl e ↦ rw (e, apply_operation) (Evolves-refl d.nodes, keyed)
    | inr (n, e) ↦ rw (e, apply_operation) (remove_node_good op k n e)
  ]

pub apply_operations_good :
    (os : List PatchOperation) (d : Draft) → Keyed d.nodes → GoodStep d (apply_operations os d)
unfolding apply_operations
apply_operations_good [] d h = (Evolves-refl d.nodes, h)
apply_operations_good (o ∷ os) d h =
    let (p, k) = apply_operation_good d h o in
    let (q, l) = apply_operations_good os (apply_operation o d) k in
    (Evolves-trans d.nodes (apply_operation o d).nodes _ p q, l)
