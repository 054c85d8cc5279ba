-- ===== src/Stack/Graph/Validity.antt =====
-- `_validate_graph` accepts exactly the well-formed graphs.
use sira_seil_cockroach_aws.Domain.Enums.{active}
use sira_seil_cockroach_aws.Base.Dict.{Dict, lookup, insert, index_onto, index_by, lookup-insert}
use sira_seil_cockroach_aws.Stack.Models.{
  EdgeType, fulfills, fulfilled_by, product_instance, is_instance_type, StackNode, StackEdge,
}
use sira_seil_cockroach_aws.Stack.Graph.{
  validate_graph, validate_no_hard_dependency_cycle, node_ids, aliases, edge_ids, cannot_fulfil,
  fulfilment_fails, check_graph_edge, check_graph_edges,
}
use sira_seil_cockroach_aws.Stack.Graph.Reach.{Reach}
use sira_seil_cockroach_aws.Stack.Graph.Acyclic.{hard_cycle_check, length-node_ids, HasEnds}
use sira_seil_cockroach_aws.Base.{
  ℕ, suc, ◌<◌, String, ◌≡◌, refl, ap, subst, ◌↔◌, inl, inr, true, false, not, Option, none, some,
  List, [], ◌∷◌, arith, nat_eq, ◌==◌, if◌then◌else◌, Bool-cases, Option-cases, is_none, text_cases,
  length, All, All-map, All-zip, elem, set_of, Distinct, set_of-Distinct, Distinct-set_of,
  >>=-eq-ok, raise_if-eq-ok, ok,
}

-- A product instance has to run to fulfil anything.
abbrev pub MayFulfil : StackNode → Type 0
MayFulfil n = n.node_type ≡ product_instance → n.product_instance_state ≡ some active

abbrev pub NodesAt : String → (StackNode → Type 0) → List StackNode → Type 0
NodesAt k P ns = All (λ n. n.node_id ≡ k → P n) ns

-- The fulfilling end of the edge, which its type tells, may fulfil.
abbrev pub Fulfilment : List StackNode → EdgeType → StackEdge → Type 0
Fulfilment ns fulfills e = NodesAt e.from_node_id MayFulfil ns
Fulfilment ns fulfilled_by e = NodesAt e.to_node_id MayFulfil ns
Fulfilment ns _ e = Unit

-- What a graph of a snapshot has to be.
pub record IsWellFormed (ns : List StackNode) (es : List StackEdge) : Type 0 where
  pub ids : Distinct (node_ids ns)
  pub names : Distinct (aliases ns)
  pub edges : Distinct (edge_ids es)
  pub ends : HasEnds (node_ids ns) es
  pub fulfilment : All (λ e. Fulfilment ns e.edge_type e) es
  pub acyclic : (v : String) → ¬ Reach es v v

-- The first node with the identifier.
abbrev pub node_with : String → List StackNode → Option StackNode
node_with k [] = none
node_with k (n ∷ ns) = let rest = node_with k ns in if n.node_id == k then some n else rest

abbrev pub by_id : List StackNode → Dict StackNode
by_id ns = index_by (λ n. n.node_id) ns

node_with_absent :
    (k : String) (ns : List StackNode) → elem k (node_ids ns) ≡ false → node_with k ns ≡ none
node_with_absent k [] h = refl
node_with_absent k (n ∷ ns) h = ground (arith, node_with_absent k ns)

abbrev first_of_two : Option StackNode → Option StackNode → Option StackNode
first_of_two none b = b
first_of_two (some a) b = some a

lookup-index_onto :
    (k : String) (d : Dict StackNode) (ns : List StackNode)
    → Distinct (node_ids ns)
    → lookup k (index_onto (λ n. n.node_id) d ns) ≡ first_of_two (node_with k ns) (lookup k d)
lookup-index_onto k d [] h = refl
lookup-index_onto k d (n ∷ ns) h = elim (text_cases n.node_id k) [
  | inl (e, t) ↦
      let gone : node_with k ns ≡ none =
        node_with_absent k ns (subst (λ y. elem y (node_ids ns) ≡ false) e h.0) in
      rw (lookup-index_onto k (insert n.node_id n d) ns h.1, gone, lookup-insert n.node_id k n d, t)
  | inr (_, t) ↦
      rw (lookup-index_onto k (insert n.node_id n d) ns h.1, lookup-insert n.node_id k n d, t)
]

pub lookup-by_id :
    (k : String) (ns : List StackNode)
    → Distinct (node_ids ns)
    → lookup k (by_id ns) ≡ node_with k ns
lookup-by_id k ns h = elim (Option-cases (node_with k ns)) [
  | inl e ↦ rw (lookup-index_onto k [] ns h, e)
  | inr (n, e) ↦ rw (lookup-index_onto k [] ns h, e)
]

node_with-elem :
    (k : String) (ns : List StackNode) → is_none (node_with k ns) ≡ not (elem k (node_ids ns))
node_with-elem k [] = refl
node_with-elem k (n ∷ ns) = ground (arith, node_with-elem k ns)

-- With distinct identifiers a property of the node found is one of every node of that identifier.
NodesAt-of_found :
    (k : String) (P : StackNode → Type 0) (ns : List StackNode)
    → Distinct (node_ids ns)
    → ((m : StackNode) → node_with k ns ≡ some m → P m)
    → NodesAt k P ns
NodesAt-of_found k P [] h f = tt
NodesAt-of_found k P (n ∷ ns) h f = elim (text_cases n.node_id k) [
  | inl (e, t) ↦
      let gone : node_with k ns ≡ none =
        node_with_absent k ns (subst (λ y. elem y (node_ids ns) ≡ false) e h.0) in
      (λ _. f n (rw t), NodesAt-of_found k P ns h.1 (λ m q. cc))
  | inr (u, t) ↦ ((λ e. absurd (u e)), NodesAt-of_found k P ns h.1 (λ m q. f m (rw t q)))
]

found_of_NodesAt :
    (k : String) (P : StackNode → Type 0) (ns : List StackNode) (m : StackNode)
    → NodesAt k P ns
    → node_with k ns ≡ some m
    → P m
found_of_NodesAt k P [] m h e = cc
found_of_NodesAt k P (n ∷ ns) m h e = elim (text_cases n.node_id k) [
  | inl (q, t) ↦ let here : n ≡ m = ground arith in subst P here (h.0 q)
  | inr (_, t) ↦ found_of_NodesAt k P ns m h.1 (rw t at e)
]

MayFulfil-of_test : (n : StackNode) → cannot_fulfil (some n) ≡ false → MayFulfil n
MayFulfil-of_test n h t = ground arith

test_of_MayFulfil : (n : StackNode) → MayFulfil n → cannot_fulfil (some n) ≡ false
test_of_MayFulfil n h = elim (Bool-cases (is_instance_type n.node_type)) [
  | inl i ↦
      let t : n.node_type ≡ product_instance = ground arith in
      let a : n.product_instance_state ≡ some active = h t in ground arith
  | inr i ↦ rw i
]

-- The test of a node at the fulfilling end, and what it means.
end_test :
    (k : String) (ns : List StackNode)
    → Distinct (node_ids ns)
    → cannot_fulfil (node_with k ns) ≡ false
    → NodesAt k MayFulfil ns
end_test k ns d h = NodesAt-of_found k MayFulfil ns d λ m e. MayFulfil-of_test m (rw e at h)

test_end :
    (k : String) (ns : List StackNode)
    → NodesAt k MayFulfil ns
    → cannot_fulfil (node_with k ns) ≡ false
test_end k ns h = elim (Option-cases (node_with k ns)) [
  | inl e ↦ rw e
  | inr (m, e) ↦ rw e (test_of_MayFulfil m (found_of_NodesAt k MayFulfil ns m h e))
]

Fulfilment-of_test :
    (ns : List StackNode) (t : EdgeType) (e : StackEdge)
    → Distinct (node_ids ns)
    → fulfilment_fails t (node_with e.from_node_id ns) (node_with e.to_node_id ns) ≡ false
    → Fulfilment ns t e
Fulfilment-of_test ns fulfills e d h = end_test e.from_node_id ns d h
Fulfilment-of_test ns fulfilled_by e d h = end_test e.to_node_id ns d h
Fulfilment-of_test ns _ e d h = tt

test_of_Fulfilment :
    (ns : List StackNode) (t : EdgeType) (e : StackEdge)
    → Fulfilment ns t e
    → fulfilment_fails t (node_with e.from_node_id ns) (node_with e.to_node_id ns) ≡ false
test_of_Fulfilment ns fulfills e h = test_end e.from_node_id ns h
test_of_Fulfilment ns fulfilled_by e h = test_end e.to_node_id ns h
test_of_Fulfilment ns _ e h = refl

module _ (ns : List StackNode) (distinct : Distinct (node_ids ns)) where
  abbrev EdgeHolds : StackEdge → Type 0
  EdgeHolds e =
      ((elem e.from_node_id (node_ids ns) ≡ true) × (elem e.to_node_id (node_ids ns) ≡ true))
      × Fulfilment ns e.edge_type e

  edge_holds : (e : StackEdge) → check_graph_edge (by_id ns) e ≡ ok tt → EdgeHolds e
  unfolding check_graph_edge
  edge_holds e h =
      let h' =
        rw (lookup-by_id e.from_node_id ns distinct, lookup-by_id e.to_node_id ns distinct) at h in
      ground (
        arith,
        node_with-elem e.from_node_id ns,
        node_with-elem e.to_node_id ns,
        Fulfilment-of_test ns e.edge_type e distinct,
      )

  edge_accepted : (e : StackEdge) → EdgeHolds e → check_graph_edge (by_id ns) e ≡ ok tt
  unfolding check_graph_edge
  edge_accepted e h =
      rw (lookup-by_id e.from_node_id ns distinct, lookup-by_id e.to_node_id ns distinct)
        (ground (
          arith,
          node_with-elem e.from_node_id ns,
          node_with-elem e.to_node_id ns,
          test_of_Fulfilment ns e.edge_type e h.1,
        ))

  edges_hold : (es : List StackEdge) → check_graph_edges (by_id ns) es ≡ ok tt → All EdgeHolds es
  unfolding check_graph_edges
  edges_hold [] h = tt
  edges_hold (e ∷ es) h =
      let (_, p, q) =
        >>=-eq-ok (check_graph_edge (by_id ns) e) (λ _. check_graph_edges (by_id ns) es) h in
      (edge_holds e p, edges_hold es q)

  edges_accepted :
      (es : List StackEdge) → All EdgeHolds es → check_graph_edges (by_id ns) es ≡ ok tt
  unfolding check_graph_edges
  edges_accepted [] h = refl
  edges_accepted (e ∷ es) h = rw (edge_accepted e h.0) (edges_accepted es h.1)

unique_of_test :
    (ks : List String) (n : ℕ)
    → length ks ≡ n
    → not (nat_eq (length (set_of ks)) n) ≡ false
    → Distinct ks
unique_of_test ks n l h = set_of-Distinct ks (ground arith)

test_of_unique :
    (ks : List String) (n : ℕ)
    → length ks ≡ n
    → Distinct ks
    → not (nat_eq (length (set_of ks)) n) ≡ false
test_of_unique ks n l h = ground (arith, Distinct-set_of ks h)

length-aliases : (ns : List StackNode) → length (aliases ns) ≡ length ns
length-aliases [] = refl
length-aliases (n ∷ ns) = ap suc (length-aliases ns)

length-edge_ids : (es : List StackEdge) → length (edge_ids es) ≡ length es
length-edge_ids [] = refl
length-edge_ids (e ∷ es) = ap suc (length-edge_ids es)

module _ (limit : ℕ) (ns : List StackNode) (es : List StackEdge) (room : length ns < limit) where
  no_cycle_of_ok :
      HasEnds (node_ids ns) es
      → validate_no_hard_dependency_cycle limit ns es ≡ ok tt
      → (v : String) → ¬ Reach es v v
  no_cycle_of_ok ends h = elim (hard_cycle_check limit ns es room ends) [
    | inl (_, free) ↦ free
    | inr (e, _) ↦ cc
  ]

  ok_of_no_cycle :
      HasEnds (node_ids ns) es
      → ((v : String) → ¬ Reach es v v)
      → validate_no_hard_dependency_cycle limit ns es ≡ ok tt
  ok_of_no_cycle ends free = elim (hard_cycle_check limit ns es room ends) [
    | inl (e, _) ↦ e
    | inr (_, c) ↦ absurd (free c.0 c.1)
  ]

  IsWellFormed-of_ok : validate_graph limit ns es ≡ ok tt → IsWellFormed ns es
  unfolding validate_graph
  IsWellFormed-of_ok h =
      let (a, h₁) = raise_if-eq-ok _ _ _ h in
      let (b, h₂) = raise_if-eq-ok _ _ _ h₁ in
      let (c, h₃) = raise_if-eq-ok _ _ _ h₂ in
      let (_, d, e) =
        >>=-eq-ok (check_graph_edges (by_id ns) es)
          (λ _. validate_no_hard_dependency_cycle limit ns es) h₃ in
      let ids : Distinct (node_ids ns) = unique_of_test (node_ids ns) _ (length-node_ids ns) a in
      let held = edges_hold ns ids es d in
      let ends : HasEnds (node_ids ns) es = All-map (EdgeHolds ns ids) _ (λ x p. p.0) es held in
      record {
        ids = ids;
        names = unique_of_test (aliases ns) _ (length-aliases ns) b;
        edges = unique_of_test (edge_ids es) _ (length-edge_ids es) c;
        ends = ends;
        fulfilment = All-map (EdgeHolds ns ids) _ (λ x p. p.1) es held;
        acyclic = no_cycle_of_ok ends e;
      }

  ok_of_well_formed : IsWellFormed ns es → validate_graph limit ns es ≡ ok tt
  unfolding validate_graph
  ok_of_well_formed w =
      rw
        (
          test_of_unique (node_ids ns) _ (length-node_ids ns) w.ids,
          test_of_unique (aliases ns) _ (length-aliases ns) w.names,
          test_of_unique (edge_ids es) _ (length-edge_ids es) w.edges,
          edges_accepted ns w.ids es (All-zip _ _ es w.ends w.fulfilment),
        )
        (ok_of_no_cycle w.ends w.acyclic)

  -- With room for its nodes on the interpreter's stack, the validation accepts a graph exactly when
  -- the identifiers, the aliases and the edge identifiers are distinct, both ends of each edge are
  -- nodes, only active product instances fulfil, and no hard dependency is cyclic.
  pub validate_graph_iff : (validate_graph limit ns es ≡ ok tt) ↔ IsWellFormed ns es
  validate_graph_iff = (IsWellFormed-of_ok, ok_of_well_formed)
