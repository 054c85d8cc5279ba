-- ===== src/Stack/Graph/Reach.antt =====
-- Directed paths along hard dependencies, and lists in which each node stands before all that it
-- depends on.
use sira_seil_cockroach_aws.Stack.Models.{StackEdge}
use sira_seil_cockroach_aws.Stack.Graph.{dependencies}
use sira_seil_cockroach_aws.Base.{
  String, ◌≡◌, sym, subst, inl, inr, true, List, [], ◌∷◌, arith, text_cases, All, elem,
}

-- A path of one or more hard dependency edges.
pub data Reach (es : List StackEdge) : String → String → Type 0 where
  edge : {a b : String} → elem b (dependencies es a) ≡ true → Reach es a b
  via : {a b c : String} → elem b (dependencies es a) ≡ true → Reach es b c → Reach es a c

module _ (es : List StackEdge) where
  pub Reach-snoc :
      {a b c : String} → Reach es a b → elem c (dependencies es b) ≡ true → Reach es a c
  Reach-snoc (edge h) k = via h (edge k)
  Reach-snoc (via h r) k = via h (Reach-snoc r k)

  abbrev pub AllIn : List String → List String → Type 0
  AllIn vs ds = All (λ d. elem d vs ≡ true) ds

  -- Every node's dependencies stand after it.
  abbrev pub IsTopological : List String → Type 0
  IsTopological [] = Unit
  IsTopological (v ∷ vs) = AllIn vs (dependencies es v) × IsTopological vs

  pub elem_of_AllIn :
      (vs ds : List String) (d : String) → AllIn vs ds → elem d ds ≡ true → elem d vs ≡ true
  elem_of_AllIn vs [] d h k = cc
  elem_of_AllIn vs (x ∷ ds) d h k = elim (text_cases x d) [
    | inl (e, _) ↦ subst (λ y. elem y vs ≡ true) e h.0
    | inr (_, n) ↦ elem_of_AllIn vs ds d h.1 (rw n at k)
  ]

  -- The nodes of such a list depend on nodes of the list alone.
  closed_step :
      (vs : List String) (a b : String)
      → IsTopological vs
      → elem a vs ≡ true
      → elem b (dependencies es a) ≡ true
      → elem b vs ≡ true
  closed_step [] a b t h k = cc
  closed_step (v ∷ vs) a b t h k = elim (text_cases v a) [
    | inl (e, _) ↦
        let here : elem b vs ≡ true =
          elem_of_AllIn vs (dependencies es v) b t.0
            (subst (λ y. elem b (dependencies es y) ≡ true) (sym e) k) in
        ground arith
    | inr (_, n) ↦
        let later : elem b vs ≡ true = closed_step vs a b t.1 (rw n at h) k in ground arith
  ]

  pub closed :
      (vs : List String) {a b : String}
      → IsTopological vs
      → elem a vs ≡ true
      → Reach es a b
      → elem b vs ≡ true
  closed vs {a} {b} t h (edge k) = closed_step vs a b t h k
  closed vs {a} t h (via {b = m} k r) = closed vs t (closed_step vs a m t h k) r

  -- What the head reaches stands in the tail.
  reached_in_tail :
      (v : String) (vs : List String) {b : String}
      → IsTopological (v ∷ vs)
      → Reach es v b
      → elem b vs ≡ true
  reached_in_tail v vs {b} t (edge k) = elem_of_AllIn vs (dependencies es v) b t.0 k
  reached_in_tail v vs t (via {b = m} k r) =
      closed vs t.1 (elem_of_AllIn vs (dependencies es v) m t.0 k) r

  -- No node of such a list lies on a cycle.
  pub IsTopological-acyclic :
      (vs : List String) (a : String) → IsTopological vs → elem a vs ≡ true → ¬ Reach es a a
  IsTopological-acyclic [] a t h r = cc
  IsTopological-acyclic (v ∷ vs) a t h r = elim (text_cases v a) [
    | inl (e, _) ↦
        IsTopological-acyclic vs a t.1
          (reached_in_tail v vs t (subst (λ y. Reach es y a) (sym e) r)) r
    | inr (_, n) ↦ IsTopological-acyclic vs a t.1 (rw n at h) r
  ]
