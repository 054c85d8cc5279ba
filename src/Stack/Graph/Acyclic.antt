-- ===== src/Stack/Graph/Acyclic.antt =====
-- `_validate_no_hard_dependency_cycle` decides whether the hard dependencies have a cycle.
use sira_seil_cockroach_aws.Base.Order.{text_le}
use sira_seil_cockroach_aws.Base.Sort.{sorted, All-sorted, All-of_sorted}
use sira_seil_cockroach_aws.Stack.Models.{StackNode, StackEdge}
use sira_seil_cockroach_aws.Stack.Graph.{
  node_ids, dependencies, visit_all, visit, cycle_error, validate_no_hard_dependency_cycle,
}
use sira_seil_cockroach_aws.Stack.Graph.Reach.{Reach, edge, via, IsTopological-acyclic}
use sira_seil_cockroach_aws.Stack.Graph.Search.{
  Outcome, done, cyclic, visit_all-Outcome, visit-Outcome, remaining-nil,
}
use sira_seil_cockroach_aws.Base.{
  ℕ, suc, ◌<◌, String, ◌≡◌, refl, ap, ◌⊎◌, inl, inr, true, List, [], ◌∷◌, arith, eq_iff, length,
  All, elem, All_at, All-self, ok, err,
}

-- Both ends of each edge are nodes.
abbrev pub HasEnds : List String → List StackEdge → Type 0
HasEnds ids es = All (λ e. (elem e.from_node_id ids ≡ true) × (elem e.to_node_id ids ≡ true)) es

dependency_ends :
    (ids : List String) (es : List StackEdge) (a d : String)
    → HasEnds ids es
    → elem d (dependencies es a) ≡ true
    → (elem a ids ≡ true) × (elem d ids ≡ true)
dependency_ends ids [] a d h k = cc
dependency_ends ids (e ∷ es) a d h k =
    ground (arith, dependency_ends ids es a d h.1, eq_iff e.from_node_id a, eq_iff e.to_node_id d)

pub length-node_ids : (ns : List StackNode) → length (node_ids ns) ≡ length ns
length-node_ids [] = refl
length-node_ids (n ∷ ns) = ap suc (length-node_ids ns)

module _ (limit : ℕ) (ns : List StackNode) (es : List StackEdge) (room : length ns < limit)
    (ends : HasEnds (node_ids ns) es) where
  private_ends : (a d : String) → elem d (dependencies es a) ≡ true → elem d (node_ids ns) ≡ true
  private_ends a d k = (dependency_ends (node_ids ns) es a d ends k).1

  source_is_node : {a b : String} → Reach es a b → elem a (node_ids ns) ≡ true
  source_is_node {a} {b} (edge k) = (dependency_ends (node_ids ns) es a b ends k).0
  source_is_node {a} (via {b = m} k r) = (dependency_ends (node_ids ns) es a m ends k).0

  whole_search :
      Outcome
        (node_ids ns)
        es
        []
        (sorted text_le (node_ids ns))
        (visit_all (visit (node_ids ns) es limit []) [] (sorted text_le (node_ids ns)))
  whole_search =
      visit_all-Outcome (node_ids ns) es (visit (node_ids ns) es limit [])
        (λ d. elem d (node_ids ns) ≡ true)
        (λ vs d o k.
          visit-Outcome (node_ids ns) es private_ends limit [] vs d o k tt
            (omega (arith, remaining-nil (node_ids ns), length-node_ids ns)))
        [] (sorted text_le (node_ids ns)) tt
        (All-sorted text_le (λ d. elem d (node_ids ns) ≡ true) (node_ids ns)
          (All-self (node_ids ns)))

  verdict :
      Outcome
        (node_ids ns)
        es
        []
        (sorted text_le (node_ids ns))
        (visit_all (visit (node_ids ns) es limit []) [] (sorted text_le (node_ids ns)))
      → ((validate_no_hard_dependency_cycle limit ns es ≡ ok tt) × ((v : String) → ¬ Reach es v v))
        ⊎ ((validate_no_hard_dependency_cycle limit ns es ≡ err cycle_error)
            × ((v : String) × Reach es v v))
  unfolding validate_no_hard_dependency_cycle
  verdict (cyclic c e r) = inr (rw e, (c, r))
  verdict (done after e v) = inl (
    rw e,
    λ x r.
        IsTopological-acyclic es after x v.ordered
          (All_at (λ d. elem d after ≡ true) (node_ids ns) x
            (All-of_sorted text_le (λ d. elem d after ≡ true) (node_ids ns) v.asked)
            (source_is_node r))
          r,
  )

  -- With more room than nodes on the interpreter's stack, and both ends of each edge among the
  -- nodes, the search answers without reaching the limit: it accepts and no node depends on itself
  -- through hard dependencies, or it raises the cycle error and some node does.
  pub hard_cycle_check :
      ((validate_no_hard_dependency_cycle limit ns es ≡ ok tt) × ((v : String) → ¬ Reach es v v))
      ⊎ ((validate_no_hard_dependency_cycle limit ns es ≡ err cycle_error)
          × ((v : String) × Reach es v v))
  hard_cycle_check = verdict whole_search
