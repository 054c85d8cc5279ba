-- ===== src/Stack/Graph/Search.antt =====
-- The depth-first search of `_validate_no_hard_dependency_cycle`: what a successful visit leaves
-- behind, what a refusal means, and how many nested calls it needs.
use sira_seil_cockroach_aws.Stack.Models.{StackEdge}
use sira_seil_cockroach_aws.Stack.Graph.{dependencies, graph_at, visit_all, visit, cycle_error}
use sira_seil_cockroach_aws.Stack.Graph.Reach.{Reach, edge, Reach-snoc, AllIn, IsTopological}
use sira_seil_cockroach_aws.Base.{
  ℕ, zero, suc, ◌≤◌, ◌<◌, String, ◌≡◌, refl, sym, ap, subst, inl, inr, Bool, true, false, not, List,
  [], ◌∷◌, arith, eq_iff, ◌==◌, Bool-cases, text_cases, length, select, All, All-map, elem,
  elem_head, elem_tail, All_at, All-self, Result, ◌>>=◌, ok, err,
}

-- A node of the graph that is not on the current path.
abbrev pub off_path : List String → String → Bool
off_path visiting n = not (elem n visiting)

-- How many nodes are not on the current path.
abbrev pub remaining : List String → List String → ℕ
remaining visiting ids = length (select (off_path visiting) ids)

remaining-le :
    (n : String) (visiting ids : List String)
    → remaining (n ∷ visiting) ids ≤ remaining visiting ids
remaining-le n visiting [] = omega arith
remaining-le n visiting (i ∷ ids) = ground (arith, remaining-le n visiting ids)

remaining-lt :
    (n : String) (visiting ids : List String)
    → elem n ids ≡ true
    → elem n visiting ≡ false
    → remaining (n ∷ visiting) ids < remaining visiting ids
remaining-lt n visiting [] h k = cc
remaining-lt n visiting (i ∷ ids) h k = elim (text_cases i n) [
  | inl (e, t) ↦
      let k' : elem i visiting ≡ false = subst (λ y. elem y visiting ≡ false) (sym e) k in
      let t' : (n == i) ≡ true = (eq_iff n i).1 (sym e) in
      ground (arith, remaining-le n visiting ids)
  | inr (_, t) ↦ ground (arith, remaining-lt n visiting ids (rw t at h) k)
]

pub remaining-nil : (ids : List String) → remaining [] ids ≡ length ids
remaining-nil [] = refl
remaining-nil (i ∷ ids) = ap suc (remaining-nil ids)

module _ (ids : List String) (es : List StackEdge) where
  -- What the set `visited` is after a visit that succeeds: the nodes visited before are still in
  -- it, and so are the nodes asked for.
  pub record Visited (before ds after : List String) : Type 0 where
    pub ordered : IsTopological es after
    pub asked : AllIn es after ds
    pub kept : (x : String) → elem x before ≡ true → elem x after ≡ true

  -- How a visit can end: it succeeds, or it finds a cycle.
  pub data Outcome (before ds : List String) (r : Result (List String)) : Type 0 where
    done : (after : List String) → r ≡ ok after → Visited before ds after → Outcome before ds r
    cyclic : (c : String) → r ≡ err cycle_error → Reach es c c → Outcome before ds r

  -- A visit of a node of the graph, on a path that reaches it.
  abbrev pub VisitsWell : (List String → String → Result (List String)) → (String → Type 0) → Type 0
  VisitsWell step P =
      (before : List String) (n : String)
      → IsTopological es before
      → P n
      → Outcome before (n ∷ []) (step before n)

  AllIn-kept :
      (xs ys ds : List String)
      → ((x : String) → elem x xs ≡ true → elem x ys ≡ true)
      → AllIn es xs ds
      → AllIn es ys ds
  AllIn-kept xs ys ds f h = All-map (λ d. elem d xs ≡ true) (λ d. elem d ys ≡ true) f ds h

  Visited-next :
      (step : List String → String → Result (List String)) (before vs ds : List String) (d : String)
      → Visited before (d ∷ []) vs
      → Outcome vs ds (visit_all step vs ds)
      → Outcome before (d ∷ ds) (visit_all step vs ds)
  Visited-next step before vs ds d v (done ws e w) = done ws e (record {
    ordered = w.ordered;
    asked = (w.kept d v.asked.0, w.asked);
    kept = λ x k. w.kept x (v.kept x k);
  })
  Visited-next step before vs ds d v (cyclic c e r) = cyclic c e r

  Outcome-next :
      (step : List String → String → Result (List String)) (before ds : List String) (d : String)
      → ((vs : List String) → IsTopological es vs → Outcome vs ds (visit_all step vs ds))
      → Outcome before (d ∷ []) (step before d)
      → Outcome before (d ∷ ds) (visit_all step before (d ∷ ds))
  unfolding visit_all
  Outcome-next step before ds d rest (done vs e v) =
      rw e (Visited-next step before vs ds d v (rest vs v.ordered))
  Outcome-next step before ds d rest (cyclic c e r) = cyclic c (rw e) r

  -- A loop of visits that each end well ends well.
  pub visit_all-Outcome :
      (step : List String → String → Result (List String)) (P : String → Type 0)
      → VisitsWell step P
      → (before ds : List String) → IsTopological es before
      → All P ds
      → Outcome before ds (visit_all step before ds)
  visit_all-Outcome step P good before [] t h =
      done before (unfold visit_all in refl) (record { ordered = t; asked = tt; kept = λ x k. k })
  visit_all-Outcome step P good before (d ∷ ds) t h =
      Outcome-next step before ds d (λ vs o. visit_all-Outcome step P good vs ds o h.1)
        (good before d t h.0)

  module _ (ends : (a d : String) → elem d (dependencies es a) ≡ true → elem d ids ≡ true) where
    finish_node :
        (r : Result (List String)) (before : List String) (n : String)
        → Outcome before (dependencies es n) r
        → Outcome before (n ∷ []) (r >>= λ vs. ok (n ∷ vs))
    finish_node r before n (done vs e v) = done (n ∷ vs) (rw e) (record {
      ordered = (v.asked, v.ordered);
      asked = (elem_head n vs, tt);
      kept = λ x k. elem_tail x n vs (v.kept x k);
    })
    finish_node r before n (cyclic c e l) = cyclic c (rw e) l

    -- A visit with enough nested calls left succeeds or finds a cycle.
    pub visit-Outcome :
        (depth : ℕ) (visiting before : List String) (n : String)
        → IsTopological es before
        → elem n ids ≡ true
        → All (λ u. Reach es u n) visiting
        → remaining visiting ids < depth
        → Outcome before (n ∷ []) (visit ids es depth visiting before n)
    unfolding visit graph_at
    visit-Outcome zero visiting before n t h path fuel = absurd (omega arith)
    visit-Outcome (suc depth) visiting before n t h path fuel =
        elim (Bool-cases (elem n visiting)) [
          | inl on ↦ cyclic n (rw on) (All_at (λ u. Reach es u n) visiting n path on)
          | inr off ↦ elim (Bool-cases (elem n before)) [
            | inl seen ↦
                done before (rw (off, seen))
                  (record { ordered = t; asked = (seen, tt); kept = λ x k. k })
            | inr fresh ↦
                rw (off, fresh, h)
                  (finish_node
                    (visit_all (visit ids es depth (n ∷ visiting)) before (dependencies es n))
                    before n
                    (visit_all-Outcome (visit ids es depth (n ∷ visiting))
                      (λ d. elem d (dependencies es n) ≡ true)
                      (λ vs d o k.
                        visit-Outcome depth (n ∷ visiting) vs d o (ends n d k)
                          (
                            edge k,
                            All-map (λ u. Reach es u n) (λ u. Reach es u d)
                                (λ u r. Reach-snoc es r k) visiting path,
                          )
                          (omega (arith, remaining-lt n visiting ids h off)))
                      before (dependencies es n) t (All-self (dependencies es n))))
          ]
        ]
