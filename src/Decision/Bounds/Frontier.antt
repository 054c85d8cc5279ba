-- ===== src/Decision/Bounds/Frontier.antt =====
-- The frontier: the competitors that are ahead of the winner at their best.
use sira_seil_cockroach_aws.Base.Sort.{sorted}
use sira_seil_cockroach_aws.Base.Order.{text_le}
use sira_seil_cockroach_aws.Base.Lex.{lt}
use sira_seil_cockroach_aws.Domain.Enums.{stable, unstable, undetermined}
use sira_seil_cockroach_aws.Decision.Ranking.{RankKey, key_order}
use sira_seil_cockroach_aws.Decision.Bounds.Envelope.{
  OrderingBounds, BoundedPlan, outcome_key, worst_outcome, best_outcome, unavailable, frontier,
  conservative_envelope_key, optimistic_envelope_key, StabilityResult, assess_rank_stability,
}
use sira_seil_cockroach_aws.Base.{
  String, ◌≡◌, refl, sym, ap, subst, ◌∙◌, ◌≢◌, ◌↔◌, ◌⊎◌, inl, inr, Bool, true, false, none, some,
  List, [], ◌∷◌, ◌++◌, arith, if◌then◌else◌, Bool-cases, Option-cases, some_path, is_empty, ok_path,
  >>=-eq-ok, ok,
}

kept_empty :
    (t : Bool) (x : String) (rest ids : List String)
    → (if t then x ∷ rest else rest) ≡ ids
    → is_empty ids ≡ true
    → (t ≡ false) × (is_empty rest ≡ true)
kept_empty true x rest ids h e = absurd (ground arith)
kept_empty false x rest ids h e = (refl, ground arith)

kept_full :
    (t : Bool) (x : String) (rest ids : List String)
    → (if t then x ∷ rest else rest) ≡ ids
    → is_empty ids ≡ false
    → (t ≡ true) ⊎ (is_empty rest ≡ false)
kept_full true x rest ids h e = inl refl
kept_full false x rest ids h e = inr (ground arith)

frontier_step :
    (worst : RankKey) (p : BoundedPlan) (ps : List BoundedPlan) (ids : List String)
    → frontier worst (p ∷ ps) ≡ ok ids
    → (b : OrderingBounds) × (rest : List String) × (p.bounds ≡ some b)
      × (frontier worst ps ≡ ok rest)
      × ((if lt key_order (outcome_key p (best_outcome b)) worst then p.plan_id ∷ rest else rest)
          ≡ ids)
unfolding frontier optimistic_envelope_key
frontier_step worst p ps ids h = elim (Option-cases p.bounds) [
  | inl e ↦ let h' = rw e at h in absurd (ground arith)
  | inr (b, e) ↦
      let h' = rw e at h in
      let (rest, more, h₂) =
        >>=-eq-ok (frontier worst ps)
          (λ rest. ok (
            if lt key_order (outcome_key p (best_outcome b)) worst then p.plan_id ∷ rest else rest))
          h' in
      (b, rest, e, more, ok_path _ _ h₂)
]

-- A competitor that is not on the frontier is not ahead at its best.
pub off_frontier :
    (worst : RankKey) (before after : List BoundedPlan) (c : BoundedPlan) (b : OrderingBounds)
    (ids : List String)
    → frontier worst (before ++ c ∷ after) ≡ ok ids
    → is_empty ids ≡ true
    → c.bounds ≡ some b
    → lt key_order (outcome_key c (best_outcome b)) worst ≡ false
off_frontier worst [] after c b ids h e found =
    let (d, rest, found', more, kept) = frontier_step worst c after ids h in
    let one : d ≡ b = some_path d b (sym found' ∙ found) in
    let behind =
      kept_empty (lt key_order (outcome_key c (best_outcome d)) worst) c.plan_id rest ids kept e in
    subst (λ x. lt key_order (outcome_key c (best_outcome x)) worst ≡ false) one behind.0
off_frontier worst (p ∷ before) after c b ids h e found =
    let (d, rest, found', more, kept) = frontier_step worst p (before ++ c ∷ after) ids h in
    let behind =
      kept_empty (lt key_order (outcome_key p (best_outcome d)) worst) p.plan_id rest ids kept e in
    off_frontier worst before after c b rest more behind.1 found

-- A frontier that is not empty names a competitor that is ahead at its best.
pub on_frontier :
    (worst : RankKey) (ps : List BoundedPlan) (ids : List String)
    → frontier worst ps ≡ ok ids
    → is_empty ids ≡ false
    → (before : List BoundedPlan) × (c : BoundedPlan) × (after : List BoundedPlan)
      × (b : OrderingBounds) × (ps ≡ before ++ c ∷ after)
      × (c.bounds ≡ some b)
      × (lt key_order (outcome_key c (best_outcome b)) worst ≡ true)
unfolding frontier
on_frontier worst [] ids h e = absurd (ground arith)
on_frontier worst (p ∷ ps) ids h e =
    let (d, rest, found, more, kept) = frontier_step worst p ps ids h in
    elim (kept_full (lt key_order (outcome_key p (best_outcome d)) worst) p.plan_id rest ids kept
      e) [
        | inl t ↦ ([], p, ps, d, refl, found, t)
        | inr full ↦
            let (before, c, after, b, shape, has, t) = on_frontier worst ps rest more full in
            (p ∷ before, c, after, b, ap (λ x. p ∷ x) shape, has, t)
      ]

-- A result that is not UNDETERMINED comes from the keys.
pub assessed :
    (selected : BoundedPlan) (competitors : List BoundedPlan) (r : StabilityResult)
    → assess_rank_stability selected competitors ≡ ok r
    → r.status ≢ undetermined
    → (b : OrderingBounds) × (ids : List String) × (selected.bounds ≡ some b)
      × (frontier (outcome_key selected (worst_outcome b)) competitors ≡ ok ids)
      × (r.status ≡ (if is_empty ids then stable else unstable))
unfolding assess_rank_stability conservative_envelope_key
assessed selected competitors r h d =
    elim (Bool-cases (is_empty (unavailable (selected ∷ competitors)))) [
      | inr e ↦ let h' = rw e at h in absurd (d (ground arith))
      | inl e ↦ elim (Option-cases selected.bounds) [
        | inl n ↦ absurd (ground arith)
        | inr (b, found) ↦
            let h' = rw (e, found) at h in
            let (ids, f, h₂) =
              >>=-eq-ok (frontier (outcome_key selected (worst_outcome b)) competitors) _ h' in
            (b, ids, found, f, sym (ap (λ (x : StabilityResult). x.status) (ok_path _ _ h₂)))
      ]
    ]

frontier_total :
    (worst : RankKey) (ps : List BoundedPlan)
    → is_empty (unavailable ps) ≡ true
    → (ids : List String) × (frontier worst ps ≡ ok ids)
unfolding frontier optimistic_envelope_key
frontier_total worst [] h = ([], refl)
frontier_total worst (p ∷ ps) h = elim (Option-cases p.bounds) [
  | inl e ↦ let h' = rw e at h in cc
  | inr (b, e) ↦
      let h' = rw e at h in
      let (rest, f) = frontier_total worst ps h' in
      (
        if lt key_order (outcome_key p (best_outcome b)) worst then p.plan_id ∷ rest else rest,
        rw (e, f) refl,
      )
]

-- Some plan of the list has no intervals.
abbrev pub Lacks : List BoundedPlan → Type 0
Lacks [] = ⊥
Lacks (p ∷ ps) = (p.bounds ≡ none) ⊎ Lacks ps

all_bounded : (ps : List BoundedPlan) → is_empty (unavailable ps) ≡ true → ¬ (Lacks ps)
all_bounded [] h l = l
all_bounded (p ∷ ps) h (inl e) = let h' = rw e at h in absurd (ground arith)
all_bounded (p ∷ ps) h (inr more) = elim (Option-cases p.bounds) [
  | inl e ↦ let h' = rw e at h in absurd (ground arith)
  | inr (b, e) ↦ let h' = rw e at h in all_bounded ps h' more
]

some-Lacks : (ps : List BoundedPlan) → is_empty (unavailable ps) ≡ false → Lacks ps
some-Lacks [] h = absurd (ground arith)
some-Lacks (p ∷ ps) h = elim (Option-cases p.bounds) [
  | inl e ↦ inl e
  | inr (b, e) ↦ let h' = rw e at h in inr (some-Lacks ps h')
]

determined : (b : Bool) → (if b then stable else unstable) ≢ undetermined
determined true e = let clash : stable ≡ undetermined = e in cc
determined false e = let clash : unstable ≡ undetermined = e in cc

-- The assessment always returns, and is UNDETERMINED exactly when the winner or a competitor has no
-- intervals.
pub assess_rank_stability_lem :
    (selected : BoundedPlan) (competitors : List BoundedPlan)
    → (r : StabilityResult) × (assess_rank_stability selected competitors ≡ ok r)
      × ((r.status ≡ undetermined) ↔ Lacks (selected ∷ competitors))
unfolding assess_rank_stability conservative_envelope_key
assess_rank_stability_lem selected competitors =
    elim (Bool-cases (is_empty (unavailable (selected ∷ competitors)))) [
      | inr e ↦ (
        record {
          status = undetermined;
          ordering_frontier_plan_ids = [];
          bound_unavailable_plan_ids = sorted text_le (unavailable (selected ∷ competitors));
        },
        rw e refl,
        (λ _. some-Lacks (selected ∷ competitors) e, λ _. refl),
      )
      | inl e ↦ elim (Option-cases selected.bounds) [
        | inl n ↦ absurd (all_bounded (selected ∷ competitors) e (inl n))
        | inr (b, found) ↦
            let others : is_empty (unavailable competitors) ≡ true = rw found at e in
            let (ids, f) =
              frontier_total (outcome_key selected (worst_outcome b)) competitors others in
            (
              record {
                status = (if is_empty ids then stable else unstable);
                ordering_frontier_plan_ids = sorted text_le ids;
                bound_unavailable_plan_ids = [];
              },
              rw (e, found, f) refl,
              (
                λ u. absurd (determined (is_empty ids) u),
                λ l. absurd (all_bounded (selected ∷ competitors) e l),
              ),
            )
      ]
    ]
