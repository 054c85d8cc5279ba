-- ===== src/Decision/Bounds/Aggregates.antt =====
-- Aggregated intervals are intervals: the constructors' own tests never refuse them.
use sira_seil_cockroach_aws.Base.Fractions.{
  Fraction, whole, fraction_le, fraction_order, add_fraction, scale, divide, crossed,
  fraction_le_of, scale_mono, add_fraction_mono, divide_mono,
}
use sira_seil_cockroach_aws.Base.Lex.{le_refl}
use sira_seil_cockroach_aws.Decision.Bounds.{
  CriterionBound, check_criterion, ScoreBounds, make_score_bounds, repeats, criterion_ids,
  criterion_weight, weighted_sum, average, score_over, aggregate_preference_bounds,
}
use sira_seil_cockroach_aws.Base.{
  ℕ, zero, suc, ◌+◌, ◌≤◌, ◌≡◌, refl, subst, inl, inr, true, false, ◌&&◌, List, [], ◌∷◌, arith,
  Bool-cases, both, is_empty, All, ok_path, ok,
}

-- A criterion that its constructor accepts.
abbrev pub IsCriterion : CriterionBound → Type 0
IsCriterion c = check_criterion c ≡ ok c

criterion_facts :
    (c : CriterionBound)
    → IsCriterion c
    → (1 ≤ c.weight)
      × (fraction_le c.conservative_satisfaction c.optimistic_satisfaction ≡ true)
      × (fraction_le c.optimistic_satisfaction (whole 1) ≡ true)
unfolding check_criterion
criterion_facts c h = (ground arith, ground arith, ground arith)

weighted_sum_mono :
    (cs : List CriterionBound)
    → All IsCriterion cs
    → fraction_le
        (weighted_sum (λ c. c.conservative_satisfaction) cs)
        (weighted_sum (λ c. c.optimistic_satisfaction) cs)
      ≡ true
unfolding weighted_sum
weighted_sum_mono [] h = le_refl fraction_order (whole 0)
weighted_sum_mono (c ∷ cs) h =
    let (_, ordered, _) = criterion_facts c h.0 in
    add_fraction_mono (scale c.weight c.conservative_satisfaction)
      (scale c.weight c.optimistic_satisfaction)
      (weighted_sum (λ c. c.conservative_satisfaction) cs)
      (weighted_sum (λ c. c.optimistic_satisfaction) cs)
      (scale_mono c.weight c.conservative_satisfaction c.optimistic_satisfaction ordered)
      (weighted_sum_mono cs h.1)

add_whole : (a b : ℕ) → fraction_le (add_fraction (whole a) (whole b)) (whole (a + b)) ≡ true
unfolding add_fraction
add_whole a b = fraction_le_of (add_fraction (whole a) (whole b)) (whole (a + b)) (omega arith)

scale-whole : (w : ℕ) → fraction_le (scale w (whole 1)) (whole w) ≡ true
unfolding scale
scale-whole w = fraction_le_of (scale w (whole 1)) (whole w) (omega arith)

weighted_sum-le :
    (cs : List CriterionBound)
    → All IsCriterion cs
    → fraction_le (weighted_sum (λ c. c.optimistic_satisfaction) cs) (whole (criterion_weight cs))
      ≡ true
unfolding weighted_sum
weighted_sum-le [] h = le_refl fraction_order (whole 0)
weighted_sum-le (c ∷ cs) h =
    let (_, _, below) = criterion_facts c h.0 in
    let one =
      fraction_order.trans (scale c.weight c.optimistic_satisfaction) (scale c.weight (whole 1))
        (whole c.weight) (scale_mono c.weight c.optimistic_satisfaction (whole 1) below)
        (scale-whole c.weight) in
    fraction_order.trans
      (add_fraction (scale c.weight c.optimistic_satisfaction)
        (weighted_sum (λ c. c.optimistic_satisfaction) cs))
      (add_fraction (whole c.weight) (whole (criterion_weight cs)))
      (whole (c.weight + criterion_weight cs))
      (add_fraction_mono (scale c.weight c.optimistic_satisfaction) (whole c.weight)
        (weighted_sum (λ c. c.optimistic_satisfaction) cs) (whole (criterion_weight cs)) one
        (weighted_sum-le cs h.1))
      (add_whole c.weight (criterion_weight cs))

divided :
    (s : Fraction) (d : ℕ)
    → fraction_le s (whole (suc d)) ≡ true
    → fraction_le (divide (scale 100 s) d) (whole 100) ≡ true
unfolding divide scale
divided s d h =
    let e = crossed s (whole (suc d)) h in
    fraction_le_of (divide (scale 100 s) d) (whole 100) (omega arith)

score_over_total :
    (cs : List CriterionBound) (n : ℕ)
    → criterion_weight cs ≡ n
    → 1 ≤ n
    → All IsCriterion cs
    → (b : ScoreBounds) × (score_over cs n ≡ ok b)
unfolding average make_score_bounds
score_over_total cs zero e p h = absurd (omega arith)
score_over_total cs (suc d) e p h =
    let lows = weighted_sum (λ c. c.conservative_satisfaction) cs in
    let highs = weighted_sum (λ c. c.optimistic_satisfaction) cs in
    let up =
      divide_mono (scale 100 lows) (scale 100 highs) d
        (scale_mono 100 lows highs (weighted_sum_mono cs h)) in
    let top : fraction_le highs (whole (suc d)) ≡ true =
      subst (λ n. fraction_le highs (whole n) ≡ true) e (weighted_sum-le cs h) in
    let below = divided highs d top in
    (
      record { conservative = divide (scale 100 lows) d; optimistic = divide (scale 100 highs) d },
      rw (up, below) refl,
    )

score_over_result :
    (cs : List CriterionBound) (n : ℕ) (b : ScoreBounds)
    → score_over cs n ≡ ok b
    → (fraction_le b.conservative b.optimistic ≡ true)
      × (fraction_le b.optimistic (whole 100) ≡ true)
unfolding make_score_bounds
score_over_result cs zero b h = absurd (ground arith)
score_over_result cs (suc d) b h =
    let low = average (λ c. c.conservative_satisfaction) cs d in
    let high = average (λ c. c.optimistic_satisfaction) cs d in made_in_order low high b h
  where
    made_in_order :
        (l u : Fraction) (b : ScoreBounds)
        → make_score_bounds l u ≡ ok b
        → (fraction_le b.conservative b.optimistic ≡ true)
          × (fraction_le b.optimistic (whole 100) ≡ true)
    made_in_order l u b h = elim (Bool-cases (fraction_le l u && fraction_le u (whole 100))) [
      | inl e ↦
          let h' = rw e at h in
          let same = ok_path _ _ h' in
          subst
            (λ (x : ScoreBounds).
              (fraction_le x.conservative x.optimistic ≡ true)
              × (fraction_le x.optimistic (whole 100) ≡ true))
            same (both _ _ e)
      | inr e ↦ let h' = rw e at h in cc
    ]

positive_weight :
    (cs : List CriterionBound) → is_empty cs ≡ false → All IsCriterion cs → 1 ≤ criterion_weight cs
positive_weight [] e h = cc
positive_weight (c ∷ cs) e h = omega (arith, (criterion_facts c h.0).0)

-- The aggregation of one or more constructed criteria with different identifiers returns: the
-- conservative score is never above the optimistic one, nor that above 100, so the constructor's
-- test of the scores never refuses them.
pub aggregate_preference_bounds_total :
    (cs : List CriterionBound)
    → is_empty cs ≡ false
    → repeats (criterion_ids cs) ≡ false
    → All IsCriterion cs
    → (b : ScoreBounds) × (aggregate_preference_bounds cs ≡ ok b)
      × (fraction_le b.conservative b.optimistic ≡ true)
      × (fraction_le b.optimistic (whole 100) ≡ true)
unfolding aggregate_preference_bounds make_score_bounds
aggregate_preference_bounds_total cs e d h =
    let (b, made) = score_over_total cs (criterion_weight cs) refl (positive_weight cs e h) h in
    let (low, high) = score_over_result cs (criterion_weight cs) b made in
    (b, rw (e, d) made, low, high)
