-- ===== src/Stack/Patch/Lifecycle.antt =====
-- The lifecycle of a product instance, as a relation.
use sira_seil_cockroach_aws.Domain.Enums.{
  ProductInstanceState, proposed, contracted, provisioned, deploying, active, degraded, retiring,
  cancelled,
}
use sira_seil_cockroach_aws.Stack.Patch.{may_transition}
use sira_seil_cockroach_aws.Base.{ℕ, ◌≤◌, ◌≡◌, true, arith}

-- How far an instance is from the end of its life; a degraded one stands with an active one.
abbrev pub stage : ProductInstanceState → ℕ
stage proposed = 0
stage contracted = 1
stage provisioned = 2
stage deploying = 3
stage active = 4
stage degraded = 4
stage retiring = 5
stage cancelled = 6

-- Zero or more lifecycle transitions that the table allows.
pub data Lifecycle (s : ProductInstanceState) : ProductInstanceState → Type 0 where
  stay : Lifecycle s s
  move : {t u : ProductInstanceState} → Lifecycle s t → may_transition t u ≡ true → Lifecycle s u

pub Lifecycle-trans : {s t u : ProductInstanceState} → Lifecycle s t → Lifecycle t u → Lifecycle s u
Lifecycle-trans p stay = p
Lifecycle-trans p (move q h) = move (Lifecycle-trans p q) h

stage_step : (s t : ProductInstanceState) → may_transition s t ≡ true → stage s ≤ stage t
stage_step s t h = ground arith

-- An instance never goes back to an earlier stage.
pub Lifecycle-stage : {s t : ProductInstanceState} → Lifecycle s t → stage s ≤ stage t
Lifecycle-stage stay = omega arith
Lifecycle-stage (move {t = m} {u = t} p h) = omega (arith, Lifecycle-stage p, stage_step m t h)
