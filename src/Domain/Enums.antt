-- ===== src/Domain/Enums.antt =====
-- python/domain/enums.py: the enumerations that the modelled parts read.
use sira_seil_cockroach_aws.Base.{ℕ, ◌≡◌, Bool, true, false, arith, nat_eq}

pub data CandidateStatus : Type 0 where
  eligible eligible_with_exception conditional sira_ineligible seil_pass unavailable stale_evidence
        insufficient_evidence conflicting_evidence authority_required advisory_only :
      CandidateStatus

pub data RankStability : Type 0 where
  stable unstable undetermined : RankStability

pub data ApprovalStatus : Type 0 where
  not_required not_requested pending approved rejected revoked expired superseded : ApprovalStatus

pub data PaymentHandoffStatus : Type 0 where
  ready opened expired cancelled : PaymentHandoffStatus

pub data StackRisk : Type 0 where
  low medium high critical : StackRisk

-- The property `StackRisk.rank`.
abbrev pub risk_rank : StackRisk → ℕ
risk_rank low = 0
risk_rank medium = 1
risk_rank high = 2
risk_rank critical = 3

pub data TruthValue : Type 0 where
  true_value false_value unknown conflict unresolved : TruthValue

pub data ProductInstanceState : Type 0 where
  proposed contracted provisioned deploying active degraded retiring cancelled :
      ProductInstanceState

-- `state is ProductInstanceState.ACTIVE`
abbrev pub is_active : ProductInstanceState → Bool
is_active active = true
is_active _ = false

abbrev state_index : ProductInstanceState → ℕ
state_index proposed = 0
state_index contracted = 1
state_index provisioned = 2
state_index deploying = 3
state_index active = 4
state_index degraded = 5
state_index retiring = 6
state_index cancelled = 7

-- `a is b` on the members of the enumeration
abbrev pub same_state : ProductInstanceState → ProductInstanceState → Bool
same_state a b = nat_eq (state_index a) (state_index b)

pub same_state-eq : (a b : ProductInstanceState) → same_state a b ≡ true → a ≡ b
same_state-eq a b h = ground arith

pub data StackPatchStatus : Type 0 where
  draft validated awaiting_approval approved applying applied conflict failed compensating_patch :
      StackPatchStatus

pub data SolutionAction : Type 0 where
  reuse_existing configure_existing no_action buy renew resize replace consolidate cancel :
      SolutionAction
