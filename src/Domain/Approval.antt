-- ===== src/Domain/Approval.antt =====
-- python/domain/state_machines.py, `ApprovalTransitionService`, and `ApprovalBinding` of
-- python/domain/models.py.
pub mod Laws
use sira_seil_cockroach_aws.Domain.Ids.{require_id, require_hash}
use sira_seil_cockroach_aws.Domain.Enums.{
  ApprovalStatus, not_required, not_requested, pending, approved, rejected, revoked, expired,
  superseded,
}
use sira_seil_cockroach_aws.Base.{
  ℕ, zero, suc, ◌+◌, ◌-◌, ◌*◌, ◌/◌, ◌%◌, ◌≤◌, ◌<◌, String, ◌≡◌, refl, sym, ap, subst, ◌∙◌, ◌≢◌, ◌↔◌,
  ◌⊎◌, inl, inr, Bool, true, false, not, ◌&&◌, ◌||◌, Option, none, some, List, [], ◌∷◌, ◌++◌, map,
  arith, eq_iff, ltb, leb, nat_eq, ◌==◌, if◌then◌else◌, Bool-cases, Option-cases, is_none,
  some_path, text_cases, text_eq_self, length, select, any, all, is_empty, All, All-map, All-append,
  All-zip, elem, set_of, Distinct, elem-append, elem-set_of, length-set_of, set_of-Distinct,
  Distinct-set_of, elem_head, elem_tail, All_at, All-self, Error, Result, ◌>>=◌, ◌>>◌, raise_if,
  is_ok, Result-cases, >>=-eq-ok, raise_if-eq-ok, domain_validation, invalid_transition,
  exchange_conflict, value_error, key_error, recursion_error, ok, err,
}

pub record ApprovalBinding : Type 0 where
  pub approval_request_id : String
  pub intent_hash : String
  pub status : ApprovalStatus

-- `ApprovalBinding.__post_init__`
unfoldable pub make_binding : String → String → ApprovalStatus → Result ApprovalBinding
make_binding i h s =
    require_id i
    >> require_hash h
    >> ok (record { approval_request_id = i; intent_hash = h; status = s })

-- `target in cls._allowed[current]`, where the table has an entry for every status but NOT_REQUIRED
abbrev pub allowed_from : ApprovalStatus → Option (ApprovalStatus → Bool)
allowed_from not_required = none
allowed_from not_requested = some (λ t. elim t [ pending ↦ true | _ ↦ false ])
allowed_from pending = some (λ t. elim t [
  | approved ↦ true
  | rejected ↦ true
  | revoked ↦ true
  | expired ↦ true
  | superseded ↦ true
  | _ ↦ false
])
allowed_from approved = some (λ t. elim t [ revoked ↦ true | superseded ↦ true | _ ↦ false ])
allowed_from rejected = some (λ t. false)
allowed_from revoked = some (λ t. false)
allowed_from expired = some (λ t. false)
allowed_from superseded = some (λ t. false)

-- `ApprovalTransitionService.transition`
unfoldable pub transition : ApprovalStatus → ApprovalStatus → Result ApprovalStatus
transition current target = elim (allowed_from current) [
  | none ↦ err key_error
  | some table ↦
      if not (table target)
      then err (invalid_transition "approval cannot transition")
      else ok target
]

-- `ApprovalTransitionService.approve_exact`
unfoldable pub approve_exact : ApprovalBinding → String → Result ApprovalBinding
unfolding transition make_binding
approve_exact b presented = do
  require_hash presented
  raise_if (not (presented == b.intent_hash))
      (domain_validation "approval payload hash does not match Purchase Intent")
  status ← transition b.status approved
  make_binding b.approval_request_id b.intent_hash status

-- `binding.status in {ApprovalStatus.PENDING, ApprovalStatus.APPROVED}`
abbrev pub is_open : ApprovalStatus → Bool
is_open pending = true
is_open approved = true
is_open _ = false

-- `ApprovalTransitionService.reconcile_payload`
unfoldable pub reconcile_payload : ApprovalBinding → String → Result ApprovalBinding
unfolding make_binding
reconcile_payload b current = do
  require_hash current
  if b.intent_hash == current
      then ok b
      else (if is_open b.status
          then make_binding b.approval_request_id b.intent_hash superseded
          else ok b)
