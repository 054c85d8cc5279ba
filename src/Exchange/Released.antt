-- ===== src/Exchange/Released.antt =====
-- What a case holds and what its projections disclose, after any history.
use sira_seil_cockroach_aws.Domain.Json.{Fields}
use sira_seil_cockroach_aws.Exchange.{
  store_payload, ExchangeState, created, requirement_released, evidence_released, offered,
  countered, agreed_pending_approval, approved_for_handoff, rejected, expired, CommandType, buyer,
  seller, release_requirement, publish_evidence, propose_offer, counter_offer, approve_handoff,
  PartyCommand, CoordinatorState, new_case, release, released_fields, is_private, command_target,
  advance, ProjectionPayload, projection,
}
use sira_seil_cockroach_aws.Exchange.Privacy.{HasPublicKeys}
use sira_seil_cockroach_aws.Exchange.History.{take, run, take_result}
use sira_seil_cockroach_aws.Base.{
  ℕ, ◌+◌, ◌≤◌, String, ◌≡◌, refl, sym, subst, false, Option, none, some, List, [], ◌∷◌, arith,
  is_none, >>=-eq-ok, ok,
}

-- How far the exchange has come; rejected and expired cases make no claim.
abbrev progress : ExchangeState → ℕ
progress created = 0
progress requirement_released = 1
progress evidence_released = 2
progress offered = 3
progress countered = 3
progress agreed_pending_approval = 4
progress approved_for_handoff = 5
progress rejected = 0
progress expired = 0

-- A case holds what its state says has been released.
pub record IsComplete (s : CoordinatorState) : Type 0 where
  pub requirement : 1 ≤ progress s.state → is_none s.requirement ≡ false
  pub evidence : 2 ≤ progress s.state → is_none s.evidence ≡ false
  pub offer : 3 ≤ progress s.state → is_none s.current_offer ≡ false
  pub approval : 5 ≤ progress s.state → is_none s.approval ≡ false

advance-IsComplete :
    (s : CoordinatorState) (c : PartyCommand) (u : ExchangeState)
    → command_target s.state c.command_type ≡ some u
    → IsComplete s
    → IsComplete (advance s c u)
unfolding advance
advance-IsComplete s c u h k = record {
  requirement = λ p. ground (arith, k.requirement);
  evidence = λ p. ground (arith, k.evidence);
  offer = λ p. ground (arith, k.offer);
  approval = λ p. ground (arith, k.approval);
}

module _ (casefold : String → String) (hash : ProjectionPayload → String) where
  abbrev IsPublicSlot : Option Fields → Type 0
  IsPublicSlot none = Unit
  IsPublicSlot (some fs) = HasPublicKeys casefold fs

  -- Every payload that the case holds is public.
  record IsPublicCase (s : CoordinatorState) : Type 0 where
    requirement : IsPublicSlot s.requirement
    evidence : IsPublicSlot s.evidence
    offer : IsPublicSlot s.current_offer
    approval : IsPublicSlot s.approval

  store-IsPublicCase :
      (s : CoordinatorState) (t : CommandType) (fs : Fields)
      → HasPublicKeys casefold fs
      → IsPublicCase s
      → IsPublicCase (store_payload t fs s)
  store-IsPublicCase s release_requirement fs p h = record {
    requirement = p;
    evidence = h.evidence;
    offer = h.offer;
    approval = h.approval;
  }
  store-IsPublicCase s publish_evidence fs p h = record {
    requirement = h.requirement;
    evidence = p;
    offer = h.offer;
    approval = h.approval;
  }
  store-IsPublicCase s propose_offer fs p h = record {
    requirement = h.requirement;
    evidence = h.evidence;
    offer = p;
    approval = h.approval;
  }
  store-IsPublicCase s counter_offer fs p h = record {
    requirement = h.requirement;
    evidence = h.evidence;
    offer = p;
    approval = h.approval;
  }
  store-IsPublicCase s approve_handoff fs p h = record {
    requirement = h.requirement;
    evidence = h.evidence;
    offer = h.offer;
    approval = p;
  }
  store-IsPublicCase s _ fs p h = h

  run_keeps :
      (s t : CoordinatorState) (cs : List PartyCommand)
      → run casefold hash s cs ≡ ok t
      → IsComplete s × IsPublicCase s
      → IsComplete t × IsPublicCase t
  unfolding run advance
  run_keeps s t [] h (k, p) =
      let same : s ≡ t = ground arith in (subst IsComplete same k, subst IsPublicCase same p)
  run_keeps s t (c ∷ cs) h (k, p) =
      let (m, one, rest) = >>=-eq-ok (take casefold hash s c) (λ u. run casefold hash u cs) h in
      let (_, public, (u, target, e)) = take_result casefold hash s m c one in
      let complete : IsComplete m = subst IsComplete (sym e) (advance-IsComplete s c u target k) in
      let moved : CoordinatorState = record s {
        state = u;
        version = s.version + 1;
        last_command_id = some c.id;
      } in
      let before : IsPublicCase moved = record {
        requirement = p.requirement;
        evidence = p.evidence;
        offer = p.offer;
        approval = p.approval;
      } in
      let open_case : IsPublicCase m =
        subst IsPublicCase (sym e)
          (store-IsPublicCase moved c.command_type c.payload public before) in
      run_keeps m t cs rest (complete, open_case)

  release-HasPublicKeys :
      (name : String) (slot : Option Fields) (rest : Fields)
      → is_private casefold name ≡ false
      → IsPublicSlot slot
      → HasPublicKeys casefold rest
      → HasPublicKeys casefold (release name slot rest)
  release-HasPublicKeys name none rest n p r = r
  release-HasPublicKeys name (some fs) rest n p r = (n, p, r)

  -- Whatever commands were taken since the case was created, both projections of it disclose the
  -- same fields, with no private key at any depth; and the case holds the requirement, the evidence,
  -- the offer and the approval that its state stands for. That `casefold` leaves the four names of
  -- the slots as they are is what the code relies on.
  pub disclosed_is_public :
      (case_id command_id : String) (t : CoordinatorState) (cs : List PartyCommand)
      → (casefold "requirement" ≡ "requirement")
      → (casefold "evidence" ≡ "evidence")
      → (casefold "current_offer" ≡ "current_offer")
      → (casefold "approval" ≡ "approval")
      → run casefold hash (new_case case_id) cs ≡ ok t
      → HasPublicKeys casefold (projection hash t buyer command_id).shown.released
        × ((projection hash t seller command_id).shown.released
            ≡ (projection hash t buyer command_id).shown.released)
        × IsComplete t
  unfolding projection released_fields is_private
  disclosed_is_public case_id command_id t cs a b c d h =
      let start : IsComplete (new_case case_id) × IsPublicCase (new_case case_id) = (
        record {
          requirement = λ p. absurd (omega arith);
          evidence = λ p. absurd (omega arith);
          offer = λ p. absurd (omega arith);
          approval = λ p. absurd (omega arith);
        },
        record { requirement = tt; evidence = tt; offer = tt; approval = tt },
      ) in
      let (k, p) = run_keeps (new_case case_id) t cs h start in
      (
        release-HasPublicKeys "requirement" t.requirement _ (rw a refl) p.requirement (
            release-HasPublicKeys "evidence" t.evidence _ (rw b refl) p.evidence (
              release-HasPublicKeys "current_offer" t.current_offer _ (rw c refl) p.offer
                (release-HasPublicKeys "approval" t.approval _ (rw d refl) p.approval tt))),
        refl,
        k,
      )
