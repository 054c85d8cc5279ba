-- ===== src/Exchange/Approved.antt =====
-- The histories that end in an approved handoff.
use sira_seil_cockroach_aws.Exchange.{
  system, seller, buyer, ExchangeState, created, requirement_released, evidence_released, offered,
  countered, agreed_pending_approval, approved_for_handoff, rejected, expired, CommandType,
  release_requirement, publish_evidence, propose_offer, counter_offer, accept_offer, accept_counter,
  approve_handoff, PartyCommand, CoordinatorState, new_case, command_target, ProjectionPayload,
}
use sira_seil_cockroach_aws.Exchange.History.{
  owned, moves-types, moves, take, run, types, state_step,
}
use sira_seil_cockroach_aws.Base.{
  String, ◌≡◌, refl, sym, ap, subst, ◌∙◌, ◌⊎◌, inl, inr, some, List, [], ◌∷◌, map, arith, >>=-eq-ok,
  ok,
}

-- What is left to do, from each state, to an approved handoff; nothing, once rejected or expired.
abbrev Remaining : ExchangeState → List CommandType → Type 0
Remaining approved_for_handoff ts = ts ≡ []
Remaining agreed_pending_approval ts = ts ≡ approve_handoff ∷ []
Remaining countered ts = ts ≡ accept_counter ∷ approve_handoff ∷ []
Remaining offered ts =
    (ts ≡ accept_offer ∷ approve_handoff ∷ [])
    ⊎ (ts ≡ counter_offer ∷ accept_counter ∷ approve_handoff ∷ [])
Remaining evidence_released ts =
    (ts ≡ propose_offer ∷ accept_offer ∷ approve_handoff ∷ [])
    ⊎ (ts ≡ propose_offer ∷ counter_offer ∷ accept_counter ∷ approve_handoff ∷ [])
Remaining requirement_released ts =
    (ts ≡ publish_evidence ∷ propose_offer ∷ accept_offer ∷ approve_handoff ∷ [])
    ⊎ (ts
        ≡ publish_evidence ∷ propose_offer ∷ counter_offer ∷ accept_counter ∷ approve_handoff ∷ [])
Remaining created ts =
    (ts
      ≡ release_requirement ∷ publish_evidence ∷ propose_offer ∷ accept_offer ∷ approve_handoff
        ∷ [])
    ⊎ (ts
        ≡ release_requirement ∷ publish_evidence ∷ propose_offer ∷ counter_offer ∷ accept_counter
          ∷ approve_handoff ∷ [])
Remaining rejected ts = ⊥
Remaining expired ts = ⊥

remaining_step :
    (s t : ExchangeState) (c : CommandType) (ts : List CommandType)
    → command_target s c ≡ some t
    → Remaining t ts
    → Remaining s (c ∷ ts)
remaining_step created t c ts h r = ground arith
remaining_step s t c ts h r = ground arith

module _ (casefold : String → String) (hash : ProjectionPayload → String) where
  run-Remaining :
      (s t : CoordinatorState) (cs : List PartyCommand)
      → run casefold hash s cs ≡ ok t
      → t.state ≡ approved_for_handoff
      → Remaining s.state (types casefold hash cs)
  unfolding run
  run-Remaining s t [] h a =
      let same : s ≡ t = ground arith in
      subst (λ u. Remaining u []) (sym (ap (λ (x : CoordinatorState). x.state) same ∙ a)) refl
  run-Remaining s t (c ∷ cs) h a =
      let (m, one, rest) = >>=-eq-ok (take casefold hash s c) (λ u. run casefold hash u cs) h in
      remaining_step s.state m.state c.command_type (types casefold hash cs)
        (state_step casefold hash s m c one) (run-Remaining m t cs rest a)

  -- A case whose handoff is approved has had exactly one of two histories since its creation, each
  -- command from the party named: the buyer releases the requirement, the seller publishes the
  -- evidence and the buyer proposes an offer, in this order; then either the seller accepts the
  -- offer, or the seller makes a counter-offer and the buyer accepts that; and the system approves
  -- the handoff at last.
  pub approved_histories :
      (case_id : String) (t : CoordinatorState) (cs : List PartyCommand)
      → run casefold hash (new_case case_id) cs ≡ ok t
      → t.state ≡ approved_for_handoff
      → (moves casefold hash cs
          ≡ (release_requirement, buyer)
            ∷ (publish_evidence, seller)
            ∷ (propose_offer, buyer)
            ∷ (accept_offer, seller)
            ∷ (approve_handoff, system)
            ∷ [])
        ⊎ (moves casefold hash cs
            ≡ (release_requirement, buyer)
              ∷ (publish_evidence, seller)
              ∷ (propose_offer, buyer)
              ∷ (counter_offer, seller)
              ∷ (accept_counter, buyer)
              ∷ (approve_handoff, system)
              ∷ [])
  approved_histories case_id t cs h a =
      let by = moves-types casefold hash (new_case case_id) t cs h in
      elim (run-Remaining (new_case case_id) t cs h a) [
        | inl e ↦ inl (by ∙ ap (map (owned casefold hash)) e)
        | inr e ↦ inr (by ∙ ap (map (owned casefold hash)) e)
      ]
