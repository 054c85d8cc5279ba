-- ===== src/Contracts/Agreed.antt =====
-- An approval acts on one exact offer, and a negotiation is a chain of offers.
use sira_seil_cockroach_aws.Domain.Time.{DateTime, time_le}
use sira_seil_cockroach_aws.Contracts.Offer.{
  OfferApprovalStatus, pending, approved, rejected, revoked, superseded, is_pending, OfferTerms,
  OfferVersion, OfferApproval, offer_checks, validate_offer, authorize,
}
use sira_seil_cockroach_aws.Base.{
  ◌<◌, String, ◌≡◌, refl, sym, ap, subst, ◌∙◌, inl, inr, true, false, not, ◌&&◌, ◌||◌, arith, ◌==◌,
  text_eq_self, either_false, same_text, is_ok, Result-cases, ok_path, >>=-eq-ok, raise_if,
  raise_if-eq-ok, contract_violation, value_error, ok,
}

module _ (hash : OfferTerms → String) where
  -- A valid offer carries the hash of its own terms, which passed the checks.
  pub validate_offer_inv :
      (given o : OfferVersion)
      → validate_offer hash given ≡ ok o
      → (o.terms ≡ given.terms)
        × (o.offer_hash ≡ hash given.terms)
        × (offer_checks given.terms ≡ ok tt)
        × (o.approval_status ≡ given.approval_status)
  unfolding validate_offer
  validate_offer_inv given o h =
      let (_, checked, rest) = >>=-eq-ok (offer_checks given.terms) _ h in
      let (_, kept) =
        raise_if-eq-ok (not (given.offer_hash == "") && not (given.offer_hash == hash given.terms))
          (value_error "offer_hash does not match the canonical offer") _ rest in
      let made : record given { offer_hash = hash given.terms } ≡ o = ok_path _ o kept in
      (
        sym (ap (λ x. x.terms) made),
        sym (ap (λ x. x.offer_hash) made),
        checked,
        sym (ap (λ x. x.approval_status) made),
      )

  pending_inv : (s : OfferApprovalStatus) → not (is_pending s) ≡ false → s ≡ pending
  pending_inv pending h = refl
  pending_inv approved h = cc
  pending_inv rejected h = cc
  pending_inv revoked h = cc
  pending_inv superseded h = cc

  -- What an authorization that succeeds has tested.
  authorize_inv :
      (o p : OfferVersion) (a : OfferApproval) (now : DateTime)
      → authorize hash a o now ≡ ok p
      → (a.offer_hash ≡ o.offer_hash)
        × (time_le a.expires_at now ≡ false)
        × (time_le o.terms.expires_at now ≡ false)
        × (o.approval_status ≡ pending)
        × (validate_offer hash (record o { approval_status = approved; offer_hash = "" }) ≡ ok p)
  unfolding authorize
  authorize_inv o p a now h =
      let (_, _, r) =
        >>=-eq-ok (raise_if (not now.aware) (value_error "must include a timezone")) _ h in
      let (bound, r) =
        raise_if-eq-ok (not (a.case_id == o.terms.case_id) || not (a.offer_hash == o.offer_hash))
          (contract_violation "approval does not bind the current exact offer") _ r in
      let (early, r) =
        raise_if-eq-ok (time_le a.expires_at now || time_le o.terms.expires_at now)
          (contract_violation "offer or approval has expired") _ r in
      let (waiting, r) =
        raise_if-eq-ok (not (is_pending o.approval_status))
          (contract_violation "offer is not pending approval") _ r in
      let (_, same) = either_false (not (a.case_id == o.terms.case_id)) _ bound in
      let (e, f) = either_false (time_le a.expires_at now) _ early in
      (same_text a.offer_hash o.offer_hash same, e, f, pending_inv o.approval_status waiting, r)

  approved_is_closed :
      (p : OfferVersion) (b : OfferApproval) (later : DateTime)
      → p.approval_status ≡ approved
      → is_ok (authorize hash b p later) ≡ false
  approved_is_closed p b later h = elim (Result-cases (authorize hash b p later)) [
    | inr (_, e) ↦ rw e refl
    | inl (q, e) ↦
        let (_, _, _, waiting, _) = authorize_inv p q b later e in
        let clash : pending ≡ approved = sym waiting ∙ h in cc
  ]

  -- An authorization that succeeds is of the exact offer that the approval binds, while the offer
  -- is pending and neither of the two is expired; the terms stay, and the hash of the approved
  -- offer is the one that was approved. The approved offer is not authorized again.
  pub authorize_lem :
      (given o p : OfferVersion) (a : OfferApproval) (now : DateTime)
      → validate_offer hash given ≡ ok o
      → authorize hash a o now ≡ ok p
      → (o.approval_status ≡ pending)
        × (now.instant < a.expires_at.instant)
        × (now.instant < o.terms.expires_at.instant)
        × (p.approval_status ≡ approved)
        × (p.terms ≡ o.terms)
        × (p.offer_hash ≡ a.offer_hash)
        × ((b : OfferApproval) (later : DateTime) → is_ok (authorize hash b p later) ≡ false)
  unfolding authorize
  authorize_lem given o p a now valid h =
      let (bound, early, in_time, waiting, made) = authorize_inv o p a now h in
      let (_, hashed, _, _) = validate_offer_inv given o valid in
      let (terms, rehashed, _, status) =
        validate_offer_inv (record o { approval_status = approved; offer_hash = "" }) p made in
      let (kept, _, _, _) = validate_offer_inv given o valid in
      (
        waiting,
        ground arith,
        ground arith,
        status,
        terms,
        rehashed ∙ ap hash kept ∙ sym hashed ∙ sym bound,
        λ b later. approved_is_closed p b later status,
      )

  -- At a time with a zone that is before the two expiries, an approval of the case and of the hash
  -- of a valid pending offer takes effect: what is returned is that offer, approved.
  pub authorize_takes_effect :
      (given o : OfferVersion) (a : OfferApproval) (now : DateTime)
      → validate_offer hash given ≡ ok o
      → o.approval_status ≡ pending
      → a.case_id ≡ o.terms.case_id
      → a.offer_hash ≡ o.offer_hash
      → now.aware ≡ true
      → now.instant < a.expires_at.instant
      → now.instant < o.terms.expires_at.instant
      → authorize hash a o now ≡ ok (record o { approval_status = approved })
  unfolding authorize validate_offer
  authorize_takes_effect given o a now valid status same_case same_hash zone early in_time =
      let (kept, hashed, checked, _) = validate_offer_inv given o valid in
      let checked' : offer_checks o.terms ≡ ok tt =
        subst (λ t. offer_checks t ≡ ok tt) (sym kept) checked in
      let late : time_le a.expires_at now ≡ false = ground arith in
      let gone : time_le o.terms.expires_at now ≡ false = ground arith in
      rw
        (
          zone,
          same_case,
          text_eq_self o.terms.case_id,
          same_hash,
          text_eq_self o.offer_hash,
          late,
          gone,
          status,
          checked',
        )
        (ap (λ x. ok (record o { approval_status = approved; offer_hash = x }))
          (sym (hashed ∙ ap hash (sym kept))))
