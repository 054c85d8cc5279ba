-- ===== src/Contracts/Transfer/Opening.antt =====
-- A payment handoff is opened once, in time, and for what was handed off.
use sira_seil_cockroach_aws.Domain.Time.{DateTime, time_le}
use sira_seil_cockroach_aws.Contracts.Transfer.{
  ready, opened, is_opened, PaymentTerms, ExchangePaymentHandoff, check_opening, payment_checks,
  validate_handoff, open_handoff,
}
use sira_seil_cockroach_aws.Base.{
  ◌<◌, String, ◌≡◌, refl, sym, subst, Bool, true, false, not, ◌&&◌, some, arith, ◌==◌, ok_path,
  >>=-eq-ok, raise_if-eq-ok, value_error, ok,
}

module _ (is_safe_url : String → Bool) (hash : PaymentTerms → String) where
  -- A valid handoff carries the hash of its own terms, which passed the checks.
  validate_handoff_inv :
      (given h : ExchangePaymentHandoff)
      → validate_handoff is_safe_url hash given ≡ ok h
      → (payment_checks is_safe_url hash h.terms ≡ ok tt) × (h.handoff_hash ≡ hash h.terms)
  unfolding validate_handoff
  validate_handoff_inv given h e =
      let (_, checked, r) = >>=-eq-ok (payment_checks is_safe_url hash given.terms) _ e in
      let (_, _, r) = >>=-eq-ok (check_opening (is_opened given.status) given.opened_at) _ r in
      let (_, kept) =
        raise_if-eq-ok
          (not (given.handoff_hash == "") && not (given.handoff_hash == hash given.terms))
          (value_error "handoff_hash does not match the canonical exchange handoff") _ r in
      let made : record given { handoff_hash = hash given.terms } ≡ h = ok_path _ h kept in
      (
        subst (λ x. payment_checks is_safe_url hash x.terms ≡ ok tt) made checked,
        subst (λ x. x.handoff_hash ≡ hash x.terms) made refl,
      )

  -- Opening a valid handoff that is READY, at a time with a zone before its expiry, takes effect; the
  -- terms and the hash stay, and to open it again, at any time with a zone, changes nothing.
  pub open_handoff_lem :
      (given h : ExchangePaymentHandoff) (now : DateTime)
      → validate_handoff is_safe_url hash given ≡ ok h
      → h.status ≡ ready
      → now.aware ≡ true
      → now.instant < h.terms.expires_at.instant
      → (o : ExchangePaymentHandoff) × (open_handoff is_safe_url hash h now ≡ ok o)
        × (o.status ≡ opened)
        × (o.opened_at ≡ some now)
        × (o.terms ≡ h.terms)
        × (o.handoff_hash ≡ h.handoff_hash)
        × ((later : DateTime) → later.aware ≡ true → open_handoff is_safe_url hash o later ≡ ok o)
  unfolding open_handoff validate_handoff
  open_handoff_lem given h now valid status zone early =
      let (checked, hashed) = validate_handoff_inv given h valid in
      let late : time_le h.terms.expires_at now ≡ false = ground arith in
      (
        record h { status = opened; opened_at = some now; handoff_hash = hash h.terms },
        simp (zone, status, late, checked),
        refl,
        refl,
        refl,
        sym hashed,
        λ later aware. rw aware refl,
      )
