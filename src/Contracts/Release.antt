-- ===== src/Contracts/Release.antt =====
-- What a manifest releases, and when.
use sira_seil_cockroach_aws.Domain.Time.{time_le}
use sira_seil_cockroach_aws.Contracts.Disclosure.{
  HasPublicNames, public_names, AreDisclosed, select-All, select-AreDisclosed,
}
use sira_seil_cockroach_aws.Domain.Json.{Value, Fields, no_fields, find}
use sira_seil_cockroach_aws.Contracts.{DateTime, assert_public_entries}
use sira_seil_cockroach_aws.Contracts.Manifest.{
  is_active, ReleaseStatus, manifest_payload, revoked, active, settle_manifest_hash,
  contract_checks, validate_contract, ReleaseManifest, revoke, release, ManifestPayload,
  ApprovalPayload, select_fields, has_field,
}
use sira_seil_cockroach_aws.Base.{
  ◌<◌, String, ◌≡◌, refl, subst, inl, inr, false, not, ◌&&◌, Option, some, arith, ◌==◌, Bool-cases,
  all, All, All-self, is_ok, ok_path, >>=-eq-ok, raise_if, raise_if-eq-ok, contract_violation,
  value_error, ok,
}

module _ (casefold : String → String) (lower : String → Option String)
    (approval_hash : ApprovalPayload → String) (manifest_hash : ManifestPayload → String) where
  active_inv : (s : ReleaseStatus) → not (is_active s) ≡ false → s ≡ active
  active_inv active h = refl
  active_inv revoked h = cc

  -- A release that succeeds is of an active manifest, before its expiry. It has every field that
  -- the manifest names and no other, each with the source's value as the manifest's transformation
  -- of the field shows it, and it has no private key at any depth.
  pub release_lem :
      (m : ReleaseManifest) (source out : Fields) (now : DateTime)
      → release casefold lower approval_hash manifest_hash m source now ≡ ok out
      → (m.status ≡ active)
        × (now.instant < m.terms.expires_at.instant)
        × All (λ name. (w : Value) × (find name out ≡ some w)) m.terms.fields
        × AreDisclosed lower m.terms.transformations source m.terms.fields out
        × HasPublicNames casefold out
  unfolding release
  release_lem m source out now h =
      let (_, _, a) =
        >>=-eq-ok (raise_if (not now.aware) (value_error "must include a timezone")) _ h in
      let (live, b) =
        raise_if-eq-ok (not (is_active m.status))
          (contract_violation "release authorization has been revoked") _ a in
      let (early, c) =
        raise_if-eq-ok (time_le m.terms.expires_at now)
          (contract_violation "release authorization has expired") _ b in
      let (_, d) =
        raise_if-eq-ok (not (all (has_field source) m.terms.fields))
          (contract_violation "release source is missing approved fields") _ c in
      let (fs, selected, rest) =
        >>=-eq-ok (select_fields lower m.terms.transformations source m.terms.fields no_fields) _
          d in
      let (_, public, same) = >>=-eq-ok (assert_public_entries casefold fs) _ rest in
      let out_eq : fs ≡ out = ok_path fs out same in
      (
        active_inv m.status live,
        ground arith,
        subst (λ x. All (λ name. (w : Value) × (find name x ≡ some w)) m.terms.fields) out_eq
            (select-All lower m.terms.transformations source m.terms.fields no_fields fs selected),
        subst (AreDisclosed lower m.terms.transformations source m.terms.fields) out_eq (
            select-AreDisclosed lower m.terms.transformations source m.terms.fields m.terms.fields
              no_fields fs (All-self m.terms.fields) (λ name w e. cc) selected),
        subst (HasPublicNames casefold) out_eq (public_names casefold fs public),
      )

  revoked_inv : (s : ReleaseStatus) → is_active s ≡ false → s ≡ revoked
  revoked_inv active h = cc
  revoked_inv revoked h = refl

  revoked_is_silent :
      (r : ReleaseManifest) (source : Fields) (now : DateTime)
      → r.status ≡ revoked
      → is_ok (release casefold lower approval_hash manifest_hash r source now) ≡ false
  unfolding release
  revoked_is_silent r source now h = elim (Bool-cases now.aware) [
    | inl e ↦ rw (e, h) refl
    | inr e ↦ rw e refl
  ]

  -- The checks do not depend on the status and the hash.
  validate_contract-checks :
      (given m : ReleaseManifest)
      → validate_contract casefold lower approval_hash manifest_hash given ≡ ok m
      → contract_checks casefold lower approval_hash manifest_hash m ≡ ok tt
  unfolding validate_contract settle_manifest_hash contract_checks
  validate_contract-checks given m h =
      let (_, checked, settled) =
        >>=-eq-ok (contract_checks casefold lower approval_hash manifest_hash given) _ h in
      let (_, kept) =
        raise_if-eq-ok
          (not (given.manifest_hash == "")
            && not (given.manifest_hash == manifest_hash (manifest_payload given)))
          (value_error "manifest_hash does not match the canonical manifest") _ settled in
      subst (λ x. contract_checks casefold lower approval_hash manifest_hash x ≡ ok tt)
        (ok_path _ m kept) checked

  -- A valid manifest can be revoked, and so can a revoked one; the approved terms stay, and
  -- nothing is released afterwards, whatever the source and the time.
  pub revoke_lem :
      (given m : ReleaseManifest)
      → validate_contract casefold lower approval_hash manifest_hash given ≡ ok m
      → (r : ReleaseManifest) × (revoke casefold lower approval_hash manifest_hash m ≡ ok r)
        × (r.status ≡ revoked)
        × (r.terms ≡ m.terms)
        × ((source : Fields) (now : DateTime)
            → is_ok (release casefold lower approval_hash manifest_hash r source now) ≡ false)
  unfolding revoke validate_contract settle_manifest_hash contract_checks
  revoke_lem given m h =
      let checked : contract_checks casefold lower approval_hash manifest_hash m ≡ ok tt =
        validate_contract-checks given m h in
      elim (Bool-cases (is_active m.status)) [
        | inl e ↦
            let r : ReleaseManifest = record m {
              status = revoked;
              manifest_hash =
                  manifest_hash
                    (manifest_payload (record m { status = revoked; manifest_hash = "" }));
            } in
            (r, rw (e, checked) refl, refl, refl, λ source now. revoked_is_silent r source now refl)
        | inr e ↦
            let s : m.status ≡ revoked = revoked_inv m.status e in
            (m, rw e refl, s, refl, λ source now. revoked_is_silent m source now s)
      ]
