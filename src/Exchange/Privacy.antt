-- ===== src/Exchange/Privacy.antt =====
-- `_reject_private_fields` lets through exactly the payloads with no private key at any depth.
use sira_seil_cockroach_aws.Domain.Json.{
  Value, scalar, array, object, Items, no_items, item, Fields, no_fields, field,
}
use sira_seil_cockroach_aws.Exchange.{
  is_private, private_error, reject_private_fields, reject_private_items, reject_private_entries,
}
use sira_seil_cockroach_aws.Base.{
  String, ◌≡◌, refl, ◌↔◌, false, ◌>>◌, >>=-eq-ok, raise_if-eq-ok, ok,
}

module _ (casefold : String → String) where
  -- No key of the value, at any depth, is private.
  abbrev mutual
    pub IsPublic : Value → Type 0
    IsPublic (scalar s) = Unit
    IsPublic (array xs) = ArePublic xs
    IsPublic (object fs) = HasPublicKeys fs

    pub ArePublic : Items → Type 0
    ArePublic no_items = Unit
    ArePublic (item x xs) = IsPublic x × ArePublic xs

    pub HasPublicKeys : Fields → Type 0
    HasPublicKeys no_fields = Unit
    HasPublicKeys (field k v fs) = (is_private casefold k ≡ false) × IsPublic v × HasPublicKeys fs

  mutual
    unfolding reject_private_fields

    IsPublic-value : (v : Value) → reject_private_fields casefold v ≡ ok tt → IsPublic v
    IsPublic-value (scalar s) h = tt
    IsPublic-value (array xs) h = public_items xs h
    IsPublic-value (object fs) h = public_entries fs h

    public_items : (xs : Items) → reject_private_items casefold xs ≡ ok tt → ArePublic xs
    public_items no_items h = tt
    public_items (item x xs) h =
        let (_, p, q) =
          >>=-eq-ok (reject_private_fields casefold x) (λ _. reject_private_items casefold xs) h in
        (IsPublic-value x p, public_items xs q)

    public_entries : (fs : Fields) → reject_private_entries casefold fs ≡ ok tt → HasPublicKeys fs
    public_entries no_fields h = tt
    public_entries (field k v fs) h =
        let (a, r) =
          raise_if-eq-ok (is_private casefold k) private_error
            (reject_private_fields casefold v >> reject_private_entries casefold fs) h in
        let (_, p, q) =
          >>=-eq-ok (reject_private_fields casefold v) (λ _. reject_private_entries casefold fs)
            r in
        (a, IsPublic-value v p, public_entries fs q)

  mutual
    unfolding reject_private_fields

    accepted_value : (v : Value) → IsPublic v → reject_private_fields casefold v ≡ ok tt
    accepted_value (scalar s) h = refl
    accepted_value (array xs) h = accepted_items xs h
    accepted_value (object fs) h = accepted_entries fs h

    accepted_items : (xs : Items) → ArePublic xs → reject_private_items casefold xs ≡ ok tt
    accepted_items no_items h = refl
    accepted_items (item x xs) h = rw (accepted_value x h.0) (accepted_items xs h.1)

    accepted_entries : (fs : Fields) → HasPublicKeys fs → reject_private_entries casefold fs ≡ ok tt
    accepted_entries no_fields h = refl
    accepted_entries (field k v fs) h = rw (h.0, accepted_value v h.1) (accepted_entries fs h.2)

  -- A payload is let through exactly when none of its keys, at any depth of objects and arrays, is
  -- private.
  pub reject_private_iff :
      (fs : Fields) → (reject_private_entries casefold fs ≡ ok tt) ↔ HasPublicKeys fs
  reject_private_iff fs = (public_entries fs, accepted_entries fs)
