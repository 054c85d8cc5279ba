-- ===== src/Domain/Publication/Publishable.antt =====
-- `assert_public_payload` lets through exactly the payloads with no denied key at any depth.
use sira_seil_cockroach_aws.Domain.Json.{
  Value, scalar, array, object, Items, no_items, item, Fields, no_fields, field,
}
use sira_seil_cockroach_aws.Domain.Publication.{
  forbidden_entries, forbidden_items, Step, at_key, at_index, denied_fields, is_denied_segment,
  forbidden_paths, assert_public_payload,
}
use sira_seil_cockroach_aws.Base.{
  ℕ, suc, String, ◌≡◌, refl, ◌↔◌, ◌⊎◌, inl, inr, false, not, List, [], ◌∷◌, ◌++◌, Bool-cases,
  is_empty, raise_if, ok, err,
}

module _ (lower : String → String) where
  -- No key of the value, at any depth, is of a denied family.
  abbrev mutual
    pub IsPublishable : Value → Type 0
    IsPublishable (scalar s) = Unit
    IsPublishable (array xs) = ArePublishable xs
    IsPublishable (object fs) = HasPublishableKeys fs

    pub ArePublishable : Items → Type 0
    ArePublishable no_items = Unit
    ArePublishable (item x xs) = IsPublishable x × ArePublishable xs

    pub HasPublishableKeys : Fields → Type 0
    HasPublishableKeys no_fields = Unit
    HasPublishableKeys (field k v fs) =
        (is_denied_segment lower (lower k) ≡ false) × IsPublishable v × HasPublishableKeys fs

  empty_append {ℓ} : {A : Type ℓ} (xs ys : List A) → xs ++ ys ≡ [] → (xs ≡ []) × (ys ≡ [])
  empty_append [] ys h = (refl, h)
  empty_append (x ∷ xs) ys h = cc

  mutual
    unfolding forbidden_paths

    IsPublishable-value :
        (v : Value) (prefix : List Step) → forbidden_paths lower v prefix ≡ [] → IsPublishable v
    IsPublishable-value (scalar s) prefix h = tt
    IsPublishable-value (array xs) prefix h = IsPublishable-items xs prefix 0 h
    IsPublishable-value (object fs) prefix h = IsPublishable-entries fs prefix h

    IsPublishable-items :
        (xs : Items) (prefix : List Step) (index : ℕ)
        → forbidden_items lower xs prefix index ≡ []
        → ArePublishable xs
    IsPublishable-items no_items prefix index h = tt
    IsPublishable-items (item x xs) prefix index h =
        let (p, q) = empty_append (forbidden_paths lower x (at_index index ∷ prefix)) _ h in
        (
          IsPublishable-value x (at_index index ∷ prefix) p,
          IsPublishable-items xs prefix (suc index) q,
        )

    IsPublishable-entries :
        (fs : Fields) (prefix : List Step)
        → forbidden_entries lower fs prefix ≡ []
        → HasPublishableKeys fs
    IsPublishable-entries no_fields prefix h = tt
    IsPublishable-entries (field k v fs) prefix h =
        elim (Bool-cases (is_denied_segment lower (lower k))) [
          | inl e ↦ let (p, q) = empty_append ((at_key k ∷ prefix) ∷ []) _ (rw e at h) in cc
          | inr e ↦
              let (p, q) =
                empty_append (forbidden_paths lower v (at_key k ∷ prefix)) _ (rw e at h) in
              (e, IsPublishable-value v (at_key k ∷ prefix) p, IsPublishable-entries fs prefix q)
        ]

  mutual
    unfolding forbidden_paths

    no_forbidden_paths :
        (v : Value) (prefix : List Step) → IsPublishable v → forbidden_paths lower v prefix ≡ []
    no_forbidden_paths (scalar s) prefix h = refl
    no_forbidden_paths (array xs) prefix h = no_forbidden_items xs prefix 0 h
    no_forbidden_paths (object fs) prefix h = no_forbidden_entries fs prefix h

    no_forbidden_items :
        (xs : Items) (prefix : List Step) (index : ℕ)
        → ArePublishable xs
        → forbidden_items lower xs prefix index ≡ []
    no_forbidden_items no_items prefix index h = refl
    no_forbidden_items (item x xs) prefix index h =
        rw
          (
            no_forbidden_paths x (at_index index ∷ prefix) h.0,
            no_forbidden_items xs prefix (suc index) h.1,
          )
          refl

    no_forbidden_entries :
        (fs : Fields) (prefix : List Step)
        → HasPublishableKeys fs
        → forbidden_entries lower fs prefix ≡ []
    no_forbidden_entries no_fields prefix h = refl
    no_forbidden_entries (field k v fs) prefix h =
        let (e, p, q) = h in
        rw (e, no_forbidden_paths v (at_key k ∷ prefix) p, no_forbidden_entries fs prefix q) refl

  nothing_found :
      (found : List (List Step))
      → raise_if (not (is_empty found)) denied_fields ≡ ok tt
      → found ≡ []
  nothing_found [] h = refl
  nothing_found (path ∷ found) h = cc

  -- The final check lets through exactly the payloads without a denied key.
  pub assert_public_payload_lem :
      (fs : Fields) → assert_public_payload lower fs ≡ ok tt ↔ HasPublishableKeys fs
  unfolding assert_public_payload forbidden_paths
  assert_public_payload_lem fs = (
    (λ h. IsPublishable-entries fs [] (nothing_found (forbidden_paths lower (object fs) []) h)),
    (λ h. rw (no_forbidden_entries fs [] h) refl),
  )

  pub assert_public_payload_cases :
      (fs : Fields)
      → (assert_public_payload lower fs ≡ ok tt)
        ⊎ (assert_public_payload lower fs ≡ err denied_fields)
  unfolding assert_public_payload forbidden_paths
  assert_public_payload_cases fs =
      elim (Bool-cases (is_empty (forbidden_paths lower (object fs) []))) [
        | inl e ↦ inl (rw e refl)
        | inr e ↦ inr (rw e refl)
      ]
