-- ===== src/Domain/Publication/Published.antt =====
-- What `_allowlisted_copy` lets out.
use sira_seil_cockroach_aws.Base.Order.{text_le}
use sira_seil_cockroach_aws.Base.Sort.{sorted, All-sorted, All-of_sorted}
use sira_seil_cockroach_aws.Domain.Json.{Value, object, Fields, no_fields}
use sira_seil_cockroach_aws.Domain.Publication.{
  split_path, get, copy_path, prohibited_field, assert_public_payload, is_prohibited, copy_allowed,
  allowlisted_copy,
}
use sira_seil_cockroach_aws.Domain.Publication.Copy.{is_object, IsPart, no_fields-IsPart}
use sira_seil_cockroach_aws.Domain.Publication.Kept.{Leaves, no_fields-Leaves}
use sira_seil_cockroach_aws.Domain.Publication.Steps.{
  segments, IsAllowed, copy_path-IsPart, copy_path_kept, copy_path_agrees, copy_path-Leaves,
}
use sira_seil_cockroach_aws.Domain.Publication.Publishable.{
  HasPublishableKeys, assert_public_payload_lem,
}
use sira_seil_cockroach_aws.Base.{
  String, ◌≡◌, refl, sym, subst, ◌∙◌, ◌⊎◌, inl, inr, true, false, some, List, [], ◌∷◌, Bool-cases,
  All, All-map, elem, set_of, elem-set_of, All_at, All-self, ok_path, >>=-eq-ok, raise_if, ◌>>◌,
  raise_if-eq-ok, ok, err,
}

-- The order in which `_allowlisted_copy` takes the paths.
abbrev pub ordered : List String → List String
ordered allowed = sorted text_le (set_of allowed)

pub All-ordered : (allowed : List String) → All (λ p. elem p allowed ≡ true) (ordered allowed)
All-ordered allowed =
    All-sorted text_le (λ p. elem p allowed ≡ true) (set_of allowed)
      (All-map (λ p. elem p (set_of allowed) ≡ true) (λ p. elem p allowed ≡ true)
        (λ p h. sym (elem-set_of p allowed) ∙ h) (set_of allowed) (All-self (set_of allowed)))

pub All-of_ordered {ℓ} :
    (P : String → Type ℓ) (allowed : List String) (p : String)
    → All P (ordered allowed)
    → elem p allowed ≡ true
    → P p
All-of_ordered P allowed p h member =
    All_at P (set_of allowed) p (All-of_sorted text_le P (set_of allowed) h)
      (elem-set_of p allowed ∙ member)

-- The output is the projection of the source to the allowed paths: the two agree at each of
-- them, and each leaf of the output is the source's leaf at an allowed path or below one.
abbrev pub IsProjection : Fields → List String → Fields → Type 0
IsProjection src allowed out =
    ((p : String)
      → elem p allowed ≡ true
      → get (segments p) (object out) ≡ get (segments p) (object src))
    × ((q : List String) (x : Value)
        → get q (object out) ≡ some x
        → is_object x ≡ false
        → (get q (object src) ≡ some x) × IsAllowed allowed q)

module _ (lower : String → String) (src : Fields) where
  -- A turn of the loop that succeeds.
  copy_allowed_inv :
      (out done : Fields) (p : String) (paths : List String)
      → copy_allowed lower src out (p ∷ paths) ≡ ok done
      → (next : Fields) × (copy_path src out p ≡ ok next)
        × (copy_allowed lower src next paths ≡ ok done)
  unfolding copy_allowed
  copy_allowed_inv out done p paths h =
      let (next, first, rest) =
        >>=-eq-ok
          (raise_if (is_prohibited lower (split_path p)) prohibited_field >> copy_path src out p) _
          h in
      let (_, wrote) =
        raise_if-eq-ok (is_prohibited lower (split_path p)) prohibited_field (copy_path src out p)
          first in
      (next, wrote, rest)

  -- The loop ends, and raises nothing but on a prohibited path.
  pub copy_allowed_cases {ℓ} :
      (Q : String → Type ℓ) (paths : List String) (out : Fields)
      → All Q paths
      → IsPart (object out) (object src)
      → (((p : String) × Q p × (is_prohibited lower (split_path p) ≡ true))
          × (copy_allowed lower src out paths ≡ err prohibited_field))
        ⊎ ((done : Fields) × (copy_allowed lower src out paths ≡ ok done))
  unfolding copy_allowed
  copy_allowed_cases Q [] out h part = inr (out, refl)
  copy_allowed_cases Q (p ∷ paths) out h part =
      elim (Bool-cases (is_prohibited lower (split_path p))) [
        | inl e ↦ inl ((p, h.0, e), rw e refl)
        | inr e ↦
            let (next, wrote, part') = copy_path-IsPart src out p part in
            elim (copy_allowed_cases Q paths next h.1 part') [
              | inl (bad, raised) ↦ inl (bad, rw (e, wrote) raised)
              | inr (done, end) ↦ inr (done, rw (e, wrote) end)
            ]
      ]

  -- What every copied path keeps holds at the end of the loop.
  pub copy_allowed_keeps {ℓ κ} :
      (Q : String → Type ℓ) (P : Fields → Type κ)
      → ((out next : Fields) (p : String) → Q p → copy_path src out p ≡ ok next → P out → P next)
      → (paths : List String) (out done : Fields) → All Q paths
      → copy_allowed lower src out paths ≡ ok done
      → P out
      → P done
  unfolding copy_allowed
  copy_allowed_keeps Q P step [] out done qs h start = subst P (ok_path out done h) start
  copy_allowed_keeps Q P step (p ∷ paths) out done qs h start =
      let (next, wrote, rest) = copy_allowed_inv out done p paths h in
      copy_allowed_keeps Q P step paths next done qs.1 rest (step out next p qs.0 wrote start)

  -- A copied path leaves a part of the source.
  step-IsPart :
      (out next : Fields) (p : String)
      → copy_path src out p ≡ ok next
      → IsPart (object out) (object src)
      → IsPart (object next) (object src)
  step-IsPart out next p h part =
      let (next', wrote, part') = copy_path-IsPart src out p part in
      subst (λ fs. IsPart (object fs) (object src)) (ok_path next' next (sym wrote ∙ h)) part'

  -- At every path of the loop the output is the source.
  copy_allowed_agrees :
      (paths : List String) (out done : Fields)
      → copy_allowed lower src out paths ≡ ok done
      → IsPart (object out) (object src)
      → All (λ p. get (segments p) (object done) ≡ get (segments p) (object src)) paths
  copy_allowed_agrees [] out done h part = tt
  copy_allowed_agrees (p ∷ paths) out done h part =
      let (next, wrote, rest) = copy_allowed_inv out done p paths h in
      (
        copy_allowed_keeps (λ r. elem r paths ≡ true)
            (λ fs. get (segments p) (object fs) ≡ get (segments p) (object src))
            (λ a b r q. copy_path_kept src (segments p) a b r) paths next done (All-self paths) rest
            (copy_path_agrees src out next p part wrote),
        copy_allowed_agrees paths next done rest (step-IsPart out next p wrote part),
      )

  leaf_of_part :
      (out : Fields) (q : List String) (x : Value)
      → IsPart (object out) (object src)
      → get q (object out) ≡ some x
      → is_object x ≡ false
      → get q (object src) ≡ some x
  leaf_of_part out q x part e n = elim (part q x e) [ inl there ↦ there | inr (y, _, _) ↦ cc ]

  pub copy_allowed-IsProjection :
      (allowed : List String) (out : Fields)
      → copy_allowed lower src no_fields (ordered allowed) ≡ ok out
      → IsProjection src allowed out
  copy_allowed-IsProjection allowed out h =
      let part : IsPart (object out) (object src) =
        copy_allowed_keeps (λ p. elem p allowed ≡ true) (λ fs. IsPart (object fs) (object src))
          (λ a b p q. step-IsPart a b p) (ordered allowed) no_fields out (All-ordered allowed) h
          (no_fields-IsPart src) in
      let leaves : Leaves (IsAllowed allowed) (object out) =
        copy_allowed_keeps (λ p. elem p allowed ≡ true)
          (λ fs. Leaves (IsAllowed allowed) (object fs))
          (λ a b p q. copy_path-Leaves src allowed a b p q) (ordered allowed) no_fields out
          (All-ordered allowed) h (no_fields-Leaves (IsAllowed allowed)) in
      (
        (λ r.
            All-of_ordered (λ p. get (segments p) (object out) ≡ get (segments p) (object src))
              allowed r
              (copy_allowed_agrees (ordered allowed) no_fields out h (no_fields-IsPart src))),
        (λ q x e n. (leaf_of_part out q x part e n, leaves q x e n)),
      )

  -- What `_allowlisted_copy` returns is the projection of the source to the allowed paths: at each
  -- of them it holds what the source holds there, if anything, and each of its values that is no
  -- object is the source's at the same path, which is an allowed one or below one. It has no key of
  -- a denied family at any depth.
  pub allowlisted_copy_lem :
      (allowed : List String) (out : Fields)
      → allowlisted_copy lower src allowed ≡ ok out
      → IsProjection src allowed out × HasPublishableKeys lower out
  unfolding allowlisted_copy
  allowlisted_copy_lem allowed out h =
      let (found, copied, rest) =
        >>=-eq-ok (copy_allowed lower src no_fields (ordered allowed)) _ h in
      let (_, checked, same) = >>=-eq-ok (assert_public_payload lower found) _ rest in
      subst (λ fs. IsProjection src allowed fs × HasPublishableKeys lower fs)
        (ok_path found out same)
        (
          copy_allowed-IsProjection allowed found copied,
          (assert_public_payload_lem lower found).0 checked,
        )
