-- ===== src/Domain/Publication/Refused.antt =====
-- On which inputs `_allowlisted_copy` raises.
use sira_seil_cockroach_aws.Domain.Json.{find, set_field, Value, object, Fields, no_fields, field}
use sira_seil_cockroach_aws.Domain.Publication.{
  split_path, get, put, copy_path, is_denied_segment, prohibited_field, denied_fields,
  is_prohibited, copy_allowed, allowlisted_copy,
}
use sira_seil_cockroach_aws.Domain.Publication.Copy.{
  get_inv, get_deeper, no_fields-IsPart, enter_inv,
}
use sira_seil_cockroach_aws.Domain.Publication.Kept.{put_inv}
use sira_seil_cockroach_aws.Domain.Publication.Steps.{segments, copy_path_inv}
use sira_seil_cockroach_aws.Domain.Publication.Publishable.{
  IsPublishable, HasPublishableKeys, assert_public_payload_lem, assert_public_payload_cases,
}
use sira_seil_cockroach_aws.Domain.Publication.Published.{
  ordered, All-ordered, All-of_ordered, copy_allowed_cases, copy_allowed_keeps,
  copy_allowed-IsProjection,
}
use sira_seil_cockroach_aws.Base.{
  String, ◌≡◌, refl, sym, ap, subst, ◌∙◌, ◌↔◌, ◌⊎◌, inl, inr, true, false, some, List, [], ◌∷◌,
  ◌==◌, Bool-cases, some_path, either_false, All, elem, Error, ok_path, err_path, >>=-eq-ok, ok,
  err,
}

module _ (lower : String → String) where
  -- No allowed path has a denied segment.
  abbrev pub AreClean : List String → Type 0
  AreClean allowed =
      (p : String) → elem p allowed ≡ true → is_prohibited lower (split_path p) ≡ false

  -- Nothing that the source holds at an allowed path has a denied key.
  abbrev pub HasPublishableValues : Fields → List String → Type 0
  HasPublishableValues src allowed =
      (p : String) (v : Value)
      → elem p allowed ≡ true
      → get (segments p) (object src) ≡ some v
      → IsPublishable lower v

module _ (lower : String → String) (idempotent : (s : String) → lower (lower s) ≡ lower s) where
  -- A key is tested in lower case, a segment of a path as it is: to one effect.
  clean_key :
      (k : String) → is_denied_segment lower k ≡ false → is_denied_segment lower (lower k) ≡ false
  unfolding is_denied_segment
  clean_key k h = rw (idempotent k) h

  find-IsPublishable :
      (k : String) (v : Value) (fs : Fields)
      → HasPublishableKeys lower fs
      → find k fs ≡ some v
      → IsPublishable lower v
  find-IsPublishable k v no_fields h e = cc
  find-IsPublishable k v (field j w fs) (_, here, rest) e = elim (Bool-cases (j == k)) [
    | inl t ↦ subst (IsPublishable lower) (some_path w v (rw t at e)) here
    | inr t ↦ find-IsPublishable k v fs rest (rw t at e)
  ]

  -- A value within one without a denied key has none.
  get-IsPublishable :
      (q : List String) (v w : Value)
      → IsPublishable lower w
      → get q w ≡ some v
      → IsPublishable lower v
  get-IsPublishable [] v w h e = subst (IsPublishable lower) (some_path w v e) h
  get-IsPublishable (k ∷ q) v w h e =
      let (gs, shape) = get_deeper k q v w e in
      let e' : get (k ∷ q) (object gs) ≡ some v = subst (λ x. get (k ∷ q) x ≡ some v) shape e in
      let keys : HasPublishableKeys lower gs = subst (IsPublishable lower) shape h in
      let (x, there, below) = get_inv k q v gs e' in
      get-IsPublishable q v x (find-IsPublishable k x gs keys there) below

  set_field-HasPublishableKeys :
      (k : String) (v : Value) (fs : Fields)
      → is_denied_segment lower k ≡ false
      → IsPublishable lower v
      → HasPublishableKeys lower fs
      → HasPublishableKeys lower (set_field k v fs)
  set_field-HasPublishableKeys k v no_fields clean p h = (clean_key k clean, p, tt)
  set_field-HasPublishableKeys k v (field j w fs) clean p (c, here, rest) =
      elim (Bool-cases (j == k)) [
        | inl t ↦ rw t (c, p, rest)
        | inr t ↦ rw t (c, here, set_field-HasPublishableKeys k v fs clean p rest)
      ]

  put-HasPublishableKeys :
      (k : String) (path : List String) (v : Value) (out next : Fields)
      → is_prohibited lower (k, path) ≡ false
      → IsPublishable lower v
      → HasPublishableKeys lower out
      → put k path v out ≡ ok next
      → HasPublishableKeys lower next
  put-HasPublishableKeys k [] v out next clean p h e =
      let (here, _) = either_false (is_denied_segment lower k) false clean in
      subst (HasPublishableKeys lower) (ok_path _ _ e)
        (set_field-HasPublishableKeys k v out here p h)
  put-HasPublishableKeys k (j ∷ path) v out next clean p h e =
      let (here, below) = either_false (is_denied_segment lower k) _ clean in
      let (sub, done, entered, wrote, same) = put_inv k j path v out next e in
      let inner : HasPublishableKeys lower sub = elim (enter_inv (find k out) sub entered) [
        | inl (_, empty) ↦ subst (HasPublishableKeys lower) (sym empty) tt
        | inr there ↦ find-IsPublishable k (object sub) out h there
      ] in
      subst (HasPublishableKeys lower) same (
        set_field-HasPublishableKeys k (object done) out here
          (put-HasPublishableKeys j path v sub done below p inner wrote) h)

  module _ (src : Fields) where
    -- A run of the loop that succeeds met no prohibited path.
    copy_allowed_clean :
        (paths : List String) (out done : Fields)
        → copy_allowed lower src out paths ≡ ok done
        → All (λ p. is_prohibited lower (split_path p) ≡ false) paths
    unfolding copy_allowed
    copy_allowed_clean [] out done h = tt
    copy_allowed_clean (p ∷ paths) out done h =
        elim (Bool-cases (is_prohibited lower (split_path p))) [
          | inl e ↦ let h' = rw e at h in cc
          | inr e ↦
              let h' = rw e at h in
              let (next, _, rest) = >>=-eq-ok (copy_path src out p) _ h' in
              (e, copy_allowed_clean paths next done rest)
        ]

    copy_path-HasPublishableKeys :
        (allowed : List String)
        → AreClean lower allowed
        → HasPublishableValues lower src allowed
        → (out next : Fields) (p : String) → elem p allowed ≡ true
        → copy_path src out p ≡ ok next
        → HasPublishableKeys lower out
        → HasPublishableKeys lower next
    copy_path-HasPublishableKeys allowed clean values out next p member h keys =
        elim (copy_path_inv src out next p h) [
          | inl (_, same) ↦ subst (HasPublishableKeys lower) same keys
          | inr (v, e, wrote) ↦
              put-HasPublishableKeys (split_path p).0 (split_path p).1 v out next (clean p member)
                (values p v member e) keys wrote
        ]

    -- The copy has a denied key exactly when a copied value has one.
    copied_keys :
        (allowed : List String) (out : Fields)
        → AreClean lower allowed
        → copy_allowed lower src no_fields (ordered allowed) ≡ ok out
        → HasPublishableKeys lower out ↔ HasPublishableValues lower src allowed
    copied_keys allowed out clean h = (
      (λ keys p v member e.
          let (agree, _) = copy_allowed-IsProjection lower src allowed out h in
          get-IsPublishable (segments p) v (object out) keys (agree p member ∙ e)),
      (λ values.
          copy_allowed_keeps lower src (λ p. elem p allowed ≡ true) (HasPublishableKeys lower)
            (copy_path-HasPublishableKeys allowed clean values) (ordered allowed) no_fields out
            (All-ordered allowed) h tt),
    )

    -- What `_allowlisted_copy` does, by its loop.
    outcome :
        (allowed : List String)
        → (((p : String) × (elem p allowed ≡ true) × (is_prohibited lower (split_path p) ≡ true))
            × (allowlisted_copy lower src allowed ≡ err prohibited_field))
          ⊎ AreClean lower allowed
            × ((HasPublishableValues lower src allowed
                  × (out : Fields) × (allowlisted_copy lower src allowed ≡ ok out))
                ⊎ (¬ HasPublishableValues lower src allowed
                    × (allowlisted_copy lower src allowed ≡ err denied_fields)))
    unfolding allowlisted_copy
    outcome allowed =
        elim (copy_allowed_cases lower src (λ p. elem p allowed ≡ true) (ordered allowed) no_fields
          (All-ordered allowed) (no_fields-IsPart src)) [
            | inl (bad, raised) ↦ inl (bad, rw raised refl)
            | inr (out, copied) ↦
                let clean : AreClean lower allowed = λ p.
                  All-of_ordered (λ p. is_prohibited lower (split_path p) ≡ false) allowed p
                    (copy_allowed_clean (ordered allowed) no_fields out copied) in
                let (to, from) = copied_keys allowed out clean copied in
                let (passes, keyed) = assert_public_payload_lem lower out in
                inr (
                  clean,
                  elim (assert_public_payload_cases lower out) [
                    | inl passed ↦ inl (to (passes passed), out, rw (copied, passed) refl)
                    | inr stopped ↦ inr (
                      (λ values.
                          let clash : ok tt ≡ err denied_fields =
                            sym (keyed (from values)) ∙ stopped in
                          cc),
                      rw (copied, stopped) refl,
                    )
                  ],
                )
          ]

    -- `_allowlisted_copy` raises for one of two reasons only, and always then: an allowed path has a
    -- denied segment, with the error that names it; or no allowed path has one, and a value that the
    -- source holds at an allowed path has a denied key, with the error of the last check. This is
    -- for a `str.lower` that changes nothing the second time.
    pub allowlisted_copy_raises :
        (allowed : List String) (e : Error)
        → (allowlisted_copy lower src allowed ≡ err e) ↔ (
            (e ≡ prohibited_field)
              × ((p : String) × (elem p allowed ≡ true)
                  × (is_prohibited lower (split_path p) ≡ true))
            ⊎ (e ≡ denied_fields)
              × AreClean lower allowed
              × ¬ HasPublishableValues lower src allowed)
    allowlisted_copy_raises allowed e = elim (outcome allowed) [
      | inl ((p, member, bad), raised) ↦ (
        (λ h. inl (err_path e prohibited_field (sym h ∙ raised), (p, member, bad))),
        (λ why. elim why [
          | inl (same, _) ↦ raised ∙ ap err (sym same)
          | inr (_, clean, _) ↦ let clash : true ≡ false = sym bad ∙ clean p member in cc
        ]),
      )
      | inr (clean, inl (values, out, returned)) ↦ (
        (λ h. let clash : ok out ≡ err e = sym returned ∙ h in cc),
        (λ why. elim why [
          | inl (_, (p, member, bad)) ↦ let clash : true ≡ false = sym bad ∙ clean p member in cc
          | inr (_, _, leaks) ↦ absurd (leaks values)
        ]),
      )
      | inr (clean, inr (leaks, raised)) ↦ (
        (λ h. inr (err_path e denied_fields (sym h ∙ raised), clean, leaks)),
        (λ why. elim why [
          | inl (_, (p, member, bad)) ↦ let clash : true ≡ false = sym bad ∙ clean p member in cc
          | inr (same, _, _) ↦ raised ∙ ap err (sym same)
        ]),
      )
    ]
