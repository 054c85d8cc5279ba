-- ===== src/Domain/Publication/Steps.antt =====
-- One turn of the loop of `_allowlisted_copy`.
use sira_seil_cockroach_aws.Domain.Json.{Value, object, Fields}
use sira_seil_cockroach_aws.Domain.Publication.{split_path, get, put, copy_at, copy_path}
use sira_seil_cockroach_aws.Domain.Publication.Copy.{IsPart, put-IsPart}
use sira_seil_cockroach_aws.Domain.Publication.Kept.{put-get, put_kept, Leaves, put-Leaves}
use sira_seil_cockroach_aws.Base.{
  String, ◌≡◌, refl, sym, subst, ◌∙◌, ◌⊎◌, inl, inr, true, none, some, List, ◌∷◌, ◌++◌,
  Option-cases, elem, ok_path, ok,
}

-- The segments of a dotted path.
unfoldable pub segments : String → List String
segments path = let (k, rest) = split_path path in k ∷ rest

-- The path is an allowed one or below one.
abbrev pub IsAllowed : List String → List String → Type 0
IsAllowed allowed q =
    (p : String) × (elem p allowed ≡ true) × (r : List String) × (q ≡ segments p ++ r)

module _ (src : Fields) where
  pub copy_path-IsPart :
      (out : Fields) (p : String)
      → IsPart (object out) (object src)
      → (next : Fields) × (copy_path src out p ≡ ok next) × IsPart (object next) (object src)
  unfolding copy_path
  copy_path-IsPart out p part =
      let (k, path) = split_path p in
      elim (Option-cases (get (k ∷ path) (object src))) [
        | inl e ↦ (out, rw (copy_at, e) refl, part)
        | inr (v, e) ↦
            let (next, wrote, part') = put-IsPart k path v out src part e in
            (next, rw (copy_at, e) wrote, part')
      ]

  -- The two ways in which a path is copied.
  pub copy_path_inv :
      (out next : Fields) (p : String)
      → copy_path src out p ≡ ok next
      → (get (segments p) (object src) ≡ none) × (out ≡ next)
        ⊎ (v : Value) × (get (segments p) (object src) ≡ some v)
          × (put (split_path p).0 (split_path p).1 v out ≡ ok next)
  unfolding copy_path segments
  copy_path_inv out next p h =
      elim (Option-cases (get ((split_path p).0 ∷ (split_path p).1) (object src))) [
        | inl e ↦ inl (e, ok_path out next (rw (copy_at, e) at h))
        | inr (v, e) ↦ inr (v, e, rw (copy_at, e) at h)
      ]

  pub copy_path_kept :
      (q : List String) (out next : Fields) (p : String)
      → copy_path src out p ≡ ok next
      → get q (object out) ≡ get q (object src)
      → get q (object next) ≡ get q (object src)
  unfolding segments
  copy_path_kept q out next p h agree = elim (copy_path_inv out next p h) [
    | inl (_, same) ↦ subst (λ fs. get q (object fs) ≡ get q (object src)) same agree
    | inr (v, e, wrote) ↦ put_kept q (split_path p).0 (split_path p).1 v out src next e wrote agree
  ]

  absent_part :
      (q : List String) (out : Fields)
      → IsPart (object out) (object src)
      → get q (object src) ≡ none
      → get q (object out) ≡ none
  absent_part q out part absent = elim (Option-cases (get q (object out))) [
    | inl e ↦ e
    | inr (x, e) ↦ elim (part q x e) [ inl there ↦ cc | inr (_, _, there) ↦ cc ]
  ]

  pub copy_path_agrees :
      (out next : Fields) (p : String)
      → IsPart (object out) (object src)
      → copy_path src out p ≡ ok next
      → get (segments p) (object next) ≡ get (segments p) (object src)
  unfolding segments
  copy_path_agrees out next p part h = elim (copy_path_inv out next p h) [
    | inl (e, same) ↦
        subst (λ fs. get (segments p) (object fs) ≡ get (segments p) (object src)) same
          (absent_part (segments p) out part e ∙ sym e)
    | inr (v, e, wrote) ↦ put-get (split_path p).0 (split_path p).1 v out next wrote ∙ sym e
  ]

  pub copy_path-Leaves :
      (allowed : List String) (out next : Fields) (p : String)
      → elem p allowed ≡ true
      → copy_path src out p ≡ ok next
      → Leaves (IsAllowed allowed) (object out)
      → Leaves (IsAllowed allowed) (object next)
  unfolding segments
  copy_path-Leaves allowed out next p member h leaves = elim (copy_path_inv out next p h) [
    | inl (_, same) ↦ subst (λ fs. Leaves (IsAllowed allowed) (object fs)) same leaves
    | inr (v, _, wrote) ↦
        put-Leaves (IsAllowed allowed) (split_path p).0 (split_path p).1 v out next leaves
          (λ r. (p, member, r, refl)) wrote
  ]
