-- ===== src/Contracts/Disclosure.antt =====
-- The loop of `ReleaseManifest.release`, and the keys that its last check lets through.
use sira_seil_cockroach_aws.Base.Dict.{Dict}
use sira_seil_cockroach_aws.Domain.Json.{
  find-set_field, set_field, Value, scalar, array, object, Items, no_items, item, Fields, no_fields,
  field, find,
}
use sira_seil_cockroach_aws.Contracts.{
  private_key, private_plane, assert_public_tree, assert_public_items, assert_public_entries,
}
use sira_seil_cockroach_aws.Contracts.Manifest.{
  select_fields, Transformation, identity, lowercase, redact, transformation_of, lowered, redacted,
  transform, read,
}
use sira_seil_cockroach_aws.Base.{
  String, ◌≡◌, refl, sym, ap, subst, ◌∙◌, inl, inr, true, false, Option, some, List, [], ◌∷◌, ◌==◌,
  if◌then◌else◌, Bool-cases, Option-cases, some_path, text_cases, text_eq_self, All, elem, ok_path,
  >>=-eq-ok, ◌>>◌, raise_if-eq-ok, contract_violation, key_error, ok, err,
}

-- No key of the value, at any depth, is a private one.
module _ (casefold : String → String) where
  abbrev mutual
    pub IsPublicTree : Value → Type 0
    IsPublicTree (scalar s) = Unit
    IsPublicTree (array xs) = ArePublicTrees xs
    IsPublicTree (object fs) = HasPublicNames fs

    pub ArePublicTrees : Items → Type 0
    ArePublicTrees no_items = Unit
    ArePublicTrees (item x xs) = IsPublicTree x × ArePublicTrees xs

    pub HasPublicNames : Fields → Type 0
    HasPublicNames no_fields = Unit
    HasPublicNames (field k v fs) =
        (private_key casefold k ≡ false) × IsPublicTree v × HasPublicNames fs

  mutual
    unfolding assert_public_tree

    IsPublicTree-value : (v : Value) → assert_public_tree casefold v ≡ ok tt → IsPublicTree v
    IsPublicTree-value (scalar s) h = tt
    IsPublicTree-value (array xs) h = public_trees xs h
    IsPublicTree-value (object fs) h = public_names fs h

    public_trees : (xs : Items) → assert_public_items casefold xs ≡ ok tt → ArePublicTrees xs
    public_trees no_items h = tt
    public_trees (item x xs) h =
        let (_, p, q) =
          >>=-eq-ok (assert_public_tree casefold x) (λ _. assert_public_items casefold xs) h in
        (IsPublicTree-value x p, public_trees xs q)

    pub public_names : (fs : Fields) → assert_public_entries casefold fs ≡ ok tt → HasPublicNames fs
    public_names no_fields h = tt
    public_names (field k v fs) h =
        let (a, r) =
          raise_if-eq-ok (private_key casefold k) private_plane
            (assert_public_tree casefold v >> assert_public_entries casefold fs) h in
        let (_, p, q) =
          >>=-eq-ok (assert_public_tree casefold v) (λ _. assert_public_entries casefold fs) r in
        (a, IsPublicTree-value v p, public_names fs q)

-- What a transformation makes of a value.
pub data IsShown (lower : String → Option String) : Transformation → Value → Value → Type 0 where
  as_is : (v : Value) → IsShown lower identity v v
  in_lower_case : (v w : Value) → lowered lower v ≡ some w → IsShown lower lowercase v w
  hidden : (v : Value) → IsShown lower redact v redacted

module _ (lower : String → Option String) (ts : Dict Transformation) (source : Fields) where
  -- The field is disclosed as its transformation says.
  abbrev pub IsDisclosed : String → Value → Type 0
  IsDisclosed name w =
      (v : Value) × (find name source ≡ some v) × IsShown lower (transformation_of ts name) v w

  transform-IsShown :
      (t : Transformation) (v w : Value) → transform lower t v ≡ ok w → IsShown lower t v w
  transform-IsShown identity v w h =
      subst (λ x. IsShown lower identity v x) (ok_path v w h) (as_is v)
  transform-IsShown redact v w h =
      subst (λ x. IsShown lower redact v x) (ok_path redacted w h) (hidden v)
  transform-IsShown lowercase v w h = elim (Option-cases (lowered lower v)) [
    | inl e ↦
        let clash : err (contract_violation "LOWERCASE transformation requires text") ≡ ok w =
          rw (e, transform) at h in
        cc
    | inr (x, e) ↦ in_lower_case v w (e ∙ ap some (ok_path x w (rw (e, transform) at h)))
  ]

  read_inv : (name : String) (v : Value) → read source name ≡ ok v → find name source ≡ some v
  read_inv name v h = elim (Option-cases (find name source)) [
    | inl e ↦ let clash : err key_error ≡ ok v = rw (e, read) at h in cc
    | inr (w, e) ↦ e ∙ ap some (ok_path w v (rw (e, read) at h))
  ]

  -- Every field of the selection is one of the named ones, as it is to be disclosed.
  abbrev pub AreDisclosed : List String → Fields → Type 0
  AreDisclosed names fs =
      (name : String) (w : Value)
      → find name fs ≡ some w
      → (elem name names ≡ true) × IsDisclosed name w

  set_field-AreDisclosed :
      (names : List String) (name : String) (w : Value) (fs : Fields)
      → elem name names ≡ true
      → IsDisclosed name w
      → AreDisclosed names fs
      → AreDisclosed names (set_field name w fs)
  set_field-AreDisclosed names name w fs member shown old j x h = elim (text_cases name j) [
    | inl (same, e) ↦
        let found : (if name == j then some w else find j fs) ≡ some x =
          sym (find-set_field name j w fs) ∙ h in
        let value : w ≡ x = some_path w x (rw e at found) in
        subst (λ i. (elem i names ≡ true) × IsDisclosed i x) same
          (member, subst (λ y. IsDisclosed name y) value shown)
    | inr (_, e) ↦
        let found : (if name == j then some w else find j fs) ≡ some x =
          sym (find-set_field name j w fs) ∙ h in
        old j x (rw e at found)
  ]

  -- A turn of the loop.
  select_inv :
      (name : String) (names : List String) (fs done : Fields)
      → select_fields lower ts source (name ∷ names) fs ≡ ok done
      → (w : Value) × IsDisclosed name w
        × (select_fields lower ts source names (set_field name w fs) ≡ ok done)
  unfolding select_fields
  select_inv name names fs done h =
      let (v, found, rest) = >>=-eq-ok (read source name) _ h in
      let (w, made, rest') = >>=-eq-ok (transform lower (transformation_of ts name) v) _ rest in
      (w, (v, read_inv name v found, transform-IsShown (transformation_of ts name) v w made), rest')

  pub select-AreDisclosed :
      (allowed names : List String) (fs done : Fields)
      → All (λ name. elem name allowed ≡ true) names
      → AreDisclosed allowed fs
      → select_fields lower ts source names fs ≡ ok done
      → AreDisclosed allowed done
  unfolding select_fields
  select-AreDisclosed allowed [] fs done members old h =
      subst (AreDisclosed allowed) (ok_path fs done h) old
  select-AreDisclosed allowed (name ∷ names) fs done members old h =
      let (w, shown, rest) = select_inv name names fs done h in
      select-AreDisclosed allowed names (set_field name w fs) done members.1
        (set_field-AreDisclosed allowed name w fs members.0 shown old) rest

  find-some-set_field :
      (k j : String) (v : Value) (fs : Fields)
      → (w : Value) × (find j fs ≡ some w)
      → (w : Value) × (find j (set_field k v fs) ≡ some w)
  find-some-set_field k j v fs (w, h) = elim (Bool-cases (k == j)) [
    | inl e ↦ (v, find-set_field k j v fs ∙ rw e refl)
    | inr e ↦ (w, find-set_field k j v fs ∙ rw e h)
  ]

  -- What is selected once stays.
  select_kept :
      (name : String) (names : List String) (fs done : Fields)
      → (w : Value) × (find name fs ≡ some w)
      → select_fields lower ts source names fs ≡ ok done
      → (w : Value) × (find name done ≡ some w)
  unfolding select_fields
  select_kept name [] fs done old h =
      subst (λ x. (w : Value) × (find name x ≡ some w)) (ok_path fs done h) old
  select_kept name (other ∷ names) fs done old h =
      let (w, shown, rest) = select_inv other names fs done h in
      select_kept name names (set_field other w fs) done (find-some-set_field other name w fs old)
        rest

  pub select-All :
      (names : List String) (fs done : Fields)
      → select_fields lower ts source names fs ≡ ok done
      → All (λ name. (w : Value) × (find name done ≡ some w)) names
  select-All [] fs done h = tt
  select-All (name ∷ names) fs done h =
      let (w, shown, rest) = select_inv name names fs done h in
      (
        select_kept name names (set_field name w fs) done
            (w, find-set_field name name w fs ∙ rw (text_eq_self name) refl) rest,
        select-All names (set_field name w fs) done rest,
      )
