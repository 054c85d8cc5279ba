-- ===== src/Domain/Publication/Copy.antt =====
-- What `_copy_path` writes: the invariants of a target that is copied, path by path, from a source.
use sira_seil_cockroach_aws.Domain.Json.{
  find-set_field, find, set_field, Value, scalar, array, object, Fields, no_fields, field,
}
use sira_seil_cockroach_aws.Domain.Publication.{put, enter, get}
use sira_seil_cockroach_aws.Base.{
  String, ◌≡◌, refl, sym, ap, subst, ◌∙◌, ◌⊎◌, inl, inr, Bool, true, false, Option, none, some,
  List, [], ◌∷◌, arith, eq_iff, ◌==◌, Option-cases, some_path, text_cases, text_eq_self, ok_path,
  ok,
}

abbrev pub is_object : Value → Bool
is_object (object fs) = true
is_object (scalar s) = false
is_object (array xs) = false

pub set_field_same :
    (k : String) (v : Value) (fs : Fields) → find k fs ≡ some v → set_field k v fs ≡ fs
set_field_same k v no_fields h = cc
set_field_same k v (field j w fs) h = ground (arith, eq_iff j k, set_field_same k v fs)

pub get-set_field_self :
    (k : String) (path : List String) (v : Value) (fs : Fields)
    → get (k ∷ path) (object (set_field k v fs)) ≡ get path v
get-set_field_self k path v fs = rw (get, find-set_field k k v fs, text_eq_self k) refl

pub get-set_field_ne :
    (k j : String) (path : List String) (v : Value) (fs : Fields)
    → (k == j) ≡ false
    → get (j ∷ path) (object (set_field k v fs)) ≡ get (j ∷ path) (object fs)
get-set_field_ne k j path v fs h = rw (get, find-set_field k j v fs, h) refl

pub get_at :
    (k : String) (path : List String) (v : Value) (fs : Fields)
    → find k fs ≡ some v
    → get (k ∷ path) (object fs) ≡ get path v
get_at k path v fs h = rw (get, h) refl

pub get_absent :
    (k : String) (path : List String) (fs : Fields)
    → find k fs ≡ none
    → get (k ∷ path) (object fs) ≡ none
get_absent k path fs h = rw (get, h) refl

-- Inversion of a read that succeeds.
pub get_inv :
    (k : String) (path : List String) (v : Value) (fs : Fields)
    → get (k ∷ path) (object fs) ≡ some v
    → (w : Value) × (find k fs ≡ some w) × (get path w ≡ some v)
get_inv k path v fs h = elim (Option-cases (find k fs)) [
  | inl e ↦ let clash : none ≡ some v = sym (get_absent k path fs e) ∙ h in cc
  | inr (w, e) ↦ (w, e, sym (get_at k path w fs e) ∙ h)
]

-- A value with a key below it is an object.
pub get_deeper :
    (k : String) (path : List String) (v w : Value)
    → get (k ∷ path) w ≡ some v
    → (gs : Fields) × (w ≡ object gs)
get_deeper k path v (scalar s) h = cc
get_deeper k path v (array xs) h = cc
get_deeper k path v (object gs) h = (gs, refl)

-- The two ways in which `setdefault` returns an object.
pub enter_inv :
    (o : Option Value) (sub : Fields)
    → enter o ≡ ok sub
    → (o ≡ none) × (sub ≡ no_fields) ⊎ (o ≡ some (object sub))
enter_inv none sub h = inl (refl, sym (ok_path no_fields sub h))
enter_inv (some (object fs)) sub h = inr (ap (λ x. some (object x)) (ok_path fs sub h))
enter_inv (some (scalar s)) sub h = cc
enter_inv (some (array xs)) sub h = cc

-- Whatever the first value holds at a path, the second holds there too; only objects may be larger.
abbrev pub IsPart : Value → Value → Type 0
IsPart u w =
    (q : List String) (x : Value)
    → get q u ≡ some x
    → (get q w ≡ some x) ⊎ (is_object x ≡ true) × (gs : Fields) × (get q w ≡ some (object gs))

pub no_fields-IsPart : (gs : Fields) → IsPart (object no_fields) (object gs)
no_fields-IsPart gs [] x h = inr (subst (λ y. is_object y ≡ true) (some_path _ _ h) refl, gs, refl)
no_fields-IsPart gs (k ∷ q) x h = cc

set_field-IsPart :
    (k : String) (u w : Value) (out src : Fields)
    → IsPart (object out) (object src)
    → find k src ≡ some w
    → IsPart u w
    → IsPart (object (set_field k u out)) (object src)
set_field-IsPart k u w out src part e below [] x h =
    inr (subst (λ y. is_object y ≡ true) (some_path _ _ h) refl, src, refl)
set_field-IsPart k u w out src part e below (j ∷ q) x h = elim (text_cases k j) [
  | inl (same, _) ↦
      let here : find j src ≡ some w = subst (λ i. find i src ≡ some w) same e in
      let read : get (j ∷ q) (object src) ≡ get q w = get_at j q w src here in
      let h' : get (j ∷ q) (object (set_field j u out)) ≡ some x =
        subst (λ i. get (j ∷ q) (object (set_field i u out)) ≡ some x) same h in
      elim (below q x (sym (get-set_field_self j q u out) ∙ h')) [
        | inl p ↦ inl (read ∙ p)
        | inr (n, gs, p) ↦ inr (n, gs, read ∙ p)
      ]
  | inr (_, n) ↦ part (j ∷ q) x (sym (get-set_field_ne k j q u out n) ∙ h)
]

object_inv : (v : Value) → is_object v ≡ true → (fs : Fields) × (v ≡ object fs)
object_inv (object fs) h = (fs, refl)
object_inv (scalar s) h = cc
object_inv (array xs) h = cc

below-IsPart :
    (k : String) (u w : Value) (out src : Fields)
    → IsPart (object out) (object src)
    → find k out ≡ some u
    → find k src ≡ some w
    → IsPart u w
below-IsPart k u w out src part here there q x h =
    let read : get (k ∷ q) (object src) ≡ get q w = get_at k q w src there in
    elim (part (k ∷ q) x (get_at k q u out here ∙ h)) [
      | inl p ↦ inl (sym read ∙ p)
      | inr (n, gs, p) ↦ inr (n, gs, sym read ∙ p)
    ]

-- Where the source has an object, the target has a part of one.
target_is_object :
    (k : String) (u : Value) (out src gs : Fields)
    → IsPart (object out) (object src)
    → find k out ≡ some u
    → find k src ≡ some (object gs)
    → is_object u ≡ true
target_is_object k u out src gs part here there =
    elim (below-IsPart k u (object gs) out src part here there [] u refl) [
      | inl p ↦ subst (λ y. is_object y ≡ true) (some_path _ _ p) refl
      | inr (n, _, _) ↦ n
    ]

enter-IsPart :
    (k : String) (out src gs : Fields)
    → IsPart (object out) (object src)
    → find k src ≡ some (object gs)
    → (sub : Fields) × (enter (find k out) ≡ ok sub) × IsPart (object sub) (object gs)
enter-IsPart k out src gs part e = elim (Option-cases (find k out)) [
  | inl absent ↦ (no_fields, ap enter absent, no_fields-IsPart gs)
  | inr (u, here) ↦
      let (fs, shape) = object_inv u (target_is_object k u out src gs part here e) in
      let here' : find k out ≡ some (object fs) = here ∙ ap some shape in
      (fs, ap enter here', below-IsPart k (object fs) (object gs) out src part here' e)
]

-- `_copy_path` of a value that the source has finds an object at every step, and leaves a part of
-- the source.
pub put-IsPart :
    (k : String) (path : List String) (v : Value) (out src : Fields)
    → IsPart (object out) (object src)
    → get (k ∷ path) (object src) ≡ some v
    → (next : Fields) × (put k path v out ≡ ok next) × IsPart (object next) (object src)
put-IsPart k [] v out src part h =
    let (w, e, same) = get_inv k [] v src h in
    (set_field k v out, refl, set_field-IsPart k v v out src part (e ∙ same) (λ q x p. inl p))
put-IsPart k (j ∷ path) v out src part h =
    let (w, e, deeper) = get_inv k (j ∷ path) v src h in
    let (gs, shape) = get_deeper j path v w deeper in
    let e' : find k src ≡ some (object gs) = e ∙ ap some shape in
    let (sub, entered, part') = enter-IsPart k out src gs part e' in
    let (done, wrote, part'') =
      put-IsPart j path v sub gs part' (subst (λ x. get (j ∷ path) x ≡ some v) shape deeper) in
    (
      set_field k (object done) out,
      rw (entered, wrote) refl,
      set_field-IsPart k (object done) (object gs) out src part e' part'',
    )
