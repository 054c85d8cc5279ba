-- ===== src/Domain/Publication/Kept.antt =====
-- What `_copy_path` keeps of the target, and which leaves it adds.
use sira_seil_cockroach_aws.Domain.Json.{find, set_field, Value, object, Fields, no_fields}
use sira_seil_cockroach_aws.Domain.Publication.{get, enter, put}
use sira_seil_cockroach_aws.Domain.Publication.Copy.{
  is_object, get-set_field_self, get-set_field_ne, get_at, get_absent, get_inv, get_deeper,
  enter_inv, set_field_same,
}
use sira_seil_cockroach_aws.Base.{
  String, ◌≡◌, refl, sym, ap, subst, ◌∙◌, inl, inr, true, false, none, some, List, [], ◌∷◌, ◌++◌,
  some_path, text_cases, ok_path, >>=-eq-ok, ok,
}

-- The two halves of a copy below a key.
pub put_inv :
    (k j : String) (path : List String) (v : Value) (out next : Fields)
    → put k (j ∷ path) v out ≡ ok next
    → (sub done : Fields) × (enter (find k out) ≡ ok sub)
      × (put j path v sub ≡ ok done)
      × (set_field k (object done) out ≡ next)
put_inv k j path v out next h =
    let (sub, entered, rest) = >>=-eq-ok (enter (find k out)) _ h in
    let (done, wrote, same) = >>=-eq-ok (put j path v sub) _ rest in
    (sub, done, entered, wrote, ok_path _ _ same)

-- The value stands at the path that it was copied to.
pub put-get :
    (k : String) (path : List String) (v : Value) (out next : Fields)
    → put k path v out ≡ ok next
    → get (k ∷ path) (object next) ≡ some v
put-get k [] v out next h =
    subst (λ fs. get (k ∷ []) (object fs) ≡ some v) (ok_path _ _ h) (get-set_field_self k [] v out)
put-get k (j ∷ path) v out next h =
    let (sub, done, entered, wrote, same) = put_inv k j path v out next h in
    subst (λ fs. get (k ∷ j ∷ path) (object fs) ≡ some v) same
      (get-set_field_self k (j ∷ path) (object done) out ∙ put-get j path v sub done wrote)

-- Writing what is there changes nothing.
put_same :
    (k : String) (path : List String) (v : Value) (fs : Fields)
    → get (k ∷ path) (object fs) ≡ some v
    → put k path v fs ≡ ok fs
put_same k [] v fs h =
    let (w, e, same) = get_inv k [] v fs h in ap ok (set_field_same k v fs (e ∙ same))
put_same k (j ∷ path) v fs h =
    let (w, e, deeper) = get_inv k (j ∷ path) v fs h in
    let (gs, shape) = get_deeper j path v w deeper in
    let e' : find k fs ≡ some (object gs) = e ∙ ap some shape in
    let deeper' : get (j ∷ path) (object gs) ≡ some v =
      subst (λ x. get (j ∷ path) x ≡ some v) shape deeper in
    rw (e', put_same j path v gs deeper') (ap ok (set_field_same k (object gs) fs e'))

-- The object that is entered agrees with the source's where the target did.
object_path : (fs gs : Fields) → object fs ≡ object gs → fs ≡ gs
object_path fs gs h = cc

absent_below :
    (q : List String) (gs : Fields)
    → none ≡ get q (object gs)
    → get q (object no_fields) ≡ get q (object gs)
absent_below [] gs h = cc
absent_below (k ∷ q) gs h = h

enter_kept :
    (k : String) (q : List String) (out src sub gs : Fields)
    → enter (find k out) ≡ ok sub
    → find k src ≡ some (object gs)
    → get (k ∷ q) (object out) ≡ get (k ∷ q) (object src)
    → get q (object sub) ≡ get q (object gs)
enter_kept k q out src sub gs entered e agree = elim (enter_inv (find k out) sub entered) [
  | inl (absent, s) ↦
      subst (λ fs. get q (object fs) ≡ get q (object gs)) (sym s)
        (absent_below q gs (sym (get_absent k q out absent) ∙ agree ∙ get_at k q (object gs) src e))
  | inr here ↦ sym (get_at k q (object sub) out here) ∙ agree ∙ get_at k q (object gs) src e
]

set_field_kept :
    (j : String) (q : List String) (k : String) (u w : Value) (out src : Fields)
    → find k src ≡ some w
    → get (j ∷ q) (object out) ≡ get (j ∷ q) (object src)
    → (k ≡ j → get q u ≡ get q w)
    → get (j ∷ q) (object (set_field k u out)) ≡ get (j ∷ q) (object src)
set_field_kept j q k u w out src e agree below = elim (text_cases k j) [
  | inl (same, _) ↦
      subst (λ i. get (i ∷ q) (object (set_field k u out)) ≡ get (i ∷ q) (object src)) same
        (get-set_field_self k q u out ∙ below same ∙ sym (get_at k q w src e))
  | inr (_, n) ↦ get-set_field_ne k j q u out n ∙ agree
]

-- Where the target agrees with the source, it still does after any copy from that source.
pub put_kept :
    (q : List String) (k : String) (path : List String) (v : Value) (out src next : Fields)
    → get (k ∷ path) (object src) ≡ some v
    → put k path v out ≡ ok next
    → get q (object out) ≡ get q (object src)
    → get q (object next) ≡ get q (object src)
put_kept [] k path v out src next h wrote agree =
    let same : out ≡ src = object_path out src (some_path _ _ agree) in
    ap (λ fs. some (object fs))
      (ok_path next src (sym wrote ∙ ap (put k path v) same ∙ put_same k path v src h))
put_kept (j ∷ q) k [] v out src next h wrote agree =
    let (w, e, here) = get_inv k [] v src h in
    subst (λ fs. get (j ∷ q) (object fs) ≡ get (j ∷ q) (object src)) (ok_path _ _ wrote)
      (set_field_kept j q k v w out src e agree (λ _. ap (get q) (sym (some_path _ _ here))))
put_kept (j ∷ q) k (i ∷ path) v out src next h wrote agree =
    let (w, e, deeper) = get_inv k (i ∷ path) v src h in
    let (gs, shape) = get_deeper i path v w deeper in
    let e' : find k src ≡ some (object gs) = e ∙ ap some shape in
    let deeper' : get (i ∷ path) (object gs) ≡ some v =
      subst (λ x. get (i ∷ path) x ≡ some v) shape deeper in
    let (sub, done, entered, wrote', same) = put_inv k i path v out next wrote in
    let below : k ≡ j → get q (object done) ≡ get q (object gs) = λ at.
      put_kept q i path v sub gs done deeper' wrote' (
        enter_kept k q out src sub gs entered e'
          (subst (λ l. get (l ∷ q) (object out) ≡ get (l ∷ q) (object src)) (sym at) agree)) in
    subst (λ fs. get (j ∷ q) (object fs) ≡ get (j ∷ q) (object src)) same
      (set_field_kept j q k (object done) (object gs) out src e' agree below)

-- Every leaf of the value is at a path of the predicate.
abbrev pub Leaves {ℓ} : (List String → Type ℓ) → Value → Type ℓ
Leaves P u = (q : List String) (x : Value) → get q u ≡ some x → is_object x ≡ false → P q

root_is_no_leaf {ℓ} :
    {C : Type ℓ} (fs : Fields) (x : Value) → get [] (object fs) ≡ some x → is_object x ≡ false → C
root_is_no_leaf fs x h n =
    let e : is_object x ≡ true = subst (λ y. is_object y ≡ true) (some_path _ _ h) refl in cc

pub no_fields-Leaves {ℓ} : (P : List String → Type ℓ) → Leaves P (object no_fields)
no_fields-Leaves P [] x h n = root_is_no_leaf no_fields x h n
no_fields-Leaves P (k ∷ q) x h n = cc

set_field-Leaves {ℓ} :
    (P : List String → Type ℓ) (k : String) (u : Value) (out : Fields)
    → Leaves P (object out)
    → Leaves (λ q. P (k ∷ q)) u
    → Leaves P (object (set_field k u out))
set_field-Leaves P k u out old new [] x h n = root_is_no_leaf (set_field k u out) x h n
set_field-Leaves P k u out old new (j ∷ q) x h n = elim (text_cases k j) [
  | inl (same, _) ↦
      let h' : get (k ∷ q) (object (set_field k u out)) ≡ some x =
        subst (λ i. get (i ∷ q) (object (set_field k u out)) ≡ some x) (sym same) h in
      subst (λ i. P (i ∷ q)) same (new q x (sym (get-set_field_self k q u out) ∙ h') n)
  | inr (_, e) ↦ old (j ∷ q) x (sym (get-set_field_ne k j q u out e) ∙ h) n
]

enter-Leaves {ℓ} :
    (P : List String → Type ℓ) (k : String) (out sub : Fields)
    → Leaves P (object out)
    → enter (find k out) ≡ ok sub
    → Leaves (λ q. P (k ∷ q)) (object sub)
enter-Leaves P k out sub old entered = elim (enter_inv (find k out) sub entered) [
  | inl (_, e) ↦
      subst (λ fs. Leaves (λ q. P (k ∷ q)) (object fs)) (sym e) (no_fields-Leaves (λ q. P (k ∷ q)))
  | inr e ↦ λ q x h n. old (k ∷ q) x (get_at k q (object sub) out e ∙ h) n
]

-- A copy adds leaves at its path and below only.
pub put-Leaves {ℓ} :
    (P : List String → Type ℓ) (k : String) (path : List String) (v : Value) (out next : Fields)
    → Leaves P (object out)
    → ((r : List String) → P (k ∷ path ++ r))
    → put k path v out ≡ ok next
    → Leaves P (object next)
put-Leaves P k [] v out next old new wrote =
    subst (λ fs. Leaves P (object fs)) (ok_path _ _ wrote)
      (set_field-Leaves P k v out old (λ q x h n. new q))
put-Leaves P k (j ∷ path) v out next old new wrote =
    let (sub, done, entered, wrote', same) = put_inv k j path v out next wrote in
    subst (λ fs. Leaves P (object fs)) same
      (set_field-Leaves P k (object done) out old (
        put-Leaves (λ q. P (k ∷ q)) j path v sub done (enter-Leaves P k out sub old entered) new
          wrote'))
