-- ===== src/Base/Shuffle.antt =====
-- Rearrangements of a list, and when sorting forgets them.
use mathlib.Core.Path.{◌≡◌, refl, ap, ◌∙◌}
use mathlib.Core.Logic.{inl, inr}
use mathlib.Core.Bool.{Bool, true, false, ◌&&◌}
use mathlib.Core.List.{List, [], ◌∷◌}
use native.Mathlib.Omega.{arith}
use sira_seil_cockroach_aws.Base.Tests.{Bool-cases}
use sira_seil_cockroach_aws.Base.Lists.{All, All-map, select}
use sira_seil_cockroach_aws.Base.Sort.{place, sorted, IsSorted}
use sira_seil_cockroach_aws.Base.Lex.{TotalOrder}

-- The second list has the items of the first, as often, in some order.
pub data Shuffle {ℓ} {A : Type ℓ} : List A → List A → Type ℓ where
  same : Shuffle [] []
  keep : (x : A) {xs ys : List A} → Shuffle xs ys → Shuffle (x ∷ xs) (x ∷ ys)
  swap : (x y : A) (xs : List A) → Shuffle (x ∷ y ∷ xs) (y ∷ x ∷ xs)
  follow : {xs ys zs : List A} → Shuffle xs ys → Shuffle ys zs → Shuffle xs zs

module _ {ℓ} {A : Type ℓ} where
  pub Shuffle-refl : (xs : List A) → Shuffle xs xs
  Shuffle-refl [] = same
  Shuffle-refl (x ∷ xs) = keep x (Shuffle-refl xs)

  pub All-Shuffle {κ} : (P : A → Type κ) {xs ys : List A} → Shuffle xs ys → All P xs → All P ys
  All-Shuffle P same h = h
  All-Shuffle P (keep x s) h = (h.0, All-Shuffle P s h.1)
  All-Shuffle P (swap x y xs) h = (h.1.0, (h.0, h.1.1))
  All-Shuffle P (follow s t) h = All-Shuffle P t (All-Shuffle P s h)

  pub select-Shuffle :
      (p : A → Bool) {xs ys : List A} → Shuffle xs ys → Shuffle (select p xs) (select p ys)
  select-Shuffle p same = same
  select-Shuffle p (keep x s) = elim (Bool-cases (p x)) [
    | inl e ↦ rw e (keep x (select-Shuffle p s))
    | inr e ↦ rw e (select-Shuffle p s)
  ]
  select-Shuffle p (swap x y xs) = elim (Bool-cases (p x)) [
    | inl e ↦ elim (Bool-cases (p y)) [
      | inl f ↦ rw (e, f) (swap x y (select p xs))
      | inr f ↦ rw (e, f) (Shuffle-refl (x ∷ select p xs))
    ]
    | inr e ↦ elim (Bool-cases (p y)) [
      | inl f ↦ rw (e, f) (Shuffle-refl (y ∷ select p xs))
      | inr f ↦ rw (e, f) (Shuffle-refl (select p xs))
    ]
  ]
  select-Shuffle p (follow s t) = follow (select-Shuffle p s) (select-Shuffle p t)

  place-Shuffle : (le : A → A → Bool) (a : A) (xs : List A) → Shuffle (a ∷ xs) (place le a xs)
  place-Shuffle le a [] = keep a same
  place-Shuffle le a (x ∷ xs) = elim (Bool-cases (le a x)) [
    | inl e ↦ rw e (Shuffle-refl (a ∷ x ∷ xs))
    | inr e ↦ rw e (follow (swap a x xs) (keep x (place-Shuffle le a xs)))
  ]

  pub sorted_is_Shuffle : (le : A → A → Bool) (xs : List A) → Shuffle xs (sorted le xs)
  sorted_is_Shuffle le [] = same
  sorted_is_Shuffle le (x ∷ xs) =
      follow (keep x (sorted_is_Shuffle le xs)) (place-Shuffle le x (sorted le xs))

  pub All-select {κ} :
      (P : A → Type κ) (p : A → Bool) (xs : List A) → All P xs → All P (select p xs)
  All-select P p [] h = tt
  All-select P p (x ∷ xs) h = elim (Bool-cases (p x)) [
    | inl e ↦ rw e (h.0, All-select P p xs h.1)
    | inr e ↦ rw e (All-select P p xs h.1)
  ]

  -- A relation between any two places of a list.
  abbrev pub Pairwise {κ} : (A → A → Type κ) → List A → Type (ℓ ⊔ κ)
  Pairwise R [] = Unit
  Pairwise R (x ∷ xs) = All (R x) xs × Pairwise R xs

  pub IsSorted-Pairwise :
      (le : A → A → Bool) (xs : List A) → IsSorted le xs → Pairwise (λ a b. le a b ≡ true) xs
  IsSorted-Pairwise le [] h = tt
  IsSorted-Pairwise le (x ∷ xs) h = (h.0, IsSorted-Pairwise le xs h.1)

  pub Pairwise-map {κ μ} :
      (R : A → A → Type κ) (S : A → A → Type μ)
      → ((x y : A) → R x y → S x y)
      → (xs : List A) → Pairwise R xs
      → Pairwise S xs
  Pairwise-map R S f [] h = tt
  Pairwise-map R S f (x ∷ xs) h = (All-map (R x) (S x) (f x) xs h.0, Pairwise-map R S f xs h.1)

  pub Pairwise-select {κ} :
      (R : A → A → Type κ) (p : A → Bool) (xs : List A) → Pairwise R xs → Pairwise R (select p xs)
  Pairwise-select R p [] h = tt
  Pairwise-select R p (x ∷ xs) h = elim (Bool-cases (p x)) [
    | inl e ↦ rw e (All-select (R x) p xs h.0, Pairwise-select R p xs h.1)
    | inr e ↦ rw e (Pairwise-select R p xs h.1)
  ]

  -- A symmetric relation holds between any two places of a rearrangement.
  pub Pairwise-Shuffle {κ} :
      (R : A → A → Type κ)
      → ((x y : A) → R x y → R y x)
      → {xs ys : List A} → Shuffle xs ys
      → Pairwise R xs
      → Pairwise R ys
  Pairwise-Shuffle R sym same h = h
  Pairwise-Shuffle R sym (keep x s) h = (All-Shuffle (R x) s h.0, Pairwise-Shuffle R sym s h.1)
  Pairwise-Shuffle R sym (swap x y xs) h = ((sym x y h.0.0, h.1.0), (h.0.1, h.1.1))
  Pairwise-Shuffle R sym (follow s t) h = Pairwise-Shuffle R sym t (Pairwise-Shuffle R sym s h)

module _ {ℓ} {A : Type ℓ} (o : TotalOrder A) where
  -- The order tells the two apart.
  abbrev pub IsApart : A → A → Type 0
  IsApart a b = (o.le a b && o.le b a) ≡ false

  IsApart-sym : (a b : A) → IsApart a b → IsApart b a
  IsApart-sym a b h = ground arith

  place-place :
      (a b : A) (xs : List A)
      → IsApart a b
      → place o.le a (place o.le b xs) ≡ place o.le b (place o.le a xs)
  place-place a b [] h = ground (arith, o.total a b)
  place-place a b (x ∷ xs) h =
      ground (arith, o.total a b, o.trans a b x, o.trans b a x, place-place a b xs h)

  -- Sorting forgets the order of items that the order tells apart.
  pub sorted-Shuffle :
      {xs ys : List A} → Shuffle xs ys → Pairwise IsApart xs → sorted o.le xs ≡ sorted o.le ys
  sorted-Shuffle same h = refl
  sorted-Shuffle (keep x s) h = ap (place o.le x) (sorted-Shuffle s h.1)
  sorted-Shuffle (swap x y xs) h = place-place x y (sorted o.le xs) h.0.0
  sorted-Shuffle (follow s t) h =
      sorted-Shuffle s h ∙ sorted-Shuffle t (Pairwise-Shuffle IsApart IsApart-sym s h)
