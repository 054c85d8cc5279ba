-- ===== src/Base/Sort.antt =====
-- Python's `sorted`, as the stable insertion sort by a Boolean "not after".
use mathlib.Core.Path.{◌≡◌}
use mathlib.Core.Logic.{inl, inr}
use mathlib.Core.Bool.{Bool, true, false}
use mathlib.Core.List.{List, [], ◌∷◌}
use sira_seil_cockroach_aws.Base.Tests.{if◌then◌else◌, Bool-cases}
use sira_seil_cockroach_aws.Base.Lists.{All, All-map}

module _ {ℓ} {A : Type ℓ} (le : A → A → Bool) where
  abbrev pub place : A → List A → List A
  place a [] = a ∷ []
  place a (x ∷ xs) = if le a x then a ∷ x ∷ xs else x ∷ place a xs

  abbrev pub sorted : List A → List A
  sorted [] = []
  sorted (x ∷ xs) = place x (sorted xs)

  -- Each item is not after any later one.
  abbrev pub IsSorted : List A → Type ℓ
  IsSorted [] = Unit
  IsSorted (x ∷ xs) = All (λ y. le x y ≡ true) xs × IsSorted xs

  pub All-place {κ} : (P : A → Type κ) (a : A) (xs : List A) → P a → All P xs → All P (place a xs)
  All-place P a [] h k = (h, tt)
  All-place P a (x ∷ xs) h k = elim (Bool-cases (le a x)) [
    | inl e ↦ rw e (h, k)
    | inr e ↦ rw e (k.0, All-place P a xs h k.1)
  ]

  -- Sorting keeps what holds of every item.
  pub All-sorted {κ} : (P : A → Type κ) (xs : List A) → All P xs → All P (sorted xs)
  All-sorted P [] h = tt
  All-sorted P (x ∷ xs) h = All-place P x (sorted xs) h.0 (All-sorted P xs h.1)

  pub All-of_place {κ} :
      (P : A → Type κ) (a : A) (xs : List A) → All P (place a xs) → P a × All P xs
  All-of_place P a [] h = h
  All-of_place P a (x ∷ xs) h = elim (Bool-cases (le a x)) [
    | inl e ↦ rw e at h
    | inr e ↦
        let h' : All P (x ∷ place a xs) = rw e at h in
        let (p, q) = All-of_place P a xs h'.1 in (p, (h'.0, q))
  ]

  -- What holds of every sorted item holds of every item.
  pub All-of_sorted {κ} : (P : A → Type κ) (xs : List A) → All P (sorted xs) → All P xs
  All-of_sorted P [] h = tt
  All-of_sorted P (x ∷ xs) h =
      let (p, q) = All-of_place P x (sorted xs) h in (p, All-of_sorted P xs q)

  module _ (total : (a b : A) → le a b ≡ false → le b a ≡ true)
      (trans : (a b c : A) → le a b ≡ true → le b c ≡ true → le a c ≡ true) where
    place-IsSorted : (a : A) (xs : List A) → IsSorted xs → IsSorted (place a xs)
    place-IsSorted a [] h = (tt, tt)
    place-IsSorted a (x ∷ xs) h = elim (Bool-cases (le a x)) [
      | inl e ↦ rw e (
        (e, All-map (λ y. le x y ≡ true) (λ y. le a y ≡ true) (λ y q. trans a x y e q) xs h.0),
        h,
      )
      | inr e ↦
          rw e (All-place (λ y. le x y ≡ true) a xs (total a x e) h.0, place-IsSorted a xs h.1)
    ]

    pub sorted-IsSorted : (xs : List A) → IsSorted (sorted xs)
    sorted-IsSorted [] = tt
    sorted-IsSorted (x ∷ xs) = place-IsSorted x (sorted xs) (sorted-IsSorted xs)
