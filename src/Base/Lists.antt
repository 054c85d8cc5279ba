-- ===== src/Base/Lists.antt =====
-- Lists measured by native numbers, sets of texts as lists, and predicates on lists by recursion.
use Prim.Native.Nat.{ℕ, suc, ◌≤◌}
use Prim.Native.String.{String}
use mathlib.Core.Path.{◌≡◌, refl, subst}
use mathlib.Core.Logic.{inl, inr}
use mathlib.Core.Bool.{Bool, true, false, ◌||◌, ◌&&◌}
use mathlib.Core.List.{List, [], ◌∷◌, ◌++◌}
use native.Mathlib.Omega.{arith}
use text.Mathlib.TextEquality.{eq_iff}
use sira_seil_cockroach_aws.Base.Tests.{◌==◌, if◌then◌else◌, text_cases}

module _ {ℓ} {A : Type ℓ} where
  abbrev pub length : List A → ℕ
  length [] = 0
  length (x ∷ xs) = suc (length xs)

  -- `[x for x in xs if p(x)]`
  abbrev pub select : (A → Bool) → List A → List A
  select p [] = []
  select p (x ∷ xs) = let rest = select p xs in if p x then x ∷ rest else rest

  -- `any(p(x) for x in xs)`
  abbrev pub any : (A → Bool) → List A → Bool
  any p [] = false
  any p (x ∷ xs) = p x || any p xs

  -- `all(p(x) for x in xs)`
  abbrev pub all : (A → Bool) → List A → Bool
  all p [] = true
  all p (x ∷ xs) = p x && all p xs

  abbrev pub is_empty : List A → Bool
  is_empty [] = true
  is_empty (x ∷ xs) = false

  -- Every item satisfies the predicate.
  abbrev pub All {κ} : (A → Type κ) → List A → Type κ
  All P [] = Unit
  All P (x ∷ xs) = P x × All P xs

  pub All-map {κ μ} :
      (P : A → Type κ) (Q : A → Type μ)
      → ((a : A) → P a → Q a)
      → (xs : List A) → All P xs
      → All Q xs
  All-map P Q f [] h = tt
  All-map P Q f (x ∷ xs) h = (f x h.0, All-map P Q f xs h.1)

  pub All-append {κ} : (P : A → Type κ) (xs ys : List A) → All P xs → All P ys → All P (xs ++ ys)
  All-append P [] ys h k = k
  All-append P (x ∷ xs) ys h k = (h.0, All-append P xs ys h.1 k)

  pub All-zip {κ μ} :
      (P : A → Type κ) (Q : A → Type μ) (xs : List A)
      → All P xs
      → All Q xs
      → All (λ x. P x × Q x) xs
  All-zip P Q [] h k = tt
  All-zip P Q (x ∷ xs) h k = ((h.0, k.0), All-zip P Q xs h.1 k.1)

-- `k in xs`, for a set or a tuple of texts
abbrev pub elem : String → List String → Bool
elem k [] = false
elem k (x ∷ xs) = x == k || elem k xs

-- `set(xs)`: each text once
abbrev pub set_of : List String → List String
set_of [] = []
set_of (x ∷ xs) = let rest = set_of xs in if elem x rest then rest else x ∷ rest

-- No text stands twice in the list.
abbrev pub Distinct : List String → Type 0
Distinct [] = Unit
Distinct (x ∷ xs) = (elem x xs ≡ false) × Distinct xs

pub elem-append : (k : String) (xs ys : List String) → elem k (xs ++ ys) ≡ (elem k xs || elem k ys)
elem-append k [] ys = refl
elem-append k (x ∷ xs) ys = ground (arith, elem-append k xs ys)

pub elem-set_of : (k : String) (xs : List String) → elem k (set_of xs) ≡ elem k xs
elem-set_of k [] = refl
elem-set_of k (x ∷ xs) = ground (arith, elem-set_of k xs, elem-set_of x xs, eq_iff x k)

pub length-set_of : (xs : List String) → length (set_of xs) ≤ length xs
length-set_of [] = omega arith
length-set_of (x ∷ xs) = ground (arith, length-set_of xs)

-- `len(set(xs)) == len(xs)` says exactly that no text stands twice.
pub set_of-Distinct : (xs : List String) → length (set_of xs) ≡ length xs → Distinct xs
set_of-Distinct [] h = tt
set_of-Distinct (x ∷ xs) h = ground (arith, length-set_of xs, elem-set_of x xs, set_of-Distinct xs)

pub Distinct-set_of : (xs : List String) → Distinct xs → length (set_of xs) ≡ length xs
Distinct-set_of [] h = refl
Distinct-set_of (x ∷ xs) h = ground (arith, elem-set_of x xs, Distinct-set_of xs h.1)

pub elem_head : (x : String) (xs : List String) → elem x (x ∷ xs) ≡ true
elem_head x xs = ground (arith, eq_iff x x)

pub elem_tail : (x y : String) (xs : List String) → elem x xs ≡ true → elem x (y ∷ xs) ≡ true
elem_tail x y xs h = ground arith

-- What holds of every text in the list holds of one that is in it.
pub All_at {ℓ} :
    (P : String → Type ℓ) (xs : List String) (x : String) → All P xs → elem x xs ≡ true → P x
All_at P [] x h k = cc
All_at P (y ∷ xs) x h k = elim (text_cases y x) [
  | inl (e, _) ↦ subst P e h.0
  | inr (_, n) ↦ All_at P xs x h.1 (rw n at k)
]

pub All-self : (xs : List String) → All (λ x. elem x xs ≡ true) xs
All-self [] = tt
All-self (x ∷ xs) = (
  elem_head x xs,
  All-map (λ y. elem y xs ≡ true) (λ y. elem y (x ∷ xs) ≡ true) (λ y h. elem_tail y x xs h) xs
      (All-self xs),
)
