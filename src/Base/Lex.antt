-- ===== src/Base/Lex.antt =====
-- Total preorders by a Boolean test, and Python's comparison of tuples as one of them.
use Prim.Native.Nat.{ℕ}
use Prim.Native.String.{String}
use mathlib.Core.Path.{◌≡◌, refl}
use mathlib.Core.Logic.{◌⊎◌, inl, inr}
use mathlib.Core.Bool.{Bool, true, false, not, ◌&&◌, ◌||◌}
use mathlib.Core.List.{List, [], ◌∷◌}
use native.Mathlib.Omega.{arith}
use sira_seil_cockroach_aws.Base.Tests.{leb, Bool-cases}
use sira_seil_cockroach_aws.Base.Order.{text_le, text_le_total, text_le_trans}

pub record TotalOrder {ℓ} (A : Type ℓ) : Type ℓ where
  pub le : A → A → Bool
  pub total : (a b : A) → le a b ≡ false → le b a ≡ true
  pub trans : (a b c : A) → le a b ≡ true → le b c ≡ true → le a c ≡ true

-- `a < b`
abbrev pub lt {ℓ} : {A : Type ℓ} → TotalOrder A → A → A → Bool
lt o a b = not (o.le b a)

module _ {ℓ} {A : Type ℓ} (o : TotalOrder A) where
  pub le_refl : (a : A) → o.le a a ≡ true
  le_refl a = ground (arith, o.total a a)

  abbrev pub dual : TotalOrder A
  dual = record {
    le = λ a b. o.le b a;
    total = λ a b h. o.total b a h;
    trans = λ a b c h k. o.trans c b a k h;
  }

  -- Comparison by a key.
  abbrev pub by_key {κ} : {B : Type κ} → (B → A) → TotalOrder B
  by_key f = record {
    le = λ a b. o.le (f a) (f b);
    total = λ a b h. o.total (f a) (f b) h;
    trans = λ a b c h k. o.trans (f a) (f b) (f c) h k;
  }

module _ {ℓ κ} {A : Type ℓ} {B : Type κ} (o : TotalOrder A) (p : TotalOrder B) where
  -- `a <= b` of tuples: the first items decide, or are equal and leave it to the rest.
  abbrev pub lex_le : A × B → A × B → Bool
  lex_le a b = o.le a.0 b.0 && (not (o.le b.0 a.0) || p.le a.1 b.1)

  pub lex_total : (a b : A × B) → lex_le a b ≡ false → lex_le b a ≡ true
  lex_total a b h = ground (arith, o.total a.0 b.0, p.total a.1 b.1)

  pub lex_trans : (a b c : A × B) → lex_le a b ≡ true → lex_le b c ≡ true → lex_le a c ≡ true
  lex_trans a b c h k =
      ground
        (arith, o.trans a.0 b.0 c.0, o.trans c.0 a.0 b.0, o.trans b.0 c.0 a.0, p.trans a.1 b.1 c.1)

  abbrev pub lex : TotalOrder (A × B)
  lex = record { le = lex_le; total = lex_total; trans = lex_trans }

  -- What is below item by item is below as a tuple.
  pub lex_mono : (a b : A × B) → o.le a.0 b.0 ≡ true → p.le a.1 b.1 ≡ true → lex_le a b ≡ true
  lex_mono a b h k = ground arith

  -- The first items decide, or they are equal in the order and the rests decide.
  pub lex_split :
      (a b : A × B)
      → lex_le a b ≡ true
      → (o.le b.0 a.0 ≡ false)
        ⊎ (o.le a.0 b.0 ≡ true) × (o.le b.0 a.0 ≡ true) × (p.le a.1 b.1 ≡ true)
  lex_split a b h = elim (Bool-cases (o.le b.0 a.0)) [
    | inl e ↦ inr (ground arith, e, ground arith)
    | inr e ↦ inl e
  ]

  -- Tuples that are below each other have rests that are.
  pub lex_both :
      (a b : A × B)
      → lex_le a b ≡ true
      → lex_le b a ≡ true
      → (p.le a.1 b.1 ≡ true) × (p.le b.1 a.1 ≡ true)
  lex_both a b h k = (ground arith, ground arith)

pub leb_total : (a b : ℕ) → leb a b ≡ false → leb b a ≡ true
leb_total a b h = ground arith

pub leb_trans : (a b c : ℕ) → leb a b ≡ true → leb b c ≡ true → leb a c ≡ true
leb_trans a b c h k = ground arith

abbrev pub nat_order : TotalOrder ℕ
nat_order = record { le = leb; total = leb_total; trans = leb_trans }

abbrev pub text_order : TotalOrder String
text_order = record { le = text_le; total = text_le_total; trans = text_le_trans }

module _ {ℓ} {A : Type ℓ} (o : TotalOrder A) where
  -- Tuples of any length: a prefix stands first.
  abbrev pub list_le : List A → List A → Bool
  list_le [] ys = true
  list_le (x ∷ xs) [] = false
  list_le (x ∷ xs) (y ∷ ys) = o.le x y && (not (o.le y x) || list_le xs ys)

  pub list_total : (xs ys : List A) → list_le xs ys ≡ false → list_le ys xs ≡ true
  list_total [] ys h = cc
  list_total (x ∷ xs) [] h = refl
  list_total (x ∷ xs) (y ∷ ys) h = ground (arith, o.total x y, list_total xs ys)

  pub list_trans :
      (xs ys zs : List A) → list_le xs ys ≡ true → list_le ys zs ≡ true → list_le xs zs ≡ true
  list_trans [] ys zs h k = refl
  list_trans (x ∷ xs) [] zs h k = cc
  list_trans (x ∷ xs) (y ∷ ys) [] h k = cc
  list_trans (x ∷ xs) (y ∷ ys) (z ∷ zs) h k =
      ground (arith, o.trans x y z, o.trans z x y, o.trans y z x, list_trans xs ys zs)

  abbrev pub list_order : TotalOrder (List A)
  list_order = record { le = list_le; total = list_total; trans = list_trans }
