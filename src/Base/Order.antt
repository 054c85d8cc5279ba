-- ===== src/Base/Order.antt =====
-- Python's order on texts: by code points, from the left.
use mathlib.Core.Path.{ap₂}
use Prim.Native.Char.{code}
use text.Mathlib.TextEquality.{Char-path}
use sira_seil_cockroach_aws.Base.{
  ℕ, String, ◌≡◌, refl, Bool, true, false, List, [], ◌∷◌, arith, ltb, nat_eq, ◌&&◌, ◌||◌,
  if◌then◌else◌,
}

-- The code points of a text.
abbrev pub codes : String → List ℕ
codes String.[] = []
codes (String.◌∷◌ c s) = code c ∷ codes s

-- The second text of code points begins with the first.
abbrev pub begins : List ℕ → List ℕ → Bool
begins [] cs = true
begins (p ∷ ps) [] = false
begins (p ∷ ps) (c ∷ cs) = nat_eq p c && begins ps cs

-- `part in text`
abbrev pub occurs : List ℕ → List ℕ → Bool
occurs part [] = begins part []
occurs part (c ∷ cs) = begins part (c ∷ cs) || occurs part cs

abbrev pub codes_le : List ℕ → List ℕ → Bool
codes_le [] ys = true
codes_le (x ∷ xs) [] = false
codes_le (x ∷ xs) (y ∷ ys) =
    let rest = codes_le xs ys in if ltb x y then true else if ltb y x then false else rest

-- `s <= t`
unfoldable pub text_le : String → String → Bool
text_le s t = codes_le (codes s) (codes t)

pub codes_le_total : (xs ys : List ℕ) → codes_le xs ys ≡ false → codes_le ys xs ≡ true
codes_le_total [] ys h = cc
codes_le_total (x ∷ xs) [] h = refl
codes_le_total (x ∷ xs) (y ∷ ys) h = ground (arith, codes_le_total xs ys)

pub codes_le_trans :
    (xs ys zs : List ℕ) → codes_le xs ys ≡ true → codes_le ys zs ≡ true → codes_le xs zs ≡ true
codes_le_trans [] ys zs h k = refl
codes_le_trans (x ∷ xs) [] zs h k = cc
codes_le_trans (x ∷ xs) (y ∷ ys) [] h k = cc
codes_le_trans (x ∷ xs) (y ∷ ys) (z ∷ zs) h k = ground (arith, codes_le_trans xs ys zs)

pub codes_le_antisymm : (xs ys : List ℕ) → codes_le xs ys ≡ true → codes_le ys xs ≡ true → xs ≡ ys
codes_le_antisymm [] [] h k = refl
codes_le_antisymm [] (y ∷ ys) h k = cc
codes_le_antisymm (x ∷ xs) [] h k = cc
codes_le_antisymm (x ∷ xs) (y ∷ ys) h k = ground (arith, codes_le_antisymm xs ys)

pub text_le_total : (s t : String) → text_le s t ≡ false → text_le t s ≡ true
unfolding text_le
text_le_total s t h = codes_le_total (codes s) (codes t) h

pub text_le_trans : (s t u : String) → text_le s t ≡ true → text_le t u ≡ true → text_le s u ≡ true
unfolding text_le
text_le_trans s t u h k = codes_le_trans (codes s) (codes t) (codes u) h k

codes_injective : (s t : String) → codes s ≡ codes t → s ≡ t
codes_injective String.[] String.[] h = refl
codes_injective String.[] (String.◌∷◌ d t) h = cc
codes_injective (String.◌∷◌ c s) String.[] h = cc
codes_injective (String.◌∷◌ c s) (String.◌∷◌ d t) h =
    let head : code c ≡ code d = cc in
    let tail : codes s ≡ codes t = cc in
    ap₂ String.◌∷◌ (Char-path c d head) (codes_injective s t tail)

pub text_le_antisymm : (s t : String) → text_le s t ≡ true → text_le t s ≡ true → s ≡ t
unfolding text_le
text_le_antisymm s t h k = codes_injective s t (codes_le_antisymm (codes s) (codes t) h k)
