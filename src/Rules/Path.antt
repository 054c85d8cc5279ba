-- ===== src/Rules/Path.antt =====
-- python/domain/rules.py, `resolve_field`: dotted paths into a context.
use sira_seil_cockroach_aws.Base.Order.{codes}
use sira_seil_cockroach_aws.Rules.Value.{PyValue, mapping, PyFields, no_fields, field}
use sira_seil_cockroach_aws.Base.{
  ℕ, String, Bool, true, false, not, ◌&&◌, ◌||◌, Option, none, some, List, [], ◌∷◌, leb, nat_eq,
  if◌then◌else◌, all, Result, ◌>>◌, raise_if, domain_validation, ok, err,
}

abbrev is_lower : ℕ → Bool
is_lower c = leb 97 c && leb c 122

-- [a-z0-9_]
abbrev is_word_char : ℕ → Bool
is_word_char c = is_lower c || (leb 48 c && leb c 57) || nat_eq c b'_'

-- [a-z][a-z0-9_]*
abbrev pub is_segment : List ℕ → Bool
is_segment [] = false
is_segment (c ∷ cs) = is_lower c && all is_word_char cs

-- One more character at the front of the first segment.
abbrev onto_first : ℕ → List (List ℕ) → List (List ℕ)
onto_first c [] = (c ∷ []) ∷ []
onto_first c (s ∷ ss) = (c ∷ s) ∷ ss

-- `path.split(".")`
abbrev pub split_dots : List ℕ → List (List ℕ)
split_dots [] = [] ∷ []
split_dots (c ∷ cs) =
    let rest = split_dots cs in if nat_eq c b'.' then [] ∷ rest else onto_first c rest

-- The pattern ^[a-z][a-z0-9_]*(?:\.[a-z][a-z0-9_]*)*$
unfoldable pub is_path : String → Bool
is_path s = all is_segment (split_dots (codes s))

abbrev codes_equal : List ℕ → List ℕ → Bool
codes_equal [] [] = true
codes_equal (x ∷ xs) (y ∷ ys) = nat_eq x y && codes_equal xs ys
codes_equal _ _ = false

-- `current[segment]`
abbrev pub get_field : List ℕ → PyFields → Option PyValue
get_field s no_fields = none
get_field s (field k v fs) =
    let rest = get_field s fs in if codes_equal (codes k) s then some v else rest

-- `not segment or segment.startswith("_")`
abbrev pub is_private_segment : List ℕ → Bool
is_private_segment [] = true
is_private_segment (c ∷ cs) = nat_eq c b'_'

abbrev pub descend : List ℕ → PyValue → Option PyValue
descend s (mapping fs) = get_field s fs
descend s _ = none

-- The loop over the segments.
unfoldable pub walk : List (List ℕ) → PyValue → Result (Option PyValue)
walk [] current = ok (some current)
walk (s ∷ ss) current =
    if is_private_segment s
    then err (domain_validation "private or empty field path segments are prohibited")
    else elim (descend s current) [ none ↦ ok none | some v ↦ walk ss v ]

-- `resolve_field`
unfoldable pub resolve_field : PyFields → String → Result (Option PyValue)
unfolding is_path walk
resolve_field context path = do
  raise_if (not (is_path path)) (domain_validation "rule field must be a valid dotted path")
  walk (split_dots (codes path)) (mapping context)
