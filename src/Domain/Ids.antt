-- ===== src/Domain/Ids.antt =====
-- python/domain/models.py, `require_id` and `require_hash`: identifiers and content hashes as texts
-- of a fixed shape. The regular expressions are written as tests on code points.
use sira_seil_cockroach_aws.Base.Order.{codes}
use sira_seil_cockroach_aws.Base.{
  ℕ, String, Bool, false, not, ◌&&◌, ◌||◌, Option, none, some, List, [], ◌∷◌, leb, nat_eq,
  if◌then◌else◌, length, all, Result, raise_if, domain_validation,
}

-- [A-Z], [a-z], [0-9]
abbrev between : ℕ → ℕ → ℕ → Bool
between lo hi c = leb lo c && leb c hi

unfoldable pub is_alphanumeric : ℕ → Bool
is_alphanumeric c = between 65 90 c || between 97 122 c || between 48 57 c

-- [A-Za-z0-9_.:-]
is_id_char : ℕ → Bool
unfolding is_alphanumeric
is_id_char c = is_alphanumeric c || nat_eq c b'_' || nat_eq c b'.' || nat_eq c b':' || nat_eq c b'-'

-- ^[A-Za-z0-9][A-Za-z0-9_.:-]{0,127}$
is_id_codes : List ℕ → Bool
unfolding is_alphanumeric is_id_char
is_id_codes [] = false
is_id_codes (c ∷ cs) = is_alphanumeric c && all is_id_char cs && leb (length cs) 127

unfoldable pub is_id : String → Bool
unfolding is_id_codes
is_id s = is_id_codes (codes s)

unfoldable pub require_id : String → Result (Unit {0})
unfolding is_id
require_id s = raise_if (not (is_id s)) (domain_validation "must be a stable non-empty identifier")

-- [0-9a-f]
unfoldable pub is_hex : ℕ → Bool
is_hex c = between 48 57 c || between 97 102 c

-- The rest of the text after the given start.
abbrev pub after : List ℕ → List ℕ → Option (List ℕ)
after [] cs = some cs
after (p ∷ ps) [] = none
after (p ∷ ps) (c ∷ cs) = let rest = after ps cs in if nat_eq p c then rest else none

-- ^sha256:[0-9a-f]{64}$
unfoldable pub is_hash : String → Bool
unfolding is_hex
is_hash s = elim (after (codes "sha256:") (codes s)) [
  | none ↦ false
  | some digest ↦ all is_hex digest && nat_eq (length digest) 64
]

unfoldable pub require_hash : String → Result (Unit {0})
unfolding is_hash
require_hash s = raise_if (not (is_hash s)) (domain_validation "must be a sha256 content hash")
