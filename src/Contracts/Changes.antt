-- ===== src/Contracts/Changes.antt =====
-- The names of changed terms: which they are, and their comparison as sets.
use sira_seil_cockroach_aws.Contracts.Offer.{
  OfferLine, OfferTerms, same_line, same_lines, note_change, actual_changes, same_set,
}
use sira_seil_cockroach_aws.Base.{
  ℕ, String, ◌≡◌, refl, sym, ap, subst, ◌∙◌, ◌≢◌, ◌↔◌, inl, inr, Bool, true, false, List, [], ◌∷◌,
  arith, eq_iff, nat_eq, ◌==◌, Bool-cases, text_cases, text_eq_self, both, all, is_empty, elem,
  elem_head, elem_tail,
}

all_at :
    (p : String → Bool) (xs : List String) (x : String)
    → all p xs ≡ true
    → elem x xs ≡ true
    → p x ≡ true
all_at p [] x h k = cc
all_at p (y ∷ ys) x h k = elim (text_cases y x) [
  | inl (e, _) ↦ subst (λ z. p z ≡ true) e (both (p y) (all p ys) h).0
  | inr (_, n) ↦ all_at p ys x (both (p y) (all p ys) h).1 (rw n at k)
]

same_if : (a b : Bool) → (a ≡ true → b ≡ true) → (b ≡ true → a ≡ true) → a ≡ b
same_if true b f g = sym (f refl)
same_if false true f g = g refl
same_if false false f g = refl

pub same_set-elem : (a b : List String) (x : String) → same_set a b ≡ true → elem x a ≡ elem x b
same_set-elem a b x h =
    let (f, g) = both (all (λ y. elem y b) a) (all (λ y. elem y a) b) h in
    same_if (elem x a) (elem x b) (all_at (λ y. elem y b) a x f) (all_at (λ y. elem y a) b x g)

-- A list with the texts of one that is not empty is not empty.
pub not_empty :
    (a b : List String)
    → is_empty a ≡ false
    → ((x : String) → elem x a ≡ elem x b)
    → is_empty b ≡ false
not_empty [] b h same = cc
not_empty (x ∷ a) [] h same = let clash : true ≡ false = sym (elem_head x a) ∙ same x in cc
not_empty (x ∷ a) (y ∷ b) h same = refl

line_of : String → String → ℕ → ℕ → OfferLine
line_of i d q u = record { item_id = i; description = d; quantity = q; unit_price = u }

same_line-eq : (a b : OfferLine) → same_line a b ≡ true → a ≡ b
unfolding line_of
same_line-eq a b h =
    let i' : a.item_id ≡ b.item_id = ground (arith, eq_iff a.item_id b.item_id) in
    let d' : a.description ≡ b.description = ground (arith, eq_iff a.description b.description) in
    let q' : a.quantity ≡ b.quantity = ground arith in
    let u' : a.unit_price ≡ b.unit_price = ground arith in
    ap (λ x. line_of x a.description a.quantity a.unit_price) i'
    ∙ ap (λ x. line_of b.item_id x a.quantity a.unit_price) d'
    ∙ ap (λ x. line_of b.item_id b.description x a.unit_price) q'
    ∙ ap (λ x. line_of b.item_id b.description b.quantity x) u'

same_line_self : (a : OfferLine) → same_line a a ≡ true
same_line_self a = rw (text_eq_self a.item_id, text_eq_self a.description) ground arith

same_lines-eq : (xs ys : List OfferLine) → same_lines xs ys ≡ true → xs ≡ ys
same_lines-eq [] [] h = refl
same_lines-eq [] (y ∷ ys) h = cc
same_lines-eq (x ∷ xs) [] h = cc
same_lines-eq (x ∷ xs) (y ∷ ys) h =
    let (a, b) = both (same_line x y) _ h in rw (same_line-eq x y a, same_lines-eq xs ys b) refl

same_lines_self : (xs : List OfferLine) → same_lines xs xs ≡ true
same_lines_self [] = refl
same_lines_self (x ∷ xs) = rw (same_line_self x, same_lines_self xs) refl

-- The terms that a counteroffer may change, by name, with what it means that one differs.
pub data Changed (p c : OfferTerms) : String → Type 0 where
  currency : p.currency ≢ c.currency → Changed p c "currency"
  lines : p.lines ≢ c.lines → Changed p c "lines"
  total : p.total ≢ c.total → Changed p c "total"
  requirement_hash : p.requirement_hash ≢ c.requirement_hash → Changed p c "requirement_hash"
  evidence_hash : p.evidence_hash ≢ c.evidence_hash → Changed p c "evidence_hash"

-- A name that is collected is the newly noted one, whose term differs, or is collected before it.
collected :
    (R : String → Type 0) (same : Bool) (name : String) (names : List String) (x : String)
    → (same ≡ false → R name)
    → (elem x names ≡ true → R x)
    → elem x (note_change same name names) ≡ true
    → R x
collected R true name names x new old h = old h
collected R false name names x new old h = elim (text_cases name x) [
  | inl (e, _) ↦ subst R e (new refl)
  | inr (_, n) ↦ old (rw n at h)
]

elem_new :
    (same : Bool) (name : String) (names : List String)
    → same ≡ false
    → elem name (note_change same name names) ≡ true
elem_new true name names h = cc
elem_new false name names h = elem_head name names

elem_old :
    (same : Bool) (name : String) (names : List String) (x : String)
    → elem x names ≡ true
    → elem x (note_change same name names) ≡ true
elem_old true name names x h = h
elem_old false name names x h = elem_tail x name names h

differ : (a b : String) → (a == b) ≡ false → a ≢ b
differ a b h e = let same = (eq_iff a b).1 e in cc

not_same : (a b : String) → a ≢ b → (a == b) ≡ false
not_same a b h = elim (text_cases a b) [ inl (e, _) ↦ absurd (h e) | inr (_, n) ↦ n ]

differ_lines : (a b : List OfferLine) → same_lines a b ≡ false → a ≢ b
differ_lines a b h e =
    let same : same_lines a b ≡ true = subst (λ x. same_lines a x ≡ true) e (same_lines_self a) in
    cc

not_same_lines : (a b : List OfferLine) → a ≢ b → same_lines a b ≡ false
not_same_lines a b h = elim (Bool-cases (same_lines a b)) [
  | inl e ↦ absurd (h (same_lines-eq a b e))
  | inr e ↦ e
]

module _ (p c : OfferTerms) where
  abbrev last : List String
  last = note_change (p.evidence_hash == c.evidence_hash) "evidence_hash" []

  abbrev last_two : List String
  last_two = note_change (p.requirement_hash == c.requirement_hash) "requirement_hash" last

  abbrev last_three : List String
  last_three = note_change (nat_eq p.total c.total) "total" last_two

  abbrev last_four : List String
  last_four = note_change (same_lines p.lines c.lines) "lines" last_three

  collected-Changed :
      (name : String)
      → elem name (note_change (p.currency == c.currency) "currency" last_four) ≡ true
      → Changed p c name
  collected-Changed name h =
      let step = collected (Changed p c) in
      step (p.currency == c.currency) "currency" last_four name
        (λ d. currency (differ p.currency c.currency d))
        (step (same_lines p.lines c.lines) "lines" last_three name
          (λ d. lines (differ_lines p.lines c.lines d))
          (step (nat_eq p.total c.total) "total" last_two name
            (λ d. total (λ e. ground (arith, e, d)))
            (step (p.requirement_hash == c.requirement_hash) "requirement_hash" last name
              (λ d. requirement_hash (differ p.requirement_hash c.requirement_hash d))
              (step (p.evidence_hash == c.evidence_hash) "evidence_hash" [] name
                (λ d. evidence_hash (differ p.evidence_hash c.evidence_hash d))
                (λ k. let clash : false ≡ true = k in cc)))))
        h

  Changed-collected :
      (name : String)
      → Changed p c name
      → elem name (note_change (p.currency == c.currency) "currency" last_four) ≡ true
  Changed-collected _ (currency d) =
      elem_new _ "currency" last_four (not_same p.currency c.currency d)
  Changed-collected _ (lines d) =
      elem_old _ "currency" last_four "lines"
        (elem_new _ "lines" last_three (not_same_lines p.lines c.lines d))
  Changed-collected _ (total d) = elem_old _ "currency" last_four "total" (
      elem_old _ "lines" last_three "total"
        (elem_new (nat_eq p.total c.total) "total" last_two (ground arith)))
  Changed-collected _ (requirement_hash d) = elem_old _ "currency" last_four "requirement_hash" (
      elem_old _ "lines" last_three "requirement_hash" (
        elem_old _ "total" last_two "requirement_hash"
          (elem_new _ "requirement_hash" last (not_same p.requirement_hash c.requirement_hash d))))
  Changed-collected _ (evidence_hash d) = elem_old _ "currency" last_four "evidence_hash" (
      elem_old _ "lines" last_three "evidence_hash" (
        elem_old _ "total" last_two "evidence_hash" (
          elem_old _ "requirement_hash" last "evidence_hash"
            (elem_new _ "evidence_hash" [] (not_same p.evidence_hash c.evidence_hash d)))))

  -- The names that the loop collects are those of the terms that differ.
  pub actual_changes_lem :
      (name : String) → (elem name (actual_changes p c) ≡ true) ↔ Changed p c name
  unfolding actual_changes
  actual_changes_lem name = (collected-Changed name, Changed-collected name)
