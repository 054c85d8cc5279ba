-- ===== src/Contracts/Negotiation.antt =====
-- A negotiation is a chain of offers, each bound to the one before it by its hash.
use mathlib.Core.Path.{ap₂}
use sira_seil_cockroach_aws.Contracts.Changes.{same_set-elem, Changed, actual_changes_lem}
use sira_seil_cockroach_aws.Contracts.Agreed.{validate_offer_inv}
use sira_seil_cockroach_aws.Exchange.{ExchangeParty, same_party}
use sira_seil_cockroach_aws.Contracts.Offer.{
  OfferTerms, OfferVersion, actual_changes, same_set, is_text, validate_counteroffer,
  validate_offer, offer_checks,
}
use sira_seil_cockroach_aws.Base.{
  suc, ◌+◌, String, ◌≡◌, refl, sym, ap, subst, ◌∙◌, ◌≢◌, ◌↔◌, true, false, not, ◌||◌, Option, none,
  some, List, [], ◌∷◌, map, arith, eq_iff, ltb, nat_eq, ◌==◌, some_path, not-false, either_false,
  same_text, length, is_empty, All, All-map, elem, raise_if-eq-ok, raise_if_ok, contract_violation,
  ok,
}

same_party-eq : (a b : ExchangeParty) → same_party a b ≡ true → a ≡ b
same_party-eq a b h = ground arith

is_text-eq : (o : Option String) (s : String) → is_text o s ≡ true → o ≡ some s
is_text-eq none s h = cc
is_text-eq (some t) s h = ap some ((eq_iff t s).0 h)

-- What `validate_counteroffer` has tested when it returns.
pub validate_counteroffer_inv :
    (p c : OfferVersion)
    → validate_counteroffer p c ≡ ok tt
    → (c.terms.case_id ≡ p.terms.case_id)
      × (c.terms.offer_id ≡ p.terms.offer_id)
      × (c.terms.version ≡ suc p.terms.version)
      × (c.terms.predecessor_hash ≡ some p.offer_hash)
      × (c.terms.proposer ≡ p.terms.recipient)
      × (c.terms.recipient ≡ p.terms.proposer)
      × (same_set c.terms.changed_terms (actual_changes p.terms c.terms) ≡ true)
unfolding validate_counteroffer
validate_counteroffer_inv p c h =
    let (a, r) =
      raise_if-eq-ok
        (not (c.terms.case_id == p.terms.case_id) || not (c.terms.offer_id == p.terms.offer_id))
        (contract_violation "counteroffer targets another negotiation") _ h in
    let (v, r) =
      raise_if-eq-ok (not (nat_eq c.terms.version (p.terms.version + 1)))
        (contract_violation "counteroffer version is not sequential") _ r in
    let (b, r) =
      raise_if-eq-ok (not (is_text c.terms.predecessor_hash p.offer_hash))
        (contract_violation "counteroffer does not bind the current offer") _ r in
    let (t, r) =
      raise_if-eq-ok
        (not (same_party c.terms.proposer p.terms.recipient)
          || not (same_party c.terms.recipient p.terms.proposer))
        (contract_violation "counteroffer parties do not alternate") _ r in
    let (case, offer) = either_false (not (c.terms.case_id == p.terms.case_id)) _ a in
    let (from, to) = either_false (not (same_party c.terms.proposer p.terms.recipient)) _ t in
    (
      same_text c.terms.case_id p.terms.case_id case,
      same_text c.terms.offer_id p.terms.offer_id offer,
      ground arith,
      is_text-eq c.terms.predecessor_hash p.offer_hash (not-false _ b),
      same_party-eq c.terms.proposer p.terms.recipient (not-false _ from),
      same_party-eq c.terms.recipient p.terms.proposer (not-false _ to),
      not-false _ (
          raise_if_ok _
            (contract_violation "changed_terms does not exactly describe the counteroffer") r),
    )

later_names_changes :
    (t : OfferTerms)
    → offer_checks t ≡ ok tt
    → ltb 1 t.version ≡ true
    → is_empty t.changed_terms ≡ false
unfolding offer_checks
later_names_changes t h late = ground arith

module _ (hash : OfferTerms → String) where
  -- The negotiations that reach an offer, with the earlier offers, the latest first.
  pub data Negotiation : OfferVersion → List OfferVersion → Type 0 where
    opening :
        (given o : OfferVersion)
        → validate_offer hash given ≡ ok o
        → o.terms.version ≡ 1
        → Negotiation o []
    countered :
        (given p c : OfferVersion) (earlier : List OfferVersion)
        → Negotiation p earlier
        → validate_offer hash given ≡ ok c
        → validate_counteroffer p c ≡ ok tt
        → Negotiation c (p ∷ earlier)

  -- The parties of the earlier offers, each the reverse of the next one's.
  abbrev pub Alternates : ExchangeParty → ExchangeParty → List OfferVersion → Type 0
  Alternates proposer recipient [] = Unit
  Alternates proposer recipient (p ∷ earlier) =
      (p.terms.proposer ≡ recipient)
      × (p.terms.recipient ≡ proposer)
      × Alternates recipient proposer earlier

  -- The offers of a negotiation are numbered from 1 without a gap, are all of one case and one
  -- offer, and their parties alternate.
  pub negotiation_lem :
      (o : OfferVersion) (earlier : List OfferVersion)
      → Negotiation o earlier
      → (o.terms.version ≡ suc (length earlier))
        × All
            (λ p. (p.terms.case_id ≡ o.terms.case_id) × (p.terms.offer_id ≡ o.terms.offer_id))
            earlier
        × Alternates o.terms.proposer o.terms.recipient earlier
  negotiation_lem _ _ (opening given o valid first) = (first, tt, tt)
  negotiation_lem _ _ (countered given p c earlier before valid bound) =
      let (version, same, alternate) = negotiation_lem p earlier before in
      let (case, offer, next, _, from, to, _) = validate_counteroffer_inv p c bound in
      (
        next ∙ ap suc version,
        (
          (sym case, sym offer),
          All-map _ _ (λ q (e, f). (e ∙ sym case, f ∙ sym offer)) earlier same,
        ),
        (sym to, sym from, rw (to, from) alternate),
      )

  -- No two different terms of the two lists have one hash.
  abbrev pub AreApart : List OfferVersion → List OfferVersion → Type 0
  AreApart xs ys = All (λ x. All (λ y. hash x.terms ≡ hash y.terms → x.terms ≡ y.terms) ys) xs

  hash_of_last :
      (o : OfferVersion) (earlier : List OfferVersion)
      → Negotiation o earlier
      → o.offer_hash ≡ hash o.terms
  hash_of_last _ _ (opening given o valid first) =
      let (kept, hashed, _, _) = validate_offer_inv hash given o valid in
      hashed ∙ ap hash (sym kept)
  hash_of_last _ _ (countered given p c earlier before valid bound) =
      let (kept, hashed, _, _) = validate_offer_inv hash given c valid in
      hashed ∙ ap hash (sym kept)

  tails :
      (x y : OfferVersion) (xs ys : List OfferVersion) → AreApart (x ∷ xs) (y ∷ ys) → AreApart xs ys
  tails x y xs ys h = All-map _ _ (λ z k. k.1) xs h.1

  -- The versions tell a first offer from a later one.
  first_is_not_later :
      (o c p : OfferVersion) (earlier : List OfferVersion)
      → o.terms.version ≡ 1
      → Negotiation p earlier
      → validate_counteroffer p c ≡ ok tt
      → o.terms ≢ c.terms
  first_is_not_later o c p earlier first before bound same =
      let (version, _, _) = negotiation_lem p earlier before in
      let (_, _, next, _, _, _, _) = validate_counteroffer_inv p c bound in
      let clash : o.terms.version ≡ c.terms.version = ap (λ t. t.version) same in omega arith

  earlier_agree :
      (o q : OfferVersion) (xs ys : List OfferVersion)
      → Negotiation o xs
      → Negotiation q ys
      → o.terms ≡ q.terms
      → AreApart xs ys
      → map (λ x. x.terms) xs ≡ map (λ x. x.terms) ys
  earlier_agree _ _ _ _ (opening g o v first) (opening g' q v' first') same apart = refl
  earlier_agree _ _ _ _ (opening g o v first) (countered g' p c ys before v' bound) same apart =
      absurd (first_is_not_later o c p ys first before bound same)
  earlier_agree _ _ _ _ (countered g p c xs before v bound) (opening g' o v' first) same apart =
      absurd (first_is_not_later o c p xs first before bound (sym same))
  earlier_agree _ _ _ _ (countered g p c xs before v bound) (countered g' q d ys before' v' bound')
        same apart =
      let (_, _, _, link, _, _, _) = validate_counteroffer_inv p c bound in
      let (_, _, _, link', _, _, _) = validate_counteroffer_inv q d bound' in
      let one : p.offer_hash ≡ q.offer_hash =
        some_path _ _ (sym link ∙ ap (λ t. t.predecessor_hash) same ∙ link') in
      let terms : p.terms ≡ q.terms =
        apart.0.0 (sym (hash_of_last p xs before) ∙ one ∙ hash_of_last q ys before') in
      ap₂ (λ t ts. t ∷ ts) terms
        (earlier_agree p q xs ys before before' terms (tails p q xs ys apart))

  -- The hash of its last offer fixes all the terms of a negotiation: two negotiations whose last
  -- offers have one hash made the same offers, where no two different terms in them have one hash.
  pub last_hash_fixes_all :
      (o q : OfferVersion) (xs ys : List OfferVersion)
      → Negotiation o xs
      → Negotiation q ys
      → AreApart (o ∷ xs) (q ∷ ys)
      → o.offer_hash ≡ q.offer_hash
      → map (λ x. x.terms) (o ∷ xs) ≡ map (λ x. x.terms) (q ∷ ys)
  last_hash_fixes_all o q xs ys n m apart same =
      let terms : o.terms ≡ q.terms =
        apart.0.0 (sym (hash_of_last o xs n) ∙ same ∙ hash_of_last q ys m) in
      ap₂ (λ t ts. t ∷ ts) terms (earlier_agree o q xs ys n m terms (tails o q xs ys apart))

  -- A counteroffer of a negotiation names exactly those of its currency, lines, total, requirement
  -- hash and evidence hash in which it differs from the offer before it, and it names at least one.
  pub changed_terms_lem :
      (p c : OfferVersion) (earlier : List OfferVersion)
      → Negotiation c (p ∷ earlier)
      → ((name : String) → (elem name c.terms.changed_terms ≡ true) ↔ Changed p.terms c.terms name)
        × (is_empty c.terms.changed_terms ≡ false)
  changed_terms_lem _ _ _ (countered g p c earlier before v bound) =
      let (kept, _, checked, _) = validate_offer_inv hash g c v in
      let (version, _, _) = negotiation_lem p earlier before in
      let (_, _, next, _, _, _, named) = validate_counteroffer_inv p c bound in
      let same : (name : String)
          → elem name c.terms.changed_terms ≡ elem name (actual_changes p.terms c.terms) =
        λ name. same_set-elem c.terms.changed_terms (actual_changes p.terms c.terms) name named in
      let late : ltb 1 c.terms.version ≡ true = ground arith in
      (
        λ name.
            let (to, from) = actual_changes_lem p.terms c.terms name in
            (λ k. to (sym (same name) ∙ k), λ d. same name ∙ from d),
        later_names_changes c.terms (subst (λ t. offer_checks t ≡ ok tt) (sym kept) checked) late,
      )
