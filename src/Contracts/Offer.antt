-- ===== src/Contracts/Offer.antt =====
-- python/domain/exchange_contracts.py: `OfferVersion` with its lines, `OfferApproval`, and
-- `validate_counteroffer`.
--
-- An amount is in whole cents, below the twenty digits that the fields allow. The arithmetic of the
-- lines is exact: where Python's decimals would round a subtotal, it is above every total.
use sira_seil_cockroach_aws.Domain.Ids.{is_hash}
use sira_seil_cockroach_aws.Domain.Money.{is_currency}
use sira_seil_cockroach_aws.Domain.Time.{DateTime, time_le}
use sira_seil_cockroach_aws.Exchange.{ExchangeParty, same_party, has_length}
use sira_seil_cockroach_aws.Contracts.{require_zone, cross_parties}
use sira_seil_cockroach_aws.Base.{
  ℕ, ◌+◌, ◌*◌, ◌^◌, String, Bool, true, false, not, ◌&&◌, ◌||◌, Option, none, some, List, [], ◌∷◌,
  map, ltb, leb, nat_eq, ◌==◌, if◌then◌else◌, is_none, length, all, is_empty, elem, set_of, Result,
  raise_if, ◌>>◌, contract_violation, value_error, ok,
}

pub data OfferApprovalStatus : Type 0 where
  pending approved rejected revoked superseded : OfferApprovalStatus

-- `status is OfferApprovalStatus.PENDING`
abbrev pub is_pending : OfferApprovalStatus → Bool
is_pending pending = true
is_pending _ = false

pub record OfferLine : Type 0 where
  pub item_id : String
  pub description : String
  pub quantity : ℕ
  pub unit_price : ℕ

-- `OfferLine.subtotal`
abbrev pub subtotal : OfferLine → ℕ
subtotal l = l.unit_price * l.quantity

-- `sum((line.subtotal for line in lines), Decimal("0"))`
abbrev pub total_of : List OfferLine → ℕ
total_of [] = 0
total_of (l ∷ ls) = subtotal l + total_of ls

-- `max_digits=20, decimal_places=2`, in cents
abbrev pub digits_20 : ℕ
digits_20 = 10 ^ 20

unfoldable pub line_bounds : OfferLine → Bool
line_bounds l =
    has_length 1 64 l.item_id
    && has_length 1 240 l.description
    && leb 1 l.quantity
    && ltb l.unit_price digits_20

-- What an offer proposes: its fields but for the approval's lifecycle and the hash, as
-- `hash_payload` leaves them.
pub record OfferTerms : Type 0 where
  pub offer_id : String
  pub case_id : String
  pub version : ℕ
  pub proposer : ExchangeParty
  pub recipient : ExchangeParty
  pub predecessor_hash : Option String
  pub changed_terms : List String
  pub rationale : String
  pub currency : String
  pub lines : List OfferLine
  pub total : ℕ
  pub expires_at : DateTime
  pub requirement_hash : String
  pub evidence_hash : String

pub record OfferVersion : Type 0 where
  pub terms : OfferTerms
  pub approval_status : OfferApprovalStatus
  pub offer_hash : String

abbrev optional_hash : Option String → Bool
optional_hash none = true
optional_hash (some h) = is_hash h

unfoldable pub offer_bounds : OfferTerms → Bool
unfolding line_bounds
offer_bounds t =
    has_length 1 64 t.offer_id
    && has_length 1 64 t.case_id
    && leb 1 t.version
    && optional_hash t.predecessor_hash
    && has_length 1 1000 t.rationale
    && is_currency t.currency
    && not (is_empty t.lines)
    && all line_bounds t.lines
    && ltb t.total digits_20
    && is_hash t.requirement_hash
    && is_hash t.evidence_hash

-- The fields' bounds, and the tests of `validate_offer`.
unfoldable pub offer_checks : OfferTerms → Result (Unit {0})
unfolding offer_bounds
offer_checks t = do
  raise_if (not (offer_bounds t)) (value_error "a field of the offer is out of its bounds")
  cross_parties t.proposer t.recipient "offer recipient must be the other exchange party"
  require_zone t.expires_at
  raise_if (nat_eq t.version 1 && not (is_none t.predecessor_hash))
      (value_error "initial offer cannot have a predecessor")
  raise_if (ltb 1 t.version && is_none t.predecessor_hash)
      (value_error "counteroffer must bind its predecessor")
  raise_if (ltb 1 t.version && is_empty t.changed_terms)
      (value_error "counteroffer must name changed terms")
  raise_if (not (nat_eq (length (set_of t.changed_terms)) (length t.changed_terms)))
      (value_error "changed terms must be unique")
  raise_if (not (nat_eq (length (set_of (map (λ l. l.item_id) t.lines))) (length t.lines)))
      (value_error "offer line item ids must be unique")
  raise_if (not (nat_eq (total_of t.lines) t.total))
      (value_error "offer total does not equal line-item arithmetic")

-- `assert_actionable`
unfoldable pub assert_actionable : OfferVersion → ExchangeParty → DateTime → Result (Unit {0})
assert_actionable o actor now = do
  require_zone now
  raise_if (not (same_party actor o.terms.recipient))
      (contract_violation "only the current recipient may accept this offer")
  raise_if (time_le o.terms.expires_at now) (contract_violation "offer has expired")
  raise_if (not (is_pending o.approval_status)) (contract_violation "offer is not pending")

pub record OfferApproval : Type 0 where
  pub approval_id : String
  pub case_id : String
  pub offer_hash : String
  pub approver_id : String
  pub approved_at : DateTime
  pub expires_at : DateTime

-- The fields' bounds and `validate_approval`.
unfoldable pub validate_approval : OfferApproval → Result OfferApproval
validate_approval a = do
  raise_if
      (not (
        has_length 1 64 a.approval_id
        && has_length 1 64 a.case_id
        && is_hash a.offer_hash
        && has_length 1 100 a.approver_id))
      (value_error "a field of the approval is out of its bounds")
  require_zone a.approved_at
  require_zone a.expires_at
  raise_if (time_le a.expires_at a.approved_at)
      (value_error "offer approval must expire after approval")
  ok a

-- `previous.lines != current.lines`: a line is compared field by field
abbrev pub same_line : OfferLine → OfferLine → Bool
same_line a b =
    a.item_id == b.item_id
    && a.description == b.description
    && nat_eq a.quantity b.quantity
    && nat_eq a.unit_price b.unit_price

abbrev pub same_lines : List OfferLine → List OfferLine → Bool
same_lines [] [] = true
same_lines (x ∷ xs) (y ∷ ys) = same_line x y && same_lines xs ys
same_lines _ _ = false

-- `actual_changes.add(name)` if the field is not the same
abbrev pub note_change : Bool → String → List String → List String
note_change same name names = if same then names else name ∷ names

-- The names that the loop of `validate_counteroffer` collects.
unfoldable pub actual_changes : OfferTerms → OfferTerms → List String
actual_changes p c = note_change (p.currency == c.currency) "currency" (
    note_change (same_lines p.lines c.lines) "lines" (
      note_change (nat_eq p.total c.total) "total" (
        note_change (p.requirement_hash == c.requirement_hash) "requirement_hash"
          (note_change (p.evidence_hash == c.evidence_hash) "evidence_hash" []))))

-- Equality of sets.
abbrev pub same_set : List String → List String → Bool
same_set a b = all (λ x. elem x b) a && all (λ x. elem x a) b

-- `current.predecessor_hash != previous.offer_hash`
abbrev pub is_text : Option String → String → Bool
is_text none s = false
is_text (some t) s = t == s

unfoldable pub validate_counteroffer : OfferVersion → OfferVersion → Result (Unit {0})
unfolding actual_changes
validate_counteroffer previous current = do
  raise_if
      (not (current.terms.case_id == previous.terms.case_id)
        || not (current.terms.offer_id == previous.terms.offer_id))
      (contract_violation "counteroffer targets another negotiation")
  raise_if (not (nat_eq current.terms.version (previous.terms.version + 1)))
      (contract_violation "counteroffer version is not sequential")
  raise_if (not (is_text current.terms.predecessor_hash previous.offer_hash))
      (contract_violation "counteroffer does not bind the current offer")
  raise_if
      (not (same_party current.terms.proposer previous.terms.recipient)
        || not (same_party current.terms.recipient previous.terms.proposer))
      (contract_violation "counteroffer parties do not alternate")
  raise_if
      (not (same_set current.terms.changed_terms (actual_changes previous.terms current.terms)))
      (contract_violation "changed_terms does not exactly describe the counteroffer")

module _ (hash : OfferTerms → String) where
  -- `validate_offer`
  unfoldable pub validate_offer : OfferVersion → Result OfferVersion
  unfolding offer_checks
  validate_offer o =
      offer_checks o.terms
      >> (raise_if (not (o.offer_hash == "") && not (o.offer_hash == hash o.terms))
            (value_error "offer_hash does not match the canonical offer")
          >> ok (record o { offer_hash = hash o.terms }))

  -- `authorize`
  unfoldable pub authorize : OfferApproval → OfferVersion → DateTime → Result OfferVersion
  unfolding validate_offer
  authorize a o now = do
    require_zone now
    raise_if (not (a.case_id == o.terms.case_id) || not (a.offer_hash == o.offer_hash))
        (contract_violation "approval does not bind the current exact offer")
    raise_if (time_le a.expires_at now || time_le o.terms.expires_at now)
        (contract_violation "offer or approval has expired")
    raise_if (not (is_pending o.approval_status))
        (contract_violation "offer is not pending approval")
    validate_offer (record o { approval_status = approved; offer_hash = "" })
