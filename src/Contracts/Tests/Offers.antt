-- ===== src/Contracts/Tests/Offers.antt =====
-- The exchange contracts on concrete offers and a handoff.
use sira_seil_cockroach_aws.Contracts.Tests.{hash_one, hash_two, at}
use sira_seil_cockroach_aws.Domain.Money.{is_currency}
use sira_seil_cockroach_aws.Domain.Ids.{is_hash}
use sira_seil_cockroach_aws.Domain.Time.{DateTime}
use sira_seil_cockroach_aws.Exchange.{buyer, seller}
use sira_seil_cockroach_aws.Contracts.Offer.{
  OfferTerms, OfferVersion, OfferLine, OfferApproval, pending, approved, validate_offer, authorize,
  validate_counteroffer,
}
use sira_seil_cockroach_aws.Contracts.Changes.{Changed}
use sira_seil_cockroach_aws.Contracts.Agreed.{authorize_lem, authorize_takes_effect}
use sira_seil_cockroach_aws.Contracts.Negotiation.{
  Negotiation, opening, countered, Alternates, AreApart, negotiation_lem, last_hash_fixes_all,
  changed_terms_lem,
}
use sira_seil_cockroach_aws.Contracts.Transfer.{
  PaymentTerms, ExchangePaymentHandoff, ready, opened, validate_handoff, open_handoff,
}
use sira_seil_cockroach_aws.Contracts.Transfer.Opening.{open_handoff_lem}
use sira_seil_cockroach_aws.Base.{
  ℕ, suc, ◌<◌, String, ◌≡◌, refl, sym, ◌≢◌, ◌↔◌, true, false, none, some, [], ◌∷◌, arith, eq_iff,
  nat_eq, if◌then◌else◌, length, is_empty, All, elem, is_ok, ok,
}

abbrev line : ℕ → OfferLine
line price = record { item_id = "seat"; description = "Seat"; quantity = 10; unit_price = price }

abbrev first_terms : OfferTerms
first_terms = record {
  offer_id = "o-1";
  case_id = "case-1";
  version = 1;
  proposer = seller;
  recipient = buyer;
  predecessor_hash = none;
  changed_terms = [];
  rationale = "list price";
  currency = "EUR";
  lines = line 1200 ∷ [];
  total = 12000;
  expires_at = at 20;
  requirement_hash = hash_one;
  evidence_hash = hash_one;
}

abbrev second_terms : OfferTerms
second_terms = record {
  offer_id = "o-1";
  case_id = "case-1";
  version = 2;
  proposer = buyer;
  recipient = seller;
  predecessor_hash = some hash_one;
  changed_terms = "total" ∷ "lines" ∷ [];
  rationale = "volume";
  currency = "EUR";
  lines = line 1000 ∷ [];
  total = 10000;
  expires_at = at 30;
  requirement_hash = hash_one;
  evidence_hash = hash_one;
}

-- A hash that tells the two offers apart.
abbrev hash_offer : OfferTerms → String
hash_offer t = if nat_eq t.version 1 then hash_one else hash_two

abbrev first_offer : OfferVersion
first_offer = record { terms = first_terms; approval_status = pending; offer_hash = hash_one }

abbrev second_offer : OfferVersion
second_offer = record { terms = second_terms; approval_status = pending; offer_hash = hash_two }

first_is_valid : validate_offer hash_offer first_offer ≡ ok first_offer
unfolding validate_offer is_currency is_hash
first_is_valid = refl

second_is_valid : validate_offer hash_offer second_offer ≡ ok second_offer
unfolding validate_offer is_hash is_currency
second_is_valid = refl

second_counters : validate_counteroffer first_offer second_offer ≡ ok tt
unfolding validate_counteroffer
second_counters = refl

negotiated : Negotiation hash_offer second_offer (first_offer ∷ [])
negotiated =
    countered second_offer first_offer second_offer []
      (opening first_offer first_offer first_is_valid refl) second_is_valid second_counters

negotiation_lem_example :
    (second_terms.version ≡ suc (length (first_offer ∷ [])))
    × All (λ p. (p.terms.case_id ≡ "case-1") × (p.terms.offer_id ≡ "o-1")) (first_offer ∷ [])
    × Alternates hash_offer buyer seller (first_offer ∷ [])
negotiation_lem_example = negotiation_lem hash_offer second_offer (first_offer ∷ []) negotiated

hashes_differ : hash_one ≢ hash_two
hashes_differ h = let clash : false ≡ true = (eq_iff hash_one hash_two).1 h in cc

are_apart : AreApart hash_offer (second_offer ∷ first_offer ∷ []) (second_offer ∷ first_offer ∷ [])
are_apart = (
  ((λ h. refl), ((λ h. absurd (hashes_differ (sym h))), tt)),
  (((λ h. absurd (hashes_differ h)), ((λ h. refl), tt)), tt),
)

last_hash_fixes_all_example : second_terms ∷ first_terms ∷ [] ≡ second_terms ∷ first_terms ∷ []
last_hash_fixes_all_example =
    last_hash_fixes_all hash_offer second_offer second_offer (first_offer ∷ []) (first_offer ∷ [])
      negotiated negotiated are_apart refl

changed_terms_lem_example :
    ((name : String)
      → (elem name ("total" ∷ "lines" ∷ []) ≡ true) ↔ Changed first_terms second_terms name)
    × (is_empty second_terms.changed_terms ≡ false)
changed_terms_lem_example = changed_terms_lem hash_offer first_offer second_offer [] negotiated

abbrev approval : OfferApproval
approval = record {
  approval_id = "a-2";
  case_id = "case-1";
  offer_hash = hash_two;
  approver_id = "cfo";
  approved_at = at 10;
  expires_at = at 25;
}

abbrev approved_offer : OfferVersion
approved_offer = record { terms = second_terms; approval_status = approved; offer_hash = hash_two }

is_authorized : authorize hash_offer approval second_offer (at 12) ≡ ok approved_offer
unfolding authorize is_hash is_currency
is_authorized = refl

authorize_lem_example :
    (pending ≡ pending)
    × (12 < 25)
    × (12 < 30)
    × (approved ≡ approved)
    × (second_terms ≡ second_terms)
    × (hash_two ≡ hash_two)
    × ((b : OfferApproval) (later : DateTime)
        → is_ok (authorize hash_offer b approved_offer later) ≡ false)
authorize_lem_example =
    authorize_lem hash_offer second_offer second_offer approved_offer approval (at 12)
      second_is_valid is_authorized

authorize_takes_effect_example :
    authorize hash_offer approval second_offer (at 12) ≡ ok approved_offer
authorize_takes_effect_example =
    authorize_takes_effect hash_offer second_offer second_offer approval (at 12) second_is_valid
      refl refl refl refl (omega arith) (omega arith)

abbrev payment : PaymentTerms
payment = record {
  handoff_id = "h-1";
  case_id = "case-1";
  offer_hash = hash_two;
  approval_hash = hash_one;
  destination_url = "https://pay.example";
  recipient = "Seller";
  amount = 10000;
  currency = "EUR";
  reference = "o-1";
  created_at = at 13;
  expires_at = at 40;
}

abbrev handoff : ExchangePaymentHandoff
handoff = record { terms = payment; status = ready; opened_at = none; handoff_hash = hash_one }

handoff_is_valid : validate_handoff (λ u. true) (λ t. hash_one) handoff ≡ ok handoff
unfolding validate_handoff is_hash is_currency
handoff_is_valid = refl

open_handoff_lem_example :
    (o : ExchangePaymentHandoff) × (open_handoff (λ u. true) (λ t. hash_one) handoff (at 14) ≡ ok o)
    × (o.status ≡ opened)
    × (o.opened_at ≡ some (at 14))
    × (o.terms ≡ payment)
    × (o.handoff_hash ≡ hash_one)
    × ((later : DateTime)
        → later.aware ≡ true
        → open_handoff (λ u. true) (λ t. hash_one) o later ≡ ok o)
open_handoff_lem_example =
    open_handoff_lem (λ u. true) (λ t. hash_one) handoff handoff (at 14) handoff_is_valid refl refl
      (omega arith)
