-- ===== src/Domain/Publication/Tests.antt =====
-- The publication services on concrete payloads.
use sira_seil_cockroach_aws.Domain.Publication.Refused.{
  AreClean, HasPublishableValues, allowlisted_copy_raises,
}
use sira_seil_cockroach_aws.Base.Order.{text_le}
use sira_seil_cockroach_aws.Domain.Publication.Publishable.{HasPublishableKeys}
use sira_seil_cockroach_aws.Domain.Json.{object, scalar, Fields, field, no_fields}
use sira_seil_cockroach_aws.Domain.Publication.{
  denied_fields, allowlisted_copy, prohibited_field, split_path, is_prohibited,
  requirement_brief_allowlist, is_denied_segment, copy_path,
}
use sira_seil_cockroach_aws.Domain.Publication.Published.{IsProjection, allowlisted_copy_lem}
use sira_seil_cockroach_aws.Base.{String, ◌≡◌, refl, ◌↔◌, ◌⊎◌, true, List, [], ◌∷◌, elem, ok, err}

abbrev brief : Fields
brief = field "region" (scalar "EU") (
    field "hidden_budget" (scalar "90000") (
      field "desired_outcome"
        (object (field "metric" (scalar "time") (field "note" (scalar "x") no_fields)))
        (field "company_name" (scalar "Acme") no_fields)))

abbrev narrow_allowlist : List String
narrow_allowlist = "region" ∷ "desired_outcome.metric" ∷ "deadline" ∷ []

abbrev sent : Fields
sent =
    field "desired_outcome" (object (field "metric" (scalar "time") no_fields))
      (field "region" (scalar "EU") no_fields)

sent_is_returned : allowlisted_copy (λ s. s) brief narrow_allowlist ≡ ok sent
unfolding allowlisted_copy text_le is_denied_segment copy_path
sent_is_returned = refl

allowlisted_copy_lem_example :
    IsProjection brief narrow_allowlist sent × HasPublishableKeys (λ s. s) sent
allowlisted_copy_lem_example =
    allowlisted_copy_lem (λ s. s) brief narrow_allowlist sent sent_is_returned

abbrev leaking : Fields
leaking = field "intent" (object (field "seller_floor" (scalar "40") no_fields)) no_fields

leaking_is_refused :
    allowlisted_copy (λ s. s) leaking requirement_brief_allowlist ≡ err denied_fields
unfolding allowlisted_copy text_le is_denied_segment copy_path
leaking_is_refused = refl

allowlisted_copy_raises_example :
    (allowlisted_copy (λ s. s) leaking requirement_brief_allowlist ≡ err denied_fields) ↔ (
      (denied_fields ≡ prohibited_field)
        × ((p : String) × (elem p requirement_brief_allowlist ≡ true)
            × (is_prohibited (λ s. s) (split_path p) ≡ true))
      ⊎ (denied_fields ≡ denied_fields)
        × AreClean (λ s. s) requirement_brief_allowlist
        × ¬ HasPublishableValues (λ s. s) leaking requirement_brief_allowlist)
allowlisted_copy_raises_example =
    allowlisted_copy_raises (λ s. s) (λ s. refl) leaking requirement_brief_allowlist denied_fields
