-- ===== src/Exchange.antt =====
-- python/domain/bilateral_exchange.py: the two-party exchange of a buyer and a seller through one
-- coordinator, which compiles the parties' commands into transitions of the case.
pub mod Privacy
pub mod Laws
pub mod History
pub mod Approved
pub mod Released
pub mod Tests
use sira_seil_cockroach_aws.Domain.Json.{
  Value, scalar, array, object, Items, no_items, item, Fields, no_fields, field,
}
use sira_seil_cockroach_aws.Base.Order.{codes, occurs}
use sira_seil_cockroach_aws.Base.{
  ℕ, zero, suc, ◌+◌, ◌-◌, ◌*◌, ◌/◌, ◌%◌, ◌^◌, ◌≤◌, ◌<◌, String, ◌≡◌, refl, sym, ap, subst, ◌∙◌, ◌≢◌,
  ◌↔◌, ◌⊎◌, inl, inr, Bool, true, false, not, ◌&&◌, ◌||◌, Option, none, some, List, [], ◌∷◌, ◌++◌,
  map, arith, eq_iff, ltb, leb, nat_eq, ◌==◌, if◌then◌else◌, Bool-cases, Option-cases, is_none,
  some_path, text_cases, text_eq_self, not-false, both, length, select, any, all, is_empty, All,
  All-map, All-append, All-zip, elem, set_of, Distinct, elem-append, elem-set_of, length-set_of,
  set_of-Distinct, Distinct-set_of, elem_head, elem_tail, All_at, All-self, Error, Result, is_ok,
  ◌>>=◌, Result-cases, ok_path, err_path, >>=-eq-ok, raise_if, ◌>>◌, raise_if-eq-ok,
  domain_validation, invalid_transition, exchange_conflict, value_error, invalid_operation,
  key_error, attribute_error, recursion_error, zero_division, ok, err,
}

pub data ExchangeParty : Type 0 where
  buyer seller system : ExchangeParty

pub data ExchangeState : Type 0 where
  created requirement_released evidence_released offered countered agreed_pending_approval
        approved_for_handoff rejected expired :
      ExchangeState

pub data CommandType : Type 0 where
  release_requirement publish_evidence propose_offer counter_offer accept_offer accept_counter
        approve_handoff reject expire :
      CommandType

abbrev party_index : ExchangeParty → ℕ
party_index buyer = 0
party_index seller = 1
party_index system = 2

-- `a is b`
abbrev pub same_party : ExchangeParty → ExchangeParty → Bool
same_party a b = nat_eq (party_index a) (party_index b)

-- `_COMMAND_OWNERS`
abbrev pub owner : CommandType → ExchangeParty
owner release_requirement = buyer
owner publish_evidence = seller
owner propose_offer = buyer
owner counter_offer = seller
owner accept_offer = seller
owner accept_counter = buyer
owner approve_handoff = system
owner reject = system
owner expire = system

-- `_TRANSITIONS`
abbrev pub target_state : ExchangeState → CommandType → Option ExchangeState
target_state created release_requirement = some requirement_released
target_state requirement_released publish_evidence = some evidence_released
target_state evidence_released propose_offer = some offered
target_state offered counter_offer = some countered
target_state offered accept_offer = some agreed_pending_approval
target_state countered accept_counter = some agreed_pending_approval
target_state agreed_pending_approval approve_handoff = some approved_for_handoff
target_state _ _ = none

-- `_PRIVATE_PARTS`
abbrev pub private_parts : List String
private_parts =
    "buyer_private" ∷ "seller_private" ∷ "hidden_budget" ∷ "reservation_value" ∷ "seller_floor"
    ∷ "private_notes" ∷ "private_source" ∷ []

-- `any(part in normalized for part in _PRIVATE_PARTS)`; `casefold` is `str.casefold`
unfoldable pub is_private : (String → String) → String → Bool
is_private casefold key = any (λ part. occurs (codes part) (codes (casefold key))) private_parts

abbrev pub private_error : Error
private_error = value_error "party command contains a private-plane field"

-- `_reject_private_fields`: each key is tested before its value is entered
module _ (casefold : String → String) where
  unfoldable mutual
    unfolding is_private

    pub reject_private_fields : Value → Result (Unit {0})
    reject_private_fields (scalar s) = ok tt
    reject_private_fields (array xs) = reject_private_items xs
    reject_private_fields (object fs) = reject_private_entries fs

    pub reject_private_items : Items → Result (Unit {0})
    reject_private_items no_items = ok tt
    reject_private_items (item x xs) = reject_private_fields x >> reject_private_items xs

    pub reject_private_entries : Fields → Result (Unit {0})
    reject_private_entries no_fields = ok tt
    reject_private_entries (field k v fs) =
        raise_if (is_private casefold k) private_error
        >> (reject_private_fields v >> reject_private_entries fs)

pub record PartyCommand : Type 0 where
  pub id : String
  pub case_id : String
  pub party : ExchangeParty
  pub actor_id : String
  pub command_type : CommandType
  pub expected_version : ℕ
  pub idempotency_key : String
  pub payload : Fields

-- `Field(min_length=lo, max_length=hi)` of a text
abbrev pub has_length : ℕ → ℕ → String → Bool
has_length lo hi s = leb lo (length (codes s)) && leb (length (codes s)) hi

-- The validation of `PartyCommand`: the fields' bounds, then `validate_owner`.
unfoldable pub validate_command : (String → String) → PartyCommand → Result PartyCommand
unfolding reject_private_fields
validate_command casefold c = do
  raise_if
      (not (
        has_length 1 64 c.id
        && has_length 1 64 c.case_id
        && has_length 1 100 c.actor_id
        && leb 1 c.expected_version
        && has_length 1 128 c.idempotency_key))
      (value_error "a field of the command is out of its bounds")
  raise_if (not (same_party c.party (owner c.command_type)))
      (value_error "party does not own this command type")
  reject_private_entries casefold c.payload
  ok c

pub record CoordinatorState : Type 0 where
  pub case_id : String
  pub state : ExchangeState
  pub version : ℕ
  pub requirement : Option Fields
  pub evidence : Option Fields
  pub current_offer : Option Fields
  pub approval : Option Fields
  pub last_command_id : Option String

-- The case as it is created.
abbrev pub new_case : String → CoordinatorState
new_case i = record {
  case_id = i;
  state = created;
  version = 1;
  requirement = none;
  evidence = none;
  current_offer = none;
  approval = none;
  last_command_id = none;
}

-- `if state.x is not None: released["x"] = state.x`
abbrev pub release : String → Option Fields → Fields → Fields
release name none rest = rest
release name (some fs) rest = field name (object fs) rest

-- The dict `released` of `_projection`.
unfoldable pub released_fields : CoordinatorState → Fields
released_fields s = release "requirement" s.requirement (
    release "evidence" s.evidence
      (release "current_offer" s.current_offer (release "approval" s.approval no_fields)))

-- The dict `payload` of `_projection`, which is hashed.
pub record ProjectionPayload : Type 0 where
  pub case_id : String
  pub party : ExchangeParty
  pub state : ExchangeState
  pub version : ℕ
  pub released : Fields
  pub source_command_id : String

pub record PartyProjection : Type 0 where
  pub shown : ProjectionPayload
  pub projection_hash : String

pub record CompiledTransition : Type 0 where
  pub previous_state : ExchangeState
  pub next_state : CoordinatorState
  pub buyer_projection : PartyProjection
  pub seller_projection : PartyProjection

-- The changes of the payload's slot, by the type of the command.
abbrev pub store_payload : CommandType → Fields → CoordinatorState → CoordinatorState
store_payload release_requirement p s = record s { requirement = some p }
store_payload publish_evidence p s = record s { evidence = some p }
store_payload propose_offer p s = record s { current_offer = some p }
store_payload counter_offer p s = record s { current_offer = some p }
store_payload approve_handoff p s = record s { approval = some p }
store_payload _ p s = s

-- The target of a command: a rejection and an expiry are taken in every state.
abbrev pub command_target : ExchangeState → CommandType → Option ExchangeState
command_target s reject = some rejected
command_target s expire = some expired
command_target s c = target_state s c

-- `state.model_copy(update=changes)`
unfoldable pub advance : CoordinatorState → PartyCommand → ExchangeState → CoordinatorState
advance s c target =
    store_payload c.command_type c.payload
      (record s { state = target; version = s.version + 1; last_command_id = some c.id })

-- The hash of a payload is the SHA-256 of its canonical JSON: a parameter.
module _ (hash : ProjectionPayload → String) where
  -- `_projection`
  unfoldable pub projection : CoordinatorState → ExchangeParty → String → PartyProjection
  unfolding released_fields
  projection s party command_id =
      let payload : ProjectionPayload = record {
        case_id = s.case_id;
        party = party;
        state = s.state;
        version = s.version;
        released = released_fields s;
        source_command_id = command_id;
      } in
      record { shown = payload; projection_hash = hash payload }

  unfoldable pub compiled : CoordinatorState → PartyCommand → ExchangeState → CompiledTransition
  unfolding advance projection
  compiled s c target = record {
    previous_state = s.state;
    next_state = advance s c target;
    buyer_projection = projection (advance s c target) buyer c.id;
    seller_projection = projection (advance s c target) seller c.id;
  }

  -- `compile_party_command`
  unfoldable pub compile_party_command : CoordinatorState → PartyCommand → Result CompiledTransition
  unfolding compiled
  compile_party_command s c = do
    raise_if (not (c.case_id == s.case_id))
        (exchange_conflict "command targets another exchange case")
    raise_if (not (nat_eq c.expected_version s.version))
        (exchange_conflict "command expected a stale coordinator version")
    elim (command_target s.state c.command_type) [
      | none ↦ err (exchange_conflict "command is invalid for the current exchange state")
      | some target ↦ ok (compiled s c target)
    ]
