-- ===== src/Exchange/Tests.antt =====
-- Runs of the exchange at concrete commands.
use sira_seil_cockroach_aws.Domain.Json.{Fields, no_fields, field, scalar, array, item, no_items}
use sira_seil_cockroach_aws.Exchange.{
  ExchangeParty, buyer, seller, system, ExchangeState, approved_for_handoff, CommandType,
  release_requirement, publish_evidence, propose_offer, accept_offer, approve_handoff, PartyCommand,
  CoordinatorState, new_case, ProjectionPayload, CompiledTransition, compile_party_command,
  compiled, projection, validate_command,
}
use sira_seil_cockroach_aws.Exchange.Privacy.{HasPublicKeys}
use sira_seil_cockroach_aws.Exchange.Laws.{second_command_is_stale}
use sira_seil_cockroach_aws.Exchange.History.{moves, run, take}
use sira_seil_cockroach_aws.Exchange.Approved.{approved_histories}
use sira_seil_cockroach_aws.Exchange.Released.{disclosed_is_public, IsComplete}
use sira_seil_cockroach_aws.Base.{
  ℕ, String, ◌≡◌, refl, ◌⊎◌, some, List, [], ◌∷◌, exchange_conflict, err,
}

abbrev same : String → String
same s = s

abbrev hash : ProjectionPayload → String
hash p = "digest"

abbrev terms : Fields
terms = field "seats" (scalar "20") (field "items" (array (item (scalar "1") no_items)) no_fields)

abbrev command : String → ExchangeParty → CommandType → ℕ → PartyCommand
command i party t version = record {
  id = i;
  case_id = "case-1";
  party = party;
  actor_id = "agent-1";
  command_type = t;
  expected_version = version;
  idempotency_key = "key-1";
  payload = terms;
}

abbrev commands : List PartyCommand
commands =
    command "c1" buyer release_requirement 1
    ∷ command "c2" seller publish_evidence 2
    ∷ command "c3" buyer propose_offer 3
    ∷ command "c4" seller accept_offer 4
    ∷ command "c5" system approve_handoff 5
    ∷ []

abbrev final : CoordinatorState
final = record {
  case_id = "case-1";
  state = approved_for_handoff;
  version = 6;
  requirement = some terms;
  evidence = some terms;
  current_offer = some terms;
  approval = some terms;
  last_command_id = some "c5";
}

approved_histories_example :
    (moves same hash commands
      ≡ (release_requirement, buyer)
        ∷ (publish_evidence, seller)
        ∷ (propose_offer, buyer)
        ∷ (accept_offer, seller)
        ∷ (approve_handoff, system)
        ∷ [])
    ⊎ (moves same hash commands
        ≡ (release_requirement, buyer)
          ∷ (publish_evidence, seller)
          ∷ (propose_offer, buyer)
          ∷ (CommandType.counter_offer, seller)
          ∷ (CommandType.accept_counter, buyer)
          ∷ (approve_handoff, system)
          ∷ [])
unfolding run take validate_command compile_party_command
approved_histories_example = approved_histories same hash "case-1" final commands refl refl

disclosed_is_public_example :
    HasPublicKeys same (projection hash final buyer "c5").shown.released
    × ((projection hash final seller "c5").shown.released
        ≡ (projection hash final buyer "c5").shown.released)
    × IsComplete final
unfolding run take validate_command compile_party_command
disclosed_is_public_example =
    disclosed_is_public same hash "case-1" "c5" final commands refl refl refl refl refl

abbrev first : CompiledTransition
unfolding compiled
first =
    compiled hash (new_case "case-1") (command "c1" buyer release_requirement 1)
      ExchangeState.requirement_released

second_command_is_stale_example :
    compile_party_command hash first.next_state (command "c9" seller publish_evidence 1)
    ≡ err (exchange_conflict "command expected a stale coordinator version")
unfolding compile_party_command
second_command_is_stale_example =
    second_command_is_stale hash (new_case "case-1") (command "c1" buyer release_requirement 1)
      (command "c9" seller publish_evidence 1) first refl refl refl
