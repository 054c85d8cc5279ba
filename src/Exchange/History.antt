-- ===== src/Exchange/History.antt =====
-- Whole histories of a case, from its creation on.
use sira_seil_cockroach_aws.Exchange.{
  ExchangeState, CommandType, ExchangeParty, owner, reject_private_entries, PartyCommand,
  validate_command, CoordinatorState, command_target, advance, ProjectionPayload,
  compile_party_command,
}
use sira_seil_cockroach_aws.Exchange.Privacy.{HasPublicKeys, reject_private_iff}
use sira_seil_cockroach_aws.Exchange.Laws.{compile_result, advance_moves}
use sira_seil_cockroach_aws.Base.{
  ◌+◌, String, ◌≡◌, refl, sym, ap, subst, ◌∙◌, some, List, [], ◌∷◌, map, arith, length, Result,
  ◌>>=◌, >>=-eq-ok, ok,
}

module _ (casefold : String → String) (hash : ProjectionPayload → String) where
  -- A command as the coordinator takes it: validated, compiled, and its next state stored.
  unfoldable pub take : CoordinatorState → PartyCommand → Result CoordinatorState
  take s c =
      validate_command casefold c >>= λ d. compile_party_command hash s d >>= λ r. ok (r.next_state)

  -- A history that succeeds at every command.
  unfoldable pub run : CoordinatorState → List PartyCommand → Result CoordinatorState
  run s [] = ok s
  run s (c ∷ cs) = take s c >>= λ t. run t cs

  abbrev pub types : List PartyCommand → List CommandType
  types [] = []
  types (c ∷ cs) = c.command_type ∷ types cs

  -- Each command of a history with the party it came from.
  abbrev pub moves : List PartyCommand → List (CommandType × ExchangeParty)
  moves [] = []
  moves (c ∷ cs) = (c.command_type, c.party) ∷ moves cs

  validated_same :
      (c d : PartyCommand)
      → validate_command casefold c ≡ ok d
      → (d ≡ c)
        × (c.party ≡ owner c.command_type)
        × (reject_private_entries casefold c.payload ≡ ok tt)
  unfolding validate_command
  validated_same c d h = (ground arith, ground arith, ground arith)

  -- A command that was taken: its party owns it, its payload is public, and it moved the case.
  pub take_result :
      (s t : CoordinatorState) (c : PartyCommand)
      → take s c ≡ ok t
      → (c.party ≡ owner c.command_type)
        × HasPublicKeys casefold c.payload
        × ((u : ExchangeState) × (command_target s.state c.command_type ≡ some u)
            × (t ≡ advance s c u))
  unfolding take
  take_result s t c h =
      let (d, v, h₁) =
        >>=-eq-ok (validate_command casefold c)
          (λ d. compile_party_command hash s d >>= λ r. ok (r.next_state)) h in
      let (same, owned, public) = validated_same c d v in
      let (r, e, h₂) = >>=-eq-ok (compile_party_command hash s d) (λ r. ok (r.next_state)) h₁ in
      let (_, _, (u, target, next)) = compile_result hash s d r e in
      (
        owned,
        (reject_private_iff casefold c.payload).0 public,
        (
          u,
          subst (λ x. command_target s.state x.command_type ≡ some u) same target,
          sym (ground arith) ∙ next ∙ ap (λ x. advance s x u) same,
        ),
      )

  -- Each command of a history that succeeds moves the version on by one, and the case keeps its
  -- identifier.
  pub run_versions :
      (s t : CoordinatorState) (cs : List PartyCommand)
      → run s cs ≡ ok t
      → (t.version ≡ s.version + length cs) × (t.case_id ≡ s.case_id)
  unfolding run
  run_versions s t [] h = (ground arith, ground arith)
  run_versions s t (c ∷ cs) h =
      let (m, one, rest) = >>=-eq-ok (take s c) (λ u. run u cs) h in
      let (_, _, (u, _, e)) = take_result s m c one in
      let (v, i) = run_versions m t cs rest in
      let (w, _, j) = advance_moves s c u in
      let moved : m.version ≡ s.version + 1 = rw e w in
      let kept : m.case_id ≡ s.case_id = rw e j in (omega arith, i ∙ kept)

  -- How the state of a case moves under one command that is taken.
  pub state_step :
      (s t : CoordinatorState) (c : PartyCommand)
      → take s c ≡ ok t
      → command_target s.state c.command_type ≡ some t.state
  state_step s t c h =
      let (_, _, (u, target, e)) = take_result s t c h in
      let (_, at, _) = advance_moves s c u in
      let now : t.state ≡ u = ap (λ (x : CoordinatorState). x.state) e ∙ at in
      target ∙ ap some (sym now)

  abbrev pub owned : CommandType → CommandType × ExchangeParty
  owned t = (t, owner t)

  -- In a history that succeeds, each command comes from the party that owns it.
  pub moves-types :
      (s t : CoordinatorState) (cs : List PartyCommand)
      → run s cs ≡ ok t
      → moves cs ≡ map owned (types cs)
  unfolding run
  moves-types s t [] h = refl
  moves-types s t (c ∷ cs) h =
      let (m, one, rest) = >>=-eq-ok (take s c) (λ u. run u cs) h in
      let (party, _, _) = take_result s m c one in
      let more = moves-types m t cs rest in rw (party, more) refl
