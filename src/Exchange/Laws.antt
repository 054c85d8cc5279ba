-- ===== src/Exchange/Laws.antt =====
-- One command at a time: what `compile_party_command` changes and what it refuses.
use sira_seil_cockroach_aws.Exchange.{
  ExchangeState, PartyCommand, CoordinatorState, CompiledTransition, ProjectionPayload,
  command_target, advance, compiled, compile_party_command,
}
use sira_seil_cockroach_aws.Base.{
  ◌+◌, String, ◌≡◌, sym, ◌∙◌, inl, inr, true, some, arith, eq_iff, ◌==◌, Option-cases,
  exchange_conflict, ok, err,
}

pub advance_moves :
    (s : CoordinatorState) (c : PartyCommand) (t : ExchangeState)
    → ((advance s c t).version ≡ s.version + 1)
      × ((advance s c t).state ≡ t)
      × ((advance s c t).case_id ≡ s.case_id)
unfolding advance
advance_moves s c t = ground arith

module _ (hash : ProjectionPayload → String) where
  pub compile_result :
      (s : CoordinatorState) (c : PartyCommand) (r : CompiledTransition)
      → compile_party_command hash s c ≡ ok r
      → (c.case_id ≡ s.case_id)
        × (c.expected_version ≡ s.version)
        × ((t : ExchangeState) × (command_target s.state c.command_type ≡ some t)
            × (r.next_state ≡ advance s c t))
  unfolding compile_party_command
  compile_result s c r h = (ground (arith, eq_iff c.case_id s.case_id), ground arith, next)
    where
      next :
          (t : ExchangeState) × (command_target s.state c.command_type ≡ some t)
          × (r.next_state ≡ advance s c t)
      next = elim (Option-cases (command_target s.state c.command_type)) [
        | inl e ↦ absurd (ground arith)
        | inr (t, e) ↦ (t, e, unfold compiled in ground arith)
      ]

  -- Of two commands that expect the same version only one can advance the case: after the first, the
  -- second is refused as stale.
  pub second_command_is_stale :
      (s : CoordinatorState) (c d : PartyCommand) (r : CompiledTransition)
      → compile_party_command hash s c ≡ ok r
      → d.expected_version ≡ c.expected_version
      → d.case_id ≡ c.case_id
      → compile_party_command hash r.next_state d
        ≡ err (exchange_conflict "command expected a stale coordinator version")
  unfolding compile_party_command
  second_command_is_stale s c d r h v i =
      let (case, at, (t, _, e)) = compile_result s c r h in
      let (moved, _, kept) = advance_moves s c t in
      let version : r.next_state.version ≡ s.version + 1 = rw e moved in
      let same : r.next_state.case_id ≡ s.case_id = rw e kept in
      let here : (d.case_id == r.next_state.case_id) ≡ true =
        (eq_iff d.case_id r.next_state.case_id).1 (i ∙ case ∙ sym same) in
      ground arith
