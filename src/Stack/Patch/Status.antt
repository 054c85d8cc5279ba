-- ===== src/Stack/Patch/Status.antt =====
-- The status of a patch, from its draft on.
use sira_seil_cockroach_aws.Domain.Enums.{StackPatchStatus, draft, approved, applying, applied}
use sira_seil_cockroach_aws.Stack.Patch.{
  StackPatch, PatchPayload, patch_payload, may_become, transition_patch_status,
}
use sira_seil_cockroach_aws.Base.{
  String, ◌≡◌, refl, sym, subst, ◌⊎◌, inl, inr, Bool, true, false, List, [], ◌∷◌, arith, any,
  Result, ◌>>=◌, >>=-eq-ok, ok,
}

module _ (hash : PatchPayload → String) where
  -- A status change that succeeds is one that the table allows; it changes nothing of what the hash
  -- covers, and the new patch carries the hash of that payload.
  pub transition_patch_status_keeps :
      (p q : StackPatch) (target : StackPatchStatus)
      → transition_patch_status hash p target ≡ ok q
      → (may_become p.status target ≡ true)
        × (q.status ≡ target)
        × (patch_payload q ≡ patch_payload p)
        × (q.patch_hash ≡ hash (patch_payload q))
  unfolding transition_patch_status patch_payload
  transition_patch_status_keeps p q target h =
      (ground arith, ground arith, ground arith, ground arith)

  -- A history: one status change after another, as long as they succeed.
  unfoldable pub transitions : StackPatch → List StackPatchStatus → Result StackPatch
  transitions p [] = ok p
  transitions p (t ∷ ts) = transition_patch_status hash p t >>= λ q. transitions q ts

  abbrev pub approves : StackPatchStatus → Bool
  approves approved = true
  approves _ = false

  -- Before its approval.
  abbrev is_early : StackPatchStatus → Bool
  is_early approved = false
  is_early applying = false
  is_early applied = false
  is_early _ = true

  early_step :
      (s t : StackPatchStatus)
      → is_early s ≡ true
      → may_become s t ≡ true
      → (approves t ≡ true) ⊎ (is_early t ≡ true)
  early_step s t e h = ground arith

  early_history :
      (p q : StackPatch) (ts : List StackPatchStatus)
      → is_early p.status ≡ true
      → transitions p ts ≡ ok q
      → q.status ≡ applied
      → any approves ts ≡ true
  unfolding transitions
  early_history p q [] e h a = ground arith
  early_history p q (t ∷ ts) e h a =
      let (r, step, rest) =
        >>=-eq-ok (transition_patch_status hash p t) (λ r. transitions r ts) h in
      let (allowed, now, _, _) = transition_patch_status_keeps p r t step in
      elim (early_step p.status t e allowed) [
        | inl here ↦ ground arith
        | inr still ↦
            let later : any approves ts ≡ true =
              early_history r q ts (subst (λ s. is_early s ≡ true) (sym now) still) rest a in
            ground arith
      ]

  -- However its status is changed, a patch that starts as a draft is applied only after it has been
  -- approved.
  pub applied_needs_approval :
      (p q : StackPatch) (ts : List StackPatchStatus)
      → p.status ≡ draft
      → transitions p ts ≡ ok q
      → q.status ≡ applied
      → any approves ts ≡ true
  applied_needs_approval p q ts d h a =
      early_history p q ts (subst (λ s. is_early s ≡ true) (sym d) refl) h a
