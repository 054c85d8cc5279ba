-- ===== src/Domain/Approval/Laws.antt =====
-- An approval binds one exact payload.
use sira_seil_cockroach_aws.Domain.Ids.{is_id, is_hash, require_id, require_hash}
use sira_seil_cockroach_aws.Domain.Enums.{
  ApprovalStatus, pending, approved, rejected, revoked, expired, superseded,
}
use sira_seil_cockroach_aws.Domain.Approval.{
  not_requested, is_open, transition, reconcile_payload, ApprovalStatus, ApprovalBinding,
  approve_exact,
}
use sira_seil_cockroach_aws.Base.{
  String, ◌≡◌, refl, sym, ap, subst, ◌∙◌, ◌≢◌, ◌↔◌, inl, inr, Bool, true, false, List, [], ◌∷◌,
  arith, eq_iff, ◌==◌, text_cases, any, Result, is_ok, ◌>>=◌, >>=-eq-ok, invalid_transition, ok,
  err,
}

-- A binding as its constructor leaves it.
abbrev pub IsBinding : ApprovalBinding → Type 0
IsBinding b = (is_id b.approval_request_id ≡ true) × (is_hash b.intent_hash ≡ true)

-- The approval of a well-formed binding succeeds exactly when the request is pending and the
-- presented hash is the one that it was made for, and then only the status changes.
pub approve_exact_iff :
    (b c : ApprovalBinding) (presented : String)
    → IsBinding b
    → (approve_exact b presented ≡ ok c)
      ↔ ((b.status ≡ pending) × (presented ≡ b.intent_hash) × (c ≡ record b { status = approved }))
unfolding approve_exact require_id require_hash
approve_exact_iff b c presented v = (to, from)
  where
    same : (p : presented ≡ b.intent_hash) → is_hash presented ≡ true
    same p = subst (λ x. is_hash x ≡ true) (sym p) v.1

    to :
        approve_exact b presented ≡ ok c
        → (b.status ≡ pending) × (presented ≡ b.intent_hash) × (c ≡ record b { status = approved })
    to h = (
      ground arith,
      ground (arith, eq_iff presented b.intent_hash),
      ground (arith, eq_iff presented b.intent_hash),
    )

    from :
        (b.status ≡ pending) × (presented ≡ b.intent_hash) × (c ≡ record b { status = approved })
        → approve_exact b presented ≡ ok c
    from (s, p, e) =
        let hashed = same p in let equal = (eq_iff presented b.intent_hash).1 p in ground arith

-- A request that is reconciled with another payload, without an error, is left neither pending nor
-- approved, and keeps its own hash.
pub reconcile_closes :
    (b c : ApprovalBinding) (current : String)
    → b.intent_hash ≢ current
    → reconcile_payload b current ≡ ok c
    → (is_open c.status ≡ false) × (c.intent_hash ≡ b.intent_hash)
unfolding reconcile_payload
reconcile_closes b c current other h =
    (ground (arith, eq_iff b.intent_hash current), ground (arith, eq_iff b.intent_hash current))

-- Statuses changed one after another, as long as the service allows it.
unfoldable pub history : ApprovalStatus → List ApprovalStatus → Result ApprovalStatus
history s [] = ok s
history s (t ∷ ts) = transition s t >>= λ u. history u ts

abbrev pub is_final : ApprovalStatus → Bool
is_final rejected = true
is_final revoked = true
is_final expired = true
is_final superseded = true
is_final _ = false

final_refuses :
    (s t : ApprovalStatus)
    → is_final s ≡ true
    → transition s t ≡ err (invalid_transition "approval cannot transition")
unfolding transition
final_refuses s t h = ground arith

-- A request that was rejected, revoked, expired or superseded keeps that status: any further
-- history that succeeds is empty.
pub final_is_final :
    (s u : ApprovalStatus) (ts : List ApprovalStatus)
    → is_final s ≡ true
    → history s ts ≡ ok u
    → (ts ≡ []) × (u ≡ s)
unfolding history
final_is_final s u [] f h = (refl, ground arith)
final_is_final s u (t ∷ ts) f h = absurd (ground (arith, final_refuses s t f))

abbrev pub approves : ApprovalStatus → Bool
approves approved = true
approves _ = false

-- In a history of statuses that succeeds and starts at APPROVED, no later status is APPROVED.
pub approved_once :
    (s u : ApprovalStatus) (ts : List ApprovalStatus)
    → history s ts ≡ ok u
    → approves s ≡ true
    → any approves ts ≡ false
unfolding history
approved_once s u [] h a = refl
approved_once s u (t ∷ []) h a = unfold transition in ground arith
approved_once s u (t ∷ t' ∷ ts) h a = unfold transition in ground (arith, final_refuses t t')

closed_refuses :
    (s t : ApprovalStatus) → s ≢ not_requested → is_open s ≡ false → is_ok (transition s t) ≡ false
unfolding transition
closed_refuses not_requested t made h = absurd (made refl)
closed_refuses s t made h = ground arith

-- A request that is closed, and not about to be made, does not become approved.
closed_stays :
    (s : ApprovalStatus) (ts : List ApprovalStatus)
    → s ≢ not_requested
    → is_open s ≡ false
    → ¬ (history s ts ≡ ok approved)
unfolding history
closed_stays approved [] made h e = let clash : true ≡ false = h in cc
closed_stays s [] made h e = ground arith
closed_stays s (t ∷ ts) made h e =
    let (u, moved, _) = >>=-eq-ok (transition s t) (λ u. history u ts) e in
    let clash : true ≡ false = sym (ap is_ok moved) ∙ closed_refuses s t made h in cc

unmade_before :
    (b c : ApprovalBinding) (current : String)
    → reconcile_payload b current ≡ ok c
    → c.status ≡ not_requested
    → b.status ≡ not_requested
unfolding reconcile_payload
unmade_before b c current h e = ground arith

kept_hash :
    (b c : ApprovalBinding) (current : String)
    → (b.intent_hash == current) ≡ true
    → reconcile_payload b current ≡ ok c
    → c.intent_hash ≡ b.intent_hash
unfolding reconcile_payload
kept_hash b c current q h = ground arith

-- After a request that has been made (its status is not NOT_REQUESTED) is reconciled with the
-- current payload without an error, whatever changes of status follow: when they lead to APPROVED,
-- or when none follows and it is APPROVED already, the payload it is bound to is the current one.
pub approve_after_reconcile :
    (b c : ApprovalBinding) (current : String) (ts : List ApprovalStatus)
    → reconcile_payload b current ≡ ok c
    → b.status ≢ not_requested
    → history c.status ts ≡ ok approved
    → c.intent_hash ≡ current
approve_after_reconcile b c current ts h made a = elim (text_cases b.intent_hash current) [
  | inl (e, q) ↦ kept_hash b c current q h ∙ e
  | inr (n, q) ↦
      let (closed, kept) = reconcile_closes b c current n h in
      absurd (closed_stays c.status ts (λ e. made (unmade_before b c current h e)) closed a)
]
