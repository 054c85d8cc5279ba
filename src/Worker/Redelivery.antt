-- ===== src/Worker/Redelivery.antt =====
-- A message that the queue delivers again.
use sira_seil_cockroach_aws.Worker.Message.{join, Envelope}
use sira_seil_cockroach_aws.Worker.Queue.{
  Receipt, Store, Consumed, RunResult, Message, find_receipt, completed_result, conflicting,
  new_receipt, record_receipt, consumed, conclude, record_found, choose_ref, deliver_found,
  process_read, run_worker, terminal_ref, deliver, read_envelope, process,
}
use sira_seil_cockroach_aws.Base.{
  String, ◌≡◌, refl, ap, subst, ◌∙◌, true, false, not, Option, none, some, List, ◌∷◌, ◌==◌,
  text_eq_self, same_text, Result, ◌>>=◌, ok_path, raise_if-eq-ok, ok, err,
}

module _ (digest : String → String) (parse : String → Option Envelope)
    (run_mission : String → String → Store → Store × Result RunResult)
    (keeps : (o m : String) (s : Store) → (run_mission o m s).0.receipts ≡ s.receipts) where
  choose_keeps :
      (e : Envelope) (s : Store) (r : Result (Option String))
      → (choose_ref digest parse run_mission e s r).0.receipts ≡ s.receipts
  unfolding choose_ref run_worker
  choose_keeps e s (err x) = refl
  choose_keeps e s (ok (some ref)) = refl
  choose_keeps e s (ok none) =
      keeps e.organization_id e.aggregate_id (record s { runs = e.aggregate_id ∷ s.runs })

  found_first :
      (e : Envelope) (hash ref : String) (rows : List Receipt)
      → find_receipt e (new_receipt e hash ref ∷ rows) ≡ some (new_receipt e hash ref)
  unfolding find_receipt
  found_first e hash ref rows = rw (text_eq_self e.organization_id, text_eq_self e.message_id) refl

  -- The message has a receipt of the hash, whose result is the one that was returned.
  abbrev HasReceipt : Envelope → String → Store → Consumed → Type 0
  HasReceipt e hash t c =
      (row : Receipt) × (find_receipt e t.receipts ≡ some row)
      × (row.payload_hash ≡ hash)
      × (consumed e row.result_ref true ≡ record c { replayed = true })

  recorded :
      (e : Envelope) (hash ref : String) (s t : Store) (c : Consumed) (found : Option Receipt)
      → found ≡ none
      → ◌≡◌ {A = Store × Result Consumed}
          (
            (record_found e hash ref s found).0,
            (record_found e hash ref s found).1 >>= λ _. ok (consumed e ref false),
          )
          (t, ok c)
      → HasReceipt e hash t c
  recorded e hash ref s t c (some r) absent h = cc
  recorded e hash ref s t c none absent h =
      let store : record s { receipts = new_receipt e hash ref ∷ s.receipts } ≡ t =
        ap (λ p. p.0) h in
      let answer : consumed e ref false ≡ c = ok_path _ _ (ap (λ p. p.1) h) in
      (
        new_receipt e hash ref,
        subst (λ x. find_receipt e x.receipts ≡ some (new_receipt e hash ref)) store
            (found_first e hash ref s.receipts),
        refl,
        ap {A = Consumed} (λ x. record x { replayed = true }) answer,
      )

  concluded :
      (e : Envelope) (hash : String) (s t : Store) (r : Result String) (c : Consumed)
      → find_receipt e s.receipts ≡ none
      → conclude e hash (s, r) ≡ (t, ok c)
      → HasReceipt e hash t c
  unfolding conclude record_receipt
  concluded e hash s t (err x) c absent h = let clash : err x ≡ ok c = ap (λ p. p.1) h in cc
  concluded e hash s t (ok ref) c absent h =
      recorded e hash ref s t c (find_receipt e s.receipts) absent h

  deliver_receipt :
      (e : Envelope) (hash : String) (s t : Store) (c : Consumed) (found : Option Receipt)
      → find_receipt e s.receipts ≡ found
      → deliver_found digest parse run_mission e hash s found ≡ (t, ok c)
      → HasReceipt e hash t c
  unfolding deliver_found terminal_ref
  deliver_receipt e hash s t c none is h =
      concluded e hash (terminal_ref digest parse run_mission e s).0 t
        (terminal_ref digest parse run_mission e s).1 c
        (ap (find_receipt e) (choose_keeps e s (completed_result e s)) ∙ is) h
  deliver_receipt e hash s t c (some row) is h =
      let store : s ≡ t = ap (λ p. p.0) h in
      let (same, answer) =
        raise_if-eq-ok (not (row.payload_hash == hash)) conflicting
          (ok (consumed e row.result_ref true)) (ap (λ p. p.1) h) in
      (
        row,
        subst (λ x. find_receipt e x.receipts ≡ some row) store is,
        same_text row.payload_hash hash same,
        ap {A = Consumed} (λ x. record x { replayed = true }) (ok_path _ c answer),
      )

  replayed_answer :
      (e : Envelope) (hash : String) (t : Store) (c : Consumed) (row : Receipt)
      → row.payload_hash ≡ hash
      → consumed e row.result_ref true ≡ record c { replayed = true }
      → deliver_found digest parse run_mission e hash t (some row)
        ≡ (t, ok (record c { replayed = true }))
  unfolding deliver_found
  replayed_answer e hash t c row same answer =
      rw (same, text_eq_self hash) (ap (λ x. (t, ok x)) answer)

  process_again :
      (m : Message) (s s' t : Store) (c : Consumed) (read : Result Envelope)
      → process_read digest parse run_mission m s read ≡ (s', ok c)
      → ((e : Envelope) → read ≡ ok e → find_receipt e t.receipts ≡ find_receipt e s'.receipts)
      → process_read digest parse run_mission m t read ≡ (t, ok (record c { replayed = true }))
  unfolding process_read deliver
  process_again m s s' t c (err x) h kept = let clash : err x ≡ ok c = ap (λ p. p.1) h in cc
  process_again m s s' t c (ok e) h kept =
      let hash : String = join "sha256:" (digest m.body) in
      let (row, found, same, answer) =
        deliver_receipt e hash s s' c (find_receipt e s.receipts) refl h in
      rw (kept e refl ∙ found) (replayed_answer e hash t c row same answer)

  -- Where the worker leaves the receipts alone, a message that was processed is answered, when it is
  -- delivered again, with the same result, marked as replayed. That holds in every later store that
  -- still has the receipt of the message, and the store stays as it is: the worker does not run.
  pub redelivery :
      (m : Message) (s s' t : Store) (c : Consumed)
      → process digest parse run_mission m s ≡ (s', ok c)
      → ((e : Envelope)
          → read_envelope digest parse run_mission m ≡ ok e
          → find_receipt e t.receipts ≡ find_receipt e s'.receipts)
      → process digest parse run_mission m t ≡ (t, ok (record c { replayed = true }))
  unfolding process
  redelivery m s s' t c h kept =
      process_again m s s' t c (read_envelope digest parse run_mission m) h kept
