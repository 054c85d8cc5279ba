-- ===== src/Worker/Delivery.antt =====
-- What a batch of the outbox leaves behind, also when it is broken off.
use sira_seil_cockroach_aws.Worker.Outbox.{
  dispatch_loaded, after_publish, batch_result, load_unpublished, acknowledged, is_marked, Outbox,
  dispatch_batch, mark_row, dispatch_each, mark_published, OutboxEvent,
}
use sira_seil_cockroach_aws.Base.{
  ℕ, String, ◌≡◌, refl, sym, ap, subst, ◌∙◌, ◌⊎◌, inl, inr, true, Option, none, some, List, [], ◌∷◌,
  map, arith, eq_iff, Bool-cases, is_none, length, elem, elem_head, elem_tail, Result, ok, err,
}

-- A row of the table after a batch: it is as it was, or it was not published before, is so now, and
-- the queue has acknowledged its event.
abbrev pub Evolves : List OutboxEvent → OutboxEvent → OutboxEvent → Type 0
Evolves sent a b =
    (b ≡ a)
    ⊎ (a.published_at ≡ none)
      × (t : ℕ) × (b ≡ record a { published_at = some t })
      × (elem a.id (map (λ e. e.id) sent) ≡ true)

-- Row by row; no row is lost, added or moved.
abbrev pub RowsEvolve : List OutboxEvent → List OutboxEvent → List OutboxEvent → Type 0
RowsEvolve sent [] [] = Unit
RowsEvolve sent (a ∷ xs) (b ∷ bs) = Evolves sent a b × RowsEvolve sent xs bs
RowsEvolve sent [] (b ∷ bs) = ⊥
RowsEvolve sent (a ∷ xs) [] = ⊥

-- Every event that was acknowledged before still is.
abbrev pub Grows : List OutboxEvent → List OutboxEvent → Type 0
Grows sent more =
    (x : String) → elem x (map (λ e. e.id) sent) ≡ true → elem x (map (λ e. e.id) more) ≡ true

none_inv : (o : Option ℕ) → is_none o ≡ true → o ≡ none
none_inv none h = refl
none_inv (some t) h = cc

is_marked_inv : (e a : OutboxEvent) → is_marked e a ≡ true → (a.id ≡ e.id) × (a.published_at ≡ none)
is_marked_inv e a h = (ground (arith, eq_iff a.id e.id), none_inv a.published_at (ground arith))

mark_row-Evolves :
    (sent : List OutboxEvent) (e a : OutboxEvent) (t : ℕ)
    → elem e.id (map (λ x. x.id) sent) ≡ true
    → Evolves sent a (mark_row e t a)
mark_row-Evolves sent e a t member = elim (Bool-cases (is_marked e a)) [
  | inr n ↦ inl (rw n refl)
  | inl y ↦
      let (same, fresh) = is_marked_inv e a y in
      inr (fresh, t, rw y refl, subst (λ i. elem i (map (λ x. x.id) sent) ≡ true) (sym same) member)
]

mark_rows :
    (sent : List OutboxEvent) (e : OutboxEvent) (t : ℕ) (rows : List OutboxEvent)
    → elem e.id (map (λ x. x.id) sent) ≡ true
    → RowsEvolve sent rows (map (mark_row e t) rows)
mark_rows sent e t [] member = tt
mark_rows sent e t (a ∷ rows) member =
    (mark_row-Evolves sent e a t member, mark_rows sent e t rows member)

same_rows : (sent rows : List OutboxEvent) → RowsEvolve sent rows rows
same_rows sent [] = tt
same_rows sent (a ∷ rows) = (inl refl, same_rows sent rows)

Evolves-trans :
    (sent more : List OutboxEvent) (a b c : OutboxEvent)
    → Grows sent more
    → Evolves sent a b
    → Evolves more b c
    → Evolves more a c
Evolves-trans sent more a b c grows (inl e) (inl f) = inl (f ∙ e)
Evolves-trans sent more a b c grows (inl e) (inr k) = inr (
    subst
      (λ x.
        (x.published_at ≡ none)
        × (t : ℕ) × (c ≡ record x { published_at = some t })
        × (elem x.id (map (λ y. y.id) more) ≡ true))
      e k)
Evolves-trans sent more a b c grows (inr (fresh, t, e, member)) (inl f) =
    inr (fresh, t, f ∙ e, grows a.id member)
Evolves-trans sent more a b c grows (inr (fresh, t, e, member)) (inr (again, _, _, _)) =
    let clash : some t ≡ none = sym (ap (λ x. x.published_at) e) ∙ again in cc

rows_trans :
    (sent more xs ys zs : List OutboxEvent)
    → Grows sent more
    → RowsEvolve sent xs ys
    → RowsEvolve more ys zs
    → RowsEvolve more xs zs
rows_trans sent more [] [] [] grows h k = tt
rows_trans sent more [] [] (z ∷ zs) grows h k = k
rows_trans sent more [] (y ∷ ys) zs grows h k = absurd h
rows_trans sent more (x ∷ xs) [] zs grows h k = absurd h
rows_trans sent more (x ∷ xs) (y ∷ ys) [] grows h k = k
rows_trans sent more (x ∷ xs) (y ∷ ys) (z ∷ zs) grows h k =
    (Evolves-trans sent more x y z grows h.0 k.0, rows_trans sent more xs ys zs grows h.1 k.1)

module _ (publish : OutboxEvent → Result (Unit {0})) (clock : OutboxEvent → ℕ) where
  -- The outbox after a part of a batch, against the one before.
  abbrev IsLater : Outbox → Outbox → Type 0
  IsLater o p = RowsEvolve p.sent o.events p.events × Grows o.sent p.sent

  acknowledged-IsLater :
      (o : Outbox) (e : OutboxEvent) → IsLater o (acknowledged publish clock o e).0
  unfolding mark_published
  acknowledged-IsLater o e = (
    mark_rows (e ∷ o.sent) e (clock e) o.events (elem_head e.id (map (λ x. x.id) o.sent)),
    λ x h. elem_tail x e.id (map (λ y. y.id) o.sent) h,
  )

  IsLater-trans : (o p q : Outbox) → IsLater o p → IsLater p q → IsLater o q
  IsLater-trans o p q (rows, grows) (rows', grows') = (
    rows_trans p.sent q.sent o.events p.events q.events grows' rows rows',
    λ x h. grows' x (grows x h),
  )

  after_publish-IsLater :
      (o : Outbox) (e : OutboxEvent) (r : Result (Unit {0})) (rest : Outbox × Result (List String))
      → IsLater o rest.0
      → IsLater o (after_publish publish clock o e r rest).0
  after_publish-IsLater o e (err x) rest h = (same_rows o.sent o.events, λ y k. k)
  after_publish-IsLater o e (ok done) (last, found) h = h

  dispatch_each-IsLater :
      (o : Outbox) (es : List OutboxEvent) → IsLater o (dispatch_each publish clock o es).0
  unfolding dispatch_each
  dispatch_each-IsLater o [] = (same_rows o.sent o.events, λ x h. h)
  dispatch_each-IsLater o (e ∷ es) =
      after_publish-IsLater o e (publish e)
        (dispatch_each publish clock (acknowledged publish clock o e).0 es)
        (IsLater-trans o (acknowledged publish clock o e).0
          (dispatch_each publish clock (acknowledged publish clock o e).0 es).0
          (acknowledged-IsLater o e) (dispatch_each-IsLater (acknowledged publish clock o e).0 es))

  batch_result-IsLater :
      (o : Outbox) (n : ℕ) (p : Outbox × Result (List String))
      → IsLater o p.0
      → IsLater o (batch_result publish clock n p).0
  batch_result-IsLater o n (q, err x) h = h
  batch_result-IsLater o n (q, ok found) h = h

  loaded-IsLater :
      (o : Outbox) (r : Result (List OutboxEvent)) → IsLater o (dispatch_loaded publish clock o r).0
  unfolding dispatch_loaded
  loaded-IsLater o (err x) = (same_rows o.sent o.events, λ y k. k)
  loaded-IsLater o (ok es) =
      batch_result-IsLater o (length es) (dispatch_each publish clock o es)
        (dispatch_each-IsLater o es)

  -- After a batch, whether it came to its end or was broken off by the publisher, each row of the
  -- table is as it was, or is published now and was not before, and then the queue has acknowledged
  -- its event. No row is lost, and no acknowledged event is forgotten.
  pub dispatch_batch_lem :
      (o : Outbox) (organization_id : String) (limit : ℕ) (event_types : List String)
      → RowsEvolve
          (dispatch_batch publish clock o organization_id limit event_types).0.sent
          o.events
          (dispatch_batch publish clock o organization_id limit event_types).0.events
        × Grows o.sent (dispatch_batch publish clock o organization_id limit event_types).0.sent
  unfolding dispatch_batch
  dispatch_batch_lem o organization_id limit event_types =
      loaded-IsLater o (load_unpublished o.events organization_id limit event_types)
