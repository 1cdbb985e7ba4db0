-- ===== src/Delivery/Starting.antt =====
-- What `HandleStockReserved` of services/delivery/internal/service/delivery_service.go does.
use msa_saga_go_practical.Prelude.{
  suc, ◌≤◌, ◌≡◌, ◌≢◌, ap, refl, true, false, none, some, Option, List, arith, ◌⊎◌, inl, inr, length,
  Option-cases, Bool-cases,
}
use msa_saga_go_practical.Prelude.Int.{pos}
use msa_saga_go_practical.Prelude.Text.{Text, text, text_eq_iff}
use msa_saga_go_practical.Common.Errors.{Error, is_code}
use msa_saga_go_practical.Common.Events.{EventType, StockReservedEvent}
use msa_saga_go_practical.Common.Wire.{Event}
use msa_saga_go_practical.Common.Result.{Result, ok, err}
use msa_saga_go_practical.Store.Table.{find, insert, find-insert_new}
use msa_saga_go_practical.Store.Session.{
  OutboxEvent, Db, Session, Env, no_faults, transaction, transaction_begun, transaction_refused,
}
use msa_saga_go_practical.Store.Outbox.{new_outbox_event, insert_event}
use msa_saga_go_practical.Delivery.Domain.{Delivery, preparing}
use msa_saga_go_practical.Delivery.Repository.{
  create, has_key, has_label, find_by_idempotency_key, database_error,
}
use msa_saga_go_practical.Delivery.Service.{
  delivery_key, started_delivery, delivery_started_event, begin_failed, start_delivery,
  after_lookup, handle_stock_reserved,
}

abbrev pub IsFailure : {A : Type 0} → Result A → Type 0
IsFailure (ok a) = ⊥
IsFailure (err e) = Unit

-- The rows that a start writes, and the database with them.
abbrev pub started : Env → StockReservedEvent → Session (List Delivery) → Delivery
started env evt s = record (started_delivery env evt) { id = pos (suc s.serial) }

abbrev pub started_event : Env → StockReservedEvent → Session (List Delivery) → OutboxEvent
started_event env evt s =
    record (new_outbox_event (text "delivery") (pos (suc s.serial)) EventType.delivery_started
      (Event.delivery_started (delivery_started_event env evt (started env evt s))) env.now) {
        id = pos (suc s.outbox_serial);
      }

abbrev pub with_delivery : Env → StockReservedEvent → Session (List Delivery) → Db (List Delivery)
with_delivery env evt s = record {
  tables = insert (started env evt s) s.committed.tables;
  outbox = insert (started_event env evt s) s.committed.outbox;
}

-- The delivery of the event's key.
abbrev pub known : StockReservedEvent → Session (List Delivery) → Option Delivery
known evt s = find (has_key (delivery_key evt)) s.committed.tables

-- A session whose transaction has just begun.
abbrev begun : Session (List Delivery) → Session (List Delivery)
begun s = record s { working = s.committed }

module _ (labels : List Text) (env : Env) (evt : StockReservedEvent)
    (s : Session (List Delivery)) where
  starts :
      let (r, s') = start_delivery labels env evt (begun s) in
      (IsFailure r × (s'.committed ≡ s.committed))
      ⊎ ((known evt s ≡ none)
          × (length (delivery_key evt) ≤ 64)
          × (has_label labels preparing ≡ true)
          × (r ≡ ok tt)
          × (s'.committed ≡ with_delivery env evt s))
  unfolding start_delivery create insert_event
  starts = ground arith

  looks_up_new :
      known evt s ≡ none
      → env.faults.find_key ≡ false
      → handle_stock_reserved labels env evt s
        ≡ transaction env.faults.begin begin_failed (start_delivery labels env evt) s
  unfolding handle_stock_reserved find_by_idempotency_key after_lookup is_code
  looks_up_new missing fine = rw (fine, missing)

  looks_up_known :
      (d : Delivery)
      → known evt s ≡ some d
      → env.faults.find_key ≡ false
      → handle_stock_reserved labels env evt s ≡ (ok tt, s)
  unfolding handle_stock_reserved find_by_idempotency_key after_lookup
  looks_up_known d found fine = rw (fine, found)

  looks_up_broken :
      env.faults.find_key ≡ true
      → handle_stock_reserved labels env evt s
        ≡ (err (database_error (text "failed to find delivery") Error.driver), s)
  unfolding handle_stock_reserved find_by_idempotency_key after_lookup is_code
  looks_up_broken bad = rw bad

  -- `HandleStockReserved` ends in one of three ways, whichever calls fail and whatever labels the
  -- column of the status has. The event's key has a delivery: it succeeds and changes nothing. It
  -- fails and commits nothing. Or the key is new and at most 64 code points long and PREPARING is a
  -- label: it succeeds, and the delivery and the event `delivery.started.v1` are committed together.
  pub handle_stock_reserved_outcome :
      let (r, s') = handle_stock_reserved labels env evt s in
      ((known evt s ≢ none) × (r ≡ ok tt) × (s' ≡ s))
      ⊎ (IsFailure r × (s'.committed ≡ s.committed))
      ⊎ ((known evt s ≡ none)
          × (length (delivery_key evt) ≤ 64)
          × (has_label labels preparing ≡ true)
          × (r ≡ ok tt)
          × (s'.committed ≡ with_delivery env evt s))
  handle_stock_reserved_outcome = elim (Bool-cases env.faults.find_key) [
    | inl bad ↦ rw (looks_up_broken bad) (inr (inl (tt, refl)))
    | inr fine ↦ elim (Option-cases (known evt s)) [
      | inr (d, found) ↦ rw (looks_up_known d found fine) (inl ((λ e. cc), refl, refl))
      | inl missing ↦ elim (Bool-cases env.faults.begin) [
        | inl stuck ↦
            rw
              (
                looks_up_new missing fine,
                transaction_refused env.faults.begin begin_failed (start_delivery labels env evt) s
                    stuck,
              )
              (inr (inl (tt, refl)))
        | inr begins ↦
            rw
              (
                looks_up_new missing fine,
                transaction_begun env.faults.begin begin_failed (start_delivery labels env evt) s
                    begins,
              )
              (inr starts)
      ]
    ]
  ]

  starts_fine :
      known evt s ≡ none
      → length (delivery_key evt) ≤ 64
      → has_label labels preparing ≡ true
      → env.faults.create ≡ false
      → env.faults.marshal ≡ false
      → env.faults.insert_event ≡ false
      → env.faults.commit ≡ false
      → let (r, s') = start_delivery labels env evt (begun s) in
        (r ≡ ok tt) × (s'.committed ≡ with_delivery env evt s)
  unfolding start_delivery create insert_event
  starts_fine new short label f1 f2 f3 f4 = ground arith

  -- When the key is new and at most 64 code points long, PREPARING is a label and no call fails, the
  -- delivery is started: the handler succeeds, and the delivery and its event are committed.
  pub handle_stock_reserved_starts :
      known evt s ≡ none
      → length (delivery_key evt) ≤ 64
      → has_label labels preparing ≡ true
      → env.faults ≡ no_faults
      → let (r, s') = handle_stock_reserved labels env evt s in
        (r ≡ ok tt) × (s'.committed ≡ with_delivery env evt s)
  handle_stock_reserved_starts new short label quiet =
      rw
        (
          looks_up_new new (ap (λ f. f.find_key) quiet),
          transaction_begun env.faults.begin begin_failed (start_delivery labels env evt) s
              (ap (λ f. f.begin) quiet),
        )
        (starts_fine new short label (ap (λ f. f.create) quiet) (ap (λ f. f.marshal) quiet)
          (ap (λ f. f.insert_event) quiet) (ap (λ f. f.commit) quiet))

module _ (labels : List Text) (env later : Env) (evt : StockReservedEvent)
    (s : Session (List Delivery)) where
  -- A start that has succeeded is not repeated: when the key was new, at most 64 code points long,
  -- PREPARING a label and no call failed, a second run for the same event whose look-up is answered
  -- succeeds and changes nothing.
  handle_stock_reserved_repeat :
      known evt s ≡ none
      → length (delivery_key evt) ≤ 64
      → has_label labels preparing ≡ true
      → env.faults ≡ no_faults
      → later.faults.find_key ≡ false
      → let s' = (handle_stock_reserved labels env evt s).1 in
        handle_stock_reserved labels later evt s' ≡ (ok tt, s')
  handle_stock_reserved_repeat new short label quiet answered =
      let s' = (handle_stock_reserved labels env evt s).1 in
      let wrote = (handle_stock_reserved_starts labels env evt s new short label quiet).1 in
      looks_up_known labels later evt s' (started env evt s)
        (rw wrote (
          find-insert_new (has_key (delivery_key evt)) (started env evt s) s.committed.tables new
            ((text_eq_iff (delivery_key evt) (delivery_key evt)).1 refl)))
        answered
