-- ===== src/Store/Batch.antt =====
-- Lemmas on the rows that a tick of an outbox worker takes
-- (`FindPending` of services/order/internal/repository/outbox_repository.go).
use msa_saga_go_practical.Prelude.{
  ℕ, ◌≡◌, refl, false, none, List, [], ◌∷◌, arith, inl, inr, Bool-cases, leb,
}
use mathlib.Core.List.{Memᴰ}
use msa_saga_go_practical.Prelude.Int.{eq_ℤ_iff, int_eq}
use msa_saga_go_practical.Store.Table.{find, All, All-map, Distinct}
use msa_saga_go_practical.Store.Session.{OutboxEvent}
use msa_saga_go_practical.Common.Errors.{Error}
use msa_saga_go_practical.Common.Result.{ok}
use msa_saga_go_practical.Store.Rows.{
  Answers, delivered, scan_all, All-take, All-delivered, All-scan_all,
}
use msa_saga_go_practical.Store.Pending.{
  is_pending, pending_rows, place, by_age, select_pending, has_id,
}

-- Two rows of one id carry the same event.
abbrev pub Same : OutboxEvent → OutboxEvent → Type 0
Same e x = e.id ≡ x.id → (e.event_type ≡ x.event_type) × (e.payload ≡ x.payload)

module _ (P : OutboxEvent → Type 0) where
  All-pending_rows : (t : List OutboxEvent) → All P t → All P (pending_rows t)
  unfolding pending_rows
  All-pending_rows [] h = tt
  All-pending_rows (e ∷ t) h = elim (Bool-cases (is_pending e)) [
    | inl hit ↦ rw hit (h.0, All-pending_rows t h.1)
    | inr miss ↦ rw miss (All-pending_rows t h.1)
  ]

  All-place : (e : OutboxEvent) (t : List OutboxEvent) → P e → All P t → All P (place e t)
  unfolding place
  All-place e [] p h = (p, tt)
  All-place e (x ∷ t) p h = elim (Bool-cases (leb e.created_at x.created_at)) [
    | inl before ↦ rw before (p, h)
    | inr after ↦ rw after (h.0, All-place e t p h.1)
  ]

  pub All-by_age : (t : List OutboxEvent) → All P t → All P (by_age t)
  unfolding by_age
  All-by_age [] h = tt
  All-by_age (e ∷ t) h = All-place e (by_age t) h.0 (All-by_age t h.1)

  pub All-select_pending : (n : ℕ) (t : List OutboxEvent) → All P t → All P (select_pending n t)
  unfolding select_pending
  All-select_pending n t h =
      All-take P n (by_age (pending_rows t)) (All-by_age (pending_rows t) (All-pending_rows t h))

pub All-both :
    (P Q : OutboxEvent → Type 0) (t : List OutboxEvent) → All P t → All Q t → All (λ x. P x × Q x) t
All-both P Q [] h k = tt
All-both P Q (x ∷ t) h k = ((h.0, k.0), All-both P Q t h.1 k.1)

pub All-self : (t : List OutboxEvent) → All (λ x. Memᴰ x t) t
All-self [] = tt
All-self (x ∷ t) = (
  Memᴰ.head refl,
  All-map (λ y. Memᴰ y t) (λ y. Memᴰ y (x ∷ t)) t (λ y m. Memᴰ.tail m) (All-self t),
)

-- With distinct ids, a row is the only one of its id.
absent-Same :
    (r : OutboxEvent) (t : List OutboxEvent)
    → find (has_id r.id) t ≡ none
    → All (λ x. Same r x × Same x r) t
unfolding find
absent-Same r [] h = tt
absent-Same r (x ∷ t) h = elim (Bool-cases (has_id r.id x)) [
  | inl hit ↦ absurd (ground arith)
  | inr miss ↦ (
    (
      λ e. absurd (ground (arith, eq_ℤ_iff x.id r.id)),
      λ e. absurd (ground (arith, eq_ℤ_iff x.id r.id)),
    ),
    absent-Same r t (rw miss at h),
  )
]

pub Distinct-Same :
    (t : List OutboxEvent)
    → Distinct (λ (x : OutboxEvent). x.id) t
    → All (λ x. All (λ e. Same e x) t) t
Distinct-Same [] d = tt
Distinct-Same (r ∷ t) d =
    let apart = absent-Same r t d.0 in
    (
      (λ e. (refl, refl), All-map (λ x. Same r x × Same x r) (λ x. Same x r) t (λ x h. h.1) apart),
      All-map (λ x. Same r x × All (λ e. Same e x) t) (λ x. All (λ e. Same e x) (r ∷ t)) t
          (λ x h. h)
          (All-both (Same r) (λ x. All (λ e. Same e x) t) t
            (All-map (λ x. Same r x × Same x r) (Same r) t (λ x h. h.0) apart)
            (Distinct-Same t d.1)),
    )

-- The scanned rows of the batch are rows of the table.
pub All-scanned :
    (P : OutboxEvent → Type 0) (answers : Answers) (failure : Error) (limit : ℕ)
    (rows : List OutboxEvent) {es : List OutboxEvent}
    → scan_all answers.scan_fails failure (delivered answers.cut (select_pending limit rows))
      ≡ ok es
    → All P rows
    → All P es
All-scanned P answers failure limit rows h a =
    All-scan_all P answers.scan_fails failure (delivered answers.cut (select_pending limit rows)) h
      (All-delivered P answers.cut (select_pending limit rows) (All-select_pending P limit rows a))

-- A tick in which the driver answers everything.
abbrev pub all_answered : ℕ → Answers
all_answered now = record {
  query_fails = false;
  scan_fails = λ id. false;
  cut = none;
  mark_fails = λ id. false;
  now = now;
}

pub scan_all_fine :
    (failure : Error) (es : List OutboxEvent) → scan_all (λ id. false) failure es ≡ ok es
unfolding scan_all
scan_all_fine failure [] = refl
scan_all_fine failure (e ∷ es) = rw (scan_all_fine failure es)
