-- ===== src/Store/Backlog.antt =====
-- That an outbox worker works off a backlog of any size when nothing fails: the loop of `Start` in
-- services/order/internal/worker/outbox_worker.go and its kin, a hundred rows in a tick.
use msa_saga_go_practical.Prelude.{
  ℕ, zero, suc, ◌+◌, ◌≤◌, ◌≡◌, refl, ap, sym, Bool, true, false, none, List, [], ◌∷◌, arith, inl,
  inr, Bool-cases, leb, length,
}
use mathlib.Core.Path.{subst}
use mathlib.Core.List.{Memᴰ}
use msa_saga_go_practical.Prelude.Int.{ℤ, eq_ℤ_iff, int_eq}
use msa_saga_go_practical.Store.Table.{find, update, All}
use msa_saga_go_practical.Store.Session.{OutboxEvent}
use msa_saga_go_practical.Store.Pending.{
  is_pending, pending_rows, place, by_age, take, select_pending, has_id, mark_sent,
}
use msa_saga_go_practical.Store.Running.{HasDistinctIds}

abbrev pub backlog : List OutboxEvent → ℕ
backlog rows = length (pending_rows rows)

module _ (p : OutboxEvent → Bool) where
  find-pending_rows : (t : List OutboxEvent) → find p t ≡ none → find p (pending_rows t) ≡ none
  unfolding find pending_rows
  find-pending_rows [] h = refl
  find-pending_rows (e ∷ t) h = ground (arith, find-pending_rows t)

  find-place :
      (e : OutboxEvent) (t : List OutboxEvent)
      → p e ≡ false
      → find p t ≡ none
      → find p (place e t) ≡ none
  unfolding find place
  find-place e [] q h = ground arith
  find-place e (x ∷ t) q h = ground (arith, find-place e t)

  find-by_age : (t : List OutboxEvent) → find p t ≡ none → find p (by_age t) ≡ none
  unfolding find by_age
  find-by_age [] h = refl
  find-by_age (e ∷ t) h = find-place e (by_age t) (ground arith) (find-by_age t (ground arith))

  find-take : (n : ℕ) (t : List OutboxEvent) → find p t ≡ none → find p (take n t) ≡ none
  unfolding find take
  find-take zero t h = refl
  find-take (suc n) [] h = refl
  find-take (suc n) (e ∷ t) h = ground (arith, find-take n t)

pending_rows-HasDistinctIds :
    (t : List OutboxEvent) → HasDistinctIds t → HasDistinctIds (pending_rows t)
unfolding pending_rows
pending_rows-HasDistinctIds [] d = tt
pending_rows-HasDistinctIds (e ∷ t) d = elim (Bool-cases (is_pending e)) [
  | inl hit ↦ rw hit (find-pending_rows (has_id e.id) t d.0, pending_rows-HasDistinctIds t d.1)
  | inr miss ↦ rw miss (pending_rows-HasDistinctIds t d.1)
]

place-HasDistinctIds :
    (e : OutboxEvent) (t : List OutboxEvent)
    → find (has_id e.id) t ≡ none
    → HasDistinctIds t
    → HasDistinctIds (place e t)
unfolding place find
place-HasDistinctIds e [] h d = (refl, tt)
place-HasDistinctIds e (x ∷ t) h d = elim (Bool-cases (leb e.created_at x.created_at)) [
  | inl before ↦ rw before (h, d)
  | inr after ↦ rw after (
    find-place (has_id x.id) e t (ground (arith, eq_ℤ_iff x.id e.id, eq_ℤ_iff e.id x.id)) d.0,
    place-HasDistinctIds e t (ground arith) d.1,
  )
]

by_age-HasDistinctIds : (t : List OutboxEvent) → HasDistinctIds t → HasDistinctIds (by_age t)
unfolding by_age
by_age-HasDistinctIds [] d = tt
by_age-HasDistinctIds (e ∷ t) d =
    place-HasDistinctIds e (by_age t) (find-by_age (has_id e.id) t d.0)
      (by_age-HasDistinctIds t d.1)

take-HasDistinctIds : (n : ℕ) (t : List OutboxEvent) → HasDistinctIds t → HasDistinctIds (take n t)
unfolding take
take-HasDistinctIds zero t d = tt
take-HasDistinctIds (suc n) [] d = tt
take-HasDistinctIds (suc n) (e ∷ t) d =
    (find-take (has_id e.id) n t d.0, take-HasDistinctIds n t d.1)

pub select_pending-HasDistinctIds :
    (n : ℕ) (t : List OutboxEvent) → HasDistinctIds t → HasDistinctIds (select_pending n t)
unfolding select_pending
select_pending-HasDistinctIds n t d =
    take-HasDistinctIds n (by_age (pending_rows t))
      (by_age-HasDistinctIds (pending_rows t) (pending_rows-HasDistinctIds t d))

-- The row of the table that a row of the batch stands for is still PENDING.
abbrev pub IsWaiting : List OutboxEvent → OutboxEvent → Type 0
IsWaiting rows e = Memᴰ e rows × (is_pending e ≡ true)

mark_sent-le : (now : ℕ) (id : ℤ) (t : List OutboxEvent) → backlog (mark_sent now id t) ≤ backlog t
unfolding update pending_rows
mark_sent-le now id [] = omega arith
mark_sent-le now id (x ∷ t) = ground (arith, mark_sent-le now id t)

-- Marking a waiting row takes one from the backlog.
pub mark_sent-backlog :
    (now : ℕ) (e : OutboxEvent) (t : List OutboxEvent)
    → Memᴰ e t
    → is_pending e ≡ true
    → backlog (mark_sent now e.id t) + 1 ≤ backlog t
unfolding update pending_rows
mark_sent-backlog now e [] m p = elim m [ ]
mark_sent-backlog now e (x ∷ t) (Memᴰ.head same) p =
    let here : is_pending x ≡ true = subst (λ y. is_pending y ≡ true) same p in
    let hit : has_id e.id x ≡ true =
      (eq_ℤ_iff x.id e.id).1 (sym (ap (λ (r : OutboxEvent). r.id) same)) in
    rw (hit, here) (omega (arith, mark_sent-le now e.id t))
mark_sent-backlog now e (x ∷ t) (Memᴰ.tail m) p = ground (arith, mark_sent-backlog now e t m p)

-- The other rows stay as they are.
mark_sent-mem :
    (now : ℕ) (id : ℤ) (x : OutboxEvent) (t : List OutboxEvent)
    → has_id id x ≡ false
    → Memᴰ x t
    → Memᴰ x (mark_sent now id t)
unfolding update
mark_sent-mem now id x [] other m = elim m [ ]
mark_sent-mem now id x (y ∷ t) other (Memᴰ.head same) =
    let miss : has_id id y ≡ false = subst (λ r. has_id id r ≡ false) same other in
    rw miss (Memᴰ.head same)
mark_sent-mem now id x (y ∷ t) other (Memᴰ.tail m) = Memᴰ.tail (mark_sent-mem now id x t other m)

pub mark_sent-IsWaiting :
    (now : ℕ) (id : ℤ) (rows es : List OutboxEvent)
    → find (has_id id) es ≡ none
    → All (IsWaiting rows) es
    → All (IsWaiting (mark_sent now id rows)) es
unfolding find
mark_sent-IsWaiting now id rows [] h w = tt
mark_sent-IsWaiting now id rows (x ∷ es) h w = (
  (mark_sent-mem now id x rows (ground arith) w.0.0, w.0.1),
  mark_sent-IsWaiting now id rows es (ground arith) w.1,
)
