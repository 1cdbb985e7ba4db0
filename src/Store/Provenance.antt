-- ===== src/Store/Provenance.antt =====
-- What the events of an outbox tell about the tables of their sender: the rows of `outbox_events` in
-- services/*/internal/repository/outbox_repository.go, read as the receivers read them.
use msa_saga_go_practical.Prelude.{
  ℕ, ◌≡◌, ◌≢◌, Bool, true, none, some, List, [], ◌∷◌, Bool-cases, Option-cases, inl, inr, arith,
}
use mathlib.Core.Path.{subst, sym}
use mathlib.Core.List.{Memᴰ}
use msa_saga_go_practical.Prelude.Int.{ℤ}
use msa_saga_go_practical.Common.Events.{EventType}
use msa_saga_go_practical.Common.Wire.{Payload}
use msa_saga_go_practical.Common.Result.{Result, ok, err}
use msa_saga_go_practical.Store.Table.{
  find, insert, update, find-insert, All, All-map, All-insert, All-find, All-update,
}
use msa_saga_go_practical.Store.Session.{OutboxEvent}
use msa_saga_go_practical.Store.Pending.{has_id, set_sent, mark_sent}

-- What a decoded event satisfies; a payload that cannot be decoded says nothing.
abbrev pub OnOk : {E : Type 0} → (E → Type 0) → Result E → Type 0
OnOk P (ok evt) = P evt
OnOk P (err x) = Unit

pub OnOk-map :
    {E : Type 0} (P Q : E → Type 0) (r : Result E) → ((e : E) → P e → Q e) → OnOk P r → OnOk Q r
OnOk-map P Q (ok e) f h = f e h
OnOk-map P Q (err x) f h = tt

pub All-mem : {R : Type 0} (P : R → Type 0) (x : R) (t : List R) → All P t → Memᴰ x t → P x
All-mem P x [] h m = elim m [ ]
All-mem P x (y ∷ t) h (Memᴰ.head same) = subst P (sym same) h.0
All-mem P x (y ∷ t) h (Memᴰ.tail m) = All-mem P x t h.1 m

-- An UPDATE that keeps a property of the rows that it selects.
pub All-update_where :
    {R : Type 0} (P : R → Type 0) (q : R → Bool) (g : R → R) (t : List R)
    → ((r : R) → q r ≡ true → P r → P (g r))
    → All P t
    → All P (update q g t)
unfolding update
All-update_where P q g [] keep h = tt
All-update_where P q g (r ∷ t) keep h = elim (Bool-cases (q r)) [
  | inl hit ↦ rw hit (keep r hit h.0, All-update_where P q g t keep h.1)
  | inr miss ↦ rw miss (h.0, All-update_where P q g t keep h.1)
]

-- What the topic and the payload of every event of an outbox tell.
abbrev pub Tells : (EventType → Payload → Type 0) → List OutboxEvent → Type 0
Tells P outbox = All (λ (x : OutboxEvent). P x.event_type x.payload) outbox

pub Tells-mark_sent :
    (P : EventType → Payload → Type 0) (now : ℕ) (id : ℤ) (outbox : List OutboxEvent)
    → Tells P outbox
    → Tells P (mark_sent now id outbox)
Tells-mark_sent P now id outbox h =
    All-update (λ (x : OutboxEvent). P x.event_type x.payload) (has_id id) (set_sent now) outbox
      (λ r p. p) h

pub Tells-map :
    (P Q : EventType → Payload → Type 0) (outbox : List OutboxEvent)
    → ((t : EventType) (p : Payload) → P t p → Q t p)
    → Tells P outbox
    → Tells Q outbox
Tells-map P Q outbox f h =
    All-map (λ (x : OutboxEvent). P x.event_type x.payload) (λ x. Q x.event_type x.payload) outbox
      (λ x. f x.event_type x.payload) h

pub Tells-insert :
    (P : EventType → Payload → Type 0) (e : OutboxEvent) (outbox : List OutboxEvent)
    → Tells P outbox
    → P e.event_type e.payload
    → Tells P (insert e outbox)
Tells-insert P e outbox h k =
    All-insert (λ (x : OutboxEvent). P x.event_type x.payload) e outbox h k

-- A row of a kind that is there stays when another is inserted, and a new one is there.
pub some-insert :
    {R : Type 0} (p : R → Bool) (r : R) (t : List R) → find p t ≢ none → find p (insert r t) ≢ none
some-insert p r t h = ground (arith, find-insert p r t)

pub some-insert_new :
    {R : Type 0} (p : R → Bool) (r : R) (t : List R) → p r ≡ true → find p (insert r t) ≢ none
some-insert_new p r t h = ground (arith, find-insert p r t)

-- What holds of every row holds of a kind that is there.
pub All-some :
    {R : Type 0} (P : R → Type 0) (p : R → Bool) (t : List R)
    → All P t
    → find p t ≢ none
    → (x : R) × (find p t ≡ some x) × P x
All-some P p t h k = elim (Option-cases (find p t)) [
  | inl missing ↦ absurd (k missing)
  | inr (x, found) ↦ (x, found, All-find P p t h found)
]
