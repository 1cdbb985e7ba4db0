-- ===== src/Common/Once.antt =====
-- What the idempotency check of the event handlers gives (common/idempotency/store.go as
-- services/*/internal/handler and services/*/cmd/main.go use it).
use msa_saga_go_practical.Prelude.{
  ◌≡◌, ◌≢◌, ◌∙◌, [], ◌∷◌, ◌++◌, refl, false, arith, ◌⊎◌, inl, inr, Bool-cases,
}
use msa_saga_go_practical.Prelude.Text.{Text, text}
use msa_saga_go_practical.Common.Errors.{Error}
use msa_saga_go_practical.Common.Result.{Result, ok, err, Result-cases}
use msa_saga_go_practical.Common.Wire.{Payload}
use msa_saga_go_practical.Common.Idempotency.{
  Redis, RedisFrame, full_key, one_day, is_processed, says_processed, serve, finish, once,
}
use msa_saga_go_practical.Store.Session.{Session, M}

module _ (redis : Redis) (prefix : Text) {T E : Type 0} (decode : Payload → Result E)
    (id_of : E → Text) (service : E → M T (Unit {0})) (p : Payload) (evt : E)
    (decoded : decode p ≡ ok evt) (s : Session T) (st : redis.State) where
  -- An event whose handling fails is not marked: the store sees the question alone.
  once_failed :
      {e : Error}
      → says_processed redis prefix (is_processed redis prefix (id_of evt) st).0 ≡ false
      → (service evt s).0 ≡ err e
      → once redis prefix decode id_of service p s st
        ≡ (err e, (service evt s).1, (is_processed redis prefix (id_of evt) st).1)
  unfolding once
  once_failed h f = ground (arith, decoded)

  -- The state of the store after the question, and after the mark.
  abbrev pub asked : redis.State
  asked = (redis.exists (full_key prefix (id_of evt)) st).1

  abbrev pub marked : redis.State
  marked = (redis.set_nx (full_key prefix (id_of evt)) (text "1") one_day asked).1

  pub once_done :
      says_processed redis prefix (is_processed redis prefix (id_of evt) st).0 ≡ false
      → (service evt s).0 ≡ ok tt
      → once redis prefix decode id_of service p s st ≡ (ok tt, (service evt s).1, marked)
  unfolding once
  once_done h f = ground (arith, decoded)

-- The store after an event has been asked for and marked.
abbrev pub after_mark : (redis : Redis) → Text → Text → redis.State → redis.State
after_mark redis prefix id st =
    (redis.set_nx (full_key prefix id) (text "1") one_day
      (redis.exists (full_key prefix id) st).1).1

-- The store does not know the event.
abbrev pub IsUnmarked : (redis : Redis) → Text → Text → redis.State → Type 0
IsUnmarked redis prefix id st =
    says_processed redis prefix (is_processed redis prefix id st).0 ≡ false

-- Marking an event under one key leaves another unmarked.
pub IsUnmarked-after_mark :
    (redis : Redis) (prefix id other_prefix other : Text) (st : redis.State)
    → RedisFrame redis
    → full_key prefix id ≢ full_key other_prefix other
    → IsUnmarked redis prefix id st
    → IsUnmarked redis prefix id (after_mark redis other_prefix other st)
unfolding is_processed
IsUnmarked-after_mark redis prefix id other_prefix other st frame apart h =
    let key = full_key prefix id in
    let mark = full_key other_prefix other in
    let same : (redis.exists key (after_mark redis other_prefix other st)).0
        ≡ (redis.exists key st).0 =
      frame.exists-set_nx_other key mark (text "1") one_day (redis.exists mark st).1 apart
      ∙ frame.exists-exists key mark st in
    rw same h

append_cancel : (xs ys zs : Text) → xs ++ ys ≡ xs ++ zs → ys ≡ zs
append_cancel [] ys zs h = h
append_cancel (x ∷ xs) ys zs h = append_cancel xs ys zs (ground arith)

-- Under one prefix, different events have different keys.
pub full_key-apart :
    (prefix id other : Text) → id ≢ other → full_key prefix id ≢ full_key prefix other
unfolding full_key
full_key-apart prefix id other ne h = ne (
    append_cancel (text ":") id other (append_cancel prefix (text ":" ++ id) (text ":" ++ other) h))

-- What a message does to the database: nothing, or what the service does with the event that it
-- carries.
abbrev pub Effect :
    {T E : Type 0}
    → (Payload → Result E)
    → (E → M T (Unit {0}))
    → Payload
    → Session T
    → Session T
    → Type 0
Effect {E = E} decode service p s s' =
    (s' ≡ s) ⊎ ((evt : E) × (decode p ≡ ok evt) × (s' ≡ (service evt s).1))

module _ (redis : Redis) (prefix : Text) {T E : Type 0} (decode : Payload → Result E)
    (id_of : E → Text) (service : E → M T (Unit {0})) (p : Payload) (s : Session T)
    (st : redis.State) where
  serve_effect :
      (evt : E)
      → let s' = (serve redis prefix decode id_of service evt s st).1 in
        (s' ≡ s) ⊎ (s' ≡ (service evt s).1)
  unfolding serve finish
  serve_effect evt =
      elim (Bool-cases (says_processed redis prefix (is_processed redis prefix (id_of evt) st).0)) [
        | inl known ↦ inl (rw known)
        | inr new ↦ elim (Result-cases (service evt s).0) [
          | inl (tt, good) ↦ inr (rw (new, good))
          | inr (e, bad) ↦ inr (rw (new, bad))
        ]
      ]

  pub once-Effect : Effect decode service p s (once redis prefix decode id_of service p s st).1
  unfolding once
  once-Effect = elim (Result-cases (decode p)) [
    | inr (e, bad) ↦ rw (bad, once) (inl refl)
    | inl (evt, good) ↦
        rw (good, once)
          (elim (serve_effect evt) [ inl same ↦ inl same | inr served ↦ inr (evt, refl, served) ])
  ]
