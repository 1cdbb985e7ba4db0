-- ===== src/Common/Idempotency.antt =====
-- common/idempotency/store.go, and the shape that every event handler has around it: decode, skip
-- what is marked as processed, call the service, mark. The Redis server is a parameter.
use msa_saga_go_practical.Prelude.{ℕ, ◌*◌, ◌<◌, ◌≡◌, ◌≢◌, Bool, false, ◌++◌, ltb, if◌then◌else◌}
use msa_saga_go_practical.Prelude.Text.{Text, text}
use msa_saga_go_practical.Common.Errors.{Error}
use msa_saga_go_practical.Common.Result.{Result, ok, err}
use msa_saga_go_practical.Common.Wire.{Payload}
use msa_saga_go_practical.Store.Session.{Session, M}

-- The three commands that the store sends, on the server's state. Each may fail.
pub record Redis : Type 1 where
  pub State : Type 0
  pub set_nx : Text → Text → ℕ → State → Result Bool × State
  pub exists : Text → State → Result ℕ × State
  pub del : Text → State → Result ℕ × State

-- What the handlers rely on: after an answered SETNX, an EXISTS of the key that is answered counts
-- it. The expiry of the key after its time to live is left out.
pub record RedisLaws (redis : Redis) : Type 0 where
  pub exists-set_nx :
      (key value : Text) (ttl : ℕ) (st : redis.State) {b : Bool} {n : ℕ}
      → (redis.set_nx key value ttl st).0 ≡ ok b
      → (redis.exists key (redis.set_nx key value ttl st).1).0 ≡ ok n
      → 0 < n

-- Two more of its promises: EXISTS changes nothing, and SETNX concerns its own key alone.
pub record RedisFrame (redis : Redis) : Type 0 where
  pub exists-exists :
      (key other : Text) (st : redis.State)
      → (redis.exists key (redis.exists other st).1).0 ≡ (redis.exists key st).0
  pub exists-set_nx_other :
      (key other value : Text) (ttl : ℕ) (st : redis.State)
      → key ≢ other
      → (redis.exists key (redis.set_nx other value ttl st).1).0 ≡ (redis.exists key st).0

-- `getFullKey`
unfoldable pub full_key : Text → Text → Text
full_key prefix key = prefix ++ (text ":" ++ key)

-- 24 * time.Hour, in nanoseconds.
abbrev pub one_day : ℕ
one_day = 24 * 3600000000000

module _ (redis : Redis) (prefix : Text) where
  unfoldable pub reserve : Text → ℕ → redis.State → Result Bool × redis.State
  unfolding full_key
  reserve key ttl st =
      let (r, st') = redis.set_nx (full_key prefix key) (text "1") ttl st in
      (
        elim r [
          | ok b ↦ ok b
          | err e ↦ err (Error.errorf_w (text "failed to reserve idempotency key") e)
        ],
        st',
      )

  unfoldable pub is_processed : Text → redis.State → Result Bool × redis.State
  unfolding full_key
  is_processed key st =
      let (r, st') = redis.exists (full_key prefix key) st in
      (
        elim r [
          | ok n ↦ ok (ltb 0 n)
          | err e ↦ err (Error.errorf_w (text "failed to check idempotency key") e)
        ],
        st',
      )

  unfoldable pub release : Text → redis.State → Result (Unit {0}) × redis.State
  unfolding full_key
  release key st =
      let (r, st') = redis.del (full_key prefix key) st in
      (
        elim r [
          | ok n ↦ ok tt
          | err e ↦ err (Error.errorf_w (text "failed to release idempotency key") e)
        ],
        st',
      )

  -- `if processed, _ := store.IsProcessed(…); processed`: an error counts as not processed.
  abbrev pub says_processed : Result Bool → Bool
  says_processed (ok b) = b
  says_processed (err e) = false

  module _ {T E : Type 0} (decode : Payload → Result E) (id_of : E → Text)
      (service : E → M T (Unit {0})) where
    -- After a success the event is marked; the result of the marking is dropped.
    unfoldable pub finish :
        E
        → Result (Unit {0})
        → Session T
        → redis.State
        → Result (Unit {0}) × Session T × redis.State
    unfolding reserve
    finish evt (err e) s st = (err e, s, st)
    finish evt (ok done) s st = (ok tt, s, (reserve (id_of evt) one_day st).1)

    unfoldable pub serve : E → Session T → redis.State → Result (Unit {0}) × Session T × redis.State
    unfolding finish is_processed
    serve evt s st =
        let (processed, st') = is_processed (id_of evt) st in
        if says_processed processed
        then (ok tt, s, st')
        else let (r, s') = service evt s in finish evt r s' st'

    unfoldable pub once :
        Payload → Session T → redis.State → Result (Unit {0}) × Session T × redis.State
    unfolding serve
    once payload s st = elim (decode payload) [ ok evt ↦ serve evt s st | err e ↦ (err e, s, st) ]
