-- ===== src/Examples/Common.antt =====
-- Runs of common/.
use msa_saga_go_practical.Prelude.{
  ◌⊎◌, ◌≢◌, ap, none, ◌<◌, ◌+◌, ◌≤◌, length, ltb, ℕ, suc, ◌≡◌, refl, Bool, true, false, List, [],
  ◌∷◌, arith, if◌then◌else◌,
}
use msa_saga_go_practical.Prelude.Int.{pos}
use msa_saga_go_practical.Prelude.Text.{Text, text, text_eq, text_eq_iff}
use msa_saga_go_practical.Common.Errors.{Error}
use msa_saga_go_practical.Common.Events.{EventType, PaymentCompletedEvent}
use msa_saga_go_practical.Common.Result.{Result, ok, err}
use msa_saga_go_practical.Common.Wire.{malformed}
use msa_saga_go_practical.Common.Idempotency.{Redis, RedisFrame}
use msa_saga_go_practical.Common.Messaging.{
  Message, consume_claim, after_all, consume_claim_marks_all,
}
use msa_saga_go_practical.Common.Retry.{Config, Clock, do_with_result}
use msa_saga_go_practical.Common.Attempts.{
  IsShort, first_of, do_with_result-first_of, do_with_result_waits,
}
use msa_saga_go_practical.Store.Table.{All}
use msa_saga_go_practical.Store.Session.{M}
use msa_saga_go_practical.Examples.{base}

-- A server that never fails, with the keys that it holds.
abbrev pub holds_key : Text → List Text → Bool
holds_key k [] = false
holds_key k (x ∷ ks) = if text_eq x k then true else holds_key k ks

abbrev pub set_key : Text → Text → ℕ → List Text → Result Bool × List Text
set_key k value ttl ks = if holds_key k ks then (ok false, ks) else (ok true, k ∷ ks)

abbrev pub count_key : Text → List Text → Result ℕ × List Text
count_key k ks = (ok (if holds_key k ks then 1 else 0), ks)

abbrev pub server : Redis
server = record {
  State = List Text;
  set_nx = set_key;
  exists = count_key;
  del = λ k ks. (ok 0, ks);
}

ok_same : {A : Type 0} {a b : A} → ok a ≡ ok b → a ≡ b
ok_same h = ground arith

others_kept :
    (k other value : Text) (ttl : ℕ) (ks : List Text)
    → k ≢ other
    → holds_key k (set_key other value ttl ks).1 ≡ holds_key k ks
others_kept k other value ttl ks ne = ground (arith, text_eq_iff other k)

pub server_frame : RedisFrame server
server_frame = record {
  exists-exists = λ key other st. refl;
  exists-set_nx_other = λ key other value ttl st ne.
      ap (λ b. ok (if b then 1 else 0)) (others_kept key other value ttl st ne);
}

abbrev paid : PaymentCompletedEvent
paid = record {
  base = base EventType.payment_completed;
  order_id = pos 2;
  payment_id = pos 4;
  amount = pos 500;
  payment_type = text "CARD";
}

-- A service that counts its calls, and one that refuses.
abbrev counts : PaymentCompletedEvent → M ℕ (Unit {0})
counts evt s = (ok tt, record s { serial = suc s.serial })

abbrev refuses : PaymentCompletedEvent → M ℕ (Unit {0})
refuses evt s = (err Error.driver, s)

abbrev no_key : List Text
no_key = []

abbrev message : Message
message = record {
  topic = EventType.payment_completed;
  partition = 0;
  offset = 7;
  key = text "2";
  value = malformed;
}

abbrev fails : Message → ℕ → Result (Unit {0}) × ℕ
fails m n = (err Error.bad_json, suc n)

consume_claim_marks_all_example :
    consume_claim fails (message ∷ message ∷ []) 0 ≡ (2, message ∷ message ∷ [])
unfolding after_all
consume_claim_marks_all_example = consume_claim_marks_all fails (message ∷ message ∷ []) 0

abbrev settings : Config
settings = record {
  max_attempts = pos 3;
  initial_interval = 10;
  max_interval = 15;
  scale = λ n. n + n;
  max_elapsed_time = 100;
}

abbrev patient : Clock
patient = record { cancelled = λ n. none; elapsed = λ n. 0; cut_short = λ n. none }

-- Fails until the second call.
abbrev second_time : ℕ → Result ℕ × ℕ
second_time n = if ltb n 1 then (err Error.driver, suc n) else (ok n, suc n)

do_with_result-first_of_example :
    let (r, waits, s') = do_with_result settings patient second_time 0 in
    ◌≡◌ {A = Result ℕ × ℕ} (r, s') (ok 1, 2)
unfolding first_of
do_with_result-first_of_example =
    do_with_result-first_of settings patient second_time 0 (λ n. (refl, refl, omega arith))

do_with_result_waits_example :
    let (_, waits, _) = do_with_result settings patient second_time 0 in
    All (IsShort settings patient second_time) waits
    × (length waits ≤ 3)
    × ((◌≡◌ {A = ℕ} 3 0) ⊎ (length waits < 3))
do_with_result_waits_example = do_with_result_waits settings patient second_time 0
