-- ===== src/Store/Session.antt =====
-- What the services use of `*sql.DB` and `*sql.Tx`: a session over one service's database. A
-- statement on the pool is committed at once, and a statement on the transaction is kept apart
-- until `Commit`; the deferred `Rollback` drops what is not committed. The two sequences of a
-- service's BIGSERIAL columns move on whatever becomes of the transaction.
-- Which call of the server, the gateway or the encoder fails is an argument.
use msa_saga_go_practical.Prelude.{ℕ, suc, ◌≡◌, ap, Bool, true, false, Option, List, if◌then◌else◌}
use msa_saga_go_practical.Prelude.Int.{ℤ}
use msa_saga_go_practical.Prelude.Text.{Text}
use msa_saga_go_practical.Common.Errors.{Error}
use msa_saga_go_practical.Common.Events.{EventType}
use msa_saga_go_practical.Common.Wire.{Payload}
use msa_saga_go_practical.Common.Result.{Result, ok, err}

pub data OutboxStatus : Type 0 where
  pending sent : OutboxStatus

-- `repository.OutboxEvent`, a row of `outbox_events`.
pub record OutboxEvent : Type 0 where
  pub id : ℤ
  pub aggregate_type : Text
  pub aggregate_id : ℤ
  pub event_type : EventType
  pub payload : Payload
  pub status : OutboxStatus
  pub created_at : ℕ
  pub sent_at : Option ℕ

-- One service's tables and its outbox.
pub record Db (T : Type 0) : Type 0 where
  pub tables : T
  pub outbox : List OutboxEvent

pub record Session (T : Type 0) : Type 0 where
  pub committed : Db T  -- what every other connection sees
  pub working : Db T  -- what the open transaction sees
  pub serial : ℕ  -- the last id given to a row of the service's own table
  pub outbox_serial : ℕ  -- the last id given to a row of the outbox

-- The calls that may fail, by what they do. One run of a handler makes each at most once.
pub record Faults : Type 0 where
  pub find_key : Bool
  pub find : Bool
  pub begin : Bool
  pub find_for_update : Bool
  pub create : Bool
  pub update : Bool
  pub update_reservation : Bool
  pub marshal : Bool
  pub insert_event : Bool
  pub commit : Bool

abbrev pub no_faults : Faults
no_faults = record {
  find_key = false;
  find = false;
  begin = false;
  find_for_update = false;
  create = false;
  update = false;
  update_reservation = false;
  marshal = false;
  insert_event = false;
  commit = false;
}

-- What one run of a handler takes from outside: which calls fail, `time.Now`, the fresh texts of
-- `uuid.New`, and the text of the driver's errors.
pub record Env : Type 0 where
  pub faults : Faults
  pub now : ℕ
  pub event_id : Text
  pub correlation_id : Text
  pub driver_text : Error → Text

abbrev pub M : Type 0 → Type 0 → Type 0
M T A = Session T → Result A × Session T

module _ {T A : Type 0} where
  abbrev pub pure : A → M T A
  pure a s = (ok a, s)

  abbrev pub raise : Error → M T A
  raise e s = (err e, s)

  abbrev pub lift : Result A → M T A
  lift r s = (r, s)

-- The rest of a function, after the result of a call.
abbrev pub resume : {T A B : Type 0} → (A → M T B) → Result A × Session T → Result B × Session T
resume f (ok a, s) = f a s
resume f (err e, s) = (err e, s)

infixl 5 ◌>>=◌ ◌>>◌
abbrev pub ◌>>=◌ : {T A B : Type 0} → M T A → (A → M T B) → M T B
◌>>=◌ m f s = resume f (m s)

abbrev pub ◌>>◌ : {T A B : Type 0} → M T A → M T B → M T B
m >> k = m >>= λ _. k

module _ {T : Type 0} where
  -- `if fails { return err }`
  abbrev pub fail_if : Bool → Error → M T (Unit {0})
  fail_if fails e s = (if fails then err e else ok tt, s)

  -- The `if err != nil { return wrap(err) }` after a call.
  abbrev pub on_error : {A : Type 0} → (Error → Error) → M T A → M T A
  on_error f m s = let (r, s') = m s in (elim r [ ok a ↦ ok a | err e ↦ err (f e) ], s')

  -- A read outside the transaction.
  abbrev pub reads : {A : Type 0} → (T → A) → M T A
  reads f s = (ok (f s.committed.tables), s)

  -- A read inside the transaction.
  abbrev pub reads_tx : {A : Type 0} → (T → A) → M T A
  reads_tx f s = (ok (f s.working.tables), s)

  abbrev pub write_db : (Db T → Db T) → Session T → Session T
  write_db f s = record s { committed = f s.committed; working = f s.working }

  abbrev pub write_tx : (Db T → Db T) → Session T → Session T
  write_tx f s = record s { working = f s.working }

  abbrev pub on_tables : (T → T) → Db T → Db T
  on_tables f d = record d { tables = f d.tables }

  -- `nextval` of the sequence of the service's own table.
  abbrev pub next_serial : Session T → Session T
  next_serial s = record s { serial = suc s.serial }

  -- `db.BeginTx`, the rest of the function, and the deferred `tx.Rollback()`, which does nothing
  -- after a commit.
  abbrev pub transaction : {A : Type 0} → Bool → Error → M T A → M T A
  transaction fails e body s =
      if fails
      then (err e, s)
      else let (r, s') = body (record s { working = s.committed }) in
        (r, record s' { working = s'.committed })

  -- `tx.Commit()`. A commit that fails leaves nothing behind.
  abbrev pub commit : Bool → M T (Unit {0})
  commit fails s =
      if fails then (err Error.driver, s) else (ok tt, record s { committed = s.working })

-- The rest of a function after a call that succeeds, and after one that fails.
pub >>=-ok :
    {T A B : Type 0} (m : M T A) (f : A → M T B) (s : Session T) {a : A} {s' : Session T}
    → m s ≡ (ok a, s')
    → (m >>= f) s ≡ f a s'
>>=-ok m f s h = ap (resume f) h

>>=-err :
    {T A B : Type 0} (m : M T A) (f : A → M T B) (s : Session T) {e : Error} {s' : Session T}
    → m s ≡ (err e, s')
    → (m >>= f) s ≡ (err e, s')
>>=-err m f s h = ap (resume f) h

-- A transaction whose body runs, and one that cannot begin.
abbrev pub close_tx : {T A : Type 0} → Result A × Session T → Result A × Session T
close_tx (r, s) = (r, record s { working = s.committed })

pub transaction_begun :
    {T A : Type 0} (fails : Bool) (e : Error) (body : M T A) (s : Session T)
    → fails ≡ false
    → transaction fails e body s ≡ close_tx (body (record s { working = s.committed }))
transaction_begun fails e body s h = rw h

pub transaction_refused :
    {T A : Type 0} (fails : Bool) (e : Error) (body : M T A) (s : Session T)
    → fails ≡ true
    → transaction fails e body s ≡ (err e, s)
transaction_refused fails e body s h = rw h
