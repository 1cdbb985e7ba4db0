-- ===== src/Wiring/Process.antt =====
-- A `main` of services/*/cmd/main.go as a process: the calls that it makes, in order, what it defers,
-- and how it ends. `log.Fatal` ends the process by `os.Exit`, which runs no deferred call; a panic and
-- a return run them, the last one first. Which calls fail is an argument.
use msa_saga_go_practical.Prelude.{ℕ, Bool, List, [], ◌∷◌, ◌++◌, if◌then◌else◌}
use msa_saga_go_practical.Prelude.Text.{Text, text}

-- What a process takes and gives back.
pub data Resource : Type 0 where
  logs database redis_client publisher consumer : Resource

pub data Action : Type 0 where
  acquire : Resource → List Text → Action  -- with the addresses or names that it is opened by
  release : Resource → Action
  set_pool : ℕ → ℕ → ℕ → Action  -- open and idle connections, and minutes of life
  ping : Resource → Action
  use_prefix : Text → Action  -- of the keys in Redis
  subscribe : List Text → Action
  start_worker : ℕ → Action  -- with the seconds of a tick
  listen : Text → List Text → Action  -- the address and the routes
  shutdown : ℕ → Action  -- with the seconds that it may take
  cancel_worker cancel_shutdown : Action

pub data Exit : Type 0 where
  returned : Exit
  fatal : Text → Exit
  panicked : Text → Exit

-- How the wait for a signal ends: by one, or because the HTTP server fails first.
pub data Ending : Type 0 where
  signaled server_failed : Ending

-- The calls that may fail.
pub record Boot : Type 0 where
  pub new_logger : Bool
  pub open_database : Bool
  pub ping_database : Bool
  pub ping_redis : Bool
  pub new_publisher : Bool
  pub new_consumer : Bool
  pub ending : Ending

pub record Trace : Type 0 where
  pub actions : List Action
  pub deferred : List Action

-- The result of a statement: the process goes on, or ends.
pub data Step (A : Type 0) : Type 0 where
  go_on : A → Step A
  stop : Exit → Step A

abbrev pub Process : Type 0 → Type 0
Process A = Trace → Step A × Trace

abbrev pub proceed : {A B : Type 0} → (A → Process B) → Step A × Trace → Step B × Trace
proceed f (go_on a, t) = f a t
proceed f (stop e, t) = (stop e, t)

infixl 5 ◌>>=◌ ◌>>◌
abbrev pub ◌>>=◌ : {A B : Type 0} → Process A → (A → Process B) → Process B
◌>>=◌ m f t = proceed f (m t)

abbrev pub ◌>>◌ : {A B : Type 0} → Process A → Process B → Process B
m >> k = m >>= λ _. k

abbrev pub act : Action → Process (Unit {0})
act a t = (go_on tt, record t { actions = t.actions ++ (a ∷ []) })

abbrev act_none : Process (Unit {0})
act_none t = (go_on tt, t)

-- `defer`
abbrev pub later : Action → Process (Unit {0})
later a t = (go_on tt, record t { deferred = a ∷ t.deferred })

abbrev pub stop_if : Bool → Exit → Process (Unit {0})
stop_if fails e t = (if fails then stop e else go_on tt, t)

-- `x, err := open(…); if err != nil { log.Fatal(…) }; defer x.Close()`, by the exit that the failure
-- leads to.
abbrev pub acquired : Bool → Resource → List Text → Exit → Process (Unit {0})
acquired fails r names exit = do stop_if fails exit; act (acquire r names); later (release r)

-- `log, _ := NewLogger(…); defer log.Sync()`: after an error the logger is nil.
abbrev pub unchecked_logs : Bool → Text → Process (Unit {0})
unchecked_logs lost name =
    if lost then act_none else do act (acquire logs (name ∷ [])); later (release logs)

-- A call of a nil logger reads a field of it.
abbrev pub nil_panic : Exit
nil_panic = panicked (text "invalid memory address or nil pointer dereference")

-- `log.Fatal(…)`
abbrev pub fatal_by : Bool → Text → Exit
fatal_by lost message = if lost then nil_panic else fatal message

-- `log.Info(…)`
abbrev pub inform : Bool → Process (Unit {0})
inform lost = stop_if lost nil_panic

-- `<-quit`, with the goroutine of the HTTP server beside it.
abbrev pub wait_for : Ending → Process (Unit {0})
wait_for signaled t = (go_on tt, t)
wait_for server_failed t = (stop (fatal (text "http server failed")), t)

-- The whole process.
abbrev pub finish : Step (Unit {0}) × Trace → Exit × List Action
finish (go_on a, t) = (returned, t.actions ++ t.deferred)
finish (stop returned, t) = (returned, t.actions ++ t.deferred)
finish (stop (fatal m), t) = (fatal m, t.actions)
finish (stop (panicked m), t) = (panicked m, t.actions ++ t.deferred)

abbrev pub run : Process (Unit {0}) → Exit × List Action
run main = finish (main (record { actions = []; deferred = [] }))
