-- ===== src/Wiring/Config.antt =====
-- `Config`, `loadConfig` and `getEnv` of services/*/cmd/main.go. The environment is an argument:
-- `os.Getenv` gives the empty text for a variable that is not set. `strings.Split` is the standard
-- library's.
use msa_saga_go_practical.Prelude.{
  ℕ, ◌≡◌, refl, ap, Bool, true, false, List, [], ◌∷◌, ◌++◌, arith, if◌then◌else◌, ◌==◌, Bool-cases,
  inl, inr,
}
use msa_saga_go_practical.Prelude.Text.{Text, text, text_eq}
use msa_saga_go_practical.Store.Table.{All}

abbrev pub Environment : Type 0
Environment = Text → Text

-- `getEnv`
unfoldable pub get_env : Environment → Text → Text → Text
get_env env key default = if text_eq (env key) [] then default else env key

abbrev prepend : ℕ → List Text → List Text
prepend c [] = (c ∷ []) ∷ []
prepend c (w ∷ ws) = (c ∷ w) ∷ ws

-- `strings.Split` by a separator of one byte.
unfoldable pub split : ℕ → Text → List Text
split sep [] = [] ∷ []
split sep (c ∷ s) = let rest = split sep s in if c == sep then [] ∷ rest else prepend c rest

-- `strings.Join`
unfoldable pub join : ℕ → List Text → Text
join sep [] = []
join sep (w ∷ []) = w
join sep (w ∷ v ∷ ws) = w ++ (sep ∷ join sep (v ∷ ws))

pub record Config : Type 0 where
  pub db_dsn : Text
  pub redis_addr : Text
  pub kafka_brokers : List Text
  pub service_port : Text

-- `loadConfig` of a service with this database and this port.
unfoldable pub load_config : Text → Text → Environment → Config
load_config dsn port env = record {
  db_dsn = get_env env (text "DB_DSN") dsn;
  redis_addr = get_env env (text "REDIS_ADDR") (text "localhost:6379");
  kafka_brokers = split b',' (get_env env (text "KAFKA_BROKERS") (text "localhost:9093"));
  service_port = get_env env (text "SERVICE_PORT") port;
}

-- A text has the separator.
abbrev pub has_byte : ℕ → Text → Bool
has_byte sep [] = false
has_byte sep (c ∷ s) = if c == sep then true else has_byte sep s

abbrev IsSplit : ℕ → Text → List Text → Type 0
IsSplit sep s [] = ⊥
IsSplit sep s (w ∷ ws) = (join sep (w ∷ ws) ≡ s) × All (λ v. has_byte sep v ≡ false) (w ∷ ws)

split-IsSplit : (sep : ℕ) (s : Text) → IsSplit sep s (split sep s)
unfolding split join
split-IsSplit sep [] = (refl, (refl, tt))
split-IsSplit sep (c ∷ s) = elim (Bool-cases (c == sep)) [
  | inl hit ↦ rw hit (separated c hit (split sep s) (split-IsSplit sep s))
  | inr miss ↦ rw miss (prepended c miss (split sep s) (split-IsSplit sep s))
]
  where
    separated :
        (c : ℕ)
        → c == sep ≡ true
        → (ws : List Text) → IsSplit sep s ws
        → IsSplit sep (c ∷ s) ([] ∷ ws)
    separated c hit [] h = elim h [ ]
    separated c hit (w ∷ ws) h = (ground (arith, h.0), (refl, h.1))

    prepended :
        (c : ℕ)
        → c == sep ≡ false
        → (ws : List Text) → IsSplit sep s ws
        → IsSplit sep (c ∷ s) (prepend c ws)
    prepended c miss [] h = elim h [ ]
    prepended c miss (w ∷ []) h = (ap (λ t. c ∷ t) h.0, (rw miss h.1.0, tt))
    prepended c miss (w ∷ v ∷ ws) h = (ap (λ t. c ∷ t) h.0, (rw miss h.1.0, h.1.1))

split_whole :
    (sep : ℕ) (s : Text) (ws : List Text)
    → IsSplit sep s ws
    → (join sep ws ≡ s) × All (λ v. has_byte sep v ≡ false) ws
split_whole sep s [] h = elim h [ ]
split_whole sep s (w ∷ ws) h = h

-- The brokers of a service's configuration, joined by commas, are the text of KAFKA_BROKERS, or the
-- default address if the variable is not set or empty, and no broker's address has a comma.
load_config-join :
    (dsn port : Text) (env : Environment)
    → let brokers = (load_config dsn port env).kafka_brokers in
      (join b',' brokers ≡ get_env env (text "KAFKA_BROKERS") (text "localhost:9093"))
      × All (λ v. has_byte b',' v ≡ false) brokers
unfolding load_config
load_config-join dsn port env =
    let value = get_env env (text "KAFKA_BROKERS") (text "localhost:9093") in
    split_whole b',' value (split b',' value) (split-IsSplit b',' value)
