-- ===== src/Server.antt =====
-- main.go, and the settings and the cleaner in internal/api/server.go. The environment, the parser
-- of durations and the ticks of the clock are parameters.
pub mod Opened
use muninn.Prelude.{Bool, true, false, ◌||◌, Option, none, some, List, [], ◌∷◌, if◌then◌else◌}
use muninn.Prelude.Int.{ℤ, pos, leb_ℤ}
use muninn.Text.{Text, codes, text_eq, is_empty}

-- The intervals are in nanoseconds.
pub record Config : Type 0 where
  pub addr : Text
  pub read_timeout : ℤ
  pub write_timeout : ℤ
  pub shutdown_timeout : ℤ
  pub purge_interval : ℤ

abbrev pub default_config : Config
default_config = record {
  addr = codes ":8080";
  read_timeout = pos 10000000000;
  write_timeout = pos 10000000000;
  shutdown_timeout = pos 15000000000;
  purge_interval = pos 3600000000000;
}

-- `os.Getenv`, which is empty for a variable that is not set, and `time.ParseDuration`; `none` is
-- an error.
pub record Environment : Type 0 where
  pub variable : Text → Text
  pub parse_duration : Text → Option ℤ

abbrev pub with_addr : Text → Config → Config
with_addr v cfg = if is_empty v then cfg else record cfg { addr = v }

abbrev pub parsed_interval : Option ℤ → Config → Config
parsed_interval none cfg = cfg
parsed_interval (some d) cfg = record cfg { purge_interval = d }

abbrev pub with_purge_interval : Environment → Text → Config → Config
with_purge_interval e v cfg = if is_empty v then cfg else parsed_interval (e.parse_duration v) cfg

unfoldable pub configured : Environment → Config
configured e =
    with_purge_interval e (e.variable (codes "MUNINN_PURGE_INTERVAL"))
      (with_addr (e.variable (codes "MUNINN_ADDR")) default_config)

abbrev pub chosen_driver : Text → Text
chosen_driver driver =
    if text_eq driver (codes "postgres") || text_eq driver (codes "internal")
    then driver
    else codes "sqlite"

-- The argument of `store.NewDB`, or the memory store.
pub data Backend : Type 0 where
  database : Text → Text → Backend
  memory : Backend

abbrev pub backend_of : Text → Text → Backend
backend_of driver dsn =
    if text_eq driver (codes "sqlite") || text_eq driver (codes "postgres")
    then database driver dsn
    else memory

unfoldable pub chosen_backend : Environment → Backend
chosen_backend e =
    backend_of (chosen_driver (e.variable (codes "MUNINN_STORE_DRIVER")))
      (e.variable (codes "MUNINN_STORE_DSN"))

-- The loop over the ticks, each with its own outside world: what the store returns is only logged.
unfoldable pub clean {ℓ} : {S : Type 0} {W : Type ℓ} → (W → S → S) → List W → S → S
clean purge [] s = s
clean purge (w ∷ ticks) s = clean purge ticks (purge w s)

-- No ticker is started for an interval of zero or less.
unfoldable pub start_chunk_cleaner {ℓ} :
    {S : Type 0} {W : Type ℓ} → ℤ → (W → S → S) → List W → S → S
start_chunk_cleaner interval purge ticks s =
    let cleaned = clean purge ticks s in if leb_ℤ interval (pos 0) then s else cleaned
