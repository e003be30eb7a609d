-- ===== src/Startup/Database.antt =====
-- internal/repository/config.go and init.go: the settings of the connection pool and its opening.
use fraud_detection_lite.Prelude.{ℕ, Bool, true, String, Option, none, some}
use fraud_detection_lite.Specs.Error.{Error, Result, ok, err, connection_failed}

-- A type of the database that a connection learns: its name, its number, and those of the elements of
-- an array.
pub record PgType : Type 0 where
  pub name : String
  pub oid : ℕ
  pub element_type : Option (String × ℕ)

-- What a connection of pgx does: the row of a query for a number, and RegisterType.
pub record Conn (S : Type 0) : Type 0 where
  pub query_oid : String → S → Result ℕ × S
  pub register_type : PgType → S → S

abbrev pub mode_type : ℕ → PgType
mode_type oid = record { name = "mode"; oid = oid; element_type = none }

abbrev pub mode_array_type : ℕ → ℕ → PgType
mode_array_type mode_oid oid = record {
  name = "_mode";
  oid = oid;
  element_type = some ("mode", mode_oid);
}

module _ {S : Type 0} (conn : Conn S) where
  -- With both numbers read, both types are registered.
  abbrev pub register_modes : ℕ → Result ℕ → S → Result (Unit {0}) × S
  register_modes mode_oid (err e) s = (err e, s)
  register_modes mode_oid (ok mode_array_oid) s = (
    ok tt,
    conn.register_type (mode_array_type mode_oid mode_array_oid)
        (conn.register_type (mode_type mode_oid) s),
  )

  abbrev pub read_array_oid : Result ℕ → S → Result (Unit {0}) × S
  read_array_oid (err e) s = (err e, s)
  read_array_oid (ok mode_oid) s =
      let (array_read, s') = conn.query_oid "SELECT '_mode'::regtype::oid" s in
      register_modes mode_oid array_read s'

  -- The hook AfterConnect.
  unfoldable pub after_connect : S → Result (Unit {0}) × S
  after_connect s =
      let (mode_read, s') = conn.query_oid "SELECT 'mode'::regtype::oid" s in
      read_array_oid mode_read s'

-- The hooks that answer always the same, but for the line that they log.
abbrev pub prepare_conn : Bool × Result (Unit {0})
prepare_conn = (true, ok tt)

abbrev pub after_release : Bool
after_release = true

-- What pgxpool makes of a text, of settings, and of a ping of the pool.
pub record Pgx (Settings Pool : Type 0) : Type 0 where
  pub parse_config : String → Result Settings
  pub new_with_config : Settings → Result Pool
  pub ping : Pool → Result (Unit {0})

-- How the opening of the pool ends: with a pool that answers, with none, with a pool that did not answer
-- and that stays open, or in a panic.
pub data Attempt (Pool : Type 0) : Type 0 where
  connected : Pool → Attempt Pool
  refused : Error → Attempt Pool
  unanswered : Pool → Error → Attempt Pool
  panicked : Attempt Pool

abbrev pub settings_of : {Settings : Type 0} → Result Settings → Option Settings
settings_of (ok settings) = some settings
settings_of (err e) = none

module _ {Settings Pool : Type 0} (pgx : Pgx Settings Pool) where
  -- Config, where `none` is its nil.
  abbrev pub config : String → Option Settings
  config db_uri = settings_of (pgx.parse_config db_uri)

  abbrev pub pinged : Pool → Result (Unit {0}) → Attempt Pool
  pinged pool (ok r) = connected pool
  pinged pool (err e) = unanswered pool connection_failed

  abbrev pub pool_opened : Result Pool → Attempt Pool
  pool_opened (err e) = refused connection_failed
  pool_opened (ok pool) = pinged pool (pgx.ping pool)

  -- NewWithConfig takes only settings that ParseConfig has made, and panics on nil.
  abbrev pub opened_with : Option Settings → Attempt Pool
  opened_with none = panicked
  opened_with (some settings) = pool_opened (pgx.new_with_config settings)

  -- InitializeDatabase
  unfoldable pub initialize_database : String → Attempt Pool
  initialize_database db_uri = opened_with (config db_uri)
