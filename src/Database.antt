-- ===== src/Database.antt =====
-- adapter/internal/db/db.go: `New`, `Migrate` and `Close`, over the connection pool of pgx and the
-- transactions of Postgres, which are not modelled: `PoolApi` and `TxAnswers` hold what they answer.
pub mod Opening
use microvm_agentic_sandbox.Prelude.{
  ℕ, String, Bool, true, false, not, Option, none, some, List, [], ◌∷◌, ◌++◌, if◌then◌else◌,
}
use microvm_agentic_sandbox.Exec.Table.{ExecRow}
use microvm_agentic_sandbox.Sandbox.Table.{SandboxRow}

-- The fields of a `pgxpool.Config` that the code sets; `settings` is the rest, as `ParseConfig` makes
-- it of the url. The times are in seconds.
pub record PoolConfig : Type 0 where
  pub settings : String
  pub max_conns : ℕ
  pub min_conns : ℕ
  pub max_conn_idle_time : ℕ
  pub health_check_period : ℕ

-- `pgxpool`; a pool is a number.
pub record PoolApi : Type 0 where
  pub parse_config : String → Option PoolConfig
  pub new_with_config : PoolConfig → Option ℕ
  pub ping : ℕ → Bool

pub data DbError : Type 0 where
  parse_url_failed open_pool_failed ping_failed : DbError
  begin_failed apply_failed commit_failed : DbError

pub data DbResult {ℓ} (A : Type ℓ) : Type ℓ where
  db_ok : A → DbResult A
  db_failed : DbError → DbResult A

-- the defaults of the pool
unfoldable pub with_defaults : PoolConfig → PoolConfig
with_defaults cfg = record cfg {
  max_conns = 20;
  min_conns = 2;
  max_conn_idle_time = 300;
  health_check_period = 30;
}

-- The pools that have been opened, and those that have been closed.
pub record Pools : Type 0 where
  pub opened : List ℕ
  pub closed : List ℕ

abbrev note_opened : ℕ → Pools → Pools
note_opened pool ps = record ps { opened = ps.opened ++ pool ∷ [] }

-- `Close`
unfoldable pub close_pool : ℕ → Pools → Pools
close_pool pool ps = record ps { closed = ps.closed ++ pool ∷ [] }

pinged_pool : PoolApi → ℕ → Pools → DbResult ℕ × Pools
pinged_pool api pool ps =
    if api.ping pool then (db_ok pool, ps) else (db_failed ping_failed, close_pool pool ps)

opened_pool : PoolApi → Option ℕ → Pools → DbResult ℕ × Pools
opened_pool api none ps = (db_failed open_pool_failed, ps)
opened_pool api (some pool) ps = pinged_pool api pool (note_opened pool ps)

parsed_url : PoolApi → Option PoolConfig → Pools → DbResult ℕ × Pools
parsed_url api none ps = (db_failed parse_url_failed, ps)
parsed_url api (some cfg) ps = opened_pool api (api.new_with_config (with_defaults cfg)) ps

-- `New`
unfoldable pub new_db : PoolApi → String → Pools → DbResult ℕ × Pools
unfolding parsed_url opened_pool pinged_pool close_pool
new_db api url ps = parsed_url api (api.parse_config url) ps

-- The tables of adapter/internal/db/schema.sql; `has_schema` tells whether they have been created.
pub record Database : Type 0 where
  pub has_schema : Bool
  pub sandboxes : List SandboxRow
  pub execs : List ExecRow

-- schema.sql, where each statement is IF NOT EXISTS: rows that are there stay.
abbrev pub apply_schema : Database → Database
apply_schema db = record db { has_schema = true }

-- What the transaction answers to `Begin`, to the schema, and to `Commit`.
pub record TxAnswers : Type 0 where
  pub begun : Bool
  pub applied : Bool
  pub committed : Bool

-- `Migrate`: what the transaction did is seen by the others once it is committed.
unfoldable pub migrate : TxAnswers → Database → DbResult (Unit {0}) × Database
migrate tx db =
    if not tx.begun
    then (db_failed begin_failed, db)
    else if not tx.applied
    then (db_failed apply_failed, db)
    else if not tx.committed
    then (db_failed commit_failed, db)
    else (db_ok tt, apply_schema db)
