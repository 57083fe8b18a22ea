-- ===== src/Database/Opening.antt =====
-- The pools that `New` leaves open.
use microvm_agentic_sandbox.Prelude.{
  ℕ, ◌≡◌, refl, sym, String, Bool, true, false, Option, none, some, List, [], ◌∷◌, ◌++◌, append-nil,
}
use microvm_agentic_sandbox.Database.{
  PoolConfig, PoolApi, DbError, DbResult, db_ok, db_failed, Pools, pinged_pool, opened_pool,
  parsed_url, new_db, close_pool,
}

-- A pool that is returned has been opened and answers; else every pool that was opened is closed.
pub data IsSettled (api : PoolApi) (before after : Pools) : DbResult ℕ → Type 0 where
  in_use :
      (pool : ℕ)
      → after.opened ≡ before.opened ++ pool ∷ []
      → after.closed ≡ before.closed
      → api.ping pool ≡ true
      → IsSettled api before after (db_ok pool)
  none_left :
      (e : DbError) (pools : List ℕ)
      → after.opened ≡ before.opened ++ pools
      → after.closed ≡ before.closed ++ pools
      → IsSettled api before after (db_failed e)

module _ (api : PoolApi) (ps : Pools) where
  opened-IsSettled :
      (o : Option ℕ) → IsSettled api ps (opened_pool api o ps).1 (opened_pool api o ps).0
  unfolding opened_pool pinged_pool close_pool
  opened-IsSettled none = none_left _ [] (sym (append-nil _)) (sym (append-nil _))
  opened-IsSettled (some pool) = by_ping (api.ping pool) refl
    where
      by_ping :
          (b : Bool)
          → api.ping pool ≡ b
          → IsSettled api ps (opened_pool api (some pool) ps).1 (opened_pool api (some pool) ps).0
      by_ping true e = rw e (in_use pool refl refl e)
      by_ping false e = rw e (none_left _ (pool ∷ []) refl refl)

  parsed-IsSettled :
      (o : Option PoolConfig) → IsSettled api ps (parsed_url api o ps).1 (parsed_url api o ps).0
  unfolding parsed_url
  parsed-IsSettled none = none_left _ [] (sym (append-nil _)) (sym (append-nil _))
  parsed-IsSettled (some cfg) = opened-IsSettled _

  -- Whatever pgx answers: a `New` that returns a pool has opened that one, which answers a ping, and
  -- closed none; a `New` that fails has closed every pool that it opened.
  pub new_db-IsSettled :
      (url : String) → IsSettled api ps (new_db api url ps).1 (new_db api url ps).0
  unfolding new_db
  new_db-IsSettled url = parsed-IsSettled (api.parse_config url)
