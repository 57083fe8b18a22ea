-- ===== src/Startup/Shutdown.antt =====
-- The pool of connections when `main` has ended.
use microvm_agentic_sandbox.Prelude.{ℕ, ◌≡◌, refl, ap, true, [], ◌∷◌, ◌++◌}
use microvm_agentic_sandbox.Database.{Pools, close_pool}
use microvm_agentic_sandbox.Startup.{
  Flags, Environment, World, Adapter, Outcome, up, fatal, Outside, start, Serving, listen_fails,
  signalled, returns, finish_main, end_main, run_main,
}
use microvm_agentic_sandbox.Startup.Ready.{start-IsReady}

-- One pool has been opened, it answered, and it has been closed.
pub record IsReleased (w : World) (before now : Pools) : Type 0 where
  pub pool : ℕ
  pub answered : w.pools.ping pool ≡ true
  pub opened : now.opened ≡ before.opened ++ pool ∷ []
  pub closed : now.closed ≡ before.closed ++ pool ∷ []

module _ (w : World) (flags : Flags) (env : Environment) (o : Outside) where
  end_main-IsReleased :
      (serving : Serving) (r : Outcome Adapter × Outside)
      → start w flags env o ≡ r
      → (end_main serving r).0 ≡ returns
      → IsReleased w o.opened (end_main serving r).1
  unfolding end_main finish_main close_pool
  end_main-IsReleased serving (fatal e, p) begun h = cc
  end_main-IsReleased listen_fails (up adapter, p) begun h = cc
  end_main-IsReleased signalled (up adapter, p) begun h =
      let ready = start-IsReady w flags env o p adapter begun in
      record {
        pool = adapter.pool;
        answered = ready.answers;
        opened = ready.opened;
        closed = ap (λ ps. ps ++ adapter.pool ∷ []) ready.none_closed;
      }

  -- Whatever the outside answers, and however the serving ends: where `main` returns, it has opened exactly
  -- one pool of connections, which answered a ping, and closed that one and no other.
  pub run_main-IsReleased :
      (serving : Serving)
      → (run_main w flags env serving o).0 ≡ returns
      → IsReleased w o.opened (run_main w flags env serving o).1
  unfolding run_main
  run_main-IsReleased serving h = end_main-IsReleased serving _ refl h
