-- ===== src/Startup/Ready.antt =====
-- The adapter when it begins to serve.
use microvm_agentic_sandbox.Prelude.{
  ℕ, ◌≡◌, refl, subst, true, Option, none, some, List, [], ◌∷◌, ◌++◌, arith,
}
use microvm_agentic_sandbox.Exec.Table.{ExecRow, reconcile}
use microvm_agentic_sandbox.Sandbox.Table.{SandboxRow}
use microvm_agentic_sandbox.Sandbox.Manager.{Manager}
use microvm_agentic_sandbox.Sandbox.Manager.Reconcile.{recheck}
use microvm_agentic_sandbox.Cluster.{Client}
use microvm_agentic_sandbox.Cluster.Connection.{
  KubeResult, connected, load_failed, build_failed, new_client,
}
use microvm_agentic_sandbox.Database.{
  Database, Pools, PoolApi, DbResult, db_ok, db_failed, new_db, migrate, TxAnswers, apply_schema,
}
use microvm_agentic_sandbox.Database.Opening.{IsSettled, in_use, new_db-IsSettled}
use microvm_agentic_sandbox.Startup.Facts.{
  IsRechecked, recheck-IsRechecked, IsClosed, reconcile-IsClosed,
}
use microvm_agentic_sandbox.Startup.{
  Adapter, Flags, Environment, World, Fatal, Outcome, up, fatal, Outside, after, ◌>>=◌, ◌>>◌,
  db_url_of, namespace_of, check_of, connected_db, connect_db, migrated_db, migrate_db,
  given_client, connect_k8s, new_manager, refused_query, given_manager, recheck_sandboxes,
  new_registry, closed_execs, close_execs, serve_with, start,
}

pub record IsReady (w : World) (flags : Flags) (env : Environment) (o p : Outside)
    (adapter : Adapter) : Type 1 where
  pub client : Client
  pub connected_to : new_client w.kube env.kubeconfig (namespace_of flags) ≡ connected client
  pub opened : p.opened.opened ≡ o.opened.opened ++ adapter.pool ∷ []
  pub none_closed : p.opened.closed ≡ o.opened.closed
  pub answers : w.pools.ping adapter.pool ≡ true
  pub has_tables : p.database.has_schema ≡ true
  pub same_sandboxes : p.database.sandboxes ≡ adapter.server.manager.sandboxes
  pub same_execs : p.database.execs ≡ adapter.server.registry.execs
  pub sandboxes : IsRechecked w client o.database.sandboxes adapter.server.manager
  pub execs : IsClosed w.closed_at o.database.execs adapter.server.registry

migrate_ok :
    (tx : TxAnswers) (db after : Database) (u : Unit {0})
    → migrate tx db ≡ (db_ok u, after)
    → after ≡ apply_schema db
unfolding migrate
migrate_ok tx db after u h = ground arith

in_use_settled :
    (api : PoolApi) (before now : Pools) (pool : ℕ)
    → IsSettled api before now (db_ok pool)
    → (now.opened ≡ before.opened ++ pool ∷ [])
      × (now.closed ≡ before.closed)
      × (api.ping pool ≡ true)
in_use_settled api before now _ (in_use pool opened closed answers) = (opened, closed, answers)

value_or {ℓ} : {A : Type ℓ} → A → Outcome A → A
value_or a (up b) = b
value_or a (fatal e) = a

module _ (w : World) (flags : Flags) (env : Environment) (o p : Outside) (adapter : Adapter) where
  abbrev Ends : Outcome Adapter × Outside → Type 0
  Ends r = r ≡ (up adapter, p)

  stopped : (e : Fatal) (q : Outside) → Ends (fatal e, q) → IsReady w flags env o p adapter
  stopped e q h = cc

  module _ (pool : ℕ) (ps : Pools)
      (opening : new_db w.pools (db_url_of flags env) o.opened ≡ (db_ok pool, ps)) where
    settled :
        (ps.opened ≡ o.opened.opened ++ pool ∷ [])
        × (ps.closed ≡ o.opened.closed)
        × (w.pools.ping pool ≡ true)
    settled = in_use_settled w.pools o.opened ps pool (
        subst (λ r. IsSettled w.pools o.opened r.1 r.0) opening
          (new_db-IsSettled w.pools o.opened (db_url_of flags env)))

    -- the outside when the schema is there, with the rows
    abbrev migrated : List SandboxRow → List ExecRow → Outside
    migrated sandboxes execs = record {
      database = record { has_schema = true; sandboxes = sandboxes; execs = execs };
      opened = ps;
    }

    module _ (c : Client)
        (connection : new_client w.kube env.kubeconfig (namespace_of flags) ≡ connected c) where
      served-IsReady :
          (m : Manager) (rows : List ExecRow)
          → IsRechecked w c o.database.sandboxes m
          → IsClosed w.closed_at o.database.execs (new_registry w.heap rows)
          → IsReady w flags env o (migrated m.sandboxes rows) (record {
            pool = pool;
            server = record { manager = m; registry = new_registry w.heap rows };
          })
      served-IsReady m rows checked closed = record {
        client = c;
        connected_to = connection;
        opened = settled.0;
        none_closed = settled.1;
        answers = settled.2;
        has_tables = refl;
        same_sandboxes = refl;
        same_execs = refl;
        sandboxes = checked;
        execs = closed;
      }

      closed-IsReady :
          (m : Manager) (r : Option (List ExecRow))
          → IsRechecked w c o.database.sandboxes m
          → reconcile
              (refused_query w.registry_fault (migrated [] []).database)
              w.closed_at
              o.database.execs
            ≡ r
          → Ends (
              after
                (closed_execs w.heap r (migrated m.sandboxes o.database.execs))
                (serve_with pool m))
          → IsReady w flags env o p adapter
      unfolding closed_execs serve_with value_or
      closed-IsReady m none checked closing h = stopped _ _ h
      closed-IsReady m (some rows) checked closing h =
          subst (λ r. IsReady w flags env o r.1 (value_or adapter r.0)) h
            (served-IsReady m rows checked (reconcile-IsClosed _ w.closed_at _ rows w closing))

      given_manager-IsReady :
          (r : Option Manager)
          → recheck
              (refused_query w.manager_fault (migrated [] []).database)
              (check_of w c)
              w.checked_at
              (new_manager o.database.sandboxes)
            ≡ r
          → Ends (
              after
                (given_manager r (migrated o.database.sandboxes o.database.execs))
                (λ m. close_execs w >>= serve_with pool m))
          → IsReady w flags env o p adapter
      unfolding given_manager close_execs
      given_manager-IsReady none checking h = stopped _ _ h
      given_manager-IsReady (some m) checking h =
          closed-IsReady m _ (recheck-IsRechecked w c _ o.database.sandboxes m checking) refl h

    client-IsReady :
        (r : KubeResult)
        → new_client w.kube env.kubeconfig (namespace_of flags) ≡ r
        → Ends (
            after
              (given_client r (migrated o.database.sandboxes o.database.execs))
              (λ c. recheck_sandboxes w c >>= λ m. close_execs w >>= serve_with pool m))
        → IsReady w flags env o p adapter
    unfolding given_client recheck_sandboxes
    client-IsReady (connected c) connection h = given_manager-IsReady c connection _ refl h
    client-IsReady load_failed connection h = stopped _ _ h
    client-IsReady build_failed connection h = stopped _ _ h

    migrated-IsReady :
        (r : DbResult (Unit {0}) × Database)
        → migrate w.tx o.database ≡ r
        → Ends (
            after (migrated_db r (record o { opened = ps })) (λ _. connect_k8s w flags env >>= λ c.
            recheck_sandboxes w c >>= λ m. close_execs w >>= serve_with pool m))
        → IsReady w flags env o p adapter
    unfolding migrated_db connect_k8s
    migrated-IsReady (db_failed e, db) migration h = stopped _ _ h
    migrated-IsReady (db_ok u, db) migration h = client-IsReady _ refl (
        subst
          (λ x. Ends (
            after (connect_k8s w flags env (record { database = x; opened = ps }))
              (λ c. recheck_sandboxes w c >>= λ m. close_execs w >>= serve_with pool m)))
          (migrate_ok w.tx o.database db u migration) h)

  connected-IsReady :
      (r : DbResult ℕ × Pools)
      → new_db w.pools (db_url_of flags env) o.opened ≡ r
      → Ends (
          after (connected_db r o) (λ pool.
            migrate_db w
            >> (connect_k8s w flags env >>= λ c.
                recheck_sandboxes w c >>= λ m. close_execs w >>= serve_with pool m)))
      → IsReady w flags env o p adapter
  unfolding connected_db migrate_db
  connected-IsReady (db_failed e, ps) opening h = stopped _ _ h
  connected-IsReady (db_ok pool, ps) opening h = migrated-IsReady pool ps opening _ refl h

-- Whatever pgx, client-go, the cluster, the agents and the database answer: where `main` comes to serve,
-- the one pool that it has opened answers and none is closed, the client of the cluster is the one of
-- the flags, the tables are there, and the manager and the registry agree with them; each sandbox
-- that was running is ended as host_failed if the cluster no longer knows its pod and the update reached the
-- database, and else as it was; an agent is held only for a pod that runs and has answered; the maps of
-- the registry hold nothing, and each exec that was running is errored, the others as they were.
pub start-IsReady :
    (w : World) (flags : Flags) (env : Environment) (o p : Outside) (adapter : Adapter)
    → start w flags env o ≡ (up adapter, p)
    → IsReady w flags env o p adapter
unfolding start connect_db
start-IsReady w flags env o p adapter h = connected-IsReady w flags env o p adapter _ refl h
