-- ===== src/Api/Sandboxes/Deletion.antt =====
-- What is left of a sandbox after `Delete`.
use microvm_agentic_sandbox.Prelude.{
  ◌≡◌, ◌≢◌, sym, subst, ◌∙◌, String, Bool, false, str_eq, eq_refl, Time,
}
use microvm_agentic_sandbox.Exec.Table.{EnvCodec}
use microvm_agentic_sandbox.Exec.Registry.Index.{
  in_session, in_session-delete, IsIndexed, delete_by_sandbox-IsIndexed,
}
use microvm_agentic_sandbox.Sandbox.Manager.{
  Manager, Result, done_with, failed, DeleteReply, delete_sandbox, get_sandbox,
}
use microvm_agentic_sandbox.Sandbox.Table.{Sandbox}
use microvm_agentic_sandbox.Sandbox.Manager.Lifecycle.{delete_sandbox-get}
use microvm_agentic_sandbox.Api.Http.{no_content, Texts, go}
use microvm_agentic_sandbox.Api.Execs.{Server}
use microvm_agentic_sandbox.Api.Sandboxes.{deleted_in, delete_sandbox_handler}

-- Nothing of the sandbox is reachable: no live sandbox, and no exec in memory.
pub record IsGone (codec : EnvCodec) (id : String) (s : Server) : Type 0 where
  pub no_sandbox :
      (lost : Bool) → (sb : Sandbox) → get_sandbox codec lost id s.manager ≢ done_with sb
  pub no_exec : (exec_id : String) → in_session s.registry id exec_id ≡ false
  pub indexed : IsIndexed s.registry

deleted_in-IsGone :
    (codec : EnvCodec) (texts : Texts) (id : String) (r : Result (Unit {0}) × Manager) (s : Server)
    → IsIndexed s.registry
    → ((lost : Bool) → (sb : Sandbox) → get_sandbox codec lost id r.1 ≢ done_with sb)
    → (deleted_in texts id r s).0 ≡ go no_content
    → IsGone codec id (deleted_in texts id r s).1
unfolding deleted_in
deleted_in-IsGone codec texts id (failed e, m) s v gone h = cc
deleted_in-IsGone codec texts id (done_with u, m) s v gone h = record {
  no_sandbox = gone;
  no_exec = λ exec_id. in_session-delete id s.registry id exec_id ∙ rw eq_refl;
  indexed = delete_by_sandbox-IsIndexed id s.registry v;
}

deleted :
    (texts : Texts) (reply : DeleteReply) (id : String) (now : Time) (s : Server)
    → str_eq id "" ≡ false
    → delete_sandbox_handler texts false reply id now s
      ≡ deleted_in texts id (delete_sandbox false reply id now s.manager) s
unfolding delete_sandbox_handler
deleted texts reply id now s named = rw named

-- Where the update of the row reaches the database and the maps of the registry agree: a `Delete` that
-- answers 204 leaves no live sandbox with the id for any later `Get`, no exec of it in the registry,
-- and the maps in agreement.
pub delete_handler-IsGone :
    (codec : EnvCodec) (texts : Texts) (reply : DeleteReply) (id : String) (now : Time) (s : Server)
    → IsIndexed s.registry
    → str_eq id "" ≡ false
    → (delete_sandbox_handler texts false reply id now s).0 ≡ go no_content
    → IsGone codec id (delete_sandbox_handler texts false reply id now s).1
delete_handler-IsGone codec texts reply id now s v named h =
    subst (λ r. r.0 ≡ go no_content → IsGone codec id r.1)
      (sym (deleted texts reply id now s named))
      (deleted_in-IsGone codec texts id (delete_sandbox false reply id now s.manager) s v
        (λ lost sb. delete_sandbox-get codec lost reply id now s.manager sb))
      h
