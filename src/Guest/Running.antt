-- ===== src/Guest/Running.antt =====
-- The execs that the guest agent keeps.
use microvm_agentic_sandbox.Prelude.{
  ℕ, ◌≡◌, refl, ◌∙◌, String, Bool, false, Option, none, some, List, [], ◌∷◌, str_eq, eq_refl, Bytes,
  ℤ, arith, Bool-cases, inl, inr,
}
use microvm_agentic_sandbox.Prelude.Dict
use microvm_agentic_sandbox.Prelude.Dict.{get-remove, get-put}
use microvm_agentic_sandbox.Guest.{
  AgentServer, ok_code, already_exists, not_found_code, register_running, unregister_running, Start,
  drop_child, start_child, begin_exec, Wait, end_exec, stdin_write, signal_exec,
}

-- What holds after an Exec has begun with the child.
pub record IsBegun (exec_id : String) (child : ℕ) (s t : AgentServer) : Type 0 where
  pub was_new : Dict.get s.execs exec_id ≡ none
  pub runs : Dict.get t.execs exec_id ≡ some child
  pub others : (id : String) → str_eq exec_id id ≡ false → Dict.get t.execs id ≡ Dict.get s.execs id

register_running-IsBegun :
    (exec_id : String) (child : ℕ) (s : AgentServer) (o : Option ℕ)
    → Dict.get s.execs exec_id ≡ o
    → (drop_child child (register_running exec_id child s)).0 ≡ ok_code
    → IsBegun exec_id child s (drop_child child (register_running exec_id child s)).1
unfolding register_running drop_child
register_running-IsBegun exec_id child s (some q) e h =
    let taken : (drop_child child (register_running exec_id child s)).0 ≡ already_exists =
      rw (e, register_running) refl in
    cc
register_running-IsBegun exec_id child s none e h =
    rw (e, register_running)
      (record {
        was_new = e;
        runs = ground (arith, get-put s.execs exec_id child exec_id, eq_refl exec_id);
        others = λ id apart. ground (arith, apart, get-put s.execs exec_id child id);
      })

-- An Exec that begins has an id that is not empty, a command, and a child that started; the id was
-- new, the server now has the child under it, and it has the other execs as before.
begin_exec-IsBegun :
    (exec_id : String) (cmd : List String) (start : Start) (s : AgentServer)
    → (begin_exec exec_id cmd start s).0 ≡ ok_code
    → (child : ℕ) × (start ≡ some child)
      × (str_eq exec_id "" ≡ false)
      × IsBegun exec_id child s (begin_exec exec_id cmd start s).1
unfolding begin_exec start_child
begin_exec-IsBegun exec_id [] start s h = cc
begin_exec-IsBegun exec_id (name ∷ args) none s h = elim (Bool-cases (str_eq exec_id "")) [
  | inl e ↦ absurd (ground (arith, e))
  | inr e ↦ absurd (ground (arith, e))
]
begin_exec-IsBegun exec_id (name ∷ args) (some child) s h = elim (Bool-cases (str_eq exec_id "")) [
  | inl e ↦ absurd (ground (arith, e))
  | inr e ↦
      let began : (drop_child child (register_running exec_id child s)).0 ≡ ok_code =
        ground (arith, e) in
      (child, refl, e, rw e (register_running-IsBegun exec_id child s _ refl began))
]

-- What the server has when an exec has ended.
pub record IsEnded (exec_id : String) (s t : AgentServer) : Type 0 where
  pub gone : Dict.get t.execs exec_id ≡ none
  pub kept : (id : String) → str_eq exec_id id ≡ false → Dict.get t.execs id ≡ Dict.get s.execs id
  pub no_stdin :
      (bytes : Bytes) (eof writes closes : Bool)
      → stdin_write exec_id bytes eof writes closes t ≡ (not_found_code, t)
  pub no_signal : (signo : ℤ) (sent : Bool) → signal_exec exec_id signo sent t ≡ (not_found_code, t)

-- From the beginning of an Exec to its end, with nothing else between: while it runs the server has
-- its child under the id, which was new, and the other execs as before; when it has ended, the id is
-- free again, StdinWrite and Signal answer NotFound for it and do nothing, and the other execs are as
-- they were before it began.
pub exec_lifetime :
    (exec_id : String) (cmd : List String) (start : Start) (how : Wait) (s : AgentServer)
    → (begin_exec exec_id cmd start s).0 ≡ ok_code
    → ((child : ℕ) × (start ≡ some child)
        × IsBegun exec_id child s (begin_exec exec_id cmd start s).1)
      × IsEnded exec_id s (end_exec exec_id how (begin_exec exec_id cmd start s).1).1
unfolding end_exec unregister_running stdin_write signal_exec
exec_lifetime exec_id cmd start how s h =
    let (child, started, named, begun) = begin_exec-IsBegun exec_id cmd start s h in
    let t = (begin_exec exec_id cmd start s).1 in
    let free : Dict.get (Dict.remove t.execs exec_id) exec_id ≡ none =
      ground (arith, get-remove t.execs exec_id exec_id, eq_refl exec_id) in
    (
      (child, started, begun),
      record {
        gone = free;
        kept = λ id apart. get-remove t.execs exec_id id ∙ rw apart (begun.others id apart);
        no_stdin = λ bytes eof writes closes. rw (named, free, stdin_write) refl;
        no_signal = λ signo sent. rw (named, free, signal_exec) refl;
      },
    )
