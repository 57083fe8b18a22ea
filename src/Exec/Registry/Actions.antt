-- ===== src/Exec/Registry/Actions.antt =====
-- adapter/internal/exec/registry.go and adapter/internal/exec/record.go: what goroutines do to one
-- registry. An action is what one goroutine does between two points where others may come in: a
-- stretch under a lock, a send on a channel, a statement of SQL. So `Register` is two actions, since
-- it lets go of the lock before its INSERT, and `Complete` and `Errored` are the stretch under the
-- lock of the record, the sends, and the UPDATE. A list of actions is one interleaving of them.
pub mod Agree
pub mod Alone
use microvm_agentic_sandbox.Prelude.{
  ℕ, ◌≡◌, ◌≢◌, String, Bool, true, false, ◌==◌, str_eq, if◌then◌else◌, none, some, List, [], ◌∷◌,
  ◌++◌, ℤ, Time,
}
use microvm_agentic_sandbox.Prelude.Dict
use microvm_agentic_sandbox.Exec.Record.{ExecRecord}
use microvm_agentic_sandbox.Exec.Record.Sends.{Call}
use microvm_agentic_sandbox.Exec.Record.Moves.{Move, make, CanMake, write_of}
use microvm_agentic_sandbox.Exec.Table.{EnvCodec, persist_final}
use microvm_agentic_sandbox.Exec.Registry.{Registry, enter, insert_exec, write, delete_by_sandbox}

-- `enters` allocates a record at a place and is the locked part of its `Register`; `inserts` is the rest
-- of it, from `json.Marshal` on (an INSERT that fails changes nothing, so it stands at its rollback);
-- `moves` is a piece of a method of the record at a place; `persists` is the UPDATE of `persistFinal`,
-- with whatever was read of a record before; `deletes` is `DeleteBySandbox`. A Bool says that the
-- statement fails.
pub data Action : Type 0 where
  enters : ℕ → ExecRecord → Action
  inserts : EnvCodec → Bool → ℕ → Action
  moves : ℕ → Move → Action
  persists : Bool → ExecRecord → Action
  deletes : String → Action

-- `Register` up to where it lets go of the lock; an id that is held is refused.
unfoldable pub enter_new : ℕ → Registry → Registry
enter_new p s = elim (Dict.get s.records (s.heap p).id) [ some _ ↦ s | none ↦ enter p (s.heap p) s ]

unfoldable pub act : Action → Registry → Registry
act (enters p rec) s = enter_new p (record s { heap = write p rec s.heap })
act (inserts codec fault p) s = (insert_exec codec fault (s.heap p) s).1
act (moves p move) s = record s { heap = write p (make move (s.heap p)) s.heap }
act (persists fault rec) s = record s { execs = persist_final fault rec s.execs }
act (deletes sandbox_id) s = (delete_by_sandbox sandbox_id s).1

unfoldable pub run : List Action → Registry → Registry
run [] s = s
run (a ∷ actions) s = run actions (act a s)

-- The maps do not point to the place.
abbrev pub IsNew : ℕ → Registry → Type 0
IsNew p s = (id : String) → Dict.get s.records id ≢ some p

-- Memory is allocated where no record is held. While the INSERT of a record is under way, no other record
-- is entered under its id: the ids are random. The rollback deletes by the id alone, and would
-- take the entry of the other. A piece of a method is possible as `CanMake` says.
abbrev pub Possible : Action → Registry → Type 0
Possible (enters p rec) s = IsNew p s
Possible (inserts codec fault p) s = (q : ℕ) → Dict.get s.records (s.heap p).id ≡ some q → q ≡ p
Possible (moves p move) s = CanMake move (s.heap p)
Possible (persists fault rec) s = Unit {0}
Possible (deletes sandbox_id) s = Unit {0}

abbrev pub Allowed : List Action → Registry → Type 0
Allowed [] s = Unit
Allowed (a ∷ actions) s = Possible a s × Allowed actions (act a s)

-- The action is no deletion of the sandbox, and no INSERT of the record at the place.
abbrev pub Leaves : String → ℕ → Action → Type 0
Leaves sandbox_id q (enters p rec) = Unit
Leaves sandbox_id q (inserts codec fault p) = (p == q) ≡ false
Leaves sandbox_id q (moves p move) = Unit
Leaves sandbox_id q (persists fault rec) = Unit
Leaves sandbox_id q (deletes gone) = str_eq sandbox_id gone ≡ false

-- The writes to the record at a place that an action makes.
abbrev pub writes_of : ℕ → Action → List Call
writes_of q (enters p rec) = []
writes_of q (inserts codec fault p) = []
writes_of q (moves p move) = if p == q then write_of move else []
writes_of q (persists fault rec) = []
writes_of q (deletes sandbox_id) = []

abbrev pub writes_at : ℕ → List Action → List Call
writes_at q [] = []
writes_at q (a ∷ actions) = writes_of q a ++ writes_at q actions
