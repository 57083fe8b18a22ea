-- ===== src/Exec/Registry/Actions/Agree.antt =====
-- The maps of the registry under the actions of goroutines.
use microvm_agentic_sandbox.Prelude.{
  ℕ, ◌≡◌, refl, sym, ap, ◌∙◌, String, Bool, ◌==◌, none, some, List, [], ◌∷◌, arith, Bool-cases,
  Option-cases, inl, inr,
}
use microvm_agentic_sandbox.Prelude.Dict
use microvm_agentic_sandbox.Exec.Record.{ExecRecord}
use microvm_agentic_sandbox.Exec.Record.Moves.{make, make-identity}
use microvm_agentic_sandbox.Exec.Record.Kept.{identity}
use microvm_agentic_sandbox.Exec.Table.{EnvCodec, ExecRow, insert_row, or_empty_map, register_row}
use microvm_agentic_sandbox.Exec.Registry.{
  Registry, enter, remove_in_memory, insert_exec, register, write,
}
use microvm_agentic_sandbox.Exec.Registry.Index.{
  in_session, owner, owned_by, IsIndexed, enter-IsIndexed, remove-IsIndexed, remove_gone-IsIndexed,
  delete_by_sandbox-IsIndexed,
}
use microvm_agentic_sandbox.Exec.Registry.Actions.{
  Action, enters, inserts, enter_new, moves, persists, deletes, act, run, IsNew, Possible, Allowed,
}

-- What a record is, and where it belongs, is the same at every place that the map holds.
abbrev SameIdentities : Registry → (ℕ → ExecRecord) → Type 0
SameIdentities s heap =
    (id : String) (p : ℕ) → Dict.get s.records id ≡ some p → identity (heap p) ≡ identity (s.heap p)

owner_same :
    (s : Registry) (heap : ℕ → ExecRecord) (rows : List ExecRow) (id : String)
    → SameIdentities s heap
    → owner s id ≡ owner (record s { heap = heap; execs = rows }) id
unfolding owner
owner_same s heap rows id same = elim (Option-cases (Dict.get s.records id)) [
  | inl gone ↦ rw gone refl
  | inr (p, found) ↦ rw found (ap (λ i. some i.1) (sym (same id p found)))
]

pub heap-IsIndexed :
    (s : Registry) (heap : ℕ → ExecRecord) (rows : List ExecRow)
    → SameIdentities s heap
    → IsIndexed s
    → IsIndexed (record s { heap = heap; execs = rows })
unfolding in_session
heap-IsIndexed s heap rows same v = record {
  agree = λ sandbox_id id.
      v.agree sandbox_id id ∙ ap (λ o. owned_by o sandbox_id) (owner_same s heap rows id same);
  named = λ id p h. ap (λ i. i.0) (same id p h) ∙ v.named id p h;
}

-- A write at one place of a record with the same identity, or where no record is held.
write-identity :
    (p : ℕ) (rec : ExecRecord) (heap : ℕ → ExecRecord) (q : ℕ)
    → identity rec ≡ identity (heap p)
    → identity (write p rec heap q) ≡ identity (heap q)
write-identity p rec heap q same = elim (Bool-cases (q == p)) [
  | inl e ↦ let here : p ≡ q = ground (arith, e) in rw e (same ∙ ap (λ k. identity (heap k)) here)
  | inr e ↦ rw e refl
]

write-new :
    (p : ℕ) (rec : ExecRecord) (s : Registry) → IsNew p s → SameIdentities s (write p rec s.heap)
write-new p rec s new id q found = elim (Bool-cases (q == p)) [
  | inl e ↦ let here : q ≡ p = ground (arith, e) in absurd (new id (found ∙ ap (λ k. some k) here))
  | inr e ↦ rw e refl
]

pub placed-IsIndexed :
    (p : ℕ) (rec : ExecRecord) (s : Registry)
    → IsNew p s
    → IsIndexed s
    → IsIndexed (record s { heap = write p rec s.heap })
placed-IsIndexed p rec s new v =
    heap-IsIndexed s (write p rec s.heap) s.execs (write-new p rec s new) v

enter_new-IsIndexed : (p : ℕ) (s : Registry) → IsIndexed s → IsIndexed (enter_new p s)
unfolding enter_new
enter_new-IsIndexed p s v = elim (Option-cases (Dict.get s.records (s.heap p).id)) [
  | inl new ↦ rw (new, enter_new) (enter-IsIndexed p s v new)
  | inr (q, old) ↦ rw (old, enter_new) v
]

rollback-IsIndexed :
    (p : ℕ) (s : Registry)
    → ((q : ℕ) → Dict.get s.records (s.heap p).id ≡ some q → q ≡ p)
    → IsIndexed s
    → IsIndexed (remove_in_memory (s.heap p) s)
rollback-IsIndexed p s only v = elim (Option-cases (Dict.get s.records (s.heap p).id)) [
  | inl gone ↦ remove_gone-IsIndexed (s.heap p) s v gone
  | inr (q, found) ↦
      remove-IsIndexed (s.heap p) s v
        (unfold owner in rw found (ap (λ k. some (s.heap k).sandbox_id) (only q found)))
]

insert_exec-IsIndexed :
    (codec : EnvCodec) (fault : Bool) (p : ℕ) (s : Registry)
    → ((q : ℕ) → Dict.get s.records (s.heap p).id ≡ some q → q ≡ p)
    → IsIndexed s
    → IsIndexed (insert_exec codec fault (s.heap p) s).1
unfolding insert_exec
insert_exec-IsIndexed codec fault p s only v =
    elim (Option-cases (codec.marshal (or_empty_map (s.heap p).env))) [
      | inl e ↦ rw (e, insert_exec) (rollback-IsIndexed p s only v)
      | inr (j, e) ↦ elim (Option-cases (insert_row fault (register_row j (s.heap p)) s.execs)) [
        | inl f ↦ rw (e, insert_exec) (rw (f, insert_exec) (rollback-IsIndexed p s only v))
        | inr (rows, f) ↦
            rw (e, insert_exec)
              (rw (f, insert_exec)
                (record { agree = unfold in_session owner in v.agree; named = v.named }))
      ]
    ]

-- `Register` is the two actions, one after the other.
pub register-act :
    (codec : EnvCodec) (fault : Bool) (p : ℕ) (rec : ExecRecord) (s : Registry)
    → Dict.get s.records (write p rec s.heap p).id ≡ none
    → act (inserts codec fault p) (act (enters p rec) s)
      ≡ (register codec fault p (record s { heap = write p rec s.heap })).1
unfolding act enter_new register enter
register-act codec fault p rec s new = rw (new, enter_new, register) refl

pub act-IsIndexed : (a : Action) (s : Registry) → Possible a s → IsIndexed s → IsIndexed (act a s)
unfolding act
act-IsIndexed (enters p rec) s new v = enter_new-IsIndexed p _ (placed-IsIndexed p rec s new v)
act-IsIndexed (inserts codec fault p) s only v = insert_exec-IsIndexed codec fault p s only v
act-IsIndexed (moves p move) s h v =
    heap-IsIndexed s (write p (make move (s.heap p)) s.heap) s.execs
      (λ id q found. write-identity p _ s.heap q (make-identity move (s.heap p))) v
act-IsIndexed (persists fault rec) s h v = heap-IsIndexed s s.heap _ (λ id q found. refl) v
act-IsIndexed (deletes sandbox_id) s h v = delete_by_sandbox-IsIndexed sandbox_id s v

-- In every interleaving of the locked parts of registrations, their INSERTs (with the rollback of one that
-- fails), the stretches under the lock of a record of its methods, the single sends of their loops,
-- the UPDATEs of ends, whether they reach the database or not, and deletions of sandboxes, where
-- memory is allocated where no record is held, no other record is entered under the id of a record
-- until its INSERT is over, a record is written again only when the last chunk is sent, and no send
-- meets a closed channel: where the two maps of the registry agree, they agree after it.
pub run-IsIndexed :
    (actions : List Action) (s : Registry)
    → Allowed actions s
    → IsIndexed s
    → IsIndexed (run actions s)
unfolding run
run-IsIndexed [] s h v = v
run-IsIndexed (a ∷ actions) s (p, h) v = run-IsIndexed actions (act a s) h (act-IsIndexed a s p v)
