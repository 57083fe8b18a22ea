-- ===== src/Exec/Registry/Actions/Alone.antt =====
-- One exec among the actions of goroutines on the registry.
use microvm_agentic_sandbox.Prelude.{
  ℕ, ◌≡◌, refl, sym, ap, subst, ◌∙◌, String, Bool, true, false, ◌==◌, str_eq, eq_iff, if◌then◌else◌,
  some, List, [], ◌∷◌, ◌++◌, arith, All, Bool-cases, inl, inr, ◌⊎◌,
}
use microvm_agentic_sandbox.Prelude.Dict
use microvm_agentic_sandbox.Prelude.Dict.{get-put, get-remove}
use microvm_agentic_sandbox.Exec.Record.{ExecRecord}
use microvm_agentic_sandbox.Exec.Record.Sends.{Call}
use microvm_agentic_sandbox.Exec.Record.Moves.{Move, make, write_of, make-identity, make-Represents}
use microvm_agentic_sandbox.Exec.Record.Kept.{identity}
use microvm_agentic_sandbox.Exec.Record.Refine.{Log, log_call, log_all, IsProper, Represents}
use microvm_agentic_sandbox.Exec.Table.{EnvCodec}
use microvm_agentic_sandbox.Exec.Registry.{
  Registry, session, enter, remove_in_memory, insert_exec, write, delete_by_sandbox,
}
use microvm_agentic_sandbox.Exec.Registry.Index.{
  in_session, is_held, owner, get-delete_ids, IsIndexed,
}
use microvm_agentic_sandbox.Exec.Registry.Actions.{
  Action, enters, inserts, enter_new, moves, persists, deletes, act, run, IsNew, Possible, Allowed,
  Leaves, writes_of, writes_at,
}
use microvm_agentic_sandbox.Exec.Registry.Actions.Agree.{act-IsIndexed}

enter_new-heap : (p : ℕ) (s : Registry) → (enter_new p s).heap ≡ s.heap
unfolding enter_new enter
enter_new-heap p s = ground arith

insert_exec-heap :
    (codec : EnvCodec) (fault : Bool) (rec : ExecRecord) (s : Registry)
    → (insert_exec codec fault rec s).1.heap ≡ s.heap
unfolding insert_exec remove_in_memory
insert_exec-heap codec fault rec s = ground arith

write-identity_at :
    (p q : ℕ) (move : Move) (s : Registry)
    → identity (write p (make move (s.heap p)) s.heap q) ≡ identity (s.heap q)
write-identity_at p q move s = elim (Bool-cases (q == p)) [
  | inl e ↦
      let here : p ≡ q = ground (arith, e) in
      rw e (make-identity move (s.heap p) ∙ ap (λ k. identity (s.heap k)) here)
  | inr e ↦ rw e refl
]

write-Represents :
    (p q : ℕ) (move : Move) (s : Registry) (m : ℕ) (l : Log)
    → All IsProper (if p == q then write_of move else [])
    → Represents m (s.heap q) l
    → Represents m
        (write p (make move (s.heap p)) s.heap q)
        (log_all (if p == q then write_of move else []) l)
write-Represents p q move s m l proper h = elim (Bool-cases (p == q)) [
  | inl e ↦
      let here : q ≡ p = ground (arith, e) in
      let there : (q == p) ≡ true = ground (arith, here) in
      rw (there, e)
        (make-Represents m (s.heap p) l move
          (subst (λ b. All IsProper (if b then write_of move else [])) e proper)
          (subst (λ k. Represents m (s.heap k) l) here h))
  | inr e ↦ let there : (q == p) ≡ false = ground (arith, e) in rw (there, e) h
]

new_place :
    (p q : ℕ) (s : Registry) (id : String)
    → IsNew p s
    → Dict.get s.records id ≡ some q
    → (q == p) ≡ false
new_place p q s id new found = elim (Bool-cases (q == p)) [
  | inl e ↦ let here : q ≡ p = ground (arith, e) in absurd (new id (found ∙ ap (λ k. some k) here))
  | inr e ↦ e
]

-- An action that does not move the record at a place leaves it as it is.
act-quiet :
    (a : Action) (s : Registry) (q : ℕ) (id : String)
    → Possible a s
    → Dict.get s.records id ≡ some q
    → ((act a s).heap q ≡ s.heap q) × (writes_of q a ≡ [])
      ⊎ ((p : ℕ) × (move : Move) × (a ≡ moves p move))
unfolding act
act-quiet (enters p rec) s q id new found =
    let apart = new_place p q s id new found in
    inl (ap (λ heap. heap q) (enter_new-heap p _) ∙ rw apart refl, refl)
act-quiet (inserts codec fault p) s q id h found =
    inl (ap (λ heap. heap q) (insert_exec-heap codec fault (s.heap p) s), refl)
act-quiet (moves p move) s q id h found = inr (p, move, refl)
act-quiet (persists fault rec) s q id h found = inl (refl, refl)
act-quiet (deletes sandbox_id) s q id h found = inl (unfold delete_by_sandbox in refl, refl)

act-identity :
    (a : Action) (s : Registry) (q : ℕ) (id : String)
    → Possible a s
    → Dict.get s.records id ≡ some q
    → identity ((act a s).heap q) ≡ identity (s.heap q)
act-identity a s q id h found = elim (act-quiet a s q id h found) [
  | inl (same, _) ↦ ap identity same
  | inr (p, move, e) ↦ rw e (unfold act in write-identity_at p q move s)
]

act-Represents :
    (a : Action) (s : Registry) (q : ℕ) (id : String) (m : ℕ) (l : Log)
    → Possible a s
    → Dict.get s.records id ≡ some q
    → All IsProper (writes_of q a)
    → Represents m (s.heap q) l
    → Represents m ((act a s).heap q) (log_all (writes_of q a) l)
act-Represents a s q id m l h found proper before = elim (act-quiet a s q id h found) [
  | inl (same, none_made) ↦ rw (same, none_made) before
  | inr (p, move, e) ↦ rw e (
      unfold act in
      write-Represents p q move s m l (subst (λ x. All IsProper (writes_of q x)) e proper) before)
]

enter_new-get :
    (p : ℕ) (s : Registry) (id : String) (q : ℕ)
    → Dict.get s.records id ≡ some q
    → Dict.get (enter_new p s).records id ≡ some q
unfolding enter_new enter
enter_new-get p s id q found =
    ground (arith, found, eq_iff (s.heap p).id id, get-put s.records (s.heap p).id p id)

insert_exec-get :
    (codec : EnvCodec) (fault : Bool) (rec : ExecRecord) (s : Registry) (id : String) (q : ℕ)
    → str_eq rec.id id ≡ false
    → Dict.get s.records id ≡ some q
    → Dict.get (insert_exec codec fault rec s).1.records id ≡ some q
unfolding insert_exec remove_in_memory
insert_exec-get codec fault rec s id q apart found =
    ground (arith, found, apart, get-remove s.records rec.id id)

-- The record whose INSERT is under way has another id than one that is held at another place.
other_id :
    (p q : ℕ) (s : Registry) (id : String)
    → ((k : ℕ) → Dict.get s.records (s.heap p).id ≡ some k → k ≡ p)
    → (p == q) ≡ false
    → Dict.get s.records id ≡ some q
    → str_eq (s.heap p).id id ≡ false
other_id p q s id only apart found = elim (Bool-cases (str_eq (s.heap p).id id)) [
  | inl e ↦
      let same = (eq_iff (s.heap p).id id).0 e in
      let here : q ≡ p = only q (ap (Dict.get s.records) same ∙ found) in
      absurd (ground (arith, apart, here))
  | inr e ↦ e
]

deletes-get :
    (gone : String) (s : Registry) (id : String) (q : ℕ)
    → IsIndexed s
    → Dict.get s.records id ≡ some q
    → str_eq (s.heap q).sandbox_id gone ≡ false
    → Dict.get (delete_by_sandbox gone s).1.records id ≡ some q
unfolding delete_by_sandbox
deletes-get gone s id q v found apart =
    let elsewhere : is_held (Dict.get (session s gone) id) ≡ false =
      (unfold in_session owner in (v.agree gone id ∙ rw found apart)) in
    get-delete_ids (session s gone) s.records id ∙ rw (elsewhere, found) refl

act-get :
    (a : Action) (s : Registry) (sandbox_id id : String) (q : ℕ)
    → IsIndexed s
    → Possible a s
    → Leaves sandbox_id q a
    → (s.heap q).sandbox_id ≡ sandbox_id
    → Dict.get s.records id ≡ some q
    → Dict.get (act a s).records id ≡ some q
unfolding act
act-get (enters p rec) s sandbox_id id q v new l mine found =
    enter_new-get p (record s { heap = write p rec s.heap }) id q found
act-get (inserts codec fault p) s sandbox_id id q v only l mine found =
    insert_exec-get codec fault (s.heap p) s id q (other_id p q s id only l found) found
act-get (moves p move) s sandbox_id id q v h l mine found = found
act-get (persists fault rec) s sandbox_id id q v h l mine found = found
act-get (deletes gone) s sandbox_id id q v h l mine found =
    deletes-get gone s id q v found (rw mine l)

all_parts : (xs ys : List Call) → All IsProper (xs ++ ys) → All IsProper xs × All IsProper ys
all_parts [] ys h = (tt, h)
all_parts (x ∷ xs) ys (p, h) = let (left, right) = all_parts xs ys h in ((p, left), right)

log_all-append : (xs ys : List Call) (l : Log) → log_all (xs ++ ys) l ≡ log_all ys (log_all xs l)
log_all-append [] ys l = refl
log_all-append (c ∷ xs) ys l = log_all-append xs ys (log_call c l)

-- One exec among all goroutines, piece by piece: the maps of the registry agree, it holds an id for a
-- sandbox at a place, and the record there stands for a log, cut after m bytes. Then in every
-- interleaving that does not delete the sandbox and does not insert that record again, where memory
-- is allocated where no record is held, no other record is entered under the id of a record until
-- its INSERT is over, a record is written again only when the last chunk is sent, no send meets a
-- closed channel, and what is written to the record is proper output and ends: the registry holds the
-- id at the place afterwards, the record is of the same exec, and it stands for the log with what is
-- written to it, in that order, whatever is done to the other execs and to its readers.
pub run-alone :
    (actions : List Action) (s : Registry) (sandbox_id id : String) (q m : ℕ) (l : Log)
    → IsIndexed s
    → Allowed actions s
    → All (Leaves sandbox_id q) actions
    → (s.heap q).sandbox_id ≡ sandbox_id
    → Dict.get s.records id ≡ some q
    → All IsProper (writes_at q actions)
    → Represents m (s.heap q) l
    → (Dict.get (run actions s).records id ≡ some q)
      × (identity ((run actions s).heap q) ≡ identity (s.heap q))
      × Represents m ((run actions s).heap q) (log_all (writes_at q actions) l)
unfolding run
run-alone [] s sandbox_id id q m l v h ls mine found proper before = (found, refl, before)
run-alone (a ∷ actions) s sandbox_id id q m l v (p, h) (leave, ls) mine found proper before =
    let same = act-identity a s q id p found in
    let (first_proper, rest_proper) = all_parts (writes_of q a) (writes_at q actions) proper in
    let (held, alike, later) =
      run-alone actions (act a s) sandbox_id id q m (log_all (writes_of q a) l)
        (act-IsIndexed a s p v) h ls (ap (λ i. i.1) same ∙ mine)
        (act-get a s sandbox_id id q v p leave mine found) rest_proper
        (act-Represents a s q id m l p found first_proper before) in
    (
      held,
      alike ∙ same,
      subst (Represents m ((run actions (act a s)).heap q))
          (sym (log_all-append (writes_of q a) (writes_at q actions) l)) later,
    )
