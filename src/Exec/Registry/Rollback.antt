-- ===== src/Exec/Registry/Rollback.antt =====
-- adapter/internal/exec/registry.go: the ways in which `Register` ends.
use microvm_agentic_sandbox.Prelude.{
  ℕ, ◌≡◌, refl, ◌∙◌, String, Bool, true, none, some, List, [], ◌∷◌, ◌++◌, arith, eq_refl, inl, inr,
  Option-cases,
}
use microvm_agentic_sandbox.Prelude.Dict
use microvm_agentic_sandbox.Prelude.Dict.{Dict, get-put}
use microvm_agentic_sandbox.Exec.Table.{
  EnvCodec, ExecRow, find_row, insert_row, or_empty_map, register_row,
}
use microvm_agentic_sandbox.Exec.Registry.{
  Registry, RegistryError, already_registered, Reply, ok, err, enter, remove_in_memory, insert_exec,
  register, held, get_exec,
}
use microvm_agentic_sandbox.Exec.Registry.Index.{
  in_session, in_session-enter, owner, IsIndexed, enter-IsIndexed, remove-IsIndexed,
}

-- The same records under the same ids, the same sets, the same heap and the same rows.
pub record SameView (s t : Registry) : Type 0 where
  pub same_heap : (p : ℕ) → s.heap p ≡ t.heap p
  pub same_records : (id : String) → Dict.get s.records id ≡ Dict.get t.records id
  pub same_sessions :
      (sandbox_id id : String) → in_session s sandbox_id id ≡ in_session t sandbox_id id
  pub same_rows : s.execs ≡ t.execs

owner-enter :
    (p : ℕ) (s : Registry) → owner (enter p (s.heap p) s) (s.heap p).id ≡ some (s.heap p).sandbox_id
unfolding owner enter
owner-enter p s =
    ground (arith, get-put s.records (s.heap p).id p (s.heap p).id, eq_refl (s.heap p).id)

-- The ways in which `register` of the record at `p` ends.
data Outcome (codec : EnvCodec) (fault : Bool) (p : ℕ) (s : Registry)
    : Reply (Unit {0}) × Registry → Type 0 where
  duplicate :
      (q : ℕ)
      → Dict.get s.records (s.heap p).id ≡ some q
      → Outcome codec fault p s (err already_registered, s)
  rolled_back :
      (e : RegistryError)
      → Dict.get s.records (s.heap p).id ≡ none
      → Outcome codec fault p s (err e, remove_in_memory (s.heap p) (enter p (s.heap p) s))
  stored :
      (environment : String) (rows : List ExecRow)
      → Dict.get s.records (s.heap p).id ≡ none
      → codec.marshal (or_empty_map (s.heap p).env) ≡ some environment
      → insert_row fault (register_row environment (s.heap p)) s.execs ≡ some rows
      → Outcome codec fault p s (ok tt, record (enter p (s.heap p) s) { execs = rows })

module _ (codec : EnvCodec) (fault : Bool) (p : ℕ) (s : Registry) where
  insert_exec-Outcome :
      Dict.get s.records (s.heap p).id ≡ none
      → Outcome codec fault p s (insert_exec codec fault (s.heap p) (enter p (s.heap p) s))
  unfolding insert_exec
  insert_exec-Outcome new = elim (Option-cases (codec.marshal (or_empty_map (s.heap p).env))) [
    | inl e ↦ rw (e, insert_exec) (rolled_back _ new)
    | inr (j, e) ↦ elim (Option-cases (insert_row fault (register_row j (s.heap p)) s.execs)) [
      | inl f ↦ rw (e, insert_exec) (unfold enter in rw (f, insert_exec) (rolled_back _ new))
      | inr (rows, f) ↦
          rw (e, insert_exec) (unfold enter in rw (f, insert_exec) (stored j rows new e f))
    ]
  ]

  register-Outcome : Outcome codec fault p s (register codec fault p s)
  unfolding register
  register-Outcome = elim (Option-cases (Dict.get s.records (s.heap p).id)) [
    | inl new ↦ rw (new, register) (insert_exec-Outcome new)
    | inr (q, old) ↦ rw (old, register) (duplicate q old)
  ]

module _ {codec : EnvCodec} {fault : Bool} {p : ℕ} {s : Registry} (v : IsIndexed s) where
  Outcome-IsIndexed : {r : Reply (Unit {0}) × Registry} → Outcome codec fault p s r → IsIndexed r.1
  Outcome-IsIndexed (duplicate q e) = v
  Outcome-IsIndexed (rolled_back e new) =
      remove-IsIndexed (s.heap p) (enter p (s.heap p) s) (enter-IsIndexed p s v new)
        (owner-enter p s)
  Outcome-IsIndexed (stored j rows new e f) =
      let w = enter-IsIndexed p s v new in
      record { agree = unfold in_session owner in w.agree; named = w.named }

find_row-insert :
    (fault : Bool) (row : ExecRow) (rows rows' : List ExecRow)
    → insert_row fault row rows ≡ some rows'
    → (find_row row.id rows ≡ none) × (rows' ≡ rows ++ row ∷ [])
unfolding insert_row
find_row-insert fault row rows rows' h = ground arith

find_row-append :
    (row : ExecRow) (rows : List ExecRow)
    → find_row row.id rows ≡ none
    → find_row row.id (rows ++ row ∷ []) ≡ some row
unfolding find_row
find_row-append row [] h = rw eq_refl
find_row-append row (x ∷ rows) h = ground (arith, find_row-append row rows)

-- What holds after a registration that succeeded.
pub record IsRegistered (codec : EnvCodec) (p : ℕ) (s t : Registry) : Type 0 where
  pub was_new : Dict.get s.records (s.heap p).id ≡ none
  pub is_found : (lost : Bool) → get_exec codec lost (s.heap p).id t ≡ ok (held p)
  pub is_in_session : in_session t (s.heap p).sandbox_id (s.heap p).id ≡ true
  pub environment : String
  pub marshalled : codec.marshal (or_empty_map (s.heap p).env) ≡ some environment
  pub same_heap : t.heap ≡ s.heap
  pub in_records : Dict.get t.records (s.heap p).id ≡ some p
  pub had_no_row : find_row (s.heap p).id s.execs ≡ none
  pub has_row : find_row (s.heap p).id t.execs ≡ some (register_row environment (s.heap p))

get_exec-enter :
    (codec : EnvCodec) (lost : Bool) (p : ℕ) (s : Registry) (rows : List ExecRow)
    → get_exec codec lost (s.heap p).id (record (enter p (s.heap p) s) { execs = rows })
      ≡ ok (held p)
unfolding get_exec enter
get_exec-enter codec lost p s rows =
    ground (arith, get-put s.records (s.heap p).id p (s.heap p).id, eq_refl (s.heap p).id)

in_session-entered :
    (p : ℕ) (s : Registry) (rows : List ExecRow)
    → in_session
        (record (enter p (s.heap p) s) { execs = rows })
        (s.heap p).sandbox_id
        (s.heap p).id
      ≡ true
unfolding in_session
in_session-entered p s rows =
    in_session-enter p (s.heap p) s (s.heap p).sandbox_id (s.heap p).id ∙ rw (eq_refl, eq_refl)

Outcome-IsRegistered :
    {codec : EnvCodec} {fault : Bool} {p : ℕ} {s : Registry} {r : Reply (Unit {0}) × Registry}
    → Outcome codec fault p s r
    → r.0 ≡ ok tt
    → IsRegistered codec p s r.1
Outcome-IsRegistered (duplicate q _) h = cc
Outcome-IsRegistered (rolled_back _ new) h = cc
Outcome-IsRegistered {codec} {fault} {p} {s} (stored j rows new e f) h =
    let row = register_row j (s.heap p) in
    let (absent, same) = find_row-insert fault row s.execs rows f in
    record {
      was_new = new;
      is_found = λ lost. get_exec-enter codec lost p s rows;
      is_in_session = in_session-entered p s rows;
      environment = j;
      marshalled = e;
      same_heap = unfold enter in refl;
      in_records = unfold enter in (get-put s.records (s.heap p).id p (s.heap p).id ∙ rw eq_refl);
      had_no_row = unfold register_row in absent;
      has_row = unfold register_row in rw same (find_row-append row s.execs absent);
    }

-- Where the two maps agree, they agree after a `Register`, whatever the codec and the database answer.
pub register-IsIndexed :
    (codec : EnvCodec) (fault : Bool) (p : ℕ) (s : Registry)
    → IsIndexed s
    → IsIndexed (register codec fault p s).1
register-IsIndexed codec fault p s v = Outcome-IsIndexed v (register-Outcome codec fault p s)

-- A `Register` that succeeds was given an id that neither the map nor the table had; after it `Get`
-- finds the record at its pointer, the sandbox's set holds the id, and the table has the row with
-- status running.
pub register-IsRegistered :
    (codec : EnvCodec) (fault : Bool) (p : ℕ) (s : Registry)
    → (register codec fault p s).0 ≡ ok tt
    → IsRegistered codec p s (register codec fault p s).1
register-IsRegistered codec fault p s h = Outcome-IsRegistered (register-Outcome codec fault p s) h
