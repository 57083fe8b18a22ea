-- ===== src/Exec/Registry/Index.antt =====
-- adapter/internal/exec/registry.go: how the two maps of the registry agree: an exec id is in the set
-- of a sandbox exactly when the map of records holds it with a record of that sandbox.
use microvm_agentic_sandbox.Prelude.{
  ℕ, ◌≡◌, refl, String, Bool, true, false, ◌&&◌, Option, none, some, List, [], ◌∷◌, arith, str_eq,
  eq_iff, if◌then◌else◌,
}
use mathlib.Core.Option
use microvm_agentic_sandbox.Prelude.Dict
use microvm_agentic_sandbox.Prelude.Dict.{Dict, is_empty, get-remove, get-put, dict_laws}
use microvm_agentic_sandbox.Exec.Record.{ExecRecord}
use microvm_agentic_sandbox.Exec.Table.{ExecRow, or_zero}
use microvm_agentic_sandbox.Exec.Registry.{
  Registry, session, enter, drop_from, remove_in_memory, delete_ids, delete_by_sandbox,
}

abbrev pub is_held {ℓ} : {A : Type ℓ} → Option A → Bool
is_held none = false
is_held (some _) = true

-- `id` is in the set that `bySession` has for the sandbox.
unfoldable pub in_session : Registry → String → String → Bool
in_session s sandbox_id id = is_held (Dict.get (session s sandbox_id) id)

pub in_session-enter :
    (p : ℕ) (rec : ExecRecord) (s : Registry) (sandbox_id id : String)
    → in_session (enter p rec s) sandbox_id id ≡ (
        if str_eq rec.sandbox_id sandbox_id && str_eq rec.id id
        then true
        else in_session s sandbox_id id)
unfolding in_session enter
in_session-enter p rec s sandbox_id id = ground (
  arith,
  get-put s.by_session rec.sandbox_id (Dict.put (session s rec.sandbox_id) rec.id true) sandbox_id,
  get-put (session s rec.sandbox_id) rec.id true id,
  eq_iff rec.sandbox_id sandbox_id,
)

is_empty-get : (ids : Dict Bool) (id : String) → is_empty ids ≡ true → Dict.get ids id ≡ none
unfolding Dict.get
is_empty-get [] id h = refl
is_empty-get (x ∷ ids) id h = cc

in_session-drop :
    (rec : ExecRecord) (s : Registry) (sandbox_id id : String) (o : Option (Dict Bool))
    → Dict.get s.by_session rec.sandbox_id ≡ o
    → is_held (Dict.get (or_zero [] (Dict.get (drop_from rec s.by_session o) sandbox_id)) id) ≡ (
        if str_eq rec.sandbox_id sandbox_id && str_eq rec.id id
        then false
        else in_session s sandbox_id id)
unfolding in_session drop_from
in_session-drop rec s sandbox_id id none e =
    ground (arith, is_empty-get [] id refl, eq_iff rec.sandbox_id sandbox_id)
in_session-drop rec s sandbox_id id (some ids) e = ground (
  arith,
  get-remove s.by_session rec.sandbox_id sandbox_id,
  get-put s.by_session rec.sandbox_id (Dict.remove ids rec.id) sandbox_id,
  get-remove ids rec.id id,
  is_empty-get (Dict.remove ids rec.id) id,
  eq_iff rec.sandbox_id sandbox_id,
)

pub in_session-remove :
    (rec : ExecRecord) (s : Registry) (sandbox_id id : String)
    → in_session (remove_in_memory rec s) sandbox_id id ≡ (
        if str_eq rec.sandbox_id sandbox_id && str_eq rec.id id
        then false
        else in_session s sandbox_id id)
unfolding in_session remove_in_memory
in_session-remove rec s sandbox_id id =
    in_session-drop rec s sandbox_id id (Dict.get s.by_session rec.sandbox_id) refl

pub in_session-delete :
    (gone : String) (s : Registry) (sandbox_id id : String)
    → in_session (delete_by_sandbox gone s).1 sandbox_id id
      ≡ (if str_eq gone sandbox_id then false else in_session s sandbox_id id)
unfolding in_session delete_by_sandbox
in_session-delete gone s sandbox_id id =
    ground (arith, get-remove s.by_session gone sandbox_id, is_empty-get [] id refl)

pub get-delete_ids :
    (ids : Dict Bool) (records : Dict ℕ) (id : String)
    → Dict.get (delete_ids ids records) id
      ≡ (if is_held (Dict.get ids id) then none else Dict.get records id)
unfolding delete_ids Dict.get
get-delete_ids [] records id = refl
get-delete_ids ((j, b) ∷ ids) records id =
    ground (arith, get-delete_ids ids (Dict.remove records j) id, get-remove records j id)

-- The sandbox of the record that the map of records has for an id.
unfoldable pub owner : Registry → String → Option String
owner s id = Option.map (λ p. (s.heap p).sandbox_id) (Dict.get s.records id)

abbrev pub owned_by : Option String → String → Bool
owned_by none sandbox_id = false
owned_by (some o) sandbox_id = str_eq o sandbox_id

-- The two maps agree, and a record is held under its own id.
pub record IsIndexed (s : Registry) : Type 0 where
  pub agree :
      (sandbox_id id : String) → in_session s sandbox_id id ≡ owned_by (owner s id) sandbox_id
  pub named : (id : String) (p : ℕ) → Dict.get s.records id ≡ some p → (s.heap p).id ≡ id

pub enter-IsIndexed :
    (p : ℕ) (s : Registry)
    → IsIndexed s
    → Dict.get s.records (s.heap p).id ≡ none
    → IsIndexed (enter p (s.heap p) s)
enter-IsIndexed p s v new = record {
  agree = λ sandbox_id id.
      unfold enter owner in
      ground (
        arith,
        in_session-enter p (s.heap p) s sandbox_id id,
        get-put s.records (s.heap p).id p id,
        v.agree sandbox_id id,
        eq_iff (s.heap p).id id,
        eq_iff (s.heap p).sandbox_id sandbox_id,
      );
  named = λ id q.
      unfold enter in
      ground (arith, get-put s.records (s.heap p).id p id, eq_iff (s.heap p).id id, v.named id q);
}

pub remove-IsIndexed :
    (rec : ExecRecord) (s : Registry)
    → IsIndexed s
    → owner s rec.id ≡ some rec.sandbox_id
    → IsIndexed (remove_in_memory rec s)
remove-IsIndexed rec s v mine = record {
  agree = λ sandbox_id id.
      unfold remove_in_memory owner in
      ground (
        arith,
        in_session-remove rec s sandbox_id id,
        get-remove s.records rec.id id,
        v.agree sandbox_id id,
        mine,
        eq_iff rec.id id,
        eq_iff rec.sandbox_id sandbox_id,
      );
  named = λ id q.
      unfold remove_in_memory in ground (arith, get-remove s.records rec.id id, v.named id q);
}

-- To take out an id that no record is held under changes nothing.
pub remove_gone-IsIndexed :
    (rec : ExecRecord) (s : Registry)
    → IsIndexed s
    → Dict.get s.records rec.id ≡ none
    → IsIndexed (remove_in_memory rec s)
remove_gone-IsIndexed rec s v gone = record {
  agree = λ sandbox_id id.
      unfold remove_in_memory owner in
      ground (
        arith,
        in_session-remove rec s sandbox_id id,
        get-remove s.records rec.id id,
        v.agree sandbox_id id,
        gone,
        eq_iff rec.id id,
        eq_iff rec.sandbox_id sandbox_id,
      );
  named = λ id q.
      unfold remove_in_memory in ground (arith, get-remove s.records rec.id id, v.named id q);
}

owner-delete :
    (gone : String) (s : Registry) (id : String)
    → owner (delete_by_sandbox gone s).1 id ≡ (if in_session s gone id then none else owner s id)
unfolding owner delete_by_sandbox in_session
owner-delete gone s id = ground (arith, get-delete_ids (session s gone) s.records id)

-- Who is not of the sandbox that goes stays; nobody of it does.
owned_by-delete :
    (o : Option String) (gone sandbox_id : String)
    → (if str_eq gone sandbox_id then false else owned_by o sandbox_id)
      ≡ owned_by (if owned_by o gone then none else o) sandbox_id
owned_by-delete none gone sandbox_id = ground arith
owned_by-delete (some x) gone sandbox_id =
    ground (arith, eq_iff x gone, eq_iff x sandbox_id, eq_iff gone sandbox_id)

-- Where the two maps of the registry agree, they agree after `DeleteBySandbox` of any sandbox.
pub delete_by_sandbox-IsIndexed :
    (gone : String) (s : Registry) → IsIndexed s → IsIndexed (delete_by_sandbox gone s).1
delete_by_sandbox-IsIndexed gone s v = record {
  agree = λ sandbox_id id.
      rw
        (
          in_session-delete gone s sandbox_id id,
          owner-delete gone s id,
          v.agree sandbox_id id,
          v.agree gone id,
        )
        (owned_by-delete (owner s id) gone sandbox_id);
  named = λ id q.
      unfold delete_by_sandbox in
      ground (arith, get-delete_ids (session s gone) s.records id, v.named id q);
}

-- A registry that holds nothing.
pub empty-IsIndexed :
    (heap : ℕ → ExecRecord) (rows : List ExecRow)
    → IsIndexed (record { heap = heap; records = []; by_session = []; execs = rows })
empty-IsIndexed heap rows = record {
  agree = λ sandbox_id id. unfold in_session owner Dict.get in refl;
  named = λ id p h. unfold Dict.get in cc;
}
