-- ===== src/Sandbox/Manager/Lifecycle.antt =====
-- What `Get` finds after `Create` and after `Delete`.
use microvm_agentic_sandbox.Prelude.{
  ℕ, ◌≡◌, ◌≢◌, refl, sym, ap, ◌∙◌, String, Bool, true, false, ◌==◌, Option, none, some, List, [],
  ◌∷◌, arith, str_eq, if◌then◌else◌, Time, inl, inr, Bool-cases,
}
use mathlib.Core.Option
use microvm_agentic_sandbox.Prelude.Dict
use microvm_agentic_sandbox.Prelude.Dict.{get-put}
use microvm_agentic_sandbox.Exec.Table.{EnvCodec}
use microvm_agentic_sandbox.Sandbox.Table.{
  Sandbox, SandboxRow, find_sandbox, is_live, end_row, end_rows, rows_affected, sandbox_of_row,
  scan_sandbox,
}
use microvm_agentic_sandbox.Sandbox.Manager.{
  Manager, sandbox_not_found, sandbox_query_failed, done_with, failed, scanned, query_found,
  query_sandbox, attach, get_sandbox, DeleteReply, take_down, close_agent, delete_sandbox,
}

find_sandbox-end_rows :
    (id cause : String) (now : Time) (rows : List SandboxRow)
    → find_sandbox id (end_rows id cause now rows)
      ≡ Option.map
          (λ row. if is_live id row then end_row cause now row else row)
          (find_sandbox id rows)
unfolding find_sandbox end_rows end_row
find_sandbox-end_rows id cause now [] = refl
find_sandbox-end_rows id cause now (row ∷ rows) =
    ground (arith, find_sandbox-end_rows id cause now rows)

abbrev end_live : String → String → Time → SandboxRow → SandboxRow
end_live id cause now row = if is_live id row then end_row cause now row else row

is_live-end_live :
    (id cause : String) (now : Time) (row : SandboxRow)
    → is_live id (end_live id cause now row) ≡ false
unfolding end_row
is_live-end_live id cause now row = elim (Bool-cases (is_live id row)) [
  | inl e ↦ rw e (ground arith)
  | inr e ↦ rw e e
]

unaffected-end_rows :
    (id cause : String) (now : Time) (rows : List SandboxRow)
    → rows_affected id (end_rows id cause now rows) ≡ 0
unfolding end_rows rows_affected
unaffected-end_rows id cause now [] = refl
unaffected-end_rows id cause now (row ∷ rows) =
    rw (is_live-end_live id cause now row) (omega (arith, unaffected-end_rows id cause now rows))

not_live :
    (id : String) (row : SandboxRow)
    → is_live id row ≡ false
    → str_eq row.id id ≡ true
    → str_eq row.status "ended" ≡ true
not_live id row h e = ground arith

-- Nobody is found under the id but who has ended.
unaffected_found :
    (id : String) (rows : List SandboxRow) (row : SandboxRow)
    → rows_affected id rows ≡ 0
    → find_sandbox id rows ≡ some row
    → str_eq row.status "ended" ≡ true
unfolding find_sandbox rows_affected
unaffected_found id [] row h e = cc
unaffected_found id (x ∷ rows) row h e = elim (Bool-cases (is_live id x)) [
  | inl live ↦ absurd (ground (arith, live))
  | inr over ↦ elim (Bool-cases (str_eq x.id id)) [
    | inl hit ↦
        let same : x ≡ row = ground (arith, hit) in
        ap (λ y. str_eq y.status "ended") (sym same) ∙ not_live id x over hit
    | inr miss ↦ unaffected_found id rows row (ground (arith, over)) (ground (arith, miss))
  ]
]

attach-over :
    (ac : Option ℕ) (sb : Sandbox)
    → str_eq sb.status "ended" ≡ true
    → attach ac (done_with sb) ≡ failed sandbox_not_found
unfolding attach
attach-over ac sb h = rw h

scan_sandbox-status :
    (codec : EnvCodec) (row : SandboxRow) (sb : Sandbox)
    → scan_sandbox codec row ≡ some sb
    → sb.status ≡ row.status
unfolding scan_sandbox sandbox_of_row
scan_sandbox-status codec row sb h = ground arith

query_found-over :
    (codec : EnvCodec) (ac : Option ℕ) (row : SandboxRow) (o : Option Sandbox)
    → scan_sandbox codec row ≡ o
    → str_eq row.status "ended" ≡ true
    → (sb : Sandbox) → attach ac (scanned o) ≢ done_with sb
unfolding scanned
query_found-over codec ac row none h over sb e = unfold attach in cc
query_found-over codec ac row (some x) h over sb e =
    let gone : str_eq x.status "ended" ≡ true =
      ap (λ s. str_eq s "ended") (scan_sandbox-status codec row x h) ∙ over in
    absurd (cc (attach-over ac x gone, e))

-- No `Get` succeeds when the update would affect no row.
get-unaffected :
    (codec : EnvCodec) (lost : Bool) (id : String) (m : Manager) (o : Option SandboxRow)
    → find_sandbox id m.sandboxes ≡ o
    → rows_affected id m.sandboxes ≡ 0
    → (ac : Option ℕ) (sb : Sandbox)
    → attach ac (if lost then failed sandbox_query_failed else query_found codec o) ≢ done_with sb
unfolding query_found
get-unaffected codec true id m o found none_live ac sb e = unfold attach in cc
get-unaffected codec false id m none found none_live ac sb e = unfold attach in cc
get-unaffected codec false id m (some row) found none_live ac sb e =
    query_found-over codec ac row _ refl (unaffected_found id m.sandboxes row none_live found) sb e

get_sandbox-unaffected :
    (codec : EnvCodec) (lost : Bool) (id : String) (m : Manager)
    → rows_affected id m.sandboxes ≡ 0
    → (sb : Sandbox) → get_sandbox codec lost id m ≢ done_with sb
unfolding get_sandbox query_sandbox
get_sandbox-unaffected codec lost id m h sb =
    get-unaffected codec lost id m (find_sandbox id m.sandboxes) refl h (Dict.get m.agents id) sb

close_agent-rows : (ac : Option ℕ) (m : Manager) → (close_agent ac m).sandboxes ≡ m.sandboxes
unfolding close_agent
close_agent-rows none m = refl
close_agent-rows (some ac) m = refl

-- The manager after a `Delete` whose update reached the database has no live row of the sandbox.
delete-unaffected :
    (reply : DeleteReply) (id : String) (now : Time) (m : Manager)
    → rows_affected id (delete_sandbox false reply id now m).1.sandboxes ≡ 0
unfolding delete_sandbox take_down
delete-unaffected reply id now m = elim (Bool-cases (rows_affected id m.sandboxes == 0)) [
  | inl e ↦ rw e (ground arith)
  | inr e ↦ rw (e, close_agent-rows) (unaffected-end_rows id "user_kill" now m.sandboxes)
]

-- Once the update of `Delete` has reached the database, whatever the cluster then answers about the
-- pod and whatever later queries do: no `Get` of the sandbox succeeds any more.
pub delete_sandbox-get :
    (codec : EnvCodec) (lost : Bool) (reply : DeleteReply) (id : String) (now : Time) (m : Manager)
    (sb : Sandbox)
    → get_sandbox codec lost id (delete_sandbox false reply id now m).1 ≢ done_with sb
delete_sandbox-get codec lost reply id now m =
    get_sandbox-unaffected codec lost id _ (delete-unaffected reply id now m)

delete_sandbox-quiet :
    (reply : DeleteReply) (id : String) (now : Time) (m : Manager)
    → rows_affected id m.sandboxes ≡ 0
    → delete_sandbox false reply id now m ≡ (done_with tt, m)
unfolding delete_sandbox
delete_sandbox-quiet reply id now m h = rw h

-- `Delete` is idempotent: after one whose update reached the database, a second one succeeds and
-- changes nothing: it asks nothing of the cluster or of the agent, whatever these would answer.
pub delete_sandbox_twice :
    (reply later : DeleteReply) (id : String) (now again : Time) (m : Manager)
    → delete_sandbox false later id again (delete_sandbox false reply id now m).1
      ≡ (done_with tt, (delete_sandbox false reply id now m).1)
delete_sandbox_twice reply later id now again m =
    delete_sandbox-quiet later id again _ (delete-unaffected reply id now m)
