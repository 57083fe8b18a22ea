-- ===== src/Sandbox/Manager/Birth.antt =====
-- A sandbox that `Create` returns is what `Get` reads back.
use microvm_agentic_sandbox.Prelude.{
  ℕ, zero, suc, ◌≡◌, refl, ap, ◌∙◌, String, Bool, true, false, Option, none, some, List, [], ◌∷◌,
  ◌++◌, arith, str_eq, eq_refl, ℤ, pos, negsuc, Time,
}
use microvm_agentic_sandbox.Prelude.Dict
use microvm_agentic_sandbox.Prelude.Dict.{Dict, get-put}
use microvm_agentic_sandbox.Exec.Table.{EnvCodec, or_empty_map, stored_time, or_zero, scan_env}
use microvm_agentic_sandbox.Exec.Registry.Restore.{or_zero-null_if_empty}
use microvm_agentic_sandbox.Sandbox.Table.{
  Sandbox, CreateSpec, SandboxRow, null_if_zero, stored_instant, find_sandbox, insert_sandbox,
  sandbox_of_row, scan_sandbox,
}
use microvm_agentic_sandbox.Sandbox.Manager.{
  Manager, Result, done_with, Pod, Answers, new_row, new_sandbox, on_insert, on_marshal, on_ping,
  on_dial, on_ready, on_pod, create, scanned, query_found, query_sandbox, attach, get_sandbox,
}

-- What the manager relies on of the JSON codec: a map that it encodes is decoded as that map.
pub record IsFaithful (codec : EnvCodec) : Type 0 where
  pub decodes :
      (m : Dict String) (j : String) → codec.marshal m ≡ some j → codec.unmarshal j ≡ some (some m)
  pub written : (m : Dict String) (j : String) → codec.marshal m ≡ some j → str_eq j "" ≡ false

or_zero-null_if_zero : (n : ℤ) → or_zero (pos 0) (null_if_zero n) ≡ n
or_zero-null_if_zero (pos zero) = refl
or_zero-null_if_zero (pos (suc n)) = refl
or_zero-null_if_zero (negsuc n) = refl

find_sandbox-insert :
    (fault : Bool) (row : SandboxRow) (rows rows' : List SandboxRow)
    → insert_sandbox fault row rows ≡ some rows'
    → (find_sandbox row.id rows ≡ none) × (rows' ≡ rows ++ row ∷ [])
unfolding insert_sandbox
find_sandbox-insert fault row rows rows' h = ground arith

find_sandbox-append :
    (row : SandboxRow) (rows : List SandboxRow)
    → find_sandbox row.id rows ≡ none
    → find_sandbox row.id (rows ++ row ∷ []) ≡ some row
unfolding find_sandbox
find_sandbox-append row [] h = rw eq_refl
find_sandbox-append row (x ∷ rows) h = ground (arith, find_sandbox-append row rows)

-- The maps are nil or empty for the caller, and empty when they are read back; the times are read back in
-- the microseconds that the table keeps.
abbrev pub as_stored : Sandbox → Sandbox
as_stored sb = record sb {
  tags = some (or_empty_map sb.tags);
  environment = some (or_empty_map sb.environment);
  created = stored_time sb.created;
  deadline = stored_instant sb.deadline;
}

module _ (codec : EnvCodec) (faithful : IsFaithful codec) (spec : CreateSpec) (answers : Answers)
    (now : Time) where
  -- What is returned is what `Get` finds.
  abbrev Agrees : Result Sandbox × Manager → Type 0
  Agrees r =
      (sb : Sandbox)
      → r.0 ≡ done_with sb
      → get_sandbox codec false spec.id r.1 ≡ done_with (as_stored sb)

  scan_env-marshal :
      (env : Dict String) (j : String)
      → codec.marshal env ≡ some j
      → scan_env codec j ≡ some (some env)
  unfolding scan_env
  scan_env-marshal env j h = rw (faithful.written env j h) (faithful.decodes env j h)

  scan_sandbox-new :
      (pod : Pod) (ip tags environment : String) (ac : ℕ)
      → codec.marshal (or_empty_map spec.tags) ≡ some tags
      → codec.marshal (or_empty_map spec.environment) ≡ some environment
      → attach (some ac) (scanned (scan_sandbox codec (new_row spec pod ip tags environment now)))
        ≡ done_with (as_stored (new_sandbox spec pod ip ac now))
  unfolding scan_sandbox new_row new_sandbox sandbox_of_row scanned attach
  scan_sandbox-new pod ip tags environment ac ht he =
      rw
        (
          scan_env-marshal _ _ ht,
          scan_sandbox,
          scan_env-marshal _ _ he,
          or_zero-null_if_zero,
          or_zero-null_if_empty spec.idle_action,
          or_zero-null_if_empty spec.callback_url,
        )
        refl

  get-inserted :
      (m : Manager) (ac : ℕ) (rows : List SandboxRow) (row : SandboxRow)
      → find_sandbox spec.id rows ≡ some row
      → get_sandbox codec false spec.id
          (record m { sandboxes = rows; agents = Dict.put m.agents spec.id ac })
        ≡ attach (some ac) (scanned (scan_sandbox codec row))
  unfolding get_sandbox query_sandbox
  get-inserted m ac rows row found =
      let held : Dict.get (Dict.put m.agents spec.id ac) spec.id ≡ some ac =
        get-put m.agents spec.id ac spec.id ∙ rw eq_refl refl in
      rw (held, found, query_found) refl

  insert-Agrees :
      (pod : Pod) (ip tags environment : String) (ac : ℕ) (m : Manager)
      (o : Option (List SandboxRow))
      → codec.marshal (or_empty_map spec.tags) ≡ some tags
      → codec.marshal (or_empty_map spec.environment) ≡ some environment
      → insert_sandbox answers.fault (new_row spec pod ip tags environment now) m.sandboxes ≡ o
      → Agrees (on_insert codec spec answers now pod ip ac o m)
  unfolding on_insert
  insert-Agrees pod ip tags environment ac m none ht he h sb e = cc
  insert-Agrees pod ip tags environment ac m (some rows) ht he h sb e =
      let row = new_row spec pod ip tags environment now in
      let (absent, same) = find_sandbox-insert answers.fault row m.sandboxes rows h in
      let returned : new_sandbox spec pod ip ac now ≡ sb = cc in
      let found : find_sandbox spec.id rows ≡ some row =
        unfold new_row in rw same (find_sandbox-append row m.sandboxes absent) in
      get-inserted m ac rows row found
      ∙ scan_sandbox-new pod ip tags environment ac ht he
      ∙ ap (λ x. done_with (as_stored x)) returned

  marshal-Agrees :
      (pod : Pod) (ip : String) (ac : ℕ) (m : Manager) (tags environment : Option String)
      → codec.marshal (or_empty_map spec.tags) ≡ tags
      → codec.marshal (or_empty_map spec.environment) ≡ environment
      → Agrees (on_marshal codec spec answers now pod ip ac tags environment m)
  unfolding on_marshal
  marshal-Agrees pod ip ac m none environment ht he sb e = cc
  marshal-Agrees pod ip ac m (some tags) none ht he sb e = cc
  marshal-Agrees pod ip ac m (some tags) (some environment) ht he sb e =
      insert-Agrees pod ip tags environment ac m _ ht he refl sb e

  ping-Agrees :
      (pod : Pod) (ip : String) (ac : ℕ) (m : Manager) (answered : Bool)
      → Agrees (on_ping codec spec answers now pod ip ac answered m)
  unfolding on_ping
  ping-Agrees pod ip ac m false sb e = cc
  ping-Agrees pod ip ac m true sb e = marshal-Agrees pod ip ac m _ _ refl refl sb e

  dial-Agrees :
      (pod : Pod) (ip : String) (m : Manager) (o : Option ℕ)
      → Agrees (on_dial codec spec answers now pod ip o m)
  unfolding on_dial
  dial-Agrees pod ip m none sb e = cc
  dial-Agrees pod ip m (some ac) sb e = ping-Agrees pod ip ac _ _ sb e

  ready-Agrees :
      (pod : Pod) (m : Manager) (o : Option String)
      → Agrees (on_ready codec spec answers now pod o m)
  unfolding on_ready
  ready-Agrees pod m none sb e = cc
  ready-Agrees pod m (some ip) sb e = dial-Agrees pod ip m _ sb e

  pod-Agrees : (m : Manager) (o : Option Pod) → Agrees (on_pod codec spec answers now o m)
  unfolding on_pod
  pod-Agrees m none sb e = cc
  pod-Agrees m (some pod) sb e = ready-Agrees pod _ _ sb e

  -- For a JSON codec that decodes what it encodes, and whatever the cluster, the agent and the
  -- database answer: the sandbox that a `Create` returns is, field by field and with its agent, what
  -- a `Get` that reaches the database returns after it, but for nil maps, which are read back empty, and
  -- the times, which are read back in microseconds.
  pub create-get :
      (m : Manager) (sb : Sandbox)
      → (create codec spec answers now m).0 ≡ done_with sb
      → get_sandbox codec false spec.id (create codec spec answers now m).1
        ≡ done_with (as_stored sb)
  unfolding create
  create-get m sb h = pod-Agrees m answers.pod sb h
