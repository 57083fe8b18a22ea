-- ===== src/Sandbox/Manager/Recheck.antt =====
-- What `Reconcile` of the manager does to the rows.
use microvm_agentic_sandbox.Prelude.{
  ℕ, ◌≡◌, refl, sym, ap, subst, ◌∙◌, String, Bool, true, false, ◌&&◌, not, Option, none, some, List,
  [], ◌∷◌, arith, str_eq, eq_iff, eq_refl, if◌then◌else◌, Time, Bool-cases, inl, inr,
}
use mathlib.Core.Option
use microvm_agentic_sandbox.Sandbox.Table.{SandboxRow, find_sandbox, end_row, end_rows, is_live}
use microvm_agentic_sandbox.Sandbox.Manager.{
  Manager, PodReply, pod_missing, pod_unknown, pod_found, is_ready,
}
use microvm_agentic_sandbox.Sandbox.Manager.Reconcile.{
  Check, mark_ended, reattach, check_one, check_all, running_ids, recheck,
}

-- The pod is gone, and the update reached the database.
abbrev pub is_lost : PodReply → Bool → Bool
is_lost pod_missing mark_fault = not mark_fault
is_lost pod_unknown mark_fault = false
is_lost (pod_found _ _) mark_fault = false

-- A row after the check of the sandbox `j`.
marked : String → Bool → Time → SandboxRow → SandboxRow
marked j lost now row = if lost && is_live j row then end_row "host_failed" now row else row

marked_kept :
    (j : String) (now : Time) (o : Option SandboxRow) → Option.map (marked j false now) o ≡ o
unfolding marked
marked_kept j now none = refl
marked_kept j now (some row) = refl

find_sandbox-end :
    (j id : String) (now : Time) (rows : List SandboxRow)
    → find_sandbox id (end_rows j "host_failed" now rows)
      ≡ Option.map (marked j true now) (find_sandbox id rows)
unfolding find_sandbox end_rows end_row marked
find_sandbox-end j id now [] = refl
find_sandbox-end j id now (row ∷ rows) = ground (arith, find_sandbox-end j id now rows)

find_sandbox-mark_ended :
    (j id : String) (fault : Bool) (now : Time) (m : Manager)
    → find_sandbox id (mark_ended fault j "host_failed" now m).sandboxes
      ≡ Option.map (marked j (not fault) now) (find_sandbox id m.sandboxes)
unfolding mark_ended
find_sandbox-mark_ended j id true now m = sym (marked_kept j now _)
find_sandbox-mark_ended j id false now m = find_sandbox-end j id now m.sandboxes

reattach-rows :
    (id : String) (o : Option ℕ) (pinged : Bool) (m : Manager)
    → (reattach id o pinged m).sandboxes ≡ m.sandboxes
unfolding reattach
reattach-rows id none pinged m = refl
reattach-rows id (some ac) true m = refl
reattach-rows id (some ac) false m = refl

find_sandbox-check_one :
    (check : Check) (j id : String) (now : Time) (pod : PodReply) (m : Manager)
    → find_sandbox id (check_one check j now pod m).sandboxes
      ≡ Option.map (marked j (is_lost pod check.mark_fault) now) (find_sandbox id m.sandboxes)
unfolding check_one
find_sandbox-check_one check j id now pod_missing m =
    find_sandbox-mark_ended j id check.mark_fault now m
find_sandbox-check_one check j id now pod_unknown m = sym (marked_kept j now _)
find_sandbox-check_one check j id now (pod_found phase ip) m =
    elim (Bool-cases (is_ready phase ip)) [
      | inl e ↦ rw (e, reattach-rows) (sym (marked_kept j now _))
      | inr e ↦ rw e (sym (marked_kept j now _))
    ]

-- `id` is among the ids.
among : String → List String → Bool
among id [] = false
among id (j ∷ ids) = if str_eq j id then true else among id ids

module _ (checks : String → Check) (now : Time) where
  abbrev pub lost : String → Bool
  lost id = is_lost (checks id).pod (checks id).mark_fault

  -- A row after the checks of all the sandboxes.
  all_marked : List String → SandboxRow → SandboxRow
  all_marked [] row = row
  all_marked (j ∷ ids) row = all_marked ids (marked j (lost j) now row)

  find_sandbox-check_all :
      (ids : List String) (id : String) (m : Manager)
      → find_sandbox id (check_all checks now ids m).sandboxes
        ≡ Option.map (all_marked ids) (find_sandbox id m.sandboxes)
  unfolding check_all all_marked
  find_sandbox-check_all [] id m = kept (find_sandbox id m.sandboxes)
    where
      kept : (o : Option SandboxRow) → o ≡ Option.map (λ row. row) o
      kept none = refl
      kept (some row) = refl
  find_sandbox-check_all (j ∷ ids) id m =
      find_sandbox-check_all ids id _
      ∙ ap (Option.map (all_marked ids))
          (find_sandbox-check_one (checks j) j id now (checks j).pod m)
      ∙ fused (find_sandbox id m.sandboxes)
    where
      fused :
          (o : Option SandboxRow)
          → Option.map (all_marked ids) (Option.map (marked j (lost j) now) o)
            ≡ Option.map (λ row. all_marked ids (marked j (lost j) now row)) o
      fused none = refl
      fused (some row) = refl

  -- A row that has ended stays as it is.
  all_marked-over :
      (ids : List String) (row : SandboxRow)
      → str_eq row.status "ended" ≡ true
      → all_marked ids row ≡ row
  unfolding all_marked marked
  all_marked-over [] row over = refl
  all_marked-over (j ∷ ids) row over =
      let same : marked j (lost j) now row ≡ row = ground (arith, over) in
      ap (all_marked ids) same ∙ all_marked-over ids row over

  -- A row whose sandbox is not lost stays as it is.
  all_marked-spared :
      (ids : List String) (row : SandboxRow) → lost row.id ≡ false → all_marked ids row ≡ row
  unfolding all_marked
  all_marked-spared [] row spared = refl
  all_marked-spared (j ∷ ids) row spared =
      ap (all_marked ids) same ∙ all_marked-spared ids row spared
    where
      same : marked j (lost j) now row ≡ row
      same = elim (Bool-cases (str_eq row.id j)) [
        | inl hit ↦ unfold marked in rw (sym ((eq_iff row.id j).0 hit), spared) refl
        | inr miss ↦ unfold marked in ground (arith, miss)
      ]

  all_marked-lost :
      (ids : List String) (row : SandboxRow)
      → among row.id ids ≡ true
      → str_eq row.status "ended" ≡ false
      → lost row.id ≡ true
      → all_marked ids row ≡ end_row "host_failed" now row
  unfolding all_marked among
  all_marked-lost [] row h live gone = cc
  all_marked-lost (j ∷ ids) row h live gone = elim (Bool-cases (str_eq j row.id)) [
    | inl hit ↦
        ap (all_marked ids) (ended hit)
        ∙ all_marked-over ids (end_row "host_failed" now row) (unfold end_row in refl)
    | inr miss ↦
        ap (all_marked ids) (same miss) ∙ all_marked-lost ids row (ground (arith, miss)) live gone
  ]
    where
      ended : str_eq j row.id ≡ true → marked j (lost j) now row ≡ end_row "host_failed" now row
      ended hit = unfold marked in rw ((eq_iff j row.id).0 hit, gone, eq_refl row.id, live) refl

      same : str_eq j row.id ≡ false → marked j (lost j) now row ≡ row
      same miss = unfold marked in ground (arith, miss, eq_iff j row.id, eq_iff row.id j)

found_running :
    (id : String) (rows : List SandboxRow) (row : SandboxRow)
    → find_sandbox id rows ≡ some row
    → str_eq row.status "running" ≡ true
    → (row.id ≡ id) × (among row.id (running_ids rows) ≡ true)
unfolding find_sandbox running_ids among
found_running id [] row h e = cc
found_running id (x ∷ rows) row h e = elim (Bool-cases (str_eq x.id id)) [
  | inl hit ↦
      let same : x ≡ row = ground (arith, hit) in
      (
        ap (λ y. y.id) (sym same) ∙ (eq_iff x.id id).0 hit,
        subst (λ y. among y.id (running_ids (x ∷ rows)) ≡ true) same
            (ground (arith, eq_refl x.id, same, e)),
      )
  | inr miss ↦
      let (named, rest) = found_running id rows row (ground (arith, miss)) e in
      (named, ground (arith, rest))
]

-- A `Reconcile` whose query reached the database, whatever it is told of the sandboxes: the row found
-- under an id, if it was running, is ended with cause host_failed if the pod is gone and the update
-- reached the database, and else it is as it was.
pub recheck-running :
    (checks : String → Check) (now : Time) (m n : Manager) (id : String) (row : SandboxRow)
    → recheck false checks now m ≡ some n
    → find_sandbox id m.sandboxes ≡ some row
    → str_eq row.status "running" ≡ true
    → find_sandbox id n.sandboxes
      ≡ some (
          if is_lost (checks id).pod (checks id).mark_fault
          then end_row "host_failed" now row
          else row)
unfolding recheck
recheck-running checks now m n id row h found runs =
    let (named, listed) = found_running id m.sandboxes row found runs in
    let same : check_all checks now (running_ids m.sandboxes) m ≡ n = cc in
    let live : str_eq row.status "ended" ≡ false = not_ended row.status runs in
    ap (λ x. find_sandbox id x.sandboxes) (sym same)
    ∙ find_sandbox-check_all checks now (running_ids m.sandboxes) id m
    ∙ ap (Option.map (all_marked checks now (running_ids m.sandboxes))) found
    ∙ ap some
        (verdict listed live (subst (λ i. lost checks now i ≡ lost checks now id) (sym named) refl))
  where
    not_ended : (s : String) → str_eq s "running" ≡ true → str_eq s "ended" ≡ false
    not_ended s e = subst (λ t. str_eq t "ended" ≡ false) (sym ((eq_iff s "running").0 e)) refl

    verdict :
        among row.id (running_ids m.sandboxes) ≡ true
        → str_eq row.status "ended" ≡ false
        → lost checks now row.id ≡ lost checks now id
        → all_marked checks now (running_ids m.sandboxes) row
          ≡ (if lost checks now id then end_row "host_failed" now row else row)
    verdict listed live same = elim (Bool-cases (lost checks now id)) [
      | inl gone ↦ rw gone (all_marked-lost checks now _ row listed live (same ∙ gone))
      | inr spared ↦ rw spared (all_marked-spared checks now _ row (same ∙ spared))
    ]
