-- ===== src/Sandbox/Table.antt =====
-- adapter/internal/sandbox/manager.go and adapter/internal/db/schema.sql: the types of the manager,
-- the rows of the sandboxes table, and the SQL statements that the manager runs on them.
use microvm_agentic_sandbox.Prelude.{
  ℕ, zero, suc, ◌+◌, ◌-◌, ◌*◌, ◌/◌, ◌^◌, String, Bool, ◌&&◌, not, Option, none, some, List, [], ◌∷◌,
  ◌++◌, str_eq, ltb, if◌then◌else◌, ℤ, pos, negsuc, sub_ℕ, Time,
}
use microvm_agentic_sandbox.Exec.Record.{Env}
use microvm_agentic_sandbox.Exec.Table.{EnvCodec, or_zero, scan_env}

-- `Sandbox`; `agent` is the handle of the dialed client, `none` for nil.
pub record Sandbox : Type 0 where
  pub id : String
  pub pod_name : String
  pub pod_ip : String
  pub namespace : String
  pub image : String
  pub flavor : String
  pub tenant_id : String
  pub tags : Env
  pub environment : Env
  pub network_egress : String
  pub max_session_seconds : ℤ
  pub idle_timeout_seconds : ℤ
  pub idle_action : String
  pub callback_url : String
  pub status : String
  pub end_cause : String
  pub created : Time
  pub deadline : ℤ
  pub ended_at : Option Time
  pub agent : Option ℕ

-- `CreateSpec`
pub record CreateSpec : Type 0 where
  pub id : String
  pub image : String
  pub flavor : String
  pub tenant_id : String
  pub tags : Env
  pub environment : Env
  pub network_egress : String
  pub max_session_seconds : ℤ
  pub idle_timeout_seconds : ℤ
  pub idle_action : String
  pub callback_url : String

-- A row; a NULL is `none`.
pub record SandboxRow : Type 0 where
  pub id : String
  pub pod_name : String
  pub pod_ip : Option String
  pub namespace : String
  pub image : String
  pub flavor : String
  pub tenant_id : String
  pub tags : String
  pub status : String
  pub end_cause : Option String
  pub environment : String
  pub network_egress : String
  pub idle_timeout_seconds : Option ℤ
  pub idle_action : Option String
  pub max_session_seconds : Option ℤ
  pub callback_url : Option String
  pub created_at : Time
  pub deadline : ℤ
  pub ended_at : Option Time

-- `nullIfZero`
abbrev pub null_if_zero : ℤ → Option ℤ
null_if_zero (pos zero) = none
null_if_zero n = some n

-- an INT column holds 32 bits; the encoder refuses a larger number
fits_int : ℤ → Bool
fits_int (pos n) = ltb n (2 ^ 31)
fits_int (negsuc n) = ltb n (2 ^ 31)

-- `now.Add(time.Duration(maxSec) * time.Second)`, for a number of seconds that an INT column holds
abbrev pub add_seconds : Time → ℤ → ℤ
add_seconds now (pos n) = pos (now + n * 10 ^ 9)
add_seconds now (negsuc n) = sub_ℕ now (suc n * 10 ^ 9)

-- What a TIMESTAMPTZ column keeps of an instant in nanoseconds from the epoch: the microseconds, cut
-- off downwards.
unfoldable pub stored_instant : ℤ → ℤ
stored_instant (pos n) = pos (n / 1000 * 1000)
stored_instant (negsuc n) = negsuc ((n / 1000 + 1) * 1000 - 1)

-- SELECT … WHERE id = $1
unfoldable pub find_sandbox : String → List SandboxRow → Option SandboxRow
find_sandbox id [] = none
find_sandbox id (row ∷ rows) = if str_eq row.id id then some row else find_sandbox id rows

-- INSERT INTO sandboxes; the primary key refuses a second row with the id.
unfoldable pub insert_sandbox : Bool → SandboxRow → List SandboxRow → Option (List SandboxRow)
unfolding fits_int
insert_sandbox fault row rows = elim (find_sandbox row.id rows) [
  | some _ ↦ none
  | none ↦
      if fault
      then none
      else if fits_int (or_zero (pos 0) row.idle_timeout_seconds)
          && fits_int (or_zero (pos 0) row.max_session_seconds)
      then some (rows ++ row ∷ [])
      else none
]

-- WHERE id = $1 AND status != 'ended'
abbrev pub is_live : String → SandboxRow → Bool
is_live id row = str_eq row.id id && not (str_eq row.status "ended")

-- SET status = 'ended', end_cause = …, ended_at = NOW()
unfoldable pub end_row : String → Time → SandboxRow → SandboxRow
end_row cause now row = record row { status = "ended"; end_cause = some cause; ended_at = some now }

-- The UPDATE of `Delete` and `markEnded`.
unfoldable pub end_rows : String → String → Time → List SandboxRow → List SandboxRow
end_rows id cause now [] = []
end_rows id cause now (row ∷ rows) =
    (if is_live id row then end_row cause now row else row) ∷ end_rows id cause now rows

-- `tag.RowsAffected()` of that UPDATE
unfoldable pub rows_affected : String → List SandboxRow → ℕ
rows_affected id [] = 0
rows_affected id (row ∷ rows) = (if is_live id row then 1 else 0) + rows_affected id rows

-- `queryByID` past `Scan`, for the two maps that `json.Unmarshal` gives
unfoldable pub sandbox_of_row : SandboxRow → Env → Env → Sandbox
sandbox_of_row row tags environment = record {
  id = row.id;
  pod_name = row.pod_name;
  pod_ip = or_zero "" row.pod_ip;
  namespace = row.namespace;
  image = row.image;
  flavor = row.flavor;
  tenant_id = row.tenant_id;
  tags = tags;
  environment = environment;
  network_egress = row.network_egress;
  max_session_seconds = or_zero (pos 0) row.max_session_seconds;
  idle_timeout_seconds = or_zero (pos 0) row.idle_timeout_seconds;
  idle_action = or_zero "" row.idle_action;
  callback_url = or_zero "" row.callback_url;
  status = row.status;
  end_cause = or_zero "" row.end_cause;
  created = row.created_at;
  deadline = row.deadline;
  ended_at = row.ended_at;
  agent = none;
}

unfoldable pub scan_sandbox : EnvCodec → SandboxRow → Option Sandbox
unfolding sandbox_of_row
scan_sandbox codec row = elim (scan_env codec row.tags) [
  | none ↦ none
  | some tags ↦ elim (scan_env codec row.environment) [
    | none ↦ none
    | some environment ↦ some (sandbox_of_row row tags environment)
  ]
]
