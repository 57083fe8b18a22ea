-- ===== src/Api/Execs/Start/Logged.antt =====
-- What a client sees of an exec whose record represents a log.
use microvm_agentic_sandbox.Prelude.{
  ℕ, ◌≡◌, refl, ap, ◌∙◌, String, Option, none, some, List, ltb, length, take, Time,
}
use mathlib.Core.Option
use microvm_agentic_sandbox.Exec.Chunk.{
  Status, running, completed, errored, stdout, stderr, status_string,
}
use microvm_agentic_sandbox.Exec.Record.{ExecRecord}
use microvm_agentic_sandbox.Exec.Record.Output.{select}
use microvm_agentic_sandbox.Exec.Record.Refine.{
  Log, Finish, finish_of, Represents, output-Represents,
}
use microvm_agentic_sandbox.Exec.Record.Kept.{finish_of-some}
use microvm_agentic_sandbox.Exec.Load.{snapshot}
use microvm_agentic_sandbox.Api.Drain.{ExecChunk}
use microvm_agentic_sandbox.Api.Drain.Laws.{stream_ending}
use microvm_agentic_sandbox.Api.Drain.Calls.{said_by, finish_at}
use microvm_agentic_sandbox.Api.Types.{ExecResponse, ExecOutput}
use microvm_agentic_sandbox.Api.Execs.{unless_running, exec_output}
use microvm_agentic_sandbox.Api.Execs.Start.{exec_response}

abbrev status_of : Option Finish → Status
status_of none = running
status_of (some f) = f.status

-- What a client sees of an exec with limit `m` whose log this is.
abbrev pub logged_output : String → ℕ → Log → ExecOutput
logged_output exec_id m l = record {
  exec_id = exec_id;
  status = status_string (status_of l.over);
  exit_code = Option.map (λ f. f.exit_code) l.over;
  out = select stdout (take m l.said);
  err = select stderr (take m l.said);
  truncated = ltb m (length l.said);
}

finish_of-shown :
    (r : ExecRecord)
    → (r.status ≡ status_of (finish_of r))
      × (unless_running r.status r.exit_code ≡ Option.map (λ f. f.exit_code) (finish_of r))
finish_of-shown r = by_status r.status refl
  where
    by_status :
        (s : Status)
        → r.status ≡ s
        → (r.status ≡ status_of (finish_of r))
          × (unless_running r.status r.exit_code ≡ Option.map (λ f. f.exit_code) (finish_of r))
    by_status running e = rw e (refl, refl)
    by_status completed e = rw e (refl, refl)
    by_status errored e = rw e (refl, refl)

pub exec_output-logged :
    (exec_id : String) (m : ℕ) (r : ExecRecord) (l : Log)
    → r.id ≡ exec_id
    → Represents m r l
    → exec_output r ≡ logged_output exec_id m l
unfolding exec_output snapshot
exec_output-logged exec_id m r l named h =
    let outs = output-Represents m r l h in
    let cut = h.cut in
    let over = h.over in
    let (status, code) = finish_of-shown r in
    let status' = status ∙ ap status_of over in
    let code' = code ∙ ap (Option.map (λ f. f.exit_code)) over in
    rw (outs, named, cut, code')
      (ap
        (λ s. record {
          exec_id = exec_id;
          status = status_string s;
          exit_code = Option.map (λ f. f.exit_code) l.over;
          out = select stdout (take m l.said);
          err = select stderr (take m l.said);
          truncated = ltb m (length l.said);
        })
        status')

-- The log that the frames of an exec make.
abbrev pub exec_log : Time → List ExecChunk → Log
exec_log ended chunks = record {
  said = said_by chunks;
  over = some (finish_at ended (stream_ending chunks));
}

-- What a client sees of an exec with limit `m`: what was said up to the limit, by pipe.
abbrev pub finished_body : String → ℕ → List ExecChunk → ExecResponse
finished_body exec_id m chunks = record {
  exec_id = exec_id;
  exit_code = some (stream_ending chunks).exit_code;
  out = select stdout (take m (said_by chunks));
  err = select stderr (take m (said_by chunks));
  truncated = ltb m (length (said_by chunks));
}

abbrev pub finished_output : String → ℕ → List ExecChunk → ExecOutput
finished_output exec_id m chunks = record {
  exec_id = exec_id;
  status = status_string (stream_ending chunks).status;
  exit_code = some (stream_ending chunks).exit_code;
  out = select stdout (take m (said_by chunks));
  err = select stderr (take m (said_by chunks));
  truncated = ltb m (length (said_by chunks));
}

-- The bodies that are made of a record which represents the log.
pub exec_response-finished :
    (exec_id : String) (m : ℕ) (r : ExecRecord) (ended : Time) (chunks : List ExecChunk)
    → Represents m r (exec_log ended chunks)
    → exec_response exec_id r ≡ finished_body exec_id m chunks
unfolding exec_response snapshot
exec_response-finished exec_id m r ended chunks h =
    let (over, status, code) = finish_of-some r _ h.over in
    let outs = output-Represents m r _ h in let cut = h.cut in rw (outs, code, cut) refl

pub exec_output-finished :
    (exec_id : String) (m : ℕ) (r : ExecRecord) (ended : Time) (chunks : List ExecChunk)
    → r.id ≡ exec_id
    → Represents m r (exec_log ended chunks)
    → exec_output r ≡ finished_output exec_id m chunks
exec_output-finished exec_id m r ended chunks named h =
    exec_output-logged exec_id m r (exec_log ended chunks) named h
