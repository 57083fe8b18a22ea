-- ===== src/Exec/Record/Kept.antt =====
-- What the methods of a record never change, and what a record shows at its end.
use microvm_agentic_sandbox.Prelude.{
  zero, suc, ◌≡◌, refl, ◌∙◌, false, some, List, [], ◌∷◌, ◌++◌, arith, Bytes, String, ℤ, pos, negsuc,
  Bool-cases, inl, inr,
}
use microvm_agentic_sandbox.Exec.Chunk.{ChunkKind, is_running}
use microvm_agentic_sandbox.Exec.Record.{
  ExecRecord, capture, append_within, append_locked, finish_locked, close_out, fan_out, append,
  finish, subscribe, cancel,
}
use microvm_agentic_sandbox.Exec.Record.Steps.{receive_at}
use microvm_agentic_sandbox.Exec.Record.Sends.{
  Call, appends, finishes, subscribes, cancels, receives, perform, perform_all,
}
use microvm_agentic_sandbox.Exec.Record.Refine.{Finish, finish_of}

-- What never changes in a record.
abbrev pub identity : ExecRecord → String × String
identity r = (r.id, r.sandbox_id)

append-identity :
    (kind : ChunkKind) (bytes : Bytes) (r : ExecRecord) (left : ℤ)
    → identity (append_within kind bytes r left) ≡ identity r
unfolding append_within capture
append-identity kind bytes r (pos zero) = refl
append-identity kind bytes r (pos (suc n)) = refl
append-identity kind bytes r (negsuc n) = refl

pub perform-identity : (c : Call) (r : ExecRecord) → identity (perform c r) ≡ identity r
unfolding perform append append_locked finish finish_locked close_out fan_out subscribe cancel
    receive_at
perform-identity (appends kind bytes) r = append-identity kind bytes r _
perform-identity (finishes status code reason now) r = elim (Bool-cases (is_running r.status)) [
  | inl e ↦ rw e refl
  | inr e ↦ rw e refl
]
perform-identity (subscribes from_seq) r = refl
perform-identity (cancels i) r = refl
perform-identity (receives i) r = refl

pub perform_all-identity :
    (cs : List Call) (r : ExecRecord) → identity (perform_all cs r) ≡ identity r
unfolding perform_all
perform_all-identity [] r = refl
perform_all-identity (c ∷ cs) r = perform_all-identity cs (perform c r) ∙ perform-identity c r

pub perform_all-append :
    (xs ys : List Call) (r : ExecRecord)
    → perform_all (xs ++ ys) r ≡ perform_all ys (perform_all xs r)
unfolding perform_all
perform_all-append [] ys r = refl
perform_all-append (c ∷ xs) ys r = perform_all-append xs ys (perform c r)

-- A record that shows an end has its status, exit code and reason.
pub finish_of-some :
    (r : ExecRecord) (f : Finish)
    → finish_of r ≡ some f
    → (is_running r.status ≡ false) × (r.status ≡ f.status) × (r.exit_code ≡ f.exit_code)
finish_of-some r f h = elim (Bool-cases (is_running r.status)) [
  | inl e ↦ absurd (ground (arith, e))
  | inr e ↦ (e, ground (arith, e), ground (arith, e))
]
