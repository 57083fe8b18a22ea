-- ===== src/Api/Drain/Maps.antt =====
-- The maps of the registry under `drainIntoRecord`.
use microvm_agentic_sandbox.Prelude.{
  ℕ, ◌≡◌, refl, ◌∙◌, Bool, true, false, List, [], ◌∷◌, arith, if◌then◌else◌, Time,
}
use microvm_agentic_sandbox.Exec.Registry.{Registry, finish_and_persist, complete_exec, fail_exec}
use microvm_agentic_sandbox.Api.Drain.{
  ExecChunk, append_exec, append_some, complete_if, drain_one, drain_from, drain_into_record,
}

-- The drain leaves the maps of the registry alone.
drain_one-records :
    (fault : Bool) (p : ℕ) (now : Time) (c : ExecChunk) (s : Registry)
    → (drain_one fault p now c s).records ≡ s.records
unfolding drain_one complete_if append_some append_exec complete_exec finish_and_persist
drain_one-records fault p now c s = ground arith

drain_from-records :
    (fault : Bool) (p : ℕ) (now : Time) (got_done : Bool) (cs : List ExecChunk) (s : Registry)
    → (drain_from fault p now got_done cs s).records ≡ s.records
unfolding drain_from fail_exec finish_and_persist
drain_from-records fault p now true [] s = refl
drain_from-records fault p now false [] s = refl
drain_from-records fault p now true (c ∷ cs) s =
    drain_from-records fault p now (if c.is_last then true else true) cs (drain_one fault p now c s)
    ∙ drain_one-records fault p now c s
drain_from-records fault p now false (c ∷ cs) s =
    drain_from-records fault p now (if c.is_last then true else false) cs
      (drain_one fault p now c s)
    ∙ drain_one-records fault p now c s

pub drain_into_record-records :
    (fault : Bool) (p : ℕ) (now : Time) (cs : List ExecChunk) (s : Registry)
    → (drain_into_record fault p now cs s).records ≡ s.records
unfolding drain_into_record
drain_into_record-records fault p now cs s = drain_from-records fault p now false cs s
