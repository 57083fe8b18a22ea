-- ===== src/Api/Signal/Laws.antt =====
-- adapter/internal/api/exec.go: the numbers that `parseSignal` reads and gives.
use microvm_agentic_sandbox.Prelude.{
  ℕ, ◌≤◌, ◌≡◌, Option, none, some, [], ◌∷◌, arith, ℤ, pos, negsuc, Bytes,
}
use microvm_agentic_sandbox.Api.Signal.{
  signo, atoi, numbered_signal, named_signal, signal_of, parse_trimmed, parse_signal,
}

named_signal_range : (s : Bytes) (n : ℕ) → named_signal s ≡ signo n → (1 ≤ n) × (n ≤ 64)
unfolding named_signal
named_signal_range s n h = ground arith

module _ (trim_space to_upper : Bytes → Bytes) where
  signal_of_range :
      (s : Bytes) (v : Option ℤ) (n : ℕ)
      → signal_of trim_space to_upper s v ≡ signo n
      → (1 ≤ n) × (n ≤ 64)
  unfolding signal_of numbered_signal
  signal_of_range s none n h = named_signal_range (to_upper s) n h
  signal_of_range s (some (pos k)) n h = ground arith
  signal_of_range s (some (negsuc k)) n h = cc

  parse_trimmed_range :
      (t : Bytes) (n : ℕ) → parse_trimmed trim_space to_upper t ≡ signo n → (1 ≤ n) × (n ≤ 64)
  unfolding parse_trimmed
  parse_trimmed_range [] n e = cc
  parse_trimmed_range (c ∷ cs) n e = signal_of_range (c ∷ cs) (atoi (c ∷ cs)) n e

  -- Whatever the text, and whatever the two functions of the package strings give: a signal number that
  -- `parseSignal` gives is between 1 and 64.
  pub parse_signal_range :
      (s : Bytes) (n : ℕ) → parse_signal trim_space to_upper s ≡ signo n → (1 ≤ n) × (n ≤ 64)
  unfolding parse_signal
  parse_signal_range s n h = parse_trimmed_range (trim_space s) n h
