-- ===== src/Api/Signal.antt =====
-- adapter/internal/api/exec.go: `parseSignal`, and `strconv.Atoi`. Text is a list of code points here;
-- `strings.TrimSpace` and `strings.ToUpper` go by the tables of Unicode and are arguments.
pub mod Laws
use Prim.Native.Char.{code}
use Prim.Native.String.{String}
use microvm_agentic_sandbox.Prelude.{
  ℕ, zero, suc, ◌+◌, ◌-◌, ◌*◌, ◌^◌, ◌≤◌, ◌<◌, ◌≡◌, refl, Bool, true, false, ◌&&◌, ◌||◌, Option,
  none, some, List, [], ◌∷◌, map, arith, ltb, leb, ◌==◌, if◌then◌else◌, ℤ, pos, negsuc, Bytes,
  Bool-cases, Option-cases, inl, inr, ◌⊎◌,
}

pub data SignalError : Type 0 where
  signal_required : SignalError
  out_of_range : ℤ → SignalError
  unknown_signal : SignalError

pub data SignalResult : Type 0 where
  signo : ℕ → SignalResult
  bad : SignalError → SignalResult

abbrev pub codes : String → Bytes
codes String.[] = []
codes (String.◌∷◌ c s) = code c ∷ codes s

-- Equality of byte strings.
abbrev pub same : Bytes → Bytes → Bool
same [] [] = true
same (a ∷ xs) (b ∷ ys) = a == b && same xs ys
same _ _ = false

unfoldable pub digits_value : ℕ → Bytes → Option ℕ
digits_value n [] = some n
digits_value n (c ∷ cs) =
    let rest = digits_value (n * 10 + (c - b'0')) cs in
    if leb b'0' c && leb c b'9' then rest else none

unsigned : Bytes → Option ℕ
unsigned [] = none
unsigned (c ∷ cs) = digits_value 0 (c ∷ cs)

-- The value in the range of an int64, or nothing.
as_pos : Option ℕ → Option ℤ
as_pos none = none
as_pos (some n) = if ltb n (2 ^ 63) then some (pos n) else none

as_neg : Option ℕ → Option ℤ
as_neg none = none
as_neg (some zero) = some (pos 0)
as_neg (some (suc n)) = if ltb n (2 ^ 63) then some (negsuc n) else none

-- `strconv.Atoi`; `none` is its error.
unfoldable pub atoi : Bytes → Option ℤ
unfolding unsigned as_pos as_neg
atoi [] = none
atoi (c ∷ cs) =
    if c == b'-'
    then as_neg (unsigned cs)
    else if c == b'+'
    then as_pos (unsigned cs)
    else as_pos (unsigned (c ∷ cs))

-- `n < 1 || n > 64`
numbered_signal : ℤ → SignalResult
numbered_signal (negsuc n) = bad (out_of_range (negsuc n))
numbered_signal (pos n) = if ltb n 1 || ltb 64 n then bad (out_of_range (pos n)) else signo n

-- The `switch` over the names.
unfoldable pub named_signal : Bytes → SignalResult
named_signal s =
    if same s (codes "SIGHUP") || same s (codes "HUP")
    then signo 1
    else if same s (codes "SIGINT") || same s (codes "INT")
    then signo 2
    else if same s (codes "SIGQUIT") || same s (codes "QUIT")
    then signo 3
    else if same s (codes "SIGKILL") || same s (codes "KILL")
    then signo 9
    else if same s (codes "SIGUSR1")
    then signo 10
    else if same s (codes "SIGUSR2")
    then signo 12
    else if same s (codes "SIGTERM") || same s (codes "TERM")
    then signo 15
    else bad unknown_signal

-- `parseSignal`, where `trim_space` and `to_upper` are those of the package `strings`
module _ (trim_space to_upper : Bytes → Bytes) where
  signal_of : Bytes → Option ℤ → SignalResult
  signal_of s none = named_signal (to_upper s)
  signal_of s (some n) = numbered_signal n

  parse_trimmed : Bytes → SignalResult
  parse_trimmed [] = bad signal_required
  parse_trimmed (c ∷ cs) = signal_of (c ∷ cs) (atoi (c ∷ cs))

  unfoldable pub parse_signal : Bytes → SignalResult
  unfolding parse_trimmed signal_of numbered_signal
  parse_signal s = parse_trimmed (trim_space s)
