-- ===== src/Api/Stream/Decimal.antt =====
-- The id of an event, written and read back as a Last-Event-ID.
use microvm_agentic_sandbox.Prelude.{
  ℕ, zero, suc, ◌+◌, ◌-◌, ◌*◌, ◌/◌, ◌%◌, ◌<◌, ◌≡◌, ◌≢◌, refl, ap, ◌∙◌, some, [], ◌∷◌, arith, ltb,
  Bytes, u64_mod, Bool-cases, inl, inr,
}
use microvm_agentic_sandbox.Api.Signal.{digits_value}
use microvm_agentic_sandbox.Api.Stream.{
  digits_before, decimal, in_u64, parse_uint, after_last, resume_from,
}

digits_value-cons :
    (n k : ℕ) (rest : Bytes)
    → k < 10
    → digits_value n ((b'0' + k) ∷ rest) ≡ digits_value (n * 10 + k) rest
unfolding digits_value
digits_value-cons n k rest h =
    let same : n * 10 + (b'0' + k - b'0') ≡ n * 10 + k = omega arith in
    rw (same, digits_value) (ground (arith, h))

digits_value-before :
    (fuel n : ℕ) (rest : Bytes)
    → n < fuel
    → digits_value 0 (digits_before fuel n rest) ≡ digits_value n rest
unfolding digits_before
digits_value-before zero n rest h = absurd (omega arith)
digits_value-before (suc fuel) n rest h = elim (Bool-cases (ltb n 10)) [
  | inl small ↦
      let same : 0 * 10 + n ≡ n = omega arith in
      rw small
        (digits_value-cons 0 n rest (ground (arith, small)) ∙ ap (λ k. digits_value k rest) same)
  | inr large ↦
      let next : n / 10 < fuel = ground (arith, large, h) in
      let same : n / 10 * 10 + n % 10 ≡ n = omega arith in
      rw large (
        digits_value-before fuel (n / 10) ((b'0' + n % 10) ∷ rest) next
        ∙ digits_value-cons (n / 10) (n % 10) rest (omega arith)
        ∙ ap (λ k. digits_value k rest) same)
]

in_u64-below : (n : ℕ) → n < u64_mod → in_u64 (some n) ≡ some n
unfolding in_u64
in_u64-below n h = ground arith

parse_uint-digits :
    (ds : Bytes) (n : ℕ)
    → ds ≢ []
    → n < u64_mod
    → digits_value 0 ds ≡ some n
    → parse_uint ds ≡ some n
unfolding parse_uint
parse_uint-digits [] n some_digit h e = absurd (some_digit refl)
parse_uint-digits (c ∷ cs) n some_digit h e = rw e (in_u64-below n h)

digits_before-cons : (fuel n c : ℕ) (cs : Bytes) → digits_before fuel n (c ∷ cs) ≢ []
unfolding digits_before
digits_before-cons zero n c cs = λ e. cc
digits_before-cons (suc fuel) n c cs = elim (Bool-cases (ltb n 10)) [
  | inl small ↦ rw small (λ e. cc)
  | inr large ↦ rw large (digits_before-cons fuel (n / 10) (b'0' + n % 10) (c ∷ cs))
]

decimal-cons : (n : ℕ) → decimal n ≢ []
unfolding decimal digits_before
decimal-cons n = elim (Bool-cases (ltb n 10)) [
  | inl small ↦ rw small (λ e. cc)
  | inr large ↦ rw large (digits_before-cons n (n / 10) (b'0' + n % 10) [])
]

-- A client that sends back the id of an event asks for the chunk after it.
pub resume_from-decimal : (n : ℕ) → suc n < u64_mod → resume_from (decimal n) ≡ suc n
unfolding resume_from after_last
resume_from-decimal n h =
    let read : parse_uint (decimal n) ≡ some n =
      parse_uint-digits (decimal n) n (decimal-cons n) (omega (arith, h))
        (unfold decimal digits_value in digits_value-before (suc n) n [] (omega arith)) in
    rw read (omega (arith, h))
