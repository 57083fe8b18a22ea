-- ===== src/Api/Base64/RoundTrip.antt =====
-- What is encoded is decoded.
use microvm_agentic_sandbox.Prelude.{
  ℕ, ◌+◌, ◌*◌, ◌/◌, ◌%◌, ◌<◌, ◌≡◌, refl, ap, ◌∙◌, false, not, some, [], ◌∷◌, ◌==◌, Bytes, keep, All,
  arith,
}
use microvm_agentic_sandbox.Api.Base64.{
  letter, sextet, encode_to_string, two_letters, three_letters, four_letters, last_group,
  decode_groups, is_break, decode_string,
}

abbrev pub IsByte : ℕ → Type 0
IsByte b = b < 256

sextet-letter : (k : ℕ) → k < 64 → sextet (letter k) ≡ some k
unfolding sextet letter
sextet-letter k h = ground arith

letter_plain : (k : ℕ) → k < 64 → ((letter k == b'=') ≡ false) × (is_break (letter k) ≡ false)
unfolding letter
letter_plain k h = (ground arith, ground arith)

decode_groups-encode : (bs : Bytes) → All IsByte bs → decode_groups (encode_to_string bs) ≡ some bs
unfolding decode_groups encode_to_string last_group two_letters three_letters four_letters
decode_groups-encode [] h = refl
decode_groups-encode (a ∷ []) (p, h) =
    rw (sextet-letter (a / 4) (omega arith), sextet-letter (a % 4 * 16) (omega arith))
      (ap (λ x. some (x ∷ [])) (omega arith))
decode_groups-encode (a ∷ b ∷ []) (p, (q, h)) =
    let third : b % 16 * 4 < 64 = omega arith in
    let one : a / 4 * 4 + (a % 4 * 16 + b / 16) / 16 ≡ a = omega arith in
    let two : (a % 4 * 16 + b / 16) % 16 * 16 + b % 16 * 4 / 4 ≡ b = omega arith in
    rw
      (
        (letter_plain (b % 16 * 4) third).0,
        sextet-letter (a / 4) (omega arith),
        sextet-letter (a % 4 * 16 + b / 16) (omega arith),
        sextet-letter (b % 16 * 4) third,
      )
      (cc (one, two))
decode_groups-encode (a ∷ b ∷ c ∷ rest) (p, (q, (r, h))) =
    let fourth : c % 64 < 64 = omega arith in
    let one : a / 4 * 4 + (a % 4 * 16 + b / 16) / 16 ≡ a = omega arith in
    let two : (a % 4 * 16 + b / 16) % 16 * 16 + (b % 16 * 4 + c / 64) / 4 ≡ b = omega arith in
    let three : (b % 16 * 4 + c / 64) % 4 * 64 + c % 64 ≡ c = omega arith in
    rw
      (
        (letter_plain (c % 64) fourth).0,
        sextet-letter (a / 4) (omega arith),
        sextet-letter (a % 4 * 16 + b / 16) (omega arith),
        sextet-letter (b % 16 * 4 + c / 64) (omega arith),
        sextet-letter (c % 64) fourth,
        decode_groups-encode rest h,
      )
      (cc (one, two, three))

-- An encoded text has no line break.
unbroken :
    (k : ℕ) (rest : Bytes)
    → k < 64
    → keep (λ c. not (is_break c)) rest ≡ rest
    → keep (λ c. not (is_break c)) (letter k ∷ rest) ≡ letter k ∷ rest
unbroken k rest h e = rw ((letter_plain k h).1) (ap (λ t. letter k ∷ t) e)

encode_unbroken :
    (bs : Bytes)
    → All IsByte bs
    → keep (λ c. not (is_break c)) (encode_to_string bs) ≡ encode_to_string bs
unfolding encode_to_string
encode_unbroken [] h = refl
encode_unbroken (a ∷ []) (p, h) = unbroken _ _ (omega arith) (unbroken _ _ (omega arith) refl)
encode_unbroken (a ∷ b ∷ []) (p, (q, h)) =
    unbroken _ _ (omega arith) (unbroken _ _ (omega arith) (unbroken _ _ (omega arith) refl))
encode_unbroken (a ∷ b ∷ c ∷ rest) (p, (q, (r, h))) = unbroken _ _ (omega arith) (
    unbroken _ _ (omega arith)
      (unbroken _ _ (omega arith) (unbroken _ _ (omega arith) (encode_unbroken rest h))))

-- For every list of bytes: the standard base64 encoding of it is decoded to it.
pub decode_string-encode_to_string :
    (bs : Bytes) → All IsByte bs → decode_string (encode_to_string bs) ≡ some bs
unfolding decode_string
decode_string-encode_to_string bs h =
    ap decode_groups (encode_unbroken bs h) ∙ decode_groups-encode bs h
