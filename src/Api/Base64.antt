-- ===== src/Api/Base64.antt =====
-- The standard encoding of encoding/base64, which adapter/internal/api/exec.go uses for the events of a
-- stream and for the payload of stdin.
pub mod RoundTrip
use microvm_agentic_sandbox.Prelude.{
  ℕ, ◌+◌, ◌-◌, ◌*◌, ◌/◌, ◌%◌, Bool, true, false, ◌&&◌, ◌||◌, not, Option, none, some, List, [], ◌∷◌,
  ◌++◌, ltb, leb, ◌==◌, if◌then◌else◌, Bytes, keep,
}

-- The letter of a number below 64.
unfoldable pub letter : ℕ → ℕ
letter k =
    if ltb k 26
    then b'A' + k
    else if ltb k 52
    then b'a' + (k - 26)
    else if ltb k 62
    then b'0' + (k - 52)
    else if k == 62
    then b'+'
    else b'/'

unfoldable pub sextet : ℕ → Option ℕ
sextet c =
    if leb b'A' c && leb c b'Z'
    then some (c - b'A')
    else if leb b'a' c && leb c b'z'
    then some (c - b'a' + 26)
    else if leb b'0' c && leb c b'9'
    then some (c - b'0' + 52)
    else if c == b'+'
    then some 62
    else if c == b'/'
    then some 63
    else none

-- `EncodeToString`
unfoldable pub encode_to_string : Bytes → Bytes
encode_to_string [] = []
encode_to_string (a ∷ []) = letter (a / 4) ∷ letter (a % 4 * 16) ∷ b'=' ∷ b'=' ∷ []
encode_to_string (a ∷ b ∷ []) =
    letter (a / 4) ∷ letter (a % 4 * 16 + b / 16) ∷ letter (b % 16 * 4) ∷ b'=' ∷ []
encode_to_string (a ∷ b ∷ c ∷ rest) =
    letter (a / 4)
    ∷ letter (a % 4 * 16 + b / 16)
    ∷ letter (b % 16 * 4 + c / 64)
    ∷ letter (c % 64)
    ∷ encode_to_string rest

-- The bytes of a group, whose last letters may be padding.
two_letters : Option ℕ → Option ℕ → Option Bytes
two_letters (some x) (some y) = some ((x * 4 + y / 16) ∷ [])
two_letters _ _ = none

three_letters : Option ℕ → Option ℕ → Option ℕ → Option Bytes
three_letters (some x) (some y) (some z) = some ((x * 4 + y / 16) ∷ (y % 16 * 16 + z / 4) ∷ [])
three_letters _ _ _ = none

four_letters : Option ℕ → Option ℕ → Option ℕ → Option ℕ → Option Bytes → Option Bytes
four_letters (some x) (some y) (some z) (some w) (some rest) =
    some ((x * 4 + y / 16) ∷ (y % 16 * 16 + z / 4) ∷ (z % 4 * 64 + w) ∷ rest)
four_letters _ _ _ _ _ = none

last_group : ℕ → ℕ → ℕ → Bytes → Option Bytes
last_group a b c [] =
    if c == b'='
    then two_letters (sextet a) (sextet b)
    else three_letters (sextet a) (sextet b) (sextet c)
last_group a b c (_ ∷ _) = none

decode_groups : Bytes → Option Bytes
decode_groups [] = some []
decode_groups (a ∷ b ∷ c ∷ d ∷ rest) =
    let more = four_letters (sextet a) (sextet b) (sextet c) (sextet d) (decode_groups rest) in
    if d == b'=' then last_group a b c rest else more
decode_groups _ = none

-- carriage returns and newlines are skipped
abbrev pub is_break : ℕ → Bool
is_break c = c == 13 || c == 10

-- `DecodeString`; `none` is its error.
unfoldable pub decode_string : Bytes → Option Bytes
unfolding decode_groups last_group four_letters three_letters two_letters sextet
decode_string s = decode_groups (keep (λ c. not (is_break c)) s)
