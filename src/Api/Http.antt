-- ===== src/Api/Http.antt =====
-- adapter/internal/api/errors.go: `writeJSON` and `writeError`, and how a handler ends: it goes on, it
-- has answered, or it panics.
use microvm_agentic_sandbox.Prelude.{ℕ, String, List, Bytes}
use microvm_agentic_sandbox.Exec.Registry.{RegistryError}
use microvm_agentic_sandbox.Sandbox.Manager.{ManagerError}
use microvm_agentic_sandbox.Guest.{Code}
use microvm_agentic_sandbox.Api.Signal.{SignalError}
use microvm_agentic_sandbox.Api.Types.{
  CreateSandboxResponse, GetSandboxResponse, ExecResponse, ExecStatus, ExecOutput, ExecListItem,
  ApiError,
}

pub data Body : Type 0 where
  no_body : Body
  error_body : ApiError → Body
  created_body : CreateSandboxResponse → Body
  sandbox_body : GetSandboxResponse → Body
  exec_body : ExecResponse → Body
  status_body : ExecStatus → Body
  output_body : ExecOutput → Body
  list_body : List ExecListItem → Body

pub record HttpResponse : Type 0 where
  pub status : ℕ
  pub content_type : String
  pub body : Body

unfoldable pub write_json : ℕ → Body → HttpResponse
write_json status body = record { status = status; content_type = "application/json"; body = body }

unfoldable pub write_error : ℕ → String → String → HttpResponse
unfolding write_json
write_error status code message =
    write_json status (error_body (record { code = code; message = message }))

-- `w.WriteHeader(http.StatusNoContent)`
abbrev pub no_content : HttpResponse
no_content = record { status = 204; content_type = ""; body = no_body }

-- The texts of errors that come from outside, of those that wrap them, and of those that are formatted;
-- and two functions of the package `strings`, on the code points of a text.
pub record Texts : Type 0 where
  pub of_manager : ManagerError → String
  pub of_registry : RegistryError → String
  pub of_agent : Code → String
  pub of_signal : SignalError → String
  pub of_payload : Bytes → String → String
  pub trim_space : Bytes → Bytes
  pub to_upper : Bytes → Bytes

-- The body of a request, as `json.NewDecoder(r.Body).Decode` gives it.
pub data Decoded {ℓ} (A : Type ℓ) : Type ℓ where
  body_of : A → Decoded A
  malformed : String → Decoded A

pub data Handled {ℓ} (A : Type ℓ) : Type ℓ where
  go : A → Handled A
  stop : HttpResponse → Handled A
  panics : Handled A

infixl 5 ◌>>=◌ ◌>>◌
abbrev pub ◌>>=◌ {ℓ κ} : {A : Type ℓ} {B : Type κ} → Handled A → (A → Handled B) → Handled B
go a >>= f = f a
stop r >>= f = stop r
panics >>= f = panics

abbrev pub ◌>>◌ {ℓ} : {B : Type ℓ} → Handled (Unit {0}) → Handled B → Handled B
m >> k = m >>= λ _. k

-- What the client gets: `RecoverMiddleware` of adapter/internal/api/middleware.go answers for a panic.
unfoldable pub answer : Handled HttpResponse → HttpResponse
answer (go r) = r
answer (stop r) = r
answer panics = write_error 500 "internal_error" "internal server error"
