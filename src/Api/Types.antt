-- ===== src/Api/Types.antt =====
-- adapter/internal/api/types.go: the bodies of requests and responses. A pointer to an int or a time is
-- an `Option`; the bytes of an exec are kept as bytes, as the code puts them into a string.
use microvm_agentic_sandbox.Prelude.{ℕ, String, Bool, Option, List, ℤ, Bytes, Time}
use microvm_agentic_sandbox.Exec.Record.{Env}

pub record SetupFile : Type 0 where
  pub path : String
  pub content : String
  pub encoding : String

pub record SetupBlock : Type 0 where
  pub files : List SetupFile
  pub commands : List String

pub record CreateSandboxRequest : Type 0 where
  pub flavor : String
  pub image_id : String
  pub tenant_id : String
  pub tags : Env
  pub max_session_seconds : ℤ
  pub idle_timeout_seconds : ℤ
  pub idle_action : String
  pub environment : Env
  pub network_egress : String
  pub egress_allowlist : List String
  pub setup : Option SetupBlock
  pub callback_url : String

pub record CreateSandboxResponse : Type 0 where
  pub session_id : String
  pub status : String
  pub deadline : ℤ
  pub session_event_stream : String

pub record GetSandboxResponse : Type 0 where
  pub session_id : String
  pub status : String
  pub flavor : String
  pub image_id : String
  pub tenant_id : String
  pub tags : Env
  pub created_at : Time
  pub deadline : Option ℤ

pub record ExecRequest : Type 0 where
  pub command : String
  pub cwd : String
  pub environment : Env
  pub stdin : String
  pub background : Bool
  pub timeout_seconds : ℤ
  pub max_output_bytes : ℤ
  pub stream_output : Bool

pub record ExecResponse : Type 0 where
  pub exec_id : String
  pub exit_code : Option ℤ
  pub out : Bytes
  pub err : Bytes
  pub truncated : Bool

pub record ExecStatus : Type 0 where
  pub exec_id : String
  pub sandbox_id : String
  pub command : String
  pub status : String
  pub exit_code : Option ℤ
  pub started_at : Time
  pub completed_at : Option Time
  pub output_bytes : ℕ
  pub truncated : Bool

pub record ExecOutput : Type 0 where
  pub exec_id : String
  pub status : String
  pub exit_code : Option ℤ
  pub out : Bytes
  pub err : Bytes
  pub truncated : Bool

pub record ExecListItem : Type 0 where
  pub exec_id : String
  pub command : String
  pub status : String
  pub exit_code : Option ℤ
  pub started_at : Time

pub record StdinRequest : Type 0 where
  pub payload : Bytes
  pub encoding : String
  pub eof : Bool

pub record SignalRequest : Type 0 where
  pub signal : Bytes

pub record ApiError : Type 0 where
  pub code : String
  pub message : String
