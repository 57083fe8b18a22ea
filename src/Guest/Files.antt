-- ===== src/Guest/Files.antt =====
-- guest-agent/server.go: `FileRead`, `FileWrite` and `Watch`. What the operating system and the stream
-- answer is an argument.
use microvm_agentic_sandbox.Prelude.{
  ℕ, zero, suc, String, Bool, Option, none, some, List, [], ◌∷◌, if◌then◌else◌, Bytes,
}
use microvm_agentic_sandbox.Guest.{AgentServer, Code, ok_code, internal, file_written, ask}

-- `none` is an error of `os.ReadFile`.
unfoldable pub file_read : Option Bytes → Code × Bytes
file_read none = (internal, [])
file_read (some bytes) = (ok_code, bytes)

-- 0644 where the request gives no mode
unfoldable pub file_mode : ℕ → ℕ
file_mode zero = 420
file_mode (suc n) = suc n

-- `fault` is an error of `os.WriteFile`.
unfoldable pub file_write : Bool → String → Bytes → ℕ → AgentServer → Code × AgentServer
file_write fault path bytes mode s =
    if fault then (internal, s) else (ok_code, ask (file_written path bytes (file_mode mode)) s)

-- What one round of the `select` of `Watch` meets: an event and the error of its send, if that fails, the
-- closed channel, an error of the watcher, or the end of the stream.
pub data WatchWake : Type 0 where
  changed : String → String → Option Code → WatchWake
  events_closed : WatchWake
  watch_fails : WatchWake
  watcher_leaves : WatchWake

-- The path and the operation of each event that was sent, and how the loop ended, if it did.
unfoldable pub watch_rounds : List WatchWake → List (String × String) × Option Code
watch_rounds [] = ([], none)
watch_rounds (changed path op none ∷ wakes) =
    let (sent, end) = watch_rounds wakes in ((path, op) ∷ sent, end)
watch_rounds (changed path op (some code) ∷ wakes) = ([], some code)
watch_rounds (events_closed ∷ wakes) = ([], some ok_code)
watch_rounds (watch_fails ∷ wakes) = ([], some internal)
watch_rounds (watcher_leaves ∷ wakes) = ([], some ok_code)

-- `made` and `added` say whether the watcher could be made and the path added to it.
unfoldable pub watch : Bool → Bool → List WatchWake → List (String × String) × Option Code
watch made added wakes =
    if made then if added then watch_rounds wakes else ([], some internal) else ([], some internal)
