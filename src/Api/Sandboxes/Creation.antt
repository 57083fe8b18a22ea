-- ===== src/Api/Sandboxes/Creation.antt =====
-- A sandbox that POST /api/v1/sandboxes made, asked for by GET /api/v1/sandboxes/{id}.
use Prim.Native.String
use microvm_agentic_sandbox.Prelude.{
  ◌≡◌, refl, ap, subst, String, arith, false, some, str_eq, Time, Bool-cases, inl, inr,
}
use microvm_agentic_sandbox.Exec.Table.{EnvCodec, or_empty_map, stored_time}
use microvm_agentic_sandbox.Sandbox.Table.{Sandbox, add_seconds, stored_instant}
use microvm_agentic_sandbox.Sandbox.Manager.{
  Manager, Result, done_with, failed, Answers, create, new_sandbox, session_seconds, get_sandbox,
}
use microvm_agentic_sandbox.Sandbox.Manager.Birth.{IsFaithful, as_stored, create-get}
use microvm_agentic_sandbox.Sandbox.Manager.Newborn.{IsNewborn, create-IsNewborn}
use microvm_agentic_sandbox.Api.Types.{
  CreateSandboxRequest, CreateSandboxResponse, GetSandboxResponse,
}
use microvm_agentic_sandbox.Api.Http.{
  created_body, sandbox_body, write_json, Texts, Decoded, body_of, malformed, Handled, go, stop,
  panics,
}
use microvm_agentic_sandbox.Api.Execs.{Server, live_sandbox}
use microvm_agentic_sandbox.Api.Sandboxes.{
  spec_of, create_sandbox_response, get_sandbox_response, checked_request, created, create_checked,
  create_sandbox_handler, with_id, get_sandbox_handler,
}

-- What a client reads under the id, of the request that it made at `now`.
pub record IsDescribed (id : String) (now : Time) (req : CreateSandboxRequest)
    (got : GetSandboxResponse) : Type 0 where
  pub session_id : got.session_id ≡ id
  pub status : got.status ≡ "running"
  pub flavor : got.flavor ≡ req.flavor
  pub image_id : got.image_id ≡ req.image_id
  pub tenant_id : got.tenant_id ≡ req.tenant_id
  pub tags : got.tags ≡ some (or_empty_map req.tags)
  pub created_at : got.created_at ≡ stored_time now
  pub deadline :
      got.deadline
      ≡ some (stored_instant (add_seconds now (session_seconds req.max_session_seconds)))

-- The answer to the creation agrees with it; its deadline is in nanoseconds, the one read in microseconds.
pub record Matches (reply : CreateSandboxResponse) (got : GetSandboxResponse) : Type 0 where
  pub same_id : reply.session_id ≡ got.session_id
  pub same_status : reply.status ≡ got.status
  pub same_deadline : got.deadline ≡ some (stored_instant reply.deadline)
  pub stream :
      reply.session_event_stream
      ≡ String.◌++◌ "/api/v1/sandboxes/" (String.◌++◌ got.session_id "/events")

-- What `Get` of the id answers in the state that is left, when the request was made at `now`.
pub record IsServed (codec : EnvCodec) (texts : Texts) (now : Time) (id : String)
    (req : CreateSandboxRequest) (reply : CreateSandboxResponse) (t : Server) : Type 0 where
  pub got : GetSandboxResponse
  pub answered : get_sandbox_handler codec texts false id t ≡ go (write_json 200 (sandbox_body got))
  pub described : IsDescribed id now req got
  pub matching : Matches reply got

request_body :
    (body : Decoded CreateSandboxRequest) (req : CreateSandboxRequest)
    → checked_request body ≡ go req
    → body ≡ body_of req
unfolding checked_request
request_body (malformed text) req h = cc
request_body (body_of asked) req h = elim (Bool-cases (str_eq asked.flavor "")) [
  | inl e ↦ ground (arith, e)
  | inr e ↦ elim (Bool-cases (str_eq asked.image_id "")) [
    | inl d ↦ ground (arith, e, d)
    | inr d ↦ ground (arith, e, d)
  ]
]

module _ (codec : EnvCodec) (faithful : IsFaithful codec) (texts : Texts) (answers : Answers)
    (now : Time) (id : String) (named : str_eq id "" ≡ false) where
  got-IsDescribed :
      (req : CreateSandboxRequest) (sb : Sandbox)
      → IsNewborn (spec_of id req) answers now sb
      → IsDescribed id now req (get_sandbox_response (as_stored sb))
  unfolding spec_of get_sandbox_response new_sandbox
  got-IsDescribed req sb born =
      subst (λ x. IsDescribed id now req (get_sandbox_response (as_stored x))) born.made
        (record {
          session_id = refl;
          status = refl;
          flavor = refl;
          image_id = refl;
          tenant_id = refl;
          tags = refl;
          created_at = refl;
          deadline = refl;
        })

  reply-Matches :
      (sb : Sandbox) → Matches (create_sandbox_response sb) (get_sandbox_response (as_stored sb))
  unfolding create_sandbox_response get_sandbox_response
  reply-Matches sb = record {
    same_id = refl;
    same_status = refl;
    same_deadline = refl;
    stream = refl;
  }

  handler-found :
      (sb : Sandbox) (t : Server)
      → get_sandbox codec false id t.manager ≡ done_with sb
      → get_sandbox_handler codec texts false id t
        ≡ go (write_json 200 (sandbox_body (get_sandbox_response sb)))
  unfolding get_sandbox_handler with_id live_sandbox
  handler-found sb t h = rw (named, h) refl

  created-IsServed :
      (req : CreateSandboxRequest) (reply : CreateSandboxResponse) (s : Server)
      (r : Result Sandbox × Manager)
      → create codec (spec_of id req) answers now s.manager ≡ r
      → (created texts r s).0 ≡ go (write_json 201 (created_body reply))
      → IsServed codec texts now id req reply (created texts r s).1
  unfolding created
  created-IsServed req reply s (failed e, m) made h = cc
  created-IsServed req reply s (done_with sb, m) made h = record {
    got = get_sandbox_response (as_stored sb);
    answered = handler-found (as_stored sb) _ (
        subst (λ r. get_sandbox codec false id r.1 ≡ done_with (as_stored sb)) made
          (unfold spec_of in
            create-get codec faithful (spec_of id req) answers now s.manager sb
              (ap (λ r. r.0) made)));
    described =
        got-IsDescribed req sb
          (create-IsNewborn codec (spec_of id req) answers now s.manager sb (ap (λ r. r.0) made));
    matching =
        let same : create_sandbox_response sb ≡ reply = unfold write_json in cc in
        subst (λ x. Matches x (get_sandbox_response (as_stored sb))) same (reply-Matches sb);
  }

  -- A `Create` that answers 201 has read the request of some body, and a `Get` of the id that reaches the
  -- database answers 200 after it.
  checked-IsServed :
      (reply : CreateSandboxResponse) (s : Server) (o : Handled CreateSandboxRequest)
      → (create_checked codec texts answers now id o s).0 ≡ go (write_json 201 (created_body reply))
      → (req : CreateSandboxRequest) × (o ≡ go req)
        × IsServed codec texts now id req reply (create_checked codec texts answers now id o s).1
  unfolding create_checked
  checked-IsServed reply s (go req) h = (req, refl, created-IsServed req reply s _ refl h)
  checked-IsServed reply s (stop r) h = cc
  checked-IsServed reply s panics h = cc

  -- For a JSON codec that decodes what it encodes, a session id that is not empty, and whatever the
  -- cluster, the agent and the database answer: where the creation answers 201, the body was a
  -- request, and the `Get` of the id that follows and reaches the database answers 200 with what the
  -- request asked for (a nil map of tags read back empty), status running, the time of the creation
  -- and the deadline counted from it, both cut to the microseconds that the table keeps; the id, the
  -- status and, so cut, the deadline are those of the answer to the creation.
  pub create_handler-get :
      (body : Decoded CreateSandboxRequest) (reply : CreateSandboxResponse) (s : Server)
      → (create_sandbox_handler codec texts answers now id body s).0
        ≡ go (write_json 201 (created_body reply))
      → (req : CreateSandboxRequest) × (body ≡ body_of req)
        × IsServed codec texts now id req reply
            (create_sandbox_handler codec texts answers now id body s).1
  unfolding create_sandbox_handler
  create_handler-get body reply s h =
      let (req, e, served) = checked-IsServed reply s (checked_request body) h in
      (req, request_body body req e, served)
