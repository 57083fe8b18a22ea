-- ===== src/Cluster/Runs.antt =====
-- What the manager asks of the cluster, carried out by the API server, and what it leaves there.
use mathlib.Core.List.{append_cancel_left}
use microvm_agentic_sandbox.Prelude.{
  ℕ, ◌≡◌, ◌≢◌, refl, sym, subst, ◌∙◌, String, Bool, true, false, ◌&&◌, ◌||◌, not, str_eq, eq_iff,
  eq_refl, List, [], ◌∷◌, ◌++◌, arith, ◌==◌, Time, Bool-cases, inl, inr, ◌⊎◌,
}
use microvm_agentic_sandbox.Exec.Table.{EnvCodec}
use microvm_agentic_sandbox.Sandbox.Table.{CreateSpec, rows_affected}
use microvm_agentic_sandbox.Sandbox.Manager.{
  Effect, pod_created, pod_create_failed, pod_delete_asked, agent_dialed, agent_closed, Manager,
  ManagerError, failed, Answers, DeleteReply, pod_stays, create, delete_sandbox,
}
use microvm_agentic_sandbox.Sandbox.Manager.Cleanup.{
  IsCleanedUp, no_pod, no_agent, agent_too, create_undone, IsTornDown, pod_only, agent_first,
  delete_sandbox-IsTornDown,
}
use microvm_agentic_sandbox.Cluster.{
  LivePod, KubeError, KubeReply, not_found, no_answer, other_error, answered, refused, Client,
  pod_name_of, sandbox_pod, create_sandbox_pod, delete_sandbox_pod,
}
use microvm_agentic_sandbox.Cluster.Laws.{IsDead, is_unsettled, IsLawful, HasNone}
use microvm_agentic_sandbox.Cluster.Replies.{deleted_pod}

module _ (c : Client) where
  -- No name that has no live pod gets one.
  abbrev pub NoneBorn : c.api.State → c.api.State → Type 0
  NoneBorn k l = (name : String) → HasNone c name k → HasNone c name l

  -- The effects, carried out one after another. In between the cluster works on its own: pods start and
  -- stop, and vanish. A creation that fails leaves what the call has left. No deletion
  -- meets an error but that there is no such pod.
  pub data Runs : List Effect → c.api.State → c.api.State → Type 0 where
    at_rest : (k : c.api.State) → Runs [] k k
    moves : (k l n : c.api.State) (es : List Effect) → NoneBorn k l → Runs es l n → Runs es k n
    creates :
        (id image : String) (p : LivePod) (k n : c.api.State) (es : List Effect)
        → (create_sandbox_pod c id image k).0 ≡ answered p
        → Runs es (create_sandbox_pod c id image k).1 n
        → Runs (pod_created id image ∷ es) k n
    create_fails :
        (id image : String) (e : KubeError) (k n : c.api.State) (es : List Effect)
        → (create_sandbox_pod c id image k).0 ≡ refused e
        → Runs es (create_sandbox_pod c id image k).1 n
        → Runs (pod_create_failed id image ∷ es) k n
    removes :
        (id : String) (k n : c.api.State) (es : List Effect)
        → deleted_pod (delete_sandbox_pod c id k).0 ≢ pod_stays
        → Runs es (delete_sandbox_pod c id k).1 n
        → Runs (pod_delete_asked id ∷ es) k n
    dials :
        (id : String) (ac : ℕ) (k n : c.api.State) (es : List Effect)
        → Runs es k n
        → Runs (agent_dialed id ac ∷ es) k n
    closes :
        (ac : ℕ) (k n : c.api.State) (es : List Effect)
        → Runs es k n
        → Runs (agent_closed ac ∷ es) k n

  -- A creation of the pod of that name got no answer that tells what became of it.
  unfoldable pub unsettled : String → (es : List Effect) → (k n : c.api.State) → Runs es k n → Bool
  unsettled name _ _ _ (at_rest k) = false
  unsettled name _ _ _ (moves k l n es quiet later) = unsettled name es l n later
  unsettled name _ _ _ (creates id image p k n es made later) = unsettled name es _ n later
  unsettled name _ _ _ (create_fails id image e k n es h later) =
      is_unsettled e && str_eq (pod_name_of id) name || unsettled name es _ n later
  unsettled name _ _ _ (removes id k n es fine later) = unsettled name es _ n later
  unsettled name _ _ _ (dials id ac k n es later) = unsettled name es k n later
  unsettled name _ _ _ (closes ac k n es later) = unsettled name es k n later

  -- Every name but one that has no live pod has none later.
  abbrev NoOtherBorn : String → c.api.State → c.api.State → Type 0
  NoOtherBorn id k l =
      (name : String) → str_eq (pod_name_of id) name ≡ false → HasNone c name k → HasNone c name l

  module _ (lawful : IsLawful c.api) where
    create-NoOtherBorn :
        (id image : String) (p : LivePod) (k : c.api.State)
        → (create_sandbox_pod c id image k).0 ≡ answered p
        → NoOtherBorn id k (create_sandbox_pod c id image k).1
    unfolding create_sandbox_pod sandbox_pod
    create-NoOtherBorn id image p k h name other dead =
        subst IsDead
          (sym (
            lawful.stored-create c.namespace (sandbox_pod c.namespace id image) k p c.namespace name
              h
            ∙ rw (eq_refl c.namespace, other) refl))
          dead

    create_fails-HasNone :
        (id image : String) (e : KubeError) (k : c.api.State) (name : String)
        → (create_sandbox_pod c id image k).0 ≡ refused e
        → (is_unsettled e && str_eq (pod_name_of id) name) ≡ false
        → HasNone c name k
        → HasNone c name (create_sandbox_pod c id image k).1
    unfolding create_sandbox_pod sandbox_pod
    create_fails-HasNone id image e k name h settled dead =
        lawful.refused_create c.namespace (sandbox_pod c.namespace id image) k e c.namespace name h
          (rw (eq_refl c.namespace) settled) dead

    delete-NoneBorn : (id : String) (k : c.api.State) → NoneBorn k (delete_sandbox_pod c id k).1
    unfolding delete_sandbox_pod
    delete-NoneBorn id k name dead =
        lawful.delete_elsewhere c.namespace (pod_name_of id) k c.namespace name dead

    deleted-HasNone :
        (id : String) (k : c.api.State) (r : KubeReply (Unit {0}))
        → (delete_sandbox_pod c id k).0 ≡ r
        → deleted_pod r ≢ pod_stays
        → HasNone c (pod_name_of id) (delete_sandbox_pod c id k).1
    unfolding delete_sandbox_pod deleted_pod
    deleted-HasNone id k (answered tt) h fine =
        lawful.deleted-IsDead c.namespace (pod_name_of id) k h
    deleted-HasNone id k (refused not_found) h fine =
        lawful.missing-IsDead c.namespace (pod_name_of id) k h
    deleted-HasNone id k (refused no_answer) h fine = absurd (fine refl)
    deleted-HasNone id k (refused other_error) h fine = absurd (fine refl)

-- Whether a name has no live pod once the effects are carried out, when `dead` tells whether it has none
-- before.
none_after : String → Bool → List Effect → Bool
none_after name dead [] = dead
none_after name dead (pod_created id image ∷ es) =
    none_after name (dead && not (str_eq (pod_name_of id) name)) es
none_after name dead (pod_create_failed id image ∷ es) = none_after name dead es
none_after name dead (pod_delete_asked id ∷ es) =
    none_after name (str_eq (pod_name_of id) name || dead) es
none_after name dead (agent_dialed id ac ∷ es) = none_after name dead es
none_after name dead (agent_closed ac ∷ es) = none_after name dead es

none_after-cleaned :
    (id image name : String) (trace : List Effect)
    → IsCleanedUp id image trace
    → none_after name true trace ≡ true
unfolding none_after
none_after-cleaned id image name _ no_pod = refl
none_after-cleaned id image name _ no_agent = ground arith
none_after-cleaned id image name _ (agent_too ac) = ground arith

none_after-torn_down :
    (id name : String) (trace : List Effect)
    → str_eq (pod_name_of id) name ≡ true
    → IsTornDown id trace
    → none_after name false trace ≡ true
unfolding none_after
none_after-torn_down id name _ same pod_only = ground (arith, same)
none_after-torn_down id name _ same (agent_first ac) = ground (arith, same)

or_false : (a b : Bool) → (a || b) ≡ false → (a ≡ false) × (b ≡ false)
or_false true b h = cc
or_false false b h = (refl, h)

module _ (c : Client) (lawful : IsLawful c.api) (name : String) where
  Runs-HasNone :
      (es : List Effect) (k n : c.api.State) (dead : Bool) (run : Runs c es k n)
      → unsettled c name es k n run ≡ false
      → (dead ≡ true → HasNone c name k)
      → none_after name dead es ≡ true
      → HasNone c name n
  unfolding none_after unsettled
  Runs-HasNone _ _ _ dead (at_rest k) told before h = before h
  Runs-HasNone _ _ _ dead (moves k l n es quiet later) told before h =
      Runs-HasNone es l n dead later told (λ e. quiet name (before e)) h
  Runs-HasNone _ _ _ dead (creates id image p k n es made later) told before h =
      Runs-HasNone es _ n _ later told
        (λ e.
          create-NoOtherBorn c lawful id image p k made name (ground (arith, e))
            (before (ground (arith, e))))
        h
  Runs-HasNone _ _ _ dead (create_fails id image e k n es refusal later) told before h =
      Runs-HasNone es _ n dead later (or_false _ _ told).1
        (λ d.
          create_fails-HasNone c lawful id image e k name refusal (or_false _ _ told).0 (before d))
        h
  Runs-HasNone _ _ _ dead (removes id k n es fine later) told before h =
      Runs-HasNone es _ n _ later told
        (λ e. elim (Bool-cases (str_eq (pod_name_of id) name)) [
          | inl hit ↦
              subst (λ x. HasNone c x (delete_sandbox_pod c id k).1)
                ((eq_iff (pod_name_of id) name).0 hit) (deleted-HasNone c lawful id k _ refl fine)
          | inr miss ↦ delete-NoneBorn c lawful id k name (before (ground (arith, e, miss)))
        ])
        h
  Runs-HasNone _ _ _ dead (dials id ac k n es later) told before h =
      Runs-HasNone es k n dead later told before h
  Runs-HasNone _ _ _ dead (closes ac k n es later) told before h =
      Runs-HasNone es k n dead later told before h

  -- For a lawful API server, a `Create` of the manager that fails, and the calls that it added carried
  -- out on the cluster, no deletion meeting an error but that there is no such pod: a name that had
  -- no live pod before has none after it, unless it is the name of the pod and the call that creates
  -- the pod got no answer (where the code asks for no deletion, and a pod may be left).
  pub failed_create-HasNone :
      (codec : EnvCodec) (spec : CreateSpec) (answers : Answers) (now : Time) (m : Manager)
      (e : ManagerError) (trace : List Effect) (k n : c.api.State) (ran : Runs c trace k n)
      → (create codec spec answers now m).0 ≡ failed e
      → (create codec spec answers now m).1.effects ≡ m.effects ++ trace
      → HasNone c name k
      → HasNone c name n ⊎ (unsettled c name trace k n ran ≡ true)
  failed_create-HasNone codec spec answers now m e trace k n ran h added before =
      let undone = create_undone codec spec answers now m e h in
      let same : undone.trace ≡ trace =
        append_cancel_left m.effects undone.trace trace (sym undone.traced ∙ added) in
      elim (Bool-cases (unsettled c name trace k n ran)) [
        | inl lost ↦ inr lost
        | inr told ↦ inl (
            Runs-HasNone trace k n true ran told (λ _. before)
              (subst (λ es. none_after name true es ≡ true) same
                (none_after-cleaned spec.id spec.image name undone.trace undone.cleaned)))
      ]

-- No creation among the calls failed.
no_failure : List Effect → Bool
no_failure [] = true
no_failure (pod_create_failed id image ∷ es) = false
no_failure (pod_created id image ∷ es) = no_failure es
no_failure (pod_delete_asked id ∷ es) = no_failure es
no_failure (agent_dialed id ac ∷ es) = no_failure es
no_failure (agent_closed ac ∷ es) = no_failure es

torn_down-no_failure : (id : String) (es : List Effect) → IsTornDown id es → no_failure es ≡ true
unfolding no_failure
torn_down-no_failure id _ pod_only = refl
torn_down-no_failure id _ (agent_first ac) = refl

settled :
    (c : Client) (name : String) (es : List Effect) (k n : c.api.State) (run : Runs c es k n)
    → no_failure es ≡ true
    → unsettled c name es k n run ≡ false
unfolding no_failure unsettled
settled c name _ _ _ (at_rest k) h = refl
settled c name _ _ _ (moves k l n es quiet later) h = settled c name es l n later h
settled c name _ _ _ (creates id image p k n es made later) h = settled c name es _ n later h
settled c name _ _ _ (create_fails id image e k n es refusal later) h = cc
settled c name _ _ _ (removes id k n es fine later) h = settled c name es _ n later h
settled c name _ _ _ (dials id ac k n es later) h = settled c name es k n later h
settled c name _ _ _ (closes ac k n es later) h = settled c name es k n later h

module _ (c : Client) (lawful : IsLawful c.api) where
  -- For a lawful API server, a `Delete` of the manager whose update reached the database and found a live
  -- row, and the effects that it added carried out on the cluster, no deletion meeting an error but
  -- that there is no such pod: the sandbox has no live pod after it, whatever it had before.
  pub deleted_sandbox-HasNone :
      (reply : DeleteReply) (id : String) (now : Time) (m : Manager) (trace : List Effect)
      (k n : c.api.State)
      → rows_affected id m.sandboxes == 0 ≡ false
      → (delete_sandbox false reply id now m).1.effects ≡ m.effects ++ trace
      → Runs c trace k n
      → HasNone c (pod_name_of id) n
  deleted_sandbox-HasNone reply id now m trace k n live added ran =
      let (asked, traced, torn) = delete_sandbox-IsTornDown reply id now m live in
      let same : asked ≡ trace = append_cancel_left m.effects asked trace (sym traced ∙ added) in
      Runs-HasNone c lawful (pod_name_of id) trace k n false ran
        (settled c (pod_name_of id) trace k n ran
          (torn_down-no_failure id trace (subst (IsTornDown id) same torn)))
        (λ e. absurd (ground (arith, e)))
        (subst (λ es. none_after (pod_name_of id) false es ≡ true) same
          (none_after-torn_down id (pod_name_of id) asked (eq_refl (pod_name_of id)) torn))
