-- ===== src/Sandbox/Manager/Attached.antt =====
-- The agents that `Reconcile` of the manager dials.
use microvm_agentic_sandbox.Prelude.{
  ℕ, ◌≡◌, ◌≢◌, ◌⊎◌, refl, sym, ap, subst, ◌∙◌, String, Bool, true, false, Option, none, some, List,
  [], ◌∷◌, str_eq, eq_iff, if◌then◌else◌, Time, Bool-cases, inl, inr,
}
use microvm_agentic_sandbox.Prelude.Dict
use microvm_agentic_sandbox.Prelude.Dict.{get-put}
use microvm_agentic_sandbox.Sandbox.Manager.{
  Manager, PodReply, pod_missing, pod_unknown, pod_found, is_ready,
}
use microvm_agentic_sandbox.Sandbox.Manager.Reconcile.{
  Check, mark_ended, reattach, check_one, check_all, running_ids, recheck,
}

-- The pod was found running at an address, and the agent there was dialed and answered a ping.
pub record IsAttached (check : Check) (ac : ℕ) : Type 0 where
  pub phase : String
  pub ip : String
  pub pod : check.pod ≡ pod_found phase ip
  pub ready : is_ready phase ip ≡ true
  pub dialed : check.dial ≡ some ac
  pub pinged : check.pinged ≡ true

-- The agent that is held for a sandbox was held before, or has been attached.
abbrev Holds : (String → Check) → Manager → Manager → Type 0
Holds checks m n =
    (id : String) (ac : ℕ)
    → Dict.get n.agents id ≡ some ac
    → (Dict.get m.agents id ≡ some ac) ⊎ IsAttached (checks id) ac

module _ (checks : String → Check) (now : Time) (j : String) (m : Manager) where
  reattach-Holds :
      (phase ip : String) (o : Option ℕ) (pong : Bool)
      → (checks j).pod ≡ pod_found phase ip
      → is_ready phase ip ≡ true
      → (checks j).dial ≡ o
      → (checks j).pinged ≡ pong
      → Holds checks m (reattach j o pong m)
  unfolding reattach
  reattach-Holds phase ip none pong hp hr hd hq id ac h = inl h
  reattach-Holds phase ip (some bc) false hp hr hd hq id ac h = inl h
  reattach-Holds phase ip (some bc) true hp hr hd hq id ac h = elim (Bool-cases (str_eq j id)) [
    | inl hit ↦
        let same : some bc ≡ some ac = sym (get-put m.agents j bc id ∙ rw hit refl) ∙ h in
        inr (
          subst (λ i. IsAttached (checks i) ac) ((eq_iff j id).0 hit)
            (record {
              phase = phase;
              ip = ip;
              pod = hp;
              ready = hr;
              dialed = hd ∙ same;
              pinged = hq;
            }))
    | inr miss ↦ inl (sym (get-put m.agents j bc id ∙ rw miss refl) ∙ h)
  ]

  ready-Holds :
      (phase ip : String) (ready : Bool)
      → (checks j).pod ≡ pod_found phase ip
      → is_ready phase ip ≡ ready
      → Holds checks m (if ready then reattach j (checks j).dial (checks j).pinged m else m)
  ready-Holds phase ip true hp hr id ac h = reattach-Holds phase ip _ _ hp hr refl refl id ac h
  ready-Holds phase ip false hp hr id ac h = inl h

  agents-mark_ended : (fault : Bool) → (mark_ended fault j "host_failed" now m).agents ≡ m.agents
  unfolding mark_ended
  agents-mark_ended true = refl
  agents-mark_ended false = refl

  check_one-Holds :
      (pod : PodReply) → (checks j).pod ≡ pod → Holds checks m (check_one (checks j) j now pod m)
  unfolding check_one
  check_one-Holds pod_missing hp id ac h =
      inl (sym (ap (λ d. Dict.get d id) (agents-mark_ended (checks j).mark_fault)) ∙ h)
  check_one-Holds pod_unknown hp id ac h = inl h
  check_one-Holds (pod_found phase ip) hp id ac h = ready-Holds phase ip _ hp refl id ac h

check_all-Holds :
    (checks : String → Check) (now : Time) (ids : List String) (m : Manager)
    → Holds checks m (check_all checks now ids m)
unfolding check_all
check_all-Holds checks now [] m id ac h = inl h
check_all-Holds checks now (j ∷ ids) m id ac h =
    elim (check_all-Holds checks now ids (check_one (checks j) j now (checks j).pod m) id ac h) [
      | inl held ↦ check_one-Holds checks now j m (checks j).pod refl id ac held
      | inr attached ↦ inr attached
    ]

-- A `Reconcile` that starts with no agent holds one for a sandbox only where the pod was found running
-- and the agent was dialed at it and answered.
pub recheck-IsAttached :
    (checks : String → Check) (now : Time) (m n : Manager) (id : String) (ac : ℕ)
    → m.agents ≡ []
    → recheck false checks now m ≡ some n
    → Dict.get n.agents id ≡ some ac
    → IsAttached (checks id) ac
unfolding recheck
recheck-IsAttached checks now m n id ac empty h held =
    let same : check_all checks now (running_ids m.sandboxes) m ≡ n = cc in
    let holds : (Dict.get m.agents id ≡ some ac) ⊎ IsAttached (checks id) ac =
      check_all-Holds checks now (running_ids m.sandboxes) m id ac
        (ap (λ x. Dict.get x.agents id) same ∙ held) in
    elim holds [
      | inl before ↦ absurd (none_held (sym (ap (λ d. Dict.get d id) empty) ∙ before))
      | inr attached ↦ attached
    ]
  where
    none_held : Dict.get [] id ≢ some ac
    none_held e = unfold Dict.get in cc
