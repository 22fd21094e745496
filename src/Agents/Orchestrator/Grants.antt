-- ===== src/Agents/Orchestrator/Grants.antt =====
-- ufoundry/agents/orchestrator.py: what the planning model can bring about.
use ufoundry.Base.{
  ℕ, zero, suc, ◌≡◌, ◌↔◌, ◌+◌, ◌≤◌, ◌<◌, refl, true, Bool-cases, inl, inr, ◌==◌, Option, none, some,
  List, [], ◌∷◌, Text, codes, text_eq, All, All-append, In, contains, contains_iff, is_empty,
  filter-In, arith, lookup,
}
use ufoundry.Agents.Agent.{ToolCall, LlmResponse, Agent, assistant_message}
use ufoundry.Agents.Trim.{Message}
use ufoundry.Agents.Orchestrator.{
  OrchestratorArgs, Orchestrator, Callbacks, OrchestratorRun, Approval, approves, rejects,
  approval_raises, new_agent, spawn_agent, send_update, approval_text, request_approval,
  handle_orchestrator_tool, handle_calls, finish, loop, orchestrate, or_limit, ask_model,
  add_message, answer_message, given_or,
}

module _ {A F S : Type 0} (o : Orchestrator A F S) (c : Callbacks A F S) where
  -- The agent has only tools that the orchestrator may grant, and the limit of its role or, for a
  -- role without one, the common limit.
  abbrev pub IsGranted : Agent A F S → Type 0
  IsGranted agent =
      ((name : Text) → In name agent.tool_names → In name o.available_tool_names)
      × (agent.max_iterations
          ≡ or_limit (lookup agent.role o.role_max_iterations) o.max_agent_iterations)

  new_agent-IsGranted : (args : OrchestratorArgs) → IsGranted (new_agent o c args)
  unfolding new_agent
  new_agent-IsGranted args = (
    λ name m.
        (contains_iff o.available_tool_names name).0
          (filter-In (contains o.available_tool_names) args.tools name m).1,
    refl,
  )

  -- Every agent so far was granted what it has, and the model was called `n` times.
  abbrev Kept : ℕ → OrchestratorRun A F S → Type 0
  Kept n s = All IsGranted s.spawned × (s.model_calls ≡ n)

  module _ (n : ℕ) (s : OrchestratorRun A F S) (h : Kept n s) (args : OrchestratorArgs) where
    update-Kept : Kept n (send_update o c args s).1
    unfolding send_update
    update-Kept = elim (Bool-cases (is_empty (given_or args.message []))) [
      | inl e ↦ rw e h
      | inr e ↦ rw e h
    ]

    request-Kept : Kept n (request_approval o c args s).1
    unfolding request_approval
    request-Kept = by_callback c.request_approval_callback refl
      where
        by_callback :
            (ask : Option (ℕ → Text → Text → Approval))
            → c.request_approval_callback ≡ ask
            → Kept n (request_approval o c args s).1
        by_callback none e = rw (e, request_approval) h
        by_callback (some ask) e = rw (e, request_approval) h

  handle-Kept :
      (n : ℕ) (call : ToolCall OrchestratorArgs) (s : OrchestratorRun A F S)
      → Kept n s
      → Kept n (handle_orchestrator_tool o c call s).1
  unfolding handle_orchestrator_tool spawn_agent
  handle-Kept n call s h = elim (Bool-cases (call.name == codes "spawn_agent")) [
    | inl e ↦ rw e (
      All-append IsGranted s.spawned (new_agent o c call.arguments ∷ []) h.0
          (new_agent-IsGranted call.arguments, tt),
      h.1,
    )
    | inr e ↦ rw e (elim (Bool-cases (call.name == codes "send_update")) [
      | inl f ↦ rw f (update-Kept n s h call.arguments)
      | inr f ↦ rw f (elim (Bool-cases (call.name == codes "request_approval")) [
        | inl g ↦ rw g (request-Kept n s h call.arguments)
        | inr g ↦ rw g h
      ])
    ])
  ]

  handle_calls-Kept :
      (n : ℕ) (calls : List (ToolCall OrchestratorArgs)) (s : OrchestratorRun A F S)
      → Kept n s
      → Kept n (handle_calls o c calls s)
  unfolding handle_calls
  handle_calls-Kept n [] s h = h
  handle_calls-Kept n (call ∷ calls) s h =
      let handled = handle_orchestrator_tool o c call s in
      handle_calls-Kept n calls (add_message o c (answer_message o c call handled.0) handled.1)
        (handle-Kept n call s h)

  -- Where a run ends that had `left` iterations to go after `n` calls.
  abbrev Ends : ℕ → ℕ → OrchestratorRun A F S → Type 0
  Ends n left t = All IsGranted t.spawned × (n < t.model_calls) × (t.model_calls ≤ n + left + 1)

  module _ (n left : ℕ) (s : OrchestratorRun A F S) (h : Kept n s)
      (ih : (u : OrchestratorRun A F S)
        → Kept (n + 1) u
        → Ends (n + 1) left (loop o c left u).1) where
    by_response :
        (r : Option (LlmResponse OrchestratorArgs))
        → c.generate s.model_calls s.messages true ≡ r
        → Ends n (suc left) (loop o c (suc left) s).1
    unfolding loop
    by_response none e = rw (e, loop) (h.0, omega (arith, h.1), omega (arith, h.1))
    by_response (some response) e = by_calls response e response.tool_calls refl
      where
        by_calls :
            (response : LlmResponse OrchestratorArgs)
            → c.generate s.model_calls s.messages true ≡ some response
            → (calls : List (ToolCall OrchestratorArgs)) → response.tool_calls ≡ calls
            → Ends n (suc left) (loop o c (suc left) s).1
        by_calls response e [] k = rw (e, loop) (rw k (h.0, omega (arith, h.1), omega (arith, h.1)))
        by_calls response e (call ∷ calls) k =
            let asked =
              add_message o c (assistant_message c.dumps response) (ask_model o c true s).1 in
            let (spawned, low, high) =
              ih (handle_calls o c (call ∷ calls) asked)
                (handle_calls-Kept (n + 1) (call ∷ calls) asked (h.0, omega (arith, h.1))) in
            rw (e, loop) (rw k (spawned, omega (arith, low), omega (arith, high)))

  loop-Ends : (left n : ℕ) (s : OrchestratorRun A F S) → Kept n s → Ends n left (loop o c left s).1
  unfolding loop finish
  loop-Ends zero n s h = (h.0, omega (arith, h.1), omega (arith, h.1))
  loop-Ends (suc left) n s h =
      by_response n left s h (λ u kept. loop-Ends left (n + 1) u kept)
        (c.generate s.model_calls s.messages true) refl

  -- Whatever the planning model answers, a run ends after at least one call of it and at most one
  -- more than it has iterations. Each agent that the run spawned has only tools that the
  -- orchestrator may grant, and the iterations of its role or, for a role without a limit, those of
  -- all agents.
  pub orchestrate-IsGranted :
      (system_prompt task : Text) (history : List Message)
      → All IsGranted (orchestrate o c system_prompt task history).1.spawned
        × (0 < (orchestrate o c system_prompt task history).1.model_calls)
        × ((orchestrate o c system_prompt task history).1.model_calls
            ≤ o.max_orchestrator_iterations + 1)
  unfolding orchestrate
  orchestrate-IsGranted system_prompt task history =
      let (granted, low, high) = loop-Ends o.max_orchestrator_iterations 0 _ (tt, refl) in
      (granted, low, omega (arith, high))

  approval_text-approved :
      (v : Approval) → (approval_text o c v ≡ codes "approved") ↔ (v ≡ approves)
  unfolding approval_text
  approval_text-approved approves = (λ h. refl, λ h. refl)
  approval_text-approved rejects = (λ h. cc, λ h. cc)
  approval_text-approved approval_raises = (λ h. cc, λ h. cc)

  abbrev Approved : OrchestratorArgs → OrchestratorRun A F S → Type 0
  Approved args s =
      (ask : ℕ → Text → Text → Approval) × (c.request_approval_callback ≡ some ask)
      × (ask s.requests (given_or args.reason []) (given_or args.action_summary []) ≡ approves)

  approved-asked :
      (args : OrchestratorArgs) (s : OrchestratorRun A F S)
      (found : Option (ℕ → Text → Text → Approval))
      → c.request_approval_callback ≡ found
      → (request_approval o c args s).0 ≡ codes "approved"
      → Approved args s
  unfolding request_approval
  approved-asked args s none e h = cc (rw (e, request_approval) at h)
  approved-asked args s (some ask) e h = (
    ask,
    e,
    (approval_text-approved
          (ask s.requests (given_or args.reason []) (given_or args.action_summary []))).0
        (rw (e, request_approval) at h),
  )

  -- The planning model reads "approved" exactly where a callback is configured and it was the
  -- user's approval that came back. A rejection, an exception of the callback and a missing
  -- callback all read differently.
  pub request_approval-approved :
      (args : OrchestratorArgs) (s : OrchestratorRun A F S)
      → ((request_approval o c args s).0 ≡ codes "approved") ↔ (
          (ask : ℕ → Text → Text → Approval) × (c.request_approval_callback ≡ some ask)
          × (ask s.requests (given_or args.reason []) (given_or args.action_summary []) ≡ approves))
  unfolding request_approval approval_text
  request_approval-approved args s = (
    approved-asked args s c.request_approval_callback refl,
    λ (ask, e, agreed). rw (e, request_approval) (rw agreed refl),
  )
