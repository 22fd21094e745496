-- ===== src/Agents/Agent/Length.antt =====
-- ufoundry/agents/agent.py: how often a run calls the model, and how it ends.
use ufoundry.Base.{
  ℕ, zero, suc, ◌+◌, ◌≤◌, ◌<◌, ◌≡◌, refl, ◌≢◌, ◌⊎◌, inl, inr, true, false, Option, none, some, List,
  [], ◌∷◌, arith,
}
use ufoundry.Agents.Trim.{Message, trim_messages}
use ufoundry.Agents.Agent.{
  ToolCall, LlmResponse, AgentRunResult, ToolSpec, Agent, Outside, Run, tools_spec, execute_calls,
  force_final, complete, iterate, heard, numbered, started, run,
}
use ufoundry.Agents.Agent.Calls.{execute_calls-IsAnswered}

module _ {A F S : Type 0} (outside : Outside A F S) (agent : Agent A F S) where
  -- How a run of the loop ends that has called the model `before` times and has `left` iterations
  -- left: with an answer, or truncated when they are used up, after one more call.
  pub record EndsWithin (before left : ℕ) (o : Option (AgentRunResult F × Run F)) : Type 0 where
    pub outcome : AgentRunResult F
    pub final : Run F
    pub returned : o ≡ some (outcome, final)
    pub calls :
        ((outcome.truncated ≡ false)
          × (before < final.model_calls)
          × (final.model_calls ≤ before + left))
        ⊎ ((outcome.truncated ≡ true) × (final.model_calls ≡ before + left + 1))

  module _
      (answered : (n : ℕ) (ms : List Message) (specs : List (ToolSpec S))
        → outside.generate n ms specs ≢ none)
      (view : List Message → List Message) where
    final-EndsWithin : (s : Run F) → EndsWithin s.model_calls 0 (force_final outside agent s)
    unfolding force_final
    final-EndsWithin s = by_response (outside.generate s.model_calls s.messages []) refl
      where
        by_response :
            (o : Option (LlmResponse A))
            → outside.generate s.model_calls s.messages [] ≡ o
            → EndsWithin s.model_calls 0 (force_final outside agent s)
        by_response none e = absurd (answered _ _ _ e)
        by_response (some response) e =
            rw (e, force_final)
              (record { outcome = _; final = _; returned = refl; calls = inr (refl, omega arith) })

    turn-EndsWithin :
        (left iteration : ℕ) (s : Run F)
        → ((t : Run F)
            → EndsWithin t.model_calls left (iterate outside agent view left (iteration + 1) t))
        → EndsWithin s.model_calls (suc left) (iterate outside agent view (suc left) iteration s)
    unfolding iterate complete
    turn-EndsWithin left iteration s ih =
        by_response
          (outside.generate s.model_calls (view s.messages)
            (tools_spec outside agent agent.tool_names))
          refl
      where
        Goal : Type 0
        Goal =
            EndsWithin s.model_calls (suc left) (iterate outside agent view (suc left) iteration s)

        later :
            (t : Run F) (o : Option (AgentRunResult F × Run F))
            → t.model_calls ≡ s.model_calls + 1
            → EndsWithin t.model_calls left o
            → EndsWithin s.model_calls (suc left) o
        later t o e h = record {
          outcome = h.outcome;
          final = h.final;
          returned = h.returned;
          calls = elim h.calls [
            | inl k ↦ inl (k.0, omega (arith, e, k.1), omega (arith, e, k.2))
            | inr k ↦ inr (k.0, omega (arith, e, k.1))
          ];
        }

        by_calls :
            (response : LlmResponse A) (calls : List (ToolCall A))
            → outside.generate s.model_calls
                (view s.messages)
                (tools_spec outside agent agent.tool_names)
              ≡ some response
            → response.tool_calls ≡ calls
            → Goal
        by_calls response [] e c =
            rw (e, iterate)
              (rw c (record {
                outcome = _;
                final = _;
                returned = refl;
                calls = inl (refl, omega arith, omega arith);
              }))
        by_calls response (call ∷ calls) e c =
            let s1 = heard outside agent response (numbered outside agent iteration s) in
            let t = execute_calls outside agent (call ∷ calls) s1 in
            rw (e, iterate)
              (rw c (
                later t _ (execute_calls-IsAnswered outside agent (call ∷ calls) s1).model_calls
                  (ih t)))

        by_response :
            (o : Option (LlmResponse A))
            → outside.generate s.model_calls
                (view s.messages)
                (tools_spec outside agent agent.tool_names)
              ≡ o
            → Goal
        by_response none e = absurd (answered _ _ _ e)
        by_response (some response) e = by_calls response response.tool_calls e refl

    iterate-EndsWithin :
        (left iteration : ℕ) (s : Run F)
        → EndsWithin s.model_calls left (iterate outside agent view left iteration s)
    unfolding iterate
    iterate-EndsWithin zero iteration s = final-EndsWithin s
    iterate-EndsWithin (suc left) iteration s =
        turn-EndsWithin left iteration s (iterate-EndsWithin left (iteration + 1))

  -- Where the model always answers, a run returns. It is truncated exactly when it called the model
  -- once more than it has iterations, and else it called it at least once and at most that often.
  pub run-EndsWithin :
      ((n : ℕ) (ms : List Message) (specs : List (ToolSpec S)) → outside.generate n ms specs ≢ none)
      → EndsWithin 0 agent.max_iterations (run outside agent)
  unfolding run started
  run-EndsWithin answered =
      iterate-EndsWithin answered (λ ms. trim_messages ms 2 6) agent.max_iterations 0
        (started outside agent)
