-- ===== src/Agents/Agent/Untrimmed.antt =====
-- ufoundry/agents/agent.py: what a run trims of its conversation.
use ufoundry.Base.{
  ℕ, zero, suc, ◌+◌, ◌≡◌, refl, sym, ap, subst, ◌∙◌, inl, inr, Option, none, some, List, [], ◌∷◌,
  ◌++◌, codes, All, All-append, append_assoc, append-nil,
}
use ufoundry.Agents.Trim.{Message, trim_messages}
use ufoundry.Agents.Trim.Tail.{IsAdded, trim_messages-added}
use ufoundry.Agents.Agent.{
  ToolCall, LlmResponse, Agent, Outside, Run, assistant_message, tools_spec, execute_calls, iterate,
  opening, started, run, run_untrimmed,
}
use ufoundry.Agents.Agent.Calls.{execute_calls-IsAnswered}

-- Two messages, and behind them those that the loop added.
abbrev pub IsTalk : List Message → Type 0
IsTalk [] = ⊥
IsTalk (m ∷ []) = ⊥
IsTalk (m ∷ n ∷ rest) = All IsAdded rest

IsTalk-snoc : (ms : List Message) (m : Message) → IsTalk ms → IsAdded m → IsTalk (ms ++ m ∷ [])
IsTalk-snoc [] m h k = absurd h
IsTalk-snoc (a ∷ []) m h k = absurd h
IsTalk-snoc (a ∷ b ∷ rest) m h k = All-append IsAdded rest (m ∷ []) h (k, tt)

IsTalk-untrimmed : (ms : List Message) → IsTalk ms → trim_messages ms 2 6 ≡ ms
IsTalk-untrimmed [] h = absurd h
IsTalk-untrimmed (a ∷ []) h = absurd h
IsTalk-untrimmed (a ∷ b ∷ rest) h = trim_messages-added a b rest 6 h

module _ {A F S : Type 0} (outside : Outside A F S) (agent : Agent A F S) where
  added-IsTalk :
      (ms added : List Message)
      → IsTalk ms
      → All (λ m. m.role ≡ codes "tool") added
      → IsTalk (ms ++ added)
  added-IsTalk ms [] h k = subst IsTalk (sym (append-nil ms)) h
  added-IsTalk ms (m ∷ added) h k =
      subst IsTalk (append_assoc ms (m ∷ []) added)
        (added-IsTalk (ms ++ m ∷ []) added (IsTalk-snoc ms m h (inr k.0)) k.1)

  after_turn :
      (response : LlmResponse A) (s t : Run F) (calls : List (ToolCall A))
      → IsTalk s.messages
      → t.messages ≡ s.messages ++ (assistant_message outside.dumps response ∷ [])
      → IsTalk (execute_calls outside agent calls t).messages
  unfolding assistant_message
  after_turn response s t calls h e =
      let done = execute_calls-IsAnswered outside agent calls t in
      subst IsTalk (sym done.messages) (
        added-IsTalk t.messages done.added
          (subst IsTalk (sym e) (IsTalk-snoc s.messages _ h (inl refl))) done.of_tools)

  turn-untrimmed :
      (left iteration : ℕ) (s : Run F)
      → IsTalk s.messages
      → ((t : Run F)
          → IsTalk t.messages
          → iterate outside agent (λ ms. trim_messages ms 2 6) left (iteration + 1) t
            ≡ iterate outside agent (λ ms. ms) left (iteration + 1) t)
      → iterate outside agent (λ ms. trim_messages ms 2 6) (suc left) iteration s
        ≡ iterate outside agent (λ ms. ms) (suc left) iteration s
  unfolding iterate
  turn-untrimmed left iteration s h ih = by_response (answer s.messages) refl
    where
      answer : List Message → Option (LlmResponse A)
      answer ms = outside.generate s.model_calls ms (tools_spec outside agent agent.tool_names)

      trimmed : answer (trim_messages s.messages 2 6) ≡ answer s.messages
      trimmed = ap answer (IsTalk-untrimmed s.messages h)

      Goal : Type 0
      Goal =
          iterate outside agent (λ ms. trim_messages ms 2 6) (suc left) iteration s
          ≡ iterate outside agent (λ ms. ms) (suc left) iteration s

      by_calls :
          (response : LlmResponse A) (calls : List (ToolCall A))
          → answer s.messages ≡ some response
          → response.tool_calls ≡ calls
          → Goal
      by_calls response [] e c = rw (trimmed ∙ e, iterate) (rw (e, iterate) (rw c refl))
      by_calls response (call ∷ calls) e c =
          rw (trimmed ∙ e, iterate)
            (rw (e, iterate) (rw c (ih _ (after_turn response s _ (call ∷ calls) h refl))))

      by_response : (o : Option (LlmResponse A)) → answer s.messages ≡ o → Goal
      by_response none e = rw (trimmed ∙ e, iterate) (rw (e, iterate) refl)
      by_response (some response) e = by_calls response response.tool_calls e refl

  iterate-untrimmed :
      (left iteration : ℕ) (s : Run F)
      → IsTalk s.messages
      → iterate outside agent (λ ms. trim_messages ms 2 6) left iteration s
        ≡ iterate outside agent (λ ms. ms) left iteration s
  unfolding iterate
  iterate-untrimmed zero iteration s h = refl
  iterate-untrimmed (suc left) iteration s h =
      turn-untrimmed left iteration s h (iterate-untrimmed left (iteration + 1))

  -- The opening messages and those of the loop are never trimmed: a run gives the model the whole
  -- conversation at each iteration, and ends as the run without trimming does.
  pub run-untrimmed : run outside agent ≡ run_untrimmed outside agent
  unfolding run run_untrimmed started opening
  run-untrimmed = iterate-untrimmed agent.max_iterations 0 (started outside agent) tt
