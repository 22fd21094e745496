-- ===== src/Agents/Tests.antt =====
-- The theorems on agents and teams at concrete inputs.
use ufoundry.Base.{
  ℕ, zero, suc, ◌≡◌, ◌⊎◌, inr, Bool, true, false, none, some, List, [], ◌∷◌, Text, codes, pos,
}
use ufoundry.Agents.Agent.{AgentRunResult, Agent, LlmResponse, Outside, Run, execute_calls, run}
use ufoundry.Agents.Agent.Calls.{IsAnswered, execute_calls-IsAnswered}
use ufoundry.Agents.Agent.Length.{EndsWithin, run-EndsWithin}
use ufoundry.Agents.Team.Contract.{
  Team, RetryPolicy, Json, completed, apply_completion_policy, effective_retry_policy,
}
use ufoundry.Agents.Team.Contract.Verdict
use ufoundry.Agents.Team.Executor
use ufoundry.Agents.Team.Members.{Member, run_chain}
use ufoundry.Agents.Team.Members.Chain
use ufoundry.Agents.Team.Executor.Attempts.{IsBounded, execute-IsBounded}

abbrev answer : ℕ → LlmResponse ℕ
answer zero = record {
  content = none;
  tool_calls = record { name = codes "web"; arguments = 1; id = some (codes "t1") } ∷ [];
}
answer (suc n) = record { content = some (codes "done"); tool_calls = [] }

abbrev outside : Outside ℕ ℕ ℕ
outside = record {
  generate = λ n messages specs. some (answer n);
  guard = λ n name arguments. none;
  dumps = λ arguments. [];
  repr = λ s. s;
  compress = λ s. s;
  date_block = [];
}

abbrev agent : Agent ℕ ℕ ℕ
agent = record {
  role = codes "Researcher";
  objective = codes "look";
  system_prompt = [];
  tool_names = codes "web" ∷ [];
  context = [];
  tools = [];
  max_iterations = 3;
}

run-EndsWithin_example : EndsWithin outside agent 0 3 (run outside agent)
run-EndsWithin_example = run-EndsWithin outside agent (λ n messages specs e. cc)

abbrev fresh : Run ℕ
fresh = record {
  messages = [];
  attachments = [];
  events = [];
  model_calls = 0;
  guard_calls = 0;
  handler_calls = 0;
}

execute_calls-IsAnswered_example :
    IsAnswered outside agent
      (answer 0).tool_calls
      fresh
      (execute_calls outside agent (answer 0).tool_calls fresh)
execute_calls-IsAnswered_example =
    execute_calls-IsAnswered outside agent (answer 0).tool_calls fresh

abbrev json : Json Text
json = record {
  loads = λ s. some ((codes "evidence", codes "e") ∷ []);
  items = λ v. some (v ∷ []);
  str = λ v. v;
  dumps = λ p. p.status;
}

abbrev team : Team
team = record {
  team_type = codes "hybrid";
  retry_policy = record {
    max_retries = some (pos 0);
    fail_on_defer = none;
    require_blockers_section = none;
    enforce_shell_success = none;
  };
  budgets = [];
  verification_command = [];
}

abbrev policy : RetryPolicy
policy = record {
  max_retries = 2;
  fail_on_defer = true;
  require_blockers_section = true;
  enforce_shell_success = false;
}

apply_completion_policy-Passes_example :
    ((apply_completion_policy json team policy [] (codes "ok")).0 ≡ completed
      → (apply_completion_policy json team policy [] (codes "ok") ≡ (completed, codes "ok"))
        × Verdict.Passes json team policy [] (codes "ok"))
    × (Verdict.Passes json team policy [] (codes "ok")
        → apply_completion_policy json team policy [] (codes "ok") ≡ (completed, codes "ok"))
apply_completion_policy-Passes_example =
    Verdict.apply_completion_policy-Passes json team policy [] (codes "ok")

abbrev world : Executor.Outside ℕ Text
world = record {
  json = json;
  structured = λ n task. Executor.raised (codes "no");
  orchestrated = λ n task. Executor.replied (codes "nothing") [] [];
  verify = λ n command. (true, []);
  fingerprint = λ commands categories. [];
  dump_snapshot = λ s. [];
}

execute-IsBounded_example :
    IsBounded team
      (effective_retry_policy team).max_retries
      (Executor.execute world team (codes "r1") (codes "build") none []).last
execute-IsBounded_example = execute-IsBounded world team (codes "r1") (codes "build") none []

abbrev members : List Member
members =
    record { role = some (codes "writer"); verification_command = [] }
    ∷ record { role = none; verification_command = codes "make test" }
    ∷ []

abbrev work_of : ℕ → Member → Text → Text ⊎ AgentRunResult ℕ
work_of idx member input =
    inr (record { content = codes "draft"; attachments = []; truncated = false; failed = false })

abbrev refuted : Member → Text → Bool × Text
refuted member command = (false, codes "1 failed")

run_chain-IsPrefix_example :
    Chain.IsPrefix work_of refuted 0 members
      (codes "write")
      none
      []
      (run_chain work_of refuted 0 members (codes "write") none [] [])
run_chain-IsPrefix_example = Chain.run_chain-IsPrefix work_of refuted members (codes "write")
