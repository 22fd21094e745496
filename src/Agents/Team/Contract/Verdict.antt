-- ===== src/Agents/Team/Contract/Verdict.antt =====
-- ufoundry/agents/team_executor.py, `_apply_completion_policy`: when a reply counts as completed.
use ufoundry.Base.{
  ◌≡◌, refl, sym, ap, ◌∙◌, inl, inr, Bool, true, false, not, ◌&&◌, ◌||◌, ◌==◌, ==_iff, Option, none,
  some, List, [], ◌∷◌, Text, codes, text_eq, text_beq, if◌then◌else◌, is_empty, or_text, strip,
  Dict, Bool-cases, arith,
}
use ufoundry.Agents.Team.Telemetry.{ShellItem, unresolved_failed_commands}
use ufoundry.Agents.Team.Contract.{
  Judged, completed, failed, RetryPolicy, Team, Json, is_structured, parse_team_result_block,
  is_non_empty_list, refuse, status_of, judge_blocked, judge_completed, judge_block,
  apply_completion_policy,
}

module _ {J : Type 0} (json : Json J) where
  -- What a block must say for its reply to count as completed.
  pub record IsAccepted (policy : RetryPolicy) (shell : List ShellItem) (block : Dict Text J)
      : Type 0 where
    pub status : or_text (status_of json block) (codes "completed") ≡ codes "completed"
    pub evidence :
        policy.require_blockers_section ≡ true
        → is_non_empty_list json (codes "evidence") block ≡ true
    pub no_failed : is_non_empty_list json (codes "failed_commands") block ≡ false
    pub resolved : policy.enforce_shell_success ≡ true → unresolved_failed_commands shell ≡ []

  empty_list : {A : Type 0} (xs : List A) → is_empty xs ≡ true → xs ≡ []
  empty_list [] h = refl
  empty_list (x ∷ xs) h = cc

  blocked-failed :
      (require : Bool) (block : Dict Text J) (reply : Text)
      → (judge_blocked json require block reply).0 ≡ failed
  unfolding judge_blocked
  blocked-failed require block reply = ground arith

  abbrev first_of : Bool → Bool → Bool → Text → Text → Text → Text → Judged
  first_of a b c x y z reply =
      if a
      then (failed, x)
      else if b
      then (failed, y)
      else if c
      then (failed, z)
      else (completed, reply)

  three-passed :
      (a b c : Bool) (x y z reply : Text)
      → (first_of a b c x y z reply).0 ≡ completed
      → (a ≡ false) × (b ≡ false) × (c ≡ false)
  three-passed true b c x y z reply h = cc
  three-passed false true c x y z reply h = cc
  three-passed false false true x y z reply h = cc
  three-passed false false false x y z reply h = (refl, refl, refl)

  completed-IsAccepted :
      (policy : RetryPolicy) (block : Dict Text J) (shell : List ShellItem) (reply : Text)
      → or_text (status_of json block) (codes "completed") ≡ codes "completed"
      → (judge_completed json policy block shell reply).0 ≡ completed
      → (judge_completed json policy block shell reply ≡ (completed, reply))
        × IsAccepted policy shell block
  unfolding judge_completed
  completed-IsAccepted policy block shell reply s h =
      let lacks =
        policy.require_blockers_section && not (is_non_empty_list json (codes "evidence") block) in
      let reports = is_non_empty_list json (codes "failed_commands") block in
      let open_commands =
        policy.enforce_shell_success && not (is_empty (unresolved_failed_commands shell)) in
      let passed = three-passed lacks reports open_commands _ _ _ reply h in
      (
        rw (passed.0, passed.1, passed.2) refl,
        record {
          status = s;
          evidence = λ k. ground (arith, passed.0, k);
          no_failed = passed.1;
          resolved =
              λ k. empty_list (unresolved_failed_commands shell) (ground (arith, passed.2, k));
        },
      )

  accepted-completed :
      (policy : RetryPolicy) (block : Dict Text J) (shell : List ShellItem) (reply : Text)
      → IsAccepted policy shell block
      → judge_completed json policy block shell reply ≡ (completed, reply)
  unfolding judge_completed
  accepted-completed policy block shell reply h =
      let evidence = h.evidence in
      let resolved = λ (k : policy.enforce_shell_success ≡ true). ap is_empty (h.resolved k) in
      ground (arith, evidence, h.no_failed, resolved)

  block-IsAccepted :
      (policy : RetryPolicy) (block : Dict Text J) (shell : List ShellItem) (reply : Text)
      → (judge_block json policy block shell reply).0 ≡ completed
      → (judge_block json policy block shell reply ≡ (completed, reply))
        × IsAccepted policy shell block
  unfolding judge_block
  block-IsAccepted policy block shell reply h =
      let status = or_text (status_of json block) (codes "completed") in
      elim (Bool-cases (status == codes "blocked")) [
        | inl e ↦
            absurd (cc (rw e at h, blocked-failed policy.require_blockers_section block reply))
        | inr e ↦ elim (Bool-cases (status == codes "completed")) [
          | inl f ↦
              rw (e, f)
                (completed-IsAccepted policy block shell reply
                  ((==_iff status (codes "completed")).0 f) (rw (e, f) at h))
          | inr f ↦ absurd (cc (rw (e, f) at h))
        ]
      ]

  -- Whether neither a block nor the shell's telemetry is asked for.
  abbrev pub is_waived : Team → RetryPolicy → Bool
  is_waived team policy =
      not policy.enforce_shell_success
      && (not (policy.fail_on_defer || policy.require_blockers_section) || is_structured team)

  -- When a reply counts as completed: it is not blank, and either nothing is asked of it, or its
  -- block is accepted, or it has none, needs none, and the shell's telemetry is in order.
  pub data Passes (team : Team) (policy : RetryPolicy) (shell : List ShellItem) (reply : Text)
      : Type 0 where
    waived :
        is_empty (strip reply) ≡ false
        → is_waived team policy ≡ true
        → Passes team policy shell reply
    no_block :
        is_empty (strip reply) ≡ false
        → is_waived team policy ≡ false
        → parse_team_result_block json (strip reply) ≡ none
        → policy.fail_on_defer || policy.require_blockers_section ≡ false
        → IsAccepted policy shell []
        → Passes team policy shell reply
    by_block :
        (block : Dict Text J)
        → is_empty (strip reply) ≡ false
        → is_waived team policy ≡ false
        → parse_team_result_block json (strip reply) ≡ some block
        → IsAccepted policy shell block
        → Passes team policy shell reply

  apply-waived :
      (team : Team) (policy : RetryPolicy) (shell : List ShellItem) (reply : Text)
      → is_empty (strip reply) ≡ false
      → is_waived team policy ≡ true
      → apply_completion_policy json team policy shell reply ≡ (completed, reply)
  unfolding apply_completion_policy
  apply-waived team policy shell reply e w = ground arith

  abbrev block_verdict : Team → RetryPolicy → List ShellItem → Text → Option (Dict Text J) → Judged
  block_verdict team policy shell reply parsed = elim parsed [
    | none ↦
        if policy.fail_on_defer || policy.require_blockers_section
        then refuse json (codes "Missing required ```team_result``` block in final reply.")
        else judge_block json policy [] shell reply
    | some block ↦ judge_block json policy block shell reply
  ]

  apply-block :
      (team : Team) (policy : RetryPolicy) (shell : List ShellItem) (reply : Text)
      → is_empty (strip reply) ≡ false
      → is_waived team policy ≡ false
      → apply_completion_policy json team policy shell reply
        ≡ block_verdict team policy shell reply (parse_team_result_block json (strip reply))
  unfolding apply_completion_policy
  apply-block team policy shell reply e w = ground arith

  accepted-block :
      (policy : RetryPolicy) (block : Dict Text J) (shell : List ShellItem) (reply : Text)
      → IsAccepted policy shell block
      → judge_block json policy block shell reply ≡ (completed, reply)
  unfolding judge_block text_beq
  accepted-block policy block shell reply h =
      rw h.status (accepted-completed policy block shell reply h)

  blank-failed :
      (team : Team) (policy : RetryPolicy) (shell : List ShellItem) (reply : Text)
      → is_empty (strip reply) ≡ true
      → (apply_completion_policy json team policy shell reply).0 ≡ failed
  unfolding apply_completion_policy
  blank-failed team policy shell reply e = rw e refl

  verdict-Passes :
      (team : Team) (policy : RetryPolicy) (shell : List ShellItem) (reply : Text)
      (parsed : Option (Dict Text J))
      → is_empty (strip reply) ≡ false
      → is_waived team policy ≡ false
      → parse_team_result_block json (strip reply) ≡ parsed
      → (block_verdict team policy shell reply parsed).0 ≡ completed
      → (block_verdict team policy shell reply parsed ≡ (completed, reply))
        × Passes team policy shell reply
  verdict-Passes team policy shell reply (some block) e w p h =
      let accepted = block-IsAccepted policy block shell reply h in
      (accepted.0, by_block block e w p accepted.1)
  verdict-Passes team policy shell reply none e w p h =
      elim (Bool-cases (policy.fail_on_defer || policy.require_blockers_section)) [
        | inl n ↦ absurd (cc (rw n at h))
        | inr n ↦
            let accepted = block-IsAccepted policy [] shell reply (rw n at h) in
            rw n (accepted.0, no_block e w p n accepted.1)
      ]

  -- A reply counts as completed exactly when it passes, and it is then returned as it is. With a
  -- required block that means: the block's status is "completed" or empty, its evidence is not
  -- empty where sections are required, it reports no failed command, and where the success of the
  -- shell is enforced no command is unresolved.
  pub apply_completion_policy-Passes :
      (team : Team) (policy : RetryPolicy) (shell : List ShellItem) (reply : Text)
      → ((apply_completion_policy json team policy shell reply).0 ≡ completed
          → (apply_completion_policy json team policy shell reply ≡ (completed, reply))
            × Passes team policy shell reply)
        × (Passes team policy shell reply
            → apply_completion_policy json team policy shell reply ≡ (completed, reply))
  apply_completion_policy-Passes team policy shell reply = (forth, back)
    where
      forth :
          (apply_completion_policy json team policy shell reply).0 ≡ completed
          → (apply_completion_policy json team policy shell reply ≡ (completed, reply))
            × Passes team policy shell reply
      forth h = elim (Bool-cases (is_empty (strip reply))) [
        | inl e ↦ absurd (cc (h, blank-failed team policy shell reply e))
        | inr e ↦ elim (Bool-cases (is_waived team policy)) [
          | inl w ↦ (apply-waived team policy shell reply e w, waived e w)
          | inr w ↦
              let opened = apply-block team policy shell reply e w in
              let found =
                verdict-Passes team policy shell reply _ e w refl
                  (sym (ap (λ v. v.0) opened) ∙ h) in
              (opened ∙ found.0, found.1)
        ]
      ]

      back :
          Passes team policy shell reply
          → apply_completion_policy json team policy shell reply ≡ (completed, reply)
      back (waived e w) = apply-waived team policy shell reply e w
      back (no_block e w p n h) =
          apply-block team policy shell reply e w
          ∙ rw p (rw n (accepted-block policy [] shell reply h))
      back (by_block block e w p h) =
          apply-block team policy shell reply e w ∙ rw p (accepted-block policy block shell reply h)
