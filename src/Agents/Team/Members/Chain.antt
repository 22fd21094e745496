-- ===== src/Agents/Team/Members/Chain.antt =====
-- ufoundry/agents/team_executor.py, `_run_structured_team`: the checkpoints of a chain.
use ufoundry.Base.{
  ℕ, zero, suc, ◌+◌, ◌≡◌, refl, sym, ◌∙◌, ◌⊎◌, inl, inr, Bool, true, false, Option, none, some,
  List, [], ◌∷◌, ◌++◌, Text, codes, decimal, is_empty, strip, or_text, append_assoc, append-nil,
  Bool-cases,
}
use ufoundry.Agents.Agent.{AgentRunResult}
use ufoundry.Agents.Team.Members.{
  Member, TeamEnd, finished, member_failed, crashed, role_of, run_chain,
}

-- The keys of `n` members from the one at `idx`.
abbrev pub chain_keys : ℕ → ℕ → List Text
chain_keys idx zero = []
chain_keys idx (suc n) = (codes "chain:" ++ decimal (idx + 1)) ∷ chain_keys (idx + 1) n

abbrev pub checkpoints_of : {F : Type 0} → TeamEnd F → List Text
checkpoints_of (finished text attachments checkpoints) = checkpoints
checkpoints_of (member_failed role text checkpoints) = checkpoints
checkpoints_of (crashed text checkpoints) = checkpoints

-- The reply of a chain whose members all ran.
abbrev pub last_content : Option Text → Text
last_content none = codes "No result generated by team members."
last_content (some text) = text

module _ {F : Type 0} (run_member : ℕ → Member → Text → Text ⊎ AgentRunResult F)
    (verify : Member → Text → Bool × Text) where
  abbrev pub command_of : Member → Text
  command_of member = strip member.verification_command

  -- The member gives a result that is no failure, and its verification command, if it has one,
  -- accepts it.
  abbrev pub Succeeds : ℕ → Member → Text → AgentRunResult F → Type 0
  Succeeds idx member context result =
      (run_member idx member context ≡ inr result)
      × (result.failed ≡ false)
      × ((is_empty (command_of member) ≡ true) ⊎ ((verify member (command_of member)).0 ≡ true))

  -- What of a member that does not succeed ends the chain, and how: its exception, its failure, or
  -- the verification command that refutes it.
  abbrev pub StopsAt : ℕ → Member → Text → TeamEnd F → Type 0
  StopsAt idx member context e =
      ((exc : Text) × (run_member idx member context ≡ inl exc)
        × (e ≡ crashed exc (checkpoints_of e)))
      ⊎ ((result : AgentRunResult F) × (run_member idx member context ≡ inr result)
          × (((result.failed ≡ true)
                × (e ≡ member_failed (role_of idx member) result.content (checkpoints_of e)))
              ⊎ ((is_empty (command_of member) ≡ false)
                  × ((verify member (command_of member)).0 ≡ false)
                  × ((text : Text) × (e
                        ≡ member_failed (role_of idx member) text (checkpoints_of e))))))

  -- The first `n` members succeed, each on the last content that is not empty, and the next one
  -- stops the chain; if there is none the chain finishes with the last content.
  abbrev pub PassedTo : ℕ → ℕ → List Member → Text → Option Text → TeamEnd F → Type 0
  PassedTo zero idx [] context reply e =
      (attachments : List F) × (e ≡ finished (last_content reply) attachments (checkpoints_of e))
  PassedTo zero idx (member ∷ members) context reply e = StopsAt idx member context e
  PassedTo (suc n) idx [] context reply e = ⊥
  PassedTo (suc n) idx (member ∷ members) context reply e =
      (result : AgentRunResult F) × Succeeds idx member context result
      × PassedTo n (idx + 1) members (or_text result.content context) (some result.content) e

  -- The members up to some one have succeeded and have a checkpoint each.
  pub record IsPrefix (idx : ℕ) (members : List Member) (context : Text) (reply : Option Text)
      (before : List Text) (e : TeamEnd F) : Type 0 where
    pub done : ℕ
    pub keys : checkpoints_of e ≡ before ++ chain_keys idx done
    pub passed : PassedTo done idx members context reply e

  stopped :
      (idx : ℕ) (member : Member) (members : List Member) (context : Text) (reply : Option Text)
      (before : List Text) (e : TeamEnd F)
      → checkpoints_of e ≡ before
      → StopsAt idx member context e
      → IsPrefix idx (member ∷ members) context reply before e
  stopped idx member members context reply before e kept stops = record {
    done = 0;
    keys = kept ∙ sym (append-nil before);
    passed = stops;
  }

  one_more :
      (idx : ℕ) (member : Member) (members : List Member) (context : Text) (reply : Option Text)
      (before : List Text) (e : TeamEnd F) (result : AgentRunResult F)
      → Succeeds idx member context result
      → IsPrefix
          (idx + 1)
          members
          (or_text result.content context)
          (some result.content)
          (before ++ ((codes "chain:" ++ decimal (idx + 1)) ∷ []))
          e
      → IsPrefix idx (member ∷ members) context reply before e
  one_more idx member members context reply before e result succeeds p = record {
    done = suc p.done;
    keys =
        p.keys
        ∙ append_assoc before ((codes "chain:" ++ decimal (idx + 1)) ∷ [])
            (chain_keys (idx + 1) p.done);
    passed = (result, succeeds, p.passed);
  }

  step :
      (idx : ℕ) (member : Member) (members : List Member) (context : Text) (reply : Option Text)
      (attachments : List F) (before : List Text)
      → ((context : Text) (reply : Option Text) (attachments : List F) (before : List Text)
          → IsPrefix
              (idx + 1)
              members
              context
              reply
              before
              (run_chain run_member verify (idx + 1) members context reply attachments before))
      → (r : Text ⊎ AgentRunResult F) → run_member idx member context ≡ r
      → IsPrefix idx
          (member ∷ members)
          context
          reply
          before
          (run_chain run_member verify idx (member ∷ members) context reply attachments before)
  unfolding run_chain
  step idx member members context reply attachments before ih (inl exc) ran =
      rw (ran, run_chain)
        (stopped idx member members context reply before _ refl (inl (exc, ran, refl)))
  step idx member members context reply attachments before ih (inr result) ran =
      elim (Bool-cases result.failed) [
        | inl f ↦
            rw (ran, run_chain)
              (rw f (
                stopped idx member members context reply before _ refl
                  (inr (result, ran, inl (f, refl)))))
        | inr f ↦ elim (Bool-cases (is_empty (command_of member))) [
          | inl none_given ↦
              rw (ran, run_chain)
                (rw (f, none_given)
                  (one_more idx member members context reply before _ result
                    (ran, f, inl none_given) (ih _ _ _ _)))
          | inr given ↦ elim (Bool-cases (verify member (command_of member)).0) [
            | inl accepts ↦
                rw (ran, run_chain)
                  (rw (f, given, accepts)
                    (one_more idx member members context reply before _ result (ran, f, inr accepts)
                      (ih _ _ _ _)))
            | inr refutes ↦
                rw (ran, run_chain)
                  (rw (f, given, refutes)
                    (stopped idx member members context reply before _ refl
                      (inr (result, ran, inr (given, refutes, (_, refl))))))
          ]
        ]
      ]

  chain-IsPrefix :
      (idx : ℕ) (members : List Member) (context : Text) (reply : Option Text)
      (attachments : List F) (before : List Text)
      → IsPrefix idx members context reply before
          (run_chain run_member verify idx members context reply attachments before)
  unfolding run_chain
  chain-IsPrefix idx [] context none attachments before = record {
    done = 0;
    keys = sym (append-nil before);
    passed = (attachments, refl);
  }
  chain-IsPrefix idx [] context (some text) attachments before = record {
    done = 0;
    keys = sym (append-nil before);
    passed = (attachments, refl);
  }
  chain-IsPrefix idx (member ∷ members) context reply attachments before =
      step idx member members context reply attachments before (chain-IsPrefix (idx + 1) members)
        (run_member idx member context) refl

  -- A chain runs its members in their order, the first on the task and each other one on the last
  -- content before it that is not empty, and writes the checkpoint of each that succeeds: its
  -- result is no failure, and its verification command, if it has one, accepts it. The first that
  -- raises, fails or is refuted ends the chain with its exception or under its role; if there is
  -- none the chain finishes with the last content.
  pub run_chain-IsPrefix :
      (members : List Member) (task : Text)
      → IsPrefix 0 members task none [] (run_chain run_member verify 0 members task none [] [])
  run_chain-IsPrefix members task = chain-IsPrefix 0 members task none [] []
