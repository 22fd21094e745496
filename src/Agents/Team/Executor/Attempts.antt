-- ===== src/Agents/Team/Executor/Attempts.antt =====
-- ufoundry/agents/team_executor.py, the retries of `execute`: how many there are, and what differs
-- from one to the next.
use ufoundry.Base.{
  ℕ, zero, suc, ◌+◌, ◌-◌, ◌≤◌, ◌≡◌, refl, sym, true, false, not, ◌&&◌, ◌||◌, Option, none, some,
  List, [], ◌∷◌, Text, text_eq, if◌then◌else◌, Bool-cases, inl, inr, ◌⊎◌, is_empty, length,
  contains, strip, arith,
}
use ufoundry.Agents.Team.Telemetry.{AgentEvent, Telemetry}
use ufoundry.Agents.Team.Contract.{
  Judged, failed, apply_completion_policy, Team, is_structured, effective_retry_policy,
}
use ufoundry.Agents.Team.Executor.{
  note, verified, shell_items, Attempt, raised, replied, Preflight, Outside, Progress, Ended,
  is_completed, work, received, judge, retry, is_repeated, stop, stop_repeated, abort, attempt_loop,
  begin, close, refuse_preflight, execute,
}

module _ {F J : Type 0} (outside : Outside F J) (team : Team) (run_id original_task : Text) where
  -- The verdict on an attempt that replied, with the variables after it.
  abbrev pub judged : Progress F → Text → List F → List AgentEvent → Judged × Progress F
  judged p reply attachments events =
      judge outside team run_id original_task
        (received outside team run_id original_task p attachments events) reply

  -- What is to be shown for `P` to hold of the end of the loop, where `Q` holds of its variables
  -- with the number of retries left.
  pub record Keeps (Q : ℕ → Progress F → Type 0) (P : Ended F → Type 0) : Type 0 where
    pub aborted :
        (n : ℕ) (p : Progress F) (error : Text)
        → Q n p
        → P (abort outside team run_id original_task error p)
    pub stopped :
        (n : ℕ) (p : Progress F) (reply : Text) (attachments : List F) (events : List AgentEvent)
        → Q n p
        → P (stop outside team run_id original_task (judged p reply attachments events))
    pub repeated :
        (n : ℕ) (p : Progress F) (reply : Text) (attachments : List F) (events : List AgentEvent)
        → Q n p
        → P (stop_repeated outside team run_id original_task (judged p reply attachments events).1)
    pub again :
        (n : ℕ) (p : Progress F) (reply : Text) (attachments : List F) (events : List AgentEvent)
        → is_structured team ≡ false
        → is_repeated outside team run_id original_task
            (judged p reply attachments events).1
            (judged p reply attachments events).0.1
          ≡ false
        → Q (suc n) p
        → Q n (
            retry outside team run_id original_task
              (judged p reply attachments events).1
              (judged p reply attachments events).0.1)

  module _ (Q : ℕ → Progress F → Type 0) (P : Ended F → Type 0) (keeps : Keeps Q P) where
    last_turn :
        (p : Progress F)
        → Q 0 p
        → (w : Attempt F) → work outside team run_id original_task p ≡ w
        → P (attempt_loop outside team run_id original_task 0 p)
    unfolding attempt_loop
    last_turn p q (raised error) e = rw (e, attempt_loop) (keeps.aborted 0 p error q)
    last_turn p q (replied reply attachments events) e =
        rw (e, attempt_loop) (keeps.stopped 0 p reply attachments events q)

    turn :
        (left : ℕ) (p : Progress F)
        → Q (suc left) p
        → ((t : Progress F) → Q left t → P (attempt_loop outside team run_id original_task left t))
        → (w : Attempt F) → work outside team run_id original_task p ≡ w
        → P (attempt_loop outside team run_id original_task (suc left) p)
    unfolding attempt_loop
    turn left p q ih (raised error) e = rw (e, attempt_loop) (keeps.aborted (suc left) p error q)
    turn left p q ih (replied reply attachments events) e =
        let j = judged p reply attachments events in
        elim (Bool-cases (is_completed j.0.0 || is_structured team)) [
          | inl done ↦
              rw (e, attempt_loop) (rw done (keeps.stopped (suc left) p reply attachments events q))
          | inr more ↦ elim (Bool-cases (is_repeated outside team run_id original_task j.1 j.0.1)) [
            | inl same ↦
                rw (e, attempt_loop)
                  (rw (more, same) (keeps.repeated (suc left) p reply attachments events q))
            | inr new ↦
                rw (e, attempt_loop)
                  (rw (more, new)
                    (ih _
                      (keeps.again left p reply attachments events (ground (arith, more)) new q)))
          ]
        ]

    pub loop-induction :
        (left : ℕ) (p : Progress F)
        → Q left p
        → P (attempt_loop outside team run_id original_task left p)
    unfolding attempt_loop
    loop-induction zero p q = last_turn p q (work outside team run_id original_task p) refl
    loop-induction (suc left) p q =
        turn left p q (loop-induction left) (work outside team run_id original_task p) refl

  -- The verdict of the completion policy.
  abbrev pub verdict : Progress F → Text → Judged
  verdict p reply =
      apply_completion_policy outside.json team (effective_retry_policy team)
        (shell_items outside team run_id original_task p) reply

  abbrev pub command : Text
  command = strip team.verification_command

  pub judge-elim :
      (R : Judged × Progress F → Type 0) (p : Progress F) (reply : Text)
      → ((is_completed (verdict p reply).0 ≡ false) ⊎ (is_empty command ≡ true)
          → R (verdict p reply, p))
      → ((outside.verify p.attempt command).0 ≡ true
          → R (verdict p reply, note (verified command (outside.verify p.attempt command).0) p))
      → ((text : Text)
          → R ((failed, text), note (verified command (outside.verify p.attempt command).0) p))
      → R (judge outside team run_id original_task p reply)
  unfolding judge
  judge-elim R p reply unverified passed refuted =
      let is_verified = is_completed (verdict p reply).0 && not (is_empty command) in
      elim (Bool-cases is_verified) [
        | inr e ↦ rw e (unverified (ground (arith, e)))
        | inl e ↦ elim (Bool-cases (outside.verify p.attempt command).0) [
          | inl ok ↦ rw e (rw (ok, if◌then◌else◌) (rw (sym ok) (passed ok)))
          | inr bad ↦ rw e (rw (bad, if◌then◌else◌) (rw (sym bad) (refuted _)))
        ]
      ]

  -- Judging an attempt keeps its number and the fingerprints.
  pub record IsJudged (p q : Progress F) : Type 0 where
    pub attempt : q.attempt ≡ p.attempt
    pub seen : q.seen ≡ p.seen

  judged-IsJudged :
      (p : Progress F) (reply : Text) (attachments : List F) (events : List AgentEvent)
      → IsJudged p (judged p reply attachments events).1
  unfolding received
  judged-IsJudged p reply attachments events =
      judge-elim (λ j. IsJudged p j.1)
        (received outside team run_id original_task p attachments events) reply
        (λ _. record { attempt = refl; seen = refl }) (λ _. record { attempt = refl; seen = refl })
        (λ _. record { attempt = refl; seen = refl })

-- No text occurs twice.
abbrev pub NoRepeats : List Text → Type 0
NoRepeats [] = Unit
NoRepeats (t ∷ texts) = (contains texts t ≡ false) × NoRepeats texts

-- The attempts made with at most `bound` retries: each retry had a fingerprint of its own, and a
-- structured team has none.
pub record IsBounded {F : Type 0} (team : Team) (bound : ℕ) (p : Progress F) : Type 0 where
  pub retries : p.attempt ≤ bound
  pub fingerprints : length p.seen ≡ p.attempt
  pub distinct : NoRepeats p.seen
  pub once : is_structured team ≡ true → p.attempt ≡ 0

module _ {F J : Type 0} (outside : Outside F J) (team : Team) (run_id original_task : Text) where
  IsBounded-judged :
      (bound : ℕ) (p q : Progress F)
      → IsJudged outside team run_id original_task p q
      → IsBounded team bound p
      → IsBounded team bound q
  IsBounded-judged bound p q j b = record {
    retries = rw j.attempt b.retries;
    fingerprints = rw (j.attempt, j.seen) b.fingerprints;
    distinct = rw j.seen b.distinct;
    once = rw j.attempt b.once;
  }

  widen : (m bound : ℕ) (p : Progress F) → m ≤ bound → IsBounded team m p → IsBounded team bound p
  widen m bound p h b = record {
    retries = omega (arith, b.retries, h);
    fingerprints = b.fingerprints;
    distinct = b.distinct;
    once = b.once;
  }

  retried-IsBounded :
      (m : ℕ) (p : Progress F) (reply : Text)
      → is_structured team ≡ false
      → is_repeated outside team run_id original_task p reply ≡ false
      → IsBounded team m p
      → IsBounded team (m + 1) (retry outside team run_id original_task p reply)
  unfolding retry is_repeated
  retried-IsBounded m p reply s r b = record {
    retries = omega (arith, b.retries);
    fingerprints = omega (arith, b.fingerprints);
    distinct = (r, b.distinct);
    once = λ h. cc;
  }

  keeps-IsBounded :
      (bound : ℕ)
      → Keeps outside team run_id original_task
          (λ n p. IsBounded team (bound - n) p × (n ≤ bound))
          (λ e. IsBounded team bound e.last)
  unfolding stop stop_repeated abort
  keeps-IsBounded bound =
      let kept = judged-IsJudged outside team run_id original_task in
      record {
        aborted = λ n p error q. widen (bound - n) bound p (omega arith) q.0;
        stopped = λ n p reply attachments events q.
            widen (bound - n) bound _ (omega arith)
              (IsBounded-judged (bound - n) p _ (kept p reply attachments events) q.0);
        repeated = λ n p reply attachments events q.
            widen (bound - n) bound _ (omega arith)
              (IsBounded-judged (bound - n) p _ (kept p reply attachments events) q.0);
        again = λ n p reply attachments events s r q. (
          widen (bound - suc n + 1) (bound - n) _ (omega (arith, q.1)) (
              retried-IsBounded (bound - suc n) _ _ s r
                (IsBounded-judged (bound - suc n) p _ (kept p reply attachments events) q.0)),
          omega (arith, q.1),
        );
      }

  -- A run makes at most as many retries as its policy allows, and none for a chain or a parallel
  -- team. The failures that were retried have fingerprints that differ from each other, one for
  -- each retry.
  pub execute-IsBounded :
      (preflight : Option Preflight) (telemetry : Telemetry)
      → IsBounded team
          (effective_retry_policy team).max_retries
          (execute outside team run_id original_task preflight telemetry).last
  unfolding execute begin close refuse_preflight
  execute-IsBounded preflight telemetry = by_preflight preflight
    where
      bound : ℕ
      bound = (effective_retry_policy team).max_retries

      fresh : (p : Progress F) → p.attempt ≡ 0 → p.seen ≡ [] → IsBounded team (bound - bound) p
      fresh p a s = record {
        retries = omega (arith, a);
        fingerprints = rw (a, s) refl;
        distinct = rw s tt;
        once = λ _. a;
      }

      ran :
          IsBounded team bound
            (attempt_loop outside team run_id original_task bound
              (begin outside team run_id original_task telemetry)).last
      ran =
          loop-induction outside team run_id original_task
            (λ n p. IsBounded team (bound - n) p × (n ≤ bound)) (λ e. IsBounded team bound e.last)
            (keeps-IsBounded bound) bound _ (fresh _ refl refl, omega arith)

      whole : Ended F
      whole =
          attempt_loop outside team run_id original_task bound
            (begin outside team run_id original_task telemetry)

      closed :
          (e : Ended F)
          → IsBounded team bound e.last
          → IsBounded team bound (close outside team run_id original_task e).last
      closed e b = record {
        retries = b.retries;
        fingerprints = b.fingerprints;
        distinct = b.distinct;
        once = b.once;
      }

      by_preflight :
          (o : Option Preflight)
          → IsBounded team bound (execute outside team run_id original_task o telemetry).last
      by_preflight none = closed whole ran
      by_preflight (some report) = elim (Bool-cases report.ok) [
        | inl e ↦ rw e (closed whole ran)
        | inr e ↦
            rw e (record {
              retries = omega arith;
              fingerprints = refl;
              distinct = tt;
              once = λ _. refl;
            })
      ]
