-- ===== src/Policy/Rules/Filter.antt =====
-- ufoundry/policy/rules.py: which tools `filter_tools_for_context` keeps.
use ufoundry.Base.{
  ◌≡◌, refl, ◌≢◌, ◌↔◌, inl, inr, Bool, true, false, List, [], ◌∷◌, ◌==◌, ◌&&◌, ◌||◌, Text, codes,
  text_eq, ==_iff, Bool-cases, In,
}
use ufoundry.Policy.Rules.{RuleContext, CompiledRule, decide_tool, drops, filter_tools_for_context}

-- The tool's effect lets it pass.
abbrev pub Passes : List CompiledRule → RuleContext → Bool → Text → Type 0
Passes rules context drop_confirm_required name =
    ((decide_tool rules name context).effect ≢ codes "deny")
    × (drop_confirm_required ≡ true
        → (decide_tool rules name context).effect ≢ codes "require_confirmation")

-- Two tests, the second under a flag, both fail.
both_fail :
    {P Q : Type 0} (a d b : Bool)
    → (a ≡ true) ↔ P
    → (b ≡ true) ↔ Q
    → ((a || d && b) ≡ false) ↔ (¬ P × (d ≡ true → ¬ Q))
both_fail true d b p q = (λ h. cc, λ k. absurd (k.0 (p.0 refl)))
both_fail false false b p q = (λ h. (λ x. cc (p.1 x), λ e. cc), λ k. refl)
both_fail false true true p q = (λ h. cc, λ k. absurd (k.1 refl (q.0 refl)))
both_fail false true false p q = (λ h. (λ x. cc (p.1 x), λ e x. cc (q.1 x)), λ k. refl)

drops_cases :
    (rules : List CompiledRule) (context : RuleContext) (d : Bool) (name : Text)
    → (drops rules context d name ≡ false) ↔ Passes rules context d name
unfolding drops
drops_cases rules context d name =
    let effect = (decide_tool rules name context).effect in
    both_fail (effect == codes "deny") d (effect == codes "require_confirmation")
      (==_iff effect (codes "deny")) (==_iff effect (codes "require_confirmation"))

-- A tool is kept exactly if it is given, its effect is not "deny", and, where the caller drops
-- what wants a confirmation, not "require_confirmation" either.
pub filter_tools_for_context-In :
    (rules : List CompiledRule) (context : RuleContext) (d : Bool) (names : List Text) (name : Text)
    → In name (filter_tools_for_context rules names context d)
      ↔ (In name names × Passes rules context d name)
unfolding filter_tools_for_context
filter_tools_for_context-In rules context d [] name = (λ m. absurd m, λ m. absurd m.0)
filter_tools_for_context-In rules context d (n ∷ names) name =
    let ih = filter_tools_for_context-In rules context d names name in
    elim (Bool-cases (drops rules context d n)) [
      | inl gone ↦ rw gone (
        λ m. (inr (ih.0 m).0, (ih.0 m).1),
        λ (m, p). elim m [
          | inl e ↦ cc ((drops_cases rules context d name).1 p)
          | inr later ↦ ih.1 (later, p)
        ],
      )
      | inr kept ↦ rw kept (
        λ m. elim m [
          | inl e ↦ (inl e, (drops_cases rules context d name).0 (rw e kept))
          | inr later ↦ (inr (ih.0 later).0, (ih.0 later).1)
        ],
        λ (m, p). elim m [ inl e ↦ inl e | inr later ↦ inr (ih.1 (later, p)) ],
      )
    ]
