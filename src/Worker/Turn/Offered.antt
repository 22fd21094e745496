-- ===== src/Worker/Turn/Offered.antt =====
-- ufoundry/worker.py, `_process_message`: which tools a message may use.
use ufoundry.Base.{
  ◌≡◌, ◌≢◌, refl, Bool, true, false, not, ◌&&◌, Bool-cases, inl, inr, List, [], ◌∷◌, Text, text_eq,
  ◌==◌, ==_iff, codes, contains, contains_iff, In, if◌then◌else◌, arith, filter-In,
}
use ufoundry.Policy.Rules.{RuleContext, CompiledRule, decide_tool}
use ufoundry.Policy.Rules.Filter.{Passes, filter_tools_for_context-In}
use ufoundry.Worker.Gate.Guards.{Flow, Settings, tool_context, is_gmail_listener_flow}
use ufoundry.Worker.Turn.{without_search, under_rules, offered_tools}

without_search-In :
    (flow : Flow) (names : List Text) (name : Text)
    → In name (without_search flow names)
    → In name names × (flow.explicit ≡ false → name ≢ codes "gmail.search")
unfolding without_search
without_search-In flow names name m =
    elim (Bool-cases (contains names (codes "gmail.search") && not flow.explicit)) [
      | inl e ↦
          let (given, other) =
            filter-In (λ n. not (n == codes "gmail.search")) names name (rw e at m) in
          (given, λ _ same. ground (arith, other, (==_iff name (codes "gmail.search")).1 same))
      | inr e ↦
          let given : In name names = rw e at m in
          (given, λ x same. ground (arith, e, x, (contains_iff names name).1 given))
    ]

under_rules-In :
    (rules : List CompiledRule) (context : RuleContext) (d : Bool) (names : List Text) (name : Text)
    → In name (under_rules rules context d names)
    → In name names × Passes rules context d name
unfolding under_rules decide_tool
under_rules-In [] context d names name m = (m, (λ e. cc e, λ _ e. cc e))
under_rules-In (r ∷ rules) context d names name m =
    (filter_tools_for_context-In (r ∷ rules) context d names name).0 m

listed-In :
    {A : Type 0} (b : Bool) (names : List A) (a : A)
    → In a (if b then [] else names)
    → In a names × (b ≡ false)
listed-In true names a m = absurd m
listed-In false names a m = (m, refl)

module _ {S H : Type 0} (set : Settings S H) (flow : Flow) (using_orchestrator : Bool) where
  -- A tool that is offered was given, the flow is no listener's Gmail flow, it is not
  -- `gmail.search` unless an admin asked for that, and the declarative rules do not drop it: they do
  -- not deny it, nor, where the orchestrator runs, hold it for confirmation.
  pub offered_tools-In :
      (names : List Text) (name : Text)
      → In name (offered_tools set flow using_orchestrator names)
      → In name names
        × (is_gmail_listener_flow flow ≡ false)
        × (flow.explicit ≡ false → name ≢ codes "gmail.search")
        × Passes set.rules (tool_context flow) using_orchestrator name
  unfolding offered_tools
  offered_tools-In names name m =
      let (searched, passes) =
        under_rules-In set.rules (tool_context flow) using_orchestrator
          (without_search flow (if is_gmail_listener_flow flow then [] else names)) name m in
      let (listed, asked) =
        without_search-In flow (if is_gmail_listener_flow flow then [] else names) name searched in
      let (given, other) = listed-In (is_gmail_listener_flow flow) names name listed in
      (given, other, asked, passes)
