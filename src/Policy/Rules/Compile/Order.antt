-- ===== src/Policy/Rules/Compile/Order.antt =====
-- ufoundry/policy/rules.py: the order in which compiled rules run.
use ufoundry.Base.{
  ◌≡◌, Bool, true, ◌&&◌, List, arith, IsSorted, leb_ℤ-trans, leb_ℤ-total, sort_by-IsSorted,
  filter-sort_by, filter, leb_ℤ, ℤ,
}
use ufoundry.Policy.Rules.{CompiledRule}
use ufoundry.Policy.Rules.Compile.{RuleConfig, runs_before, compile_each, compile_rules}

pub compile_rules-IsSorted : (raw : List RuleConfig) → IsSorted runs_before (compile_rules raw)
unfolding compile_rules
compile_rules-IsSorted raw =
    sort_by-IsSorted runs_before (λ r s t. leb_ℤ-trans r.priority s.priority t.priority)
      (λ r s. leb_ℤ-total r.priority s.priority) (compile_each 0 raw)

abbrev pub has_priority : ℤ → CompiledRule → Bool
has_priority p r = leb_ℤ r.priority p && leb_ℤ p r.priority

-- The compiled rules are sorted by ascending priority, and the rules of each priority stand in
-- the order in which they are declared.
pub compile_rules_order :
    (raw : List RuleConfig)
    → IsSorted runs_before (compile_rules raw)
      × ((p : ℤ)
          → filter (has_priority p) (compile_rules raw)
            ≡ filter (has_priority p) (compile_each 0 raw))
unfolding compile_rules
compile_rules_order raw = (
  compile_rules-IsSorted raw,
  λ p.
      filter-sort_by runs_before (has_priority p) (λ r s h k. tied r.priority s.priority p h k)
        (compile_each 0 raw),
)
  where
    tied :
        (a b p : ℤ)
        → (leb_ℤ a p && leb_ℤ p a) ≡ true
        → (leb_ℤ b p && leb_ℤ p b) ≡ true
        → leb_ℤ a b ≡ true
    tied a b p h k = ground arith
