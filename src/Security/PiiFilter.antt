-- ===== src/Security/PiiFilter.antt =====
-- ufoundry/security/pii_filter.py: `filter_pii`. The rules are given as the substitutions of `re`
-- that they stand for, in the order of `_RULES`.
use ufoundry.Base.{List, [], ◌∷◌, Text}

-- The loop over the rules.
unfoldable pub filter_each : List (Text → Text) → Text → Text
filter_each [] s = s
filter_each (substitute ∷ rules) s = filter_each rules (substitute s)

unfoldable pub filter_pii : List (Text → Text) → Text → Text
unfolding filter_each
filter_pii rules [] = []
filter_pii rules (c ∷ s) = filter_each rules (c ∷ s)
