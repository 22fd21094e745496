-- ===== src/Security/Masking.antt =====
-- ufoundry/security/masking.py: `mask_secrets`. The substitution of a pattern is that of Python's
-- `re`; the patterns are given as their substitutions, in the order of `_PATTERNS`.
use ufoundry.Base.{List, [], ◌∷◌, Text}

-- The loop over the patterns.
unfoldable pub mask_each : List (Text → Text) → Text → Text
mask_each [] s = s
mask_each (substitute ∷ patterns) s = mask_each patterns (substitute s)

unfoldable pub mask_secrets : List (Text → Text) → Text → Text
unfolding mask_each
mask_secrets patterns [] = []
mask_secrets patterns (c ∷ s) = mask_each patterns (c ∷ s)
