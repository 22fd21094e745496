-- ===== src/Base/Glob.antt =====
-- Python's `fnmatch.fnmatch` on POSIX, where `normcase` changes nothing: `*`, `?`, `[seq]`,
-- `[!seq]` with ranges, and an unclosed `[` that stands for itself.
use Prim.Native.Nat.{ℕ, zero, suc}
use mathlib.Core.Bool.{Bool, true, false, not, ◌&&◌, ◌||◌}
use mathlib.Core.Option.{Option, none, some}
use mathlib.Core.List.{List, [], ◌∷◌}
use mathlib.Core.Path.{◌≡◌, refl}
use ufoundry.Base.Tests.{leb, eqb, if◌then◌else◌}
use ufoundry.Base.Texts.{Text, codes}

pub data Piece : Type 0 where
  star question : Piece
  letter : ℕ → Piece
  set : Bool → Text → Piece

-- The text up to the first `]`, and what follows it.
until_bracket : Text → Option (Text × Text)
until_bracket [] = none
until_bracket (c ∷ s) =
    let rest = until_bracket s in
    if eqb c b']'
    then some ([], s)
    else elim rest [ none ↦ none | some (inside, after) ↦ some (c ∷ inside, after) ]

-- A `]` that stands first in a set belongs to it.
set_body : Text → Option (Text × Text)
unfolding until_bracket
set_body [] = none
set_body (c ∷ s) =
    if eqb c b']'
    then (elim (until_bracket s) [ none ↦ none | some (inside, after) ↦ some (c ∷ inside, after) ])
    else until_bracket (c ∷ s)

read_set : Text → Option (Piece × Text)
unfolding set_body
read_set [] = none
read_set (c ∷ s) =
    if eqb c b'!'
    then (elim (set_body s) [ none ↦ none | some (inside, after) ↦ some (set true inside, after) ])
    else elim (set_body (c ∷ s)) [
      | none ↦ none
      | some (inside, after) ↦ some (set false inside, after)
    ]

-- The fuel is the pattern's length: each step reads one character at least.
pieces : ℕ → Text → List Piece
unfolding read_set
pieces zero s = []
pieces (suc n) [] = []
pieces (suc n) (c ∷ s) =
    let rest = pieces n s in
    let in_set : List Piece = elim (read_set s) [
      | none ↦ letter c ∷ rest
      | some (p, after) ↦ p ∷ pieces n after
    ] in
    if eqb c b'*'
    then star ∷ rest
    else if eqb c b'?'
    then question ∷ rest
    else if eqb c b'['
    then in_set
    else letter c ∷ rest

in_ranges : ℕ → Text → Bool
in_ranges c [] = false
in_ranges c (a ∷ []) = eqb c a
in_ranges c (a ∷ d ∷ []) = eqb c a || eqb c d
in_ranges c (a ∷ d ∷ b ∷ s) =
    let span = leb a c && leb c b || in_ranges c s in
    let single = eqb c a || in_ranges c (d ∷ b ∷ s) in if eqb d b'-' then span else single

-- Some suffix of the text passes.
some_suffix : (Text → Bool) → Text → Bool
some_suffix p [] = p []
some_suffix p (c ∷ s) = p (c ∷ s) || some_suffix p s

matches : List Piece → Text → Bool
unfolding some_suffix in_ranges
matches [] [] = true
matches [] (c ∷ s) = false
matches (star ∷ ps) s = some_suffix (matches ps) s
matches (question ∷ ps) [] = false
matches (question ∷ ps) (c ∷ s) = matches ps s
matches (letter a ∷ ps) [] = false
matches (letter a ∷ ps) (c ∷ s) = eqb a c && matches ps s
matches (set negated inside ∷ ps) [] = false
matches (set negated inside ∷ ps) (c ∷ s) =
    (if negated then not (in_ranges c inside) else in_ranges c inside) && matches ps s

pattern_length : Text → ℕ
pattern_length [] = 0
pattern_length (c ∷ s) = suc (pattern_length s)

-- fnmatch.fnmatch(name, pattern)
unfoldable pub fnmatch : Text → Text → Bool
unfolding pieces matches pattern_length
fnmatch name pattern' = matches (pieces (pattern_length pattern') pattern') name

shell_glob :
    (fnmatch (codes "shell.run") (codes "shell.*") ≡ true)
    × (fnmatch (codes "gmail.send") (codes "shell.*") ≡ false)
    × (fnmatch (codes "a7") (codes "[!b-z][0-9]") ≡ true)
    × (fnmatch (codes "a[") (codes "?[") ≡ true)
unfolding fnmatch
shell_glob = (refl, refl, refl, refl)

pub fnmatch_star : (s : Text) → fnmatch s (codes "*") ≡ true
unfolding fnmatch
fnmatch_star s = suffixes s
  where
    suffixes : (t : Text) → some_suffix (matches []) t ≡ true
    suffixes [] = refl
    suffixes (c ∷ t) = suffixes t
