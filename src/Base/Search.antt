-- ===== src/Base/Search.antt =====
-- More methods of Python's `str`, and what `strip` keeps.
use Prim.Native.Nat.{ℕ, ◌-◌}
use mathlib.Core.Path.{◌≡◌, refl, sym, ap, ◌∙◌}
use mathlib.Core.Option.{Option, none, some}
use mathlib.Core.Bool.{Bool, true, false, ◌&&◌, ◌||◌}
use mathlib.Core.List.{[], ◌∷◌, ◌++◌, map, reverse, reverse-append, reverse-reverse}
use ufoundry.Base.Tests.{eqb, leb, if◌then◌else◌}
use ufoundry.Base.Lists.{All, All-append, is_empty}
use ufoundry.Base.Texts.{Text, is_space, lstrip, strip}

-- s.upper(), on the letters of ASCII; other characters stay
unfoldable pub upper : Text → Text
upper s = map (λ c. if leb 97 c && leb c 122 then c - 32 else c) s

-- s.startswith(t)
unfoldable pub starts_with : Text → Text → Bool
starts_with s [] = true
starts_with [] (d ∷ t) = false
starts_with (c ∷ s) (d ∷ t) = eqb c d && starts_with s t

-- t in s
unfoldable pub is_infix : Text → Text → Bool
unfolding starts_with
is_infix t [] = starts_with [] t
is_infix t (c ∷ s) = starts_with (c ∷ s) t || is_infix t s

-- s.split(" ", 1)[1], empty where there is no space
unfoldable pub after_space : Text → Text
after_space [] = []
after_space (c ∷ s) = let rest = after_space s in if eqb c 32 then s else rest

-- s.split(":", 1), none where there is no colon
unfoldable pub split_colon : Text → Option (Text × Text)
split_colon [] = none
split_colon (c ∷ s) =
    let rest = split_colon s in
    if eqb c 58
    then some ([], s)
    else elim rest [ none ↦ none | some (before, after) ↦ some (c ∷ before, after) ]

-- A text of characters that are no white space.
abbrev pub IsSolid : Text → Type 0
IsSolid s = All (λ c. is_space c ≡ false) s

lstrip-solid : (c : ℕ) (s : Text) → is_space c ≡ false → lstrip (c ∷ s) ≡ c ∷ s
unfolding lstrip
lstrip-solid c s h = rw h

lstrip-append : (s t : Text) → is_empty s ≡ false → IsSolid s → lstrip (s ++ t) ≡ s ++ t
lstrip-append [] t e h = cc
lstrip-append (c ∷ s) t e h = lstrip-solid c (s ++ t) h.0

reverse-IsSolid : (s : Text) → IsSolid s → IsSolid (reverse s)
reverse-IsSolid [] h = tt
reverse-IsSolid (c ∷ s) h =
    rw (reverse-append (c ∷ []) s)
      (All-append (λ c. is_space c ≡ false) (reverse s) (c ∷ []) (reverse-IsSolid s h.1) (h.0, tt))

is_empty-reverse : (s : Text) → is_empty s ≡ false → is_empty (reverse s) ≡ false
is_empty-reverse [] e = cc
is_empty-reverse (c ∷ s) e = rw (reverse-append (c ∷ []) s) (snoc (reverse s))
  where
    snoc : (t : Text) → is_empty (t ++ c ∷ []) ≡ false
    snoc [] = refl
    snoc (d ∷ t) = refl

-- `strip` keeps a text that begins and ends with solid characters.
pub strip-ends :
    (c : ℕ) (s t : Text)
    → is_space c ≡ false
    → is_empty t ≡ false
    → IsSolid t
    → strip (c ∷ (s ++ t)) ≡ c ∷ (s ++ t)
unfolding strip
strip-ends c s t h e k =
    ap (λ u. reverse (lstrip (reverse u))) (lstrip-solid c (s ++ t) h)
    ∙ ap reverse (
        ap lstrip (reverse-append (c ∷ s) t)
        ∙ lstrip-append (reverse t) (reverse (c ∷ s)) (is_empty-reverse t e) (reverse-IsSolid t k)
        ∙ sym (reverse-append (c ∷ s) t))
    ∙ reverse-reverse (c ∷ (s ++ t))

pub strip-solid : (t : Text) → is_empty t ≡ false → IsSolid t → strip t ≡ t
strip-solid [] e k = cc
strip-solid (c ∷ []) e k = strip-one c k.0
  where
    strip-one : (c : ℕ) → is_space c ≡ false → strip (c ∷ []) ≡ c ∷ []
    strip-one c h = unfold strip lstrip in rw h (rw h)
strip-solid (c ∷ d ∷ t) e k = strip-ends c [] (d ∷ t) k.0 refl k.1
