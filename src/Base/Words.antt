-- ===== src/Base/Words.antt =====
-- `s.split()`, and texts that are joined from words.
use Prim.Native.Nat.{ℕ}
use mathlib.Core.Path.{◌≡◌, refl, sym}
use mathlib.Core.Logic.{◌⊎◌, inl, inr}
use mathlib.Core.Bool.{true, false}
use mathlib.Core.List.{List, [], ◌∷◌, ◌++◌, append_assoc}
use native.Mathlib.Omega.{arith}
use ufoundry.Base.Tests.{eqb_iff, Bool-cases, if◌then◌else◌}
use ufoundry.Base.Lists.{All, is_empty}
use ufoundry.Base.Texts.{Text, is_space, join}
use ufoundry.Base.Search.{IsSolid, starts_with}

-- A character that is no space, in front of the words of the text `s` that follows it.
abbrev pub attach : ℕ → Text → List Text → List Text
attach c [] ws = (c ∷ []) ∷ ws
attach c (d ∷ s) [] = (c ∷ []) ∷ []
attach c (d ∷ s) (w ∷ ws) = if is_space d then (c ∷ []) ∷ w ∷ ws else (c ∷ w) ∷ ws

-- s.split()
unfoldable pub split_words : Text → List Text
split_words [] = []
split_words (c ∷ s) = let rest = split_words s in if is_space c then rest else attach c s rest

abbrev pub IsWord : Text → Type 0
IsWord w = (is_empty w ≡ false) × IsSolid w

attach-words :
    (c : ℕ) (s : Text) (ws : List Text)
    → is_space c ≡ false
    → All IsWord ws
    → All IsWord (attach c s ws)
attach-words c [] ws h k = ((refl, (h, tt)), k)
attach-words c (d ∷ s) [] h k = ((refl, (h, tt)), tt)
attach-words c (d ∷ s) (w ∷ ws) h k = elim (Bool-cases (is_space d)) [
  | inl e ↦ rw e ((refl, (h, tt)), k)
  | inr e ↦ rw e ((refl, (h, k.0.1)), k.1)
]

pub split_words-words : (s : Text) → All IsWord (split_words s)
unfolding split_words
split_words-words [] = tt
split_words-words (c ∷ s) = elim (Bool-cases (is_space c)) [
  | inl e ↦ rw e (split_words-words s)
  | inr e ↦ rw e (attach-words c s (split_words s) e (split_words-words s))
]

-- The words, a space after each.
abbrev spaced : List Text → Text
spaced [] = []
spaced (w ∷ ws) = w ++ (32 ∷ spaced ws)

join-spaced : (w : Text) (ws : List Text) → join (32 ∷ []) (w ∷ ws) ++ 32 ∷ [] ≡ spaced (w ∷ ws)
unfolding join
join-spaced w [] = refl
join-spaced w (v ∷ ws) =
    cc (append_assoc w (32 ∷ join (32 ∷ []) (v ∷ ws)) (32 ∷ []), join-spaced v ws)

starts_with_refl : (s : Text) → starts_with s s ≡ true
unfolding starts_with
starts_with_refl [] = refl
starts_with_refl (c ∷ s) = ground (arith, starts_with_refl s, eqb_iff c c)

-- A word that another text starts with is that text's first word.
cut_word :
    (w p r q : Text)
    → IsSolid w
    → IsSolid p
    → starts_with (w ++ 32 ∷ r) (p ++ 32 ∷ q) ≡ true
    → (w ≡ p) × (starts_with r q ≡ true)
unfolding starts_with is_space
cut_word [] [] r q hw hp h = (refl, ground arith)
cut_word [] (d ∷ p) r q hw hp h = absurd (ground arith)
cut_word (c ∷ w) [] r q hw hp h = absurd (ground arith)
cut_word (c ∷ w) (d ∷ p) r q hw hp h =
    let (same, rest) = cut_word w p r q hw.1 hp.1 (ground arith) in
    let first : c ≡ d = ground (arith, eqb_iff c d) in (cc (first, same), rest)

cut_words :
    (ws ps : List Text)
    → All IsWord ws
    → All IsWord ps
    → starts_with (spaced ws) (spaced ps) ≡ true
    → (rest : List Text) × (ws ≡ ps ++ rest)
unfolding starts_with
cut_words ws [] hw hp h = (ws, refl)
cut_words [] ([] ∷ ps) hw hp h = cc h
cut_words [] ((d ∷ p) ∷ ps) hw hp h = cc h
cut_words (w ∷ ws) (p ∷ ps) hw hp h =
    let (same, later) = cut_word w p (spaced ws) (spaced ps) hw.0.1 hp.0.1 h in
    let (rest, e) = cut_words ws ps hw.1 hp.1 later in (rest, cc (same, e))

starts_with-append : (s t u : Text) → starts_with s t ≡ true → starts_with (s ++ u) t ≡ true
unfolding starts_with
starts_with-append s [] u h = refl
starts_with-append [] (d ∷ t) u h = cc h
starts_with-append (c ∷ s) (d ∷ t) u h = ground (arith, starts_with-append s t u)

-- The words `ws`, joined, are the words `ps`, joined, or go on after them and a space.
abbrev pub Continues : List Text → List Text → Type 0
Continues ws ps =
    (join (32 ∷ []) ws ≡ join (32 ∷ []) ps)
    ⊎ (starts_with (join (32 ∷ []) ws) (join (32 ∷ []) ps ++ 32 ∷ []) ≡ true)

Continues-spaced :
    (w p : Text) (ws ps : List Text)
    → Continues (w ∷ ws) (p ∷ ps)
    → starts_with (spaced (w ∷ ws)) (spaced (p ∷ ps)) ≡ true
Continues-spaced w p ws ps h =
    rw (sym (join-spaced w ws), sym (join-spaced p ps))
      (elim h [
        | inl e ↦ rw e (starts_with_refl (join (32 ∷ []) (p ∷ ps) ++ 32 ∷ []))
        | inr e ↦
            starts_with-append (join (32 ∷ []) (w ∷ ws)) (join (32 ∷ []) (p ∷ ps) ++ 32 ∷ [])
              (32 ∷ []) e
      ])

-- Texts that are joined from words compare word by word.
pub Continues-words :
    (ws ps : List Text)
    → All IsWord ws
    → All IsWord ps
    → Continues ws ps
    → (rest : List Text) × (ws ≡ ps ++ rest)
unfolding join starts_with
Continues-words ws [] hw hp h = (ws, refl)
Continues-words [] ([] ∷ ps) hw hp h = cc hp.0.0
Continues-words [] ((c ∷ p) ∷ []) hw hp h = absurd (elim h [ inl e ↦ cc e | inr e ↦ cc e ])
Continues-words [] ((c ∷ p) ∷ q ∷ ps) hw hp h = absurd (elim h [ inl e ↦ cc e | inr e ↦ cc e ])
Continues-words (w ∷ ws) (p ∷ ps) hw hp h =
    cut_words (w ∷ ws) (p ∷ ps) hw hp (Continues-spaced w p ws ps h)
