-- ===== src/Worker/Approval/Shell.antt =====
-- ufoundry/worker.py, `_is_auto_approve_shell_command_allowed`: which commands pass.
use ufoundry.Base.{
  ◌≡◌, refl, true, false, Bool-cases, inl, inr, List, [], ◌∷◌, ◌++◌, Text, text_eq, ◌==◌, ==_iff,
  All, In, is_empty, is_infix, strip, split_words, split_words-words, Continues-words, any, arith,
  map, filter,
}
use ufoundry.Worker.Approval.{
  PolicyConfig, forbidden_tokens, is_given, normalized, prefixes_of, has_prefix,
  is_auto_approve_shell_command_allowed,
}

-- A configured command whose words the words of `command` begin with.
abbrev pub Begins : PolicyConfig → Text → Type 0
Begins cfg command =
    (item : Text) × In item cfg.auto_approve_shell_commands
    × (is_empty (strip item) ≡ false)
    × (rest : List Text) × (split_words command ≡ split_words (strip item) ++ rest)

none_of :
    (tokens : List Text) (s : Text)
    → any (λ token. is_infix token s) tokens ≡ false
    → All (λ token. is_infix token s ≡ false) tokens
none_of [] s h = tt
none_of (t ∷ tokens) s h = (ground arith, none_of tokens s (ground arith))

has_prefix-words :
    (command item : Text)
    → has_prefix (normalized command) (normalized item) ≡ true
    → (rest : List Text) × (split_words command ≡ split_words item ++ rest)
unfolding normalized
has_prefix-words command item h =
    Continues-words (split_words command) (split_words item) (split_words-words command)
      (split_words-words item)
      (elim (Bool-cases (normalized command == normalized item)) [
        | inl e ↦ inl ((==_iff (normalized command) (normalized item)).0 e)
        | inr e ↦ inr (rw e at h)
      ])

-- The loop over the configured commands.
any-prefix :
    (items : List Text) (command : Text)
    → any
        (λ prefix. has_prefix (normalized command) prefix)
        (map (λ item. normalized (strip item)) (filter is_given items))
      ≡ true
    → (item : Text) × In item items
      × (is_empty (strip item) ≡ false)
      × (rest : List Text) × (split_words command ≡ split_words (strip item) ++ rest)
any-prefix [] command h = cc h
any-prefix (item ∷ items) command h = elim (Bool-cases (is_empty (strip item))) [
  | inl blank ↦
      let (found, m, given, rest, words) = any-prefix items command (rw blank at h) in
      (found, inr m, given, rest, words)
  | inr given ↦ elim (Bool-cases (has_prefix (normalized command) (normalized (strip item)))) [
    | inl e ↦
        let (rest, words) = has_prefix-words command (strip item) e in
        (item, inl refl, given, rest, words)
    | inr e ↦
        let (found, m, given_too, rest, words) = any-prefix items command (rw (given, e) at h) in
        (found, inr m, given_too, rest, words)
  ]
]

-- A shell command that is approved without asking is not blank, contains none of the forbidden
-- tokens, and its words begin with all the words of a configured command that is not blank.
pub is_auto_approve_shell_command_allowed-Begins :
    (cfg : PolicyConfig) (cmd : Text)
    → is_auto_approve_shell_command_allowed cfg cmd ≡ true
    → (is_empty (strip cmd) ≡ false)
      × All (λ token. is_infix token (strip cmd) ≡ false) forbidden_tokens
      × Begins cfg (strip cmd)
unfolding is_auto_approve_shell_command_allowed prefixes_of
is_auto_approve_shell_command_allowed-Begins cfg cmd h = elim (Bool-cases (is_empty (strip cmd))) [
  | inl e ↦ absurd (cc (rw e at h))
  | inr e ↦ elim (Bool-cases (any (λ token. is_infix token (strip cmd)) forbidden_tokens)) [
    | inl f ↦ absurd (cc (rw (e, f) at h))
    | inr f ↦ (
      e,
      none_of forbidden_tokens (strip cmd) f,
      any-prefix cfg.auto_approve_shell_commands (strip cmd) (rw (e, f) at h),
    )
  ]
]
