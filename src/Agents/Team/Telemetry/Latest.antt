-- ===== src/Agents/Team/Telemetry/Latest.antt =====
-- ufoundry/agents/team_executor.py, `_unresolved_failed_commands`: the last run of each command.
use ufoundry.Base.{
  ◌≡◌, refl, ◌∙◌, ap, subst, ◌++◌, text_beq, Bool, true, false, ◌==◌, Option, none, some, List, [],
  ◌∷◌, Text, text_eq, if◌then◌else◌, is_empty, strip, take, Dict, lookup, store, lookup-store,
  Bool-cases, inl, inr, arith,
}
use ufoundry.Agents.Team.Telemetry.{
  ShellItem, suffix, latest_by_cmd, unresolved, unresolved_failed_commands,
}

-- A later item, or this one if it is of the command.
abbrev pub pick : Bool → ShellItem → Option ShellItem → Option ShellItem
pick same item none = if same then some item else none
pick same item (some later) = some later

-- The last item of a command.
abbrev pub last_of : Text → List ShellItem → Option ShellItem
last_of cmd [] = none
last_of cmd (item ∷ items) = pick (strip item.cmd == cmd) item (last_of cmd items)

abbrev or_else : Option ShellItem → Option ShellItem → Option ShellItem
or_else none other = other
or_else (some item) other = some item

or_else-pick :
    (same : Bool) (item : ShellItem) (later before : Option ShellItem)
    → or_else later (if same then some item else before) ≡ or_else (pick same item later) before
or_else-pick true item none before = refl
or_else-pick false item none before = refl
or_else-pick same item (some later) before = refl

blank-other : (s cmd : Text) → is_empty s ≡ true → is_empty cmd ≡ false → (s == cmd) ≡ false
unfolding text_beq
blank-other [] [] e h = cc
blank-other [] (c ∷ cmd) e h = refl
blank-other (c ∷ s) cmd e h = cc

lookup-latest_by_cmd :
    (cmd : Text) (items : List ShellItem) (latest : Dict Text ShellItem)
    → is_empty cmd ≡ false
    → lookup cmd (latest_by_cmd items latest) ≡ or_else (last_of cmd items) (lookup cmd latest)
unfolding latest_by_cmd
lookup-latest_by_cmd cmd [] latest h = refl
lookup-latest_by_cmd cmd (item ∷ items) latest h =
    let key = strip item.cmd in
    let later = last_of cmd items in
    elim (Bool-cases (is_empty key)) [
      | inl e ↦
          rw (e, blank-other key cmd e h)
            (lookup-latest_by_cmd cmd items latest h
              ∙ or_else-pick false item later (lookup cmd latest))
      | inr e ↦ rw e (
          lookup-latest_by_cmd cmd items (store key item latest) h
          ∙ (ap (or_else later) (lookup-store key cmd item latest)
              ∙ or_else-pick (key == cmd) item later (lookup cmd latest)))
    ]

unresolved-lookup :
    (cmd : Text) (item : ShellItem) (latest : Dict Text ShellItem)
    → is_empty (take 12 (unresolved latest)) ≡ true
    → lookup cmd latest ≡ some item
    → item.success ≡ true
unfolding unresolved lookup
unresolved-lookup cmd item [] h e = cc
unresolved-lookup cmd item ((key, first) ∷ latest) h e = elim (Bool-cases first.success) [
  | inr f ↦ absurd (
      cc (
        subst
          (λ b.
            is_empty (
              take 12 (
                if b
                then unresolved latest
                else (key ++ suffix first.exit_code) ∷ unresolved latest))
            ≡ true)
          f h))
  | inl t ↦ elim (Bool-cases (key == cmd)) [
    | inl same ↦ ground (arith, e, t, same)
    | inr other ↦ unresolved-lookup cmd item latest (rw t at h) (rw other at e)
  ]
]

or_else-none : (o : Option ShellItem) → or_else o none ≡ o
or_else-none none = refl
or_else-none (some item) = refl

-- Where no command is reported as unresolved, the last run of every command succeeded: it exited
-- with 0 and did not time out. Runs whose command is blank are no runs of a command.
pub unresolved_failed_commands-last :
    (items : List ShellItem) (cmd : Text) (item : ShellItem)
    → unresolved_failed_commands items ≡ []
    → is_empty cmd ≡ false
    → last_of cmd items ≡ some item
    → item.success ≡ true
unfolding unresolved_failed_commands lookup
unresolved_failed_commands-last items cmd item h nonempty e =
    unresolved-lookup cmd item (latest_by_cmd items []) (ap is_empty h)
      (lookup-latest_by_cmd cmd items [] nonempty ∙ (or_else-none (last_of cmd items) ∙ e))
