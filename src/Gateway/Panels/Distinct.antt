-- ===== src/Gateway/Panels/Distinct.antt =====
-- ufoundry/control_panel/manager.py: the merged list of panels.
use ufoundry.Base.{
  ◌≡◌, ◌⊎◌, refl, sym, subst, Bool, true, false, ◌||◌, ==_refl, Bool-cases, inl, inr, some, List,
  [], ◌∷◌, ◌++◌, text_eq, All, All-append, any, if◌then◌else◌,
}
use ufoundry.Gateway.Panels.{
  PanelConfig, PanelKey, panel_key, same_key, add_panel, add_panels, build_panel_list,
}

-- No two panels have one key.
abbrev pub AreDistinct : List PanelConfig → Type 0
AreDistinct [] = Unit
AreDistinct (p ∷ ps) = All (λ q. same_key (panel_key p) (panel_key q) ≡ false) ps × AreDistinct ps

-- Some panel has the key of this one.
abbrev pub has_key_of : List PanelConfig → PanelConfig → Bool
has_key_of panels p = any (λ q. same_key (panel_key q) (panel_key p)) panels

same_key_refl : (k : PanelKey) → same_key k k ≡ true
same_key_refl k = rw (==_refl k.ui_type, ==_refl k.chat_id, ==_refl k.connector) refl

or_false : (a b : Bool) → (a || b) ≡ false → (a ≡ false) × (b ≡ false)
or_false true b h = cc
or_false false b h = (refl, h)

or_true : (a b : Bool) → (b ≡ true) → (a || b) ≡ true
or_true true b h = refl
or_true false b h = h

AreDistinct-append :
    (p : PanelConfig) (ps : List PanelConfig)
    → has_key_of ps p ≡ false
    → AreDistinct ps
    → AreDistinct (ps ++ p ∷ [])
AreDistinct-append p [] e d = (tt, tt)
AreDistinct-append p (q ∷ ps) e d =
    let (here, there) = or_false (same_key (panel_key q) (panel_key p)) (has_key_of ps p) e in
    (
      All-append (λ r. same_key (panel_key q) (panel_key r) ≡ false) ps (p ∷ []) d.0 (here, tt),
      AreDistinct-append p ps there d.1,
    )

has_key_of-front :
    (q p : PanelConfig) (ps : List PanelConfig)
    → has_key_of ps q ≡ true
    → has_key_of (ps ++ p ∷ []) q ≡ true
has_key_of-front q p [] e = cc
has_key_of-front q p (r ∷ ps) e = elim (Bool-cases (same_key (panel_key r) (panel_key q))) [
  | inl f ↦ rw f refl
  | inr f ↦ rw f (has_key_of-front q p ps (rw f at e))
]

has_key_of-last : (p : PanelConfig) (ps : List PanelConfig) → has_key_of (ps ++ p ∷ []) p ≡ true
has_key_of-last p [] = rw (same_key_refl (panel_key p)) refl
has_key_of-last p (r ∷ ps) =
    or_true (same_key (panel_key r) (panel_key p)) (has_key_of (ps ++ p ∷ []) p)
      (has_key_of-last p ps)

-- What a list of panels is after one more was added.
abbrev Grows : List PanelConfig → PanelConfig → List PanelConfig → Type 0
Grows ps p after =
    (AreDistinct ps → AreDistinct after)
    × (has_key_of after p ≡ true)
    × ((q : PanelConfig) → has_key_of ps q ≡ true → has_key_of after q ≡ true)

add_panel-Grows : (ps : List PanelConfig) (p : PanelConfig) → Grows ps p (add_panel ps p)
unfolding add_panel
add_panel-Grows ps p = elim (Bool-cases (has_key_of ps p)) [
  | inl e ↦ rw e ((λ d. d), e, (λ q h. h))
  | inr e ↦
      rw e (
        (λ d. AreDistinct-append p ps e d),
        has_key_of-last p ps,
        (λ q h. has_key_of-front q p ps h),
      )
]

add_panels-grows :
    (ps more : List PanelConfig)
    → (AreDistinct ps → AreDistinct (add_panels ps more))
      × All (λ p. has_key_of (add_panels ps more) p ≡ true) more
      × ((q : PanelConfig) → has_key_of ps q ≡ true → has_key_of (add_panels ps more) q ≡ true)
unfolding add_panels
add_panels-grows ps [] = ((λ d. d), tt, (λ q h. h))
add_panels-grows ps (p ∷ more) =
    let (apart, own, kept) = add_panel-Grows ps p in
    let (apart', all_in, kept') = add_panels-grows (add_panel ps p) more in
    ((λ d. apart' (apart d)), (kept' p own, all_in), (λ q h. kept' q (kept q h)))

All-weaken :
    {P Q : PanelConfig → Type 0} (ps : List PanelConfig)
    → ((q : PanelConfig) → P q → Q q)
    → All P ps
    → All Q ps
All-weaken [] f h = tt
All-weaken (p ∷ ps) f h = (f p h.0, All-weaken ps f h.1)

if_then : {A : Type 0} (b : Bool) (x y : A) → b ≡ true → (if b then x else y) ≡ x
if_then true x y e = refl
if_then false x y e = cc

if_else : {A : Type 0} (b : Bool) (x y : A) → b ≡ false → (if b then x else y) ≡ y
if_else true x y e = cc
if_else false x y e = refl

-- The list has no key twice, and the keys of all panels of the configuration.
abbrev pub IsMerged : PanelConfig → List PanelConfig → List PanelConfig → Type 0
IsMerged primary control_panels panels =
    AreDistinct panels
    × All (λ p. has_key_of panels p ≡ true) control_panels
    × ((primary.enabled ≡ false) ⊎ (has_key_of panels primary ≡ true))

-- The panels of the configuration are merged without repetition: no two panels of the list have
-- one user interface, chat and connector, and every panel of the configuration, the old single
-- one included where it is enabled, has a panel with its key on the list.
pub build_panel_list-IsMerged :
    (primary : PanelConfig) (control_panels : List PanelConfig)
    → IsMerged primary control_panels (build_panel_list (some primary) control_panels)
unfolding build_panel_list
build_panel_list-IsMerged primary control_panels =
    let ps = add_panels [] control_panels in
    let (apart, all_in, kept) = add_panels-grows [] control_panels in
    let (apart', own, kept') = add_panel-Grows ps primary in
    elim (Bool-cases primary.enabled) [
      | inl e ↦
          subst (IsMerged primary control_panels)
            (sym (if_then primary.enabled (add_panel ps primary) ps e))
            (apart' (apart tt), All-weaken control_panels kept' all_in, inr own)
      | inr e ↦
          subst (IsMerged primary control_panels)
            (sym (if_else primary.enabled (add_panel ps primary) ps e)) (apart tt, all_in, inl e)
    ]
