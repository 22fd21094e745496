-- ===== src/Base.antt =====
-- The names that all modules share: the libraries' names passed on, Python's built-in operations
-- on numbers, lists, texts and dictionaries, and the rule sets for the tactics.
mod Tests
mod Lists
mod Texts
mod Glob
mod Dicts
mod Int
mod Search
mod Words
pub use Tests.*
unfoldable pub use Lists.*
unfoldable pub use Texts.*
unfoldable pub use Dicts.*
unfoldable pub use Int.*
unfoldable pub use Search.*
unfoldable pub use Words.*
unfoldable pub use Glob.{fnmatch}
pub use Prim.Native.Nat.{ℕ, zero, suc, ◌+◌, ◌-◌, ◌*◌, ◌/◌, ◌%◌, ◌^◌, ◌≤◌, ◌<◌}
pub use Prim.Native.String.{String}
pub use mathlib.Core.Path.{◌≡◌, refl, sym, ap, subst, ◌∙◌}
pub use mathlib.Core.Logic.{◌≢◌, ◌↔◌, ◌⊎◌, inl, inr}
pub use mathlib.Core.Bool.{Bool, true, false, not, ◌&&◌, ◌||◌}
pub use mathlib.Core.Option.{Option, none, some}
pub use mathlib.Core.List.{List, [], ◌∷◌, ◌++◌, map, reverse, append-nil, append_assoc}
pub use native.Mathlib.Omega.{arith}
