-- ===== src/Prelude.antt =====
-- The names that the other modules share: those of the libraries, passed on, and those of the
-- modules below: tests, lists, keys with a decided equality, and Go's maps.
mod Tests
mod Lists
mod Keys
mod Maps
mod Sets
mod Index
mod Results
mod Sorting
mod Int
pub use Tests.*
pub use Lists.*
pub use Keys.*
unfoldable pub use Keys.{key_beq}
pub use Maps.*
pub use Sets.*
pub use Index.*
unfoldable pub use Index.{index_by}
pub use Results.*
pub use Sorting.*
unfoldable pub use Sorting.{insert_sorted, sort}
pub use Int.*
pub use Prim.Native.Nat.{ℕ, zero, suc, ◌+◌, ◌-◌, ◌*◌, ◌/◌, ◌%◌, ◌^◌, ◌≤◌, ◌<◌}
pub use Prim.Native.String.{String}
pub use mathlib.Core.Path.{◌≡◌, refl, sym, ap, ◌∙◌, subst}
pub use mathlib.Core.Logic.{◌≢◌, ◌↔◌, ◌⊎◌, inl, inr}
pub use mathlib.Core.Bool.{Bool, true, false, true≢false, not, ◌&&◌, ◌||◌}
pub use mathlib.Core.Option.{Option, none, some}
pub use mathlib.Core.List.{List, [], ◌∷◌, ◌++◌, map, Memᴰ}
pub use native.Mathlib.Omega.{arith}
