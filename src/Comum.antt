-- ===== src/Comum.antt =====
-- Names that the whole development shares: the libraries' names passed on, and the helpers on
-- tests, lists, bytes, texts and maps that stand for what the source takes from Go itself.
mod Testes
mod Listas
pub mod Bits
pub mod Texto
pub mod Mapa
pub mod Inteiro
pub use Testes.*
pub use Listas.*
pub use Prim.Native.Nat.{ℕ, zero, suc, ◌+◌, ◌-◌, ◌*◌, ◌/◌, ◌%◌, ◌^◌, ◌≤◌, ◌<◌, min}
pub use mathlib.Core.Path.{◌≡◌, refl, sym, ap, ◌∙◌, subst, subst₂}
pub use mathlib.Core.Logic.{◌≢◌, ◌↔◌, ◌⊎◌, inl, inr}
pub use mathlib.Core.Bool.{Bool, true, false, not, ◌&&◌, ◌||◌}
pub use mathlib.Core.Option.{Option, none, some}
pub use mathlib.Core.List.{List, [], ◌∷◌, ◌++◌, map, append-nil, append_assoc}
pub use native.Mathlib.Omega.{arith}
