-- ===== src/Shared/Equality.antt =====
-- Equality of texts, written `==`, and what its answer says. (Numbers are compared by `nat_eq`.)
use Prim.Native.String.{String}
use mathlib.Core.Path.{◌≡◌, refl}
use mathlib.Core.Logic.{◌↔◌, ◌≢◌, inl, inr}
use mathlib.Core.Bool.{Bool, true, false}
use mathlib.Core.Option.{Option, none, some}
use text.Mathlib.TextEquality.{eq_iff}
use hydra_server.Shared.Tests.{Bool-cases}
pub use text.Mathlib.Text.{◌==◌}

pub str-eq : (a b : String) → ((a == b) ≡ true) ↔ (a ≡ b)
str-eq a b = eq_iff a b

pub str_refl : (a : String) → (a == a) ≡ true
str_refl a = (eq_iff a a).1 refl

pub str-ne : (a b : String) → a ≢ b → (a == b) ≡ false
str-ne a b h = elim (Bool-cases (a == b)) [ inl k ↦ absurd (h ((eq_iff a b).0 k)) | inr k ↦ k ]

-- `Option<String>` compared with `==`.
abbrev pub opt_str_eq : Option String → Option String → Bool
opt_str_eq none none = true
opt_str_eq (some a) (some b) = a == b
opt_str_eq none (some b) = false
opt_str_eq (some a) none = false
