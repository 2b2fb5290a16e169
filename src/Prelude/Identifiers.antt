-- ===== src/Prelude/Identifiers.antt =====
-- The identifiers of github.com/google/uuid: a 128-bit value, and its text as that package gives it.
use Prim.Native.Nat.{ℕ}
use Prim.Native.String.{String}
use mathlib.Core.Path.{◌≡◌}
use mathlib.Core.Option.{Option, some}
use platform_orchestrator_ia.Prelude.Text.{Lacks}

-- The sixteen bytes, read as one number, the first byte highest.
abbrev pub Uuid : Type 0
Uuid = ℕ

-- The package's `String` and `Parse`, and what the program relies on: `Parse` reads back what
-- `String` writes, and the text is made of hexadecimal digits and dashes.
pub record UuidText : Type 0 where
  pub to_string : Uuid → String
  pub parse : String → Option Uuid
  pub parse-to_string : (u : Uuid) → parse (to_string u) ≡ some u
  pub no_at : (u : Uuid) → Lacks b'@' (to_string u)
  pub no_colon : (u : Uuid) → Lacks b':' (to_string u)
  pub no_dollar : (u : Uuid) → Lacks b'$' (to_string u)

pub to_string_injective : (U : UuidText) (u v : Uuid) → U.to_string u ≡ U.to_string v → u ≡ v
to_string_injective U u v e = cc (U.parse-to_string u, U.parse-to_string v)
