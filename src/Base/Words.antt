-- ===== src/Base/Words.antt =====
-- Rust's unsigned integers as numbers, with the checked and saturating operations written out.
use Prim.Native.Nat.{ℕ, ◌+◌, ◌-◌, ◌*◌, min}
use mathlib.Core.Option.{Option, none, some}
use document_intelligence.Base.Tests.{leb, if◌then◌else◌}

abbrev pub u8_max : ℕ
u8_max = 255

abbrev pub u16_max : ℕ
u16_max = 65535

abbrev pub u32_max : ℕ
u32_max = 4294967295

abbrev pub u64_max : ℕ
u64_max = 18446744073709551615

-- `checked_add`, `checked_sub`, `checked_mul` of a type with the greatest value `top`
abbrev pub checked_add : ℕ → ℕ → ℕ → Option ℕ
checked_add top a b = if leb (a + b) top then some (a + b) else none

abbrev pub checked_sub : ℕ → ℕ → Option ℕ
checked_sub a b = if leb b a then some (a - b) else none

abbrev pub checked_mul : ℕ → ℕ → ℕ → Option ℕ
checked_mul top a b = if leb (a * b) top then some (a * b) else none

-- `saturating_add`
abbrev pub saturating_add : ℕ → ℕ → ℕ → ℕ
saturating_add top a b = min top (a + b)

-- `Option::and_then`
abbrev pub and_then {ℓ κ} : {A : Type ℓ} {B : Type κ} → Option A → (A → Option B) → Option B
and_then none f = none
and_then (some a) f = f a
