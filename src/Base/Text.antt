-- ===== src/Base/Text.antt =====
-- Rust's `str` as the list of its code points, its UTF-8 bytes, and the tests on bytes and
-- characters that the program makes. A native text gives its code points by `codes`.
pub mod Decimal
use Prim.Native.Char.{code}
use Prim.Native.String.{String}
use Prim.Native.Nat.{ℕ, zero, suc, ◌+◌, ◌-◌, ◌*◌, ◌/◌, ◌%◌, ◌≤◌, ◌<◌}
use mathlib.Core.Path.{◌≡◌, refl, ap, ap₂}
use mathlib.Core.Logic.{◌≢◌, ◌↔◌, ◌⊎◌, inl, inr}
use mathlib.Core.Bool.{Bool, true, false, not, ◌&&◌, ◌||◌}
use mathlib.Core.Option.{Option, none, some}
use mathlib.Core.List.{List, [], ◌∷◌, ◌++◌}
use native.Mathlib.Omega.{arith}
use document_intelligence.Base.Tests.{ltb, leb, ◌==◌, if◌then◌else◌, within, ==_iff, Bool-cases}
use document_intelligence.Base.Lists.{length, all}

abbrev pub Str : Type 0
Str = List ℕ

abbrev pub codes : String → Str
codes String.[] = []
codes (String.◌∷◌ c s) = code c ∷ codes s

-- The bytes of one code point in UTF-8.
abbrev pub utf8_char : ℕ → List ℕ
utf8_char c =
    if ltb c 0x80
    then c ∷ []
    else if ltb c 0x800
    then (0xc0 + c / 64) ∷ (0x80 + c % 64) ∷ []
    else if ltb c 0x1_0000
    then (0xe0 + c / 4096) ∷ (0x80 + c / 64 % 64) ∷ (0x80 + c % 64) ∷ []
    else (0xf0 + c / 26_2144) ∷ (0x80 + c / 4096 % 64) ∷ (0x80 + c / 64 % 64) ∷ (0x80 + c % 64) ∷ []

-- `as_bytes()` and `bytes()`
unfoldable pub bytes : Str → List ℕ
bytes [] = []
bytes (c ∷ s) = utf8_char c ++ bytes s

-- `len()` counts bytes.
unfoldable pub len : Str → ℕ
unfolding bytes
len s = length (bytes s)

abbrev pub is_empty : Str → Bool
is_empty [] = true
is_empty (c ∷ s) = false

-- `==` on strings
unfoldable pub str_eq : Str → Str → Bool
str_eq [] [] = true
str_eq (a ∷ s) (b ∷ t) = (a == b) && str_eq s t
str_eq _ _ = false

-- `strip_prefix`
unfoldable pub strip_prefix : Str → Str → Option Str
strip_prefix [] s = some s
strip_prefix (p ∷ ps) [] = none
strip_prefix (p ∷ ps) (c ∷ s) = if p == c then strip_prefix ps s else none

-- `unwrap_or_default()` on an optional string
abbrev pub or_default : Option Str → Str
or_default none = []
or_default (some s) = s

-- `u8::is_ascii_*`
abbrev pub is_ascii_lowercase : ℕ → Bool
is_ascii_lowercase b = within b'a' b'z' b

abbrev pub is_ascii_uppercase : ℕ → Bool
is_ascii_uppercase b = within b'A' b'Z' b

abbrev pub is_ascii_digit : ℕ → Bool
is_ascii_digit b = within b'0' b'9' b

abbrev pub is_ascii_alphanumeric : ℕ → Bool
is_ascii_alphanumeric b = is_ascii_lowercase b || (is_ascii_uppercase b || is_ascii_digit b)

abbrev pub is_ascii_hexdigit : ℕ → Bool
is_ascii_hexdigit b = is_ascii_digit b || (within b'a' b'f' b || within b'A' b'F' b)

abbrev pub is_ascii_graphic : ℕ → Bool
is_ascii_graphic b = within b'!' b'~' b

-- `char::is_whitespace`: the code points with the property White_Space
abbrev pub is_whitespace : ℕ → Bool
is_whitespace c =
    within 0x9 0xd c
    || (c == 0x20
        || (c == 0x85
            || (c == 0xa0
                || (c == 0x1680
                    || (within 0x2000 0x200a c
                        || (c == 0x2028
                            || (c == 0x2029 || (c == 0x202f || (c == 0x205f || c == 0x3000)))))))))

-- `first()` and `last()` of a slice
abbrev pub first {ℓ} : {A : Type ℓ} → List A → Option A
first [] = none
first (x ∷ xs) = some x

abbrev pub last {ℓ} : {A : Type ℓ} → List A → Option A
last [] = none
last (x ∷ []) = some x
last (x ∷ y ∷ xs) = last (y ∷ xs)

-- `is_some_and`
abbrev pub is_some_and {ℓ} : {A : Type ℓ} → Option A → (A → Bool) → Bool
is_some_and none p = false
is_some_and (some a) p = p a

pub str_eq_iff : (s t : Str) → (str_eq s t ≡ true) ↔ (s ≡ t)
unfolding str_eq
str_eq_iff [] [] = (λ _. refl, λ _. refl)
str_eq_iff [] (b ∷ t) = (λ h. cc, λ h. cc)
str_eq_iff (a ∷ s) [] = (λ h. cc, λ h. cc)
str_eq_iff (a ∷ s) (b ∷ t) =
    (λ h. ground (arith, (str_eq_iff s t).0, h), λ h. ground (arith, (str_eq_iff s t).1, h))

pub str_eq_refl : (s : Str) → str_eq s s ≡ true
str_eq_refl s = (str_eq_iff s s).1 refl

-- A test that refuses every byte above 127 holds of the bytes of a text where it holds of its
-- code points.
pub str_eq-ne : (s u : Str) → s ≢ u → str_eq s u ≡ false
str_eq-ne s u n = elim (Bool-cases (str_eq s u)) [
  | inl e ↦ absurd (n ((str_eq_iff s u).0 e))
  | inr e ↦ e
]

pub str_eq_sym : (s t : Str) → str_eq s t ≡ str_eq t s
unfolding str_eq
str_eq_sym [] [] = refl
str_eq_sym [] (b ∷ t) = refl
str_eq_sym (a ∷ s) [] = refl
str_eq_sym (a ∷ s) (b ∷ t) = ground (arith, str_eq_sym s t)

pub all-bytes :
    (p : ℕ → Bool) → ((b : ℕ) → 128 ≤ b → p b ≡ false) → (s : Str) → all p (bytes s) ≡ all p s
unfolding bytes
all-bytes p h [] = refl
all-bytes p h (c ∷ s) =
    let rest = all-bytes p h s in
    elim (Bool-cases (ltb c 128)) [
      | inl e ↦ rw e (ap (λ b. p c && b) rest)
      | inr e ↦
          (let two = h (0xc0 + c / 64) (omega arith) in
            let three = h (0xe0 + c / 4096) (omega arith) in
            let four = h (0xf0 + c / 26_2144) (omega arith) in
            let one = h c (ground (arith, e)) in ground (arith, e, one, two, three, four))
    ]

pub len-ascii :
    (p : ℕ → Bool)
    → ((b : ℕ) → 128 ≤ b → p b ≡ false)
    → (s : Str) → all p s ≡ true
    → len s ≡ length s
unfolding len bytes
len-ascii p h [] e = refl
len-ascii p h (c ∷ s) e =
    let rest = len-ascii p h s (ground (arith, e)) in
    elim (Bool-cases (ltb c 128)) [
      | inl a ↦ rw a (omega (arith, rest))
      | inr a ↦ absurd (ground (arith, e, a, h c (ground (arith, a))))
    ]
