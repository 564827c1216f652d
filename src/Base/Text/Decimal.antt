-- ===== src/Base/Text/Decimal.antt =====
-- Decimal text, as `Display` prints an unsigned integer. The fuel is one more than the number,
-- which suffices since each round divides the number by ten.
use document_intelligence.Base.Tests.{ltb, if◌then◌else◌}
use document_intelligence.Base.Lists.{length, all}
use document_intelligence.Base.Text.{Str, is_ascii_digit}
use Prim.Native.Nat.{ℕ, zero, suc, ◌+◌, ◌-◌, ◌*◌, ◌/◌, ◌%◌, ◌<◌}
use mathlib.Core.Path.{◌≡◌, refl, sym, ap, ◌∙◌}
use mathlib.Core.Bool.{Bool, true}
use mathlib.Core.List.{[], ◌∷◌, ◌++◌}
use native.Mathlib.Omega.{arith}

decimal_from : ℕ → ℕ → Str
decimal_from zero n = []
decimal_from (suc fuel) n =
    let more = decimal_from fuel (n / 10) in
    if ltb n 10 then (48 + n) ∷ [] else more ++ (48 + n % 10) ∷ []

unfoldable pub decimal : ℕ → Str
unfolding decimal_from
decimal n = decimal_from (suc n) n

-- The number that a text of digits stands for.
value_from : ℕ → Str → ℕ
value_from acc [] = acc
value_from acc (c ∷ s) = value_from (acc * 10 + (c - 48)) s

value_from-append :
    (acc c : ℕ) (s : Str) → value_from acc (s ++ c ∷ []) ≡ value_from acc s * 10 + (c - 48)
unfolding value_from
value_from-append acc c [] = refl
value_from-append acc c (d ∷ s) = value_from-append (acc * 10 + (d - 48)) c s

value-decimal_from : (fuel n : ℕ) → n < fuel → value_from 0 (decimal_from fuel n) ≡ n
unfolding decimal_from value_from
value-decimal_from zero n h = absurd (omega arith)
value-decimal_from (suc fuel) n h = ground (
  arith,
  value_from-append 0 (48 + n % 10) (decimal_from fuel (n / 10)),
  value-decimal_from fuel (n / 10),
)

-- Two numbers that print alike are equal.
pub decimal-injective : (m n : ℕ) → decimal m ≡ decimal n → m ≡ n
unfolding decimal
decimal-injective m n h =
    sym (value-decimal_from (suc m) m (omega arith))
    ∙ ap (value_from 0) h
    ∙ value-decimal_from (suc n) n (omega arith)

all-append : (p : ℕ → Bool) (s t : Str) → all p s ≡ true → all p t ≡ true → all p (s ++ t) ≡ true
all-append p [] t h k = k
all-append p (c ∷ s) t h k = ground (arith, all-append p s t)

decimal_from-digits : (fuel n : ℕ) → all is_ascii_digit (decimal_from fuel n) ≡ true
unfolding decimal_from
decimal_from-digits zero n = refl
decimal_from-digits (suc fuel) n = ground (
  arith,
  decimal_from-digits fuel (n / 10),
  all-append is_ascii_digit (decimal_from fuel (n / 10)) ((48 + n % 10) ∷ []),
)

-- A printed number consists of digits.
pub decimal-digits : (n : ℕ) → all is_ascii_digit (decimal n) ≡ true
unfolding decimal
decimal-digits n = decimal_from-digits (suc n) n

zeros : ℕ → Str
zeros zero = []
zeros (suc n) = b'0' ∷ zeros n

-- `{:0width$}` puts zeros in front of a shorter text.
unfoldable pub padded : ℕ → ℕ → Str
unfolding zeros
padded width n = zeros (width - length (decimal n)) ++ decimal n

value-zeros : (k : ℕ) (s : Str) → value_from 0 (zeros k ++ s) ≡ value_from 0 s
unfolding zeros value_from
value-zeros zero s = refl
value-zeros (suc k) s = value-zeros k s

-- The zeros do not make two numbers print alike.
pub padded-injective : (width m n : ℕ) → padded width m ≡ padded width n → m ≡ n
unfolding padded decimal
padded-injective width m n h =
    sym (value-decimal_from (suc m) m (omega arith))
    ∙ sym (value-zeros (width - length (decimal m)) (decimal m))
    ∙ ap (value_from 0) h
    ∙ value-zeros (width - length (decimal n)) (decimal n)
    ∙ value-decimal_from (suc n) n (omega arith)
