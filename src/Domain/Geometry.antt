-- ===== src/Domain/Geometry.antt =====
-- The numbers and shapes of crates/ocr-domain/src/lib.rs: Confidence, PageNumber, PageGeometry,
-- NormalizedPoint and Polygon. An f64 is its 64 bits, by which comparisons are decided; the rounded
-- sum and product of two numbers are parameters.

pub mod Laws
use document_intelligence.Base.{
  ℕ, zero, suc, ◌+◌, ◌*◌, ◌%◌, Bool, true, false, ◌&&◌, ◌||◌, not, List, [], ◌∷◌, ◌++◌, Option,
  none, some, if◌then◌else◌, ltb, leb, ◌==◌, length, Result, ok, err, map_err, u64_max, checked_mul,
}
use document_intelligence.Domain.Errors.{
  Error, invalid_confidence, invalid_page_number, invalid_page_geometry, invalid_point,
  invalid_polygon,
}

pub record F64 : Type 0 where
  pub bits : ℕ

-- 0x7ff0000000000000, the bits of the infinity, and 0x8000000000000000, the bit of the sign
abbrev infinity_bits : ℕ
infinity_bits = 9218868437227405312

abbrev sign_bit : ℕ
sign_bit = 9223372036854775808

-- 1.0 is 0x3ff0000000000000, and `f64::EPSILON` is 0x3cb0000000000000.
abbrev pub one : F64
one = record { bits = 4607182418800017408 }

abbrev pub epsilon : F64
epsilon = record { bits = 4372995238176751616 }

abbrev pub positive_zero : F64
positive_zero = record { bits = 0 }

abbrev pub negative_zero : F64
negative_zero = record { bits = sign_bit }

abbrev pub magnitude : F64 → ℕ
magnitude x = x.bits % sign_bit

abbrev pub is_negative : F64 → Bool
is_negative x = leb sign_bit x.bits

abbrev pub is_nan : F64 → Bool
is_nan x = ltb infinity_bits (magnitude x)

abbrev pub is_finite : F64 → Bool
is_finite x = ltb (magnitude x) infinity_bits

abbrev pub abs : F64 → F64
abs x = record { bits = magnitude x }

-- `<=` on f64
unfoldable pub float_leb : F64 → F64 → Bool
float_leb x y =
    if is_nan x || is_nan y
    then false
    else if is_negative x
    then (not (is_negative y) || leb (magnitude y) (magnitude x))
    else if is_negative y
    then (magnitude x == 0) && (magnitude y == 0)
    else leb (magnitude x) (magnitude y)

-- `is_finite() && (0.0..=1.0).contains(..)`
unfoldable pub in_unit : F64 → Bool
unfolding float_leb
in_unit x = is_finite x && (float_leb positive_zero x && float_leb x one)

pub record Confidence : Type 0 where
  pub value : F64

unfoldable pub new_confidence : F64 → Result Error Confidence
unfolding in_unit
new_confidence value =
    if in_unit value then ok (record { value = value }) else err invalid_confidence

pub record PageNumber : Type 0 where
  pub number : ℕ

unfoldable pub new_page_number : ℕ → Result Error PageNumber
new_page_number value =
    if value == 0 then err invalid_page_number else ok (record { number = value })

pub record PageGeometry : Type 0 where
  pub page : PageNumber
  pub width : ℕ
  pub height : ℕ

-- `PageGeometry::new`, which the conversion from `RawPageGeometry` calls.
unfoldable pub new_page_geometry : PageNumber → ℕ → ℕ → Result Error PageGeometry
new_page_geometry page width height = elim (checked_mul u64_max width height) [
  | none ↦ err invalid_page_geometry
  | some pixels ↦
      if width == 0 || (height == 0 || ltb 1_0000_0000 pixels)
      then err invalid_page_geometry
      else ok (record { page = page; width = width; height = height })
]

unfoldable pub pixels : PageGeometry → ℕ
pixels g = g.width * g.height

pub record NormalizedPoint : Type 0 where
  pub x : F64
  pub y : F64

unfoldable pub new_normalized_point : F64 → F64 → Result Error NormalizedPoint
unfolding in_unit
new_normalized_point x y =
    if in_unit x && in_unit y then ok (record { x = x; y = y }) else err invalid_point

pub record Polygon : Type 0 where
  pub points : List NormalizedPoint

-- `iter().cycle().skip(1)`, of which `zip` and `take` use as many items as there are points
abbrev rotate : List NormalizedPoint → List NormalizedPoint
rotate [] = []
rotate (p ∷ ps) = ps ++ p ∷ []

abbrev negate : F64 → F64
negate x = record { bits = if is_negative x then magnitude x else magnitude x + sign_bit }

module _ (add mul : F64 → F64 → F64) where
  -- `left.x * right.y - right.x * left.y`; a difference is a sum with the sign of the second flipped.
  abbrev cross : NormalizedPoint → NormalizedPoint → F64
  cross left right = add (mul left.x right.y) (negate (mul right.x left.y))

  abbrev crosses : List NormalizedPoint → List NormalizedPoint → List F64
  crosses [] rs = []
  crosses (l ∷ ls) [] = []
  crosses (l ∷ ls) (r ∷ rs) = cross l r ∷ crosses ls rs

  abbrev sum : F64 → List F64 → F64
  sum acc [] = acc
  sum acc (x ∷ xs) = sum (add acc x) xs

  unfoldable pub signed_double_area : List NormalizedPoint → F64
  signed_double_area points = sum negative_zero (crosses points (rotate points))

  unfoldable pub new_polygon : List NormalizedPoint → Result Error Polygon
  unfolding signed_double_area float_leb
  new_polygon points =
      if ltb (length points) 3 || float_leb (abs (signed_double_area points)) epsilon
      then err invalid_polygon
      else ok (record { points = points })
