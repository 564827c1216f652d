-- ===== src/Domain/Documents/Laws.antt =====
-- The costs that crates/ocr-domain/src/lib.rs accepts: a currency of three letters and a decimal
-- number.
use mathlib.Core.Path.{ap₂}
use document_intelligence.Base.{
  ℕ, ◌≤◌, ◌≡◌, ◌≢◌, ◌↔◌, ◌⊎◌, inl, inr, refl, sym, ap, ◌∙◌, Bool, true, false, ◌&&◌, ◌||◌, not,
  List, [], ◌∷◌, ◌++◌, arith, if◌then◌else◌, ◌==◌, all, All, length, Result, ok, err, ok_injective,
  ==_iff, Bool-cases, subst,
}
use document_intelligence.Base.Text.{
  Str, bytes, len, is_ascii_digit, is_ascii_uppercase, all-bytes, len-ascii,
}
use document_intelligence.Domain.Errors.{Error, invalid_cost}
use document_intelligence.Domain.Documents.{Cost, new_cost, split_dots, is_digits, valid_parts}

-- One or more of the digits 0 to 9.
abbrev pub IsDigits : Str → Type 0
IsDigits s = (s ≢ []) × All (λ c. (48 ≤ c) × (c ≤ 57)) s

-- Digits, or digits before and after one dot.
abbrev pub IsDecimal : Str → Type 0
IsDecimal s = IsDigits s ⊎ ((w : Str) × (f : Str) × (s ≡ w ++ 46 ∷ f) × IsDigits w × IsDigits f)

-- Three of the letters A to Z.
abbrev pub IsCurrency : Str → Type 0
IsCurrency s = (length s ≡ 3) × All (λ c. (65 ≤ c) × (c ≤ 90)) s

all-within :
    (lo hi : ℕ) (p : ℕ → Bool)
    → ((c : ℕ) → (p c ≡ true) ↔ ((lo ≤ c) × (c ≤ hi)))
    → (s : Str) → (all p s ≡ true) ↔ All (λ c. (lo ≤ c) × (c ≤ hi)) s
all-within lo hi p h [] = (λ e. tt, λ e. refl)
all-within lo hi p h (c ∷ s) =
    let rest = all-within lo hi p h s in
    let head = h c in
    (
      λ e. (head.0 (ground (arith, e)), rest.0 (ground (arith, e))),
      λ e. ground (arith, head.1 e.0, rest.1 e.1),
    )

IsDigits-iff : (s : Str) → (is_digits s ≡ true) ↔ IsDigits s
IsDigits-iff [] = (λ h. cc, λ h. absurd (h.0 refl))
IsDigits-iff (c ∷ s) =
    let bare = all-bytes is_ascii_digit (λ b h. ground arith) (c ∷ s) in
    let inside = all-within 48 57 is_ascii_digit (λ c. ground arith) (c ∷ s) in
    (λ h. ((λ e. cc), inside.0 (sym bare ∙ h)), λ h. bare ∙ inside.1 h.1)

IsCurrency-iff :
    (s : Str) → ((len s == 3) && all is_ascii_uppercase (bytes s) ≡ true) ↔ IsCurrency s
IsCurrency-iff s =
    let bare = all-bytes is_ascii_uppercase (λ b h. ground arith) s in
    let inside = all-within 65 90 is_ascii_uppercase (λ c. ground arith) s in
    let ascii = len-ascii is_ascii_uppercase (λ b h. ground arith) s in
    (
      λ h.
          (let upper : all is_ascii_uppercase s ≡ true = sym bare ∙ ground (arith, h) in
            (omega (arith, ascii upper, (==_iff (len s) 3).0 (ground (arith, h))), inside.0 upper)),
      λ h. (let upper = inside.1 h.1 in ground (arith, ascii upper, h.0, bare ∙ upper)),
    )

join_dots : List Str → Str
join_dots [] = []
join_dots (p ∷ []) = p
join_dots (p ∷ q ∷ ps) = p ++ 46 ∷ join_dots (q ∷ ps)

split_dots-cons : (s : Str) → (p : Str) × (ps : List Str) × (split_dots s ≡ p ∷ ps)
split_dots-cons [] = ([], [], refl)
split_dots-cons (c ∷ s) = elim (Bool-cases (c == 46)) [
  | inl e ↦ ([], split_dots s, rw e)
  | inr e ↦ (let (p, ps, h) = split_dots-cons s in (c ∷ p, ps, rw (e, h)))
]

join_dots-cons :
    (c : ℕ) (p : Str) (ps : List Str) → join_dots ((c ∷ p) ∷ ps) ≡ c ∷ join_dots (p ∷ ps)
unfolding join_dots
join_dots-cons c p [] = refl
join_dots-cons c p (q ∷ ps) = refl

-- The parts with dots between them are the text.
join_dots-split_dots : (s : Str) → join_dots (split_dots s) ≡ s
unfolding join_dots
join_dots-split_dots [] = refl
join_dots-split_dots (c ∷ s) =
    let (p, ps, h) = split_dots-cons s in
    let rest : join_dots (p ∷ ps) ≡ s = subst (λ l. join_dots l ≡ s) h (join_dots-split_dots s) in
    elim (Bool-cases (c == 46)) [
      | inl e ↦ rw (e, h) (ap₂ (λ a b. a ∷ b) (sym ((==_iff c 46).0 e)) rest)
      | inr e ↦ rw (e, h) (join_dots-cons c p ps ∙ ap (λ b. c ∷ b) rest)
    ]

-- Digits are one part, and the part before a dot.
split_dots-digits : (s : Str) → All (λ c. (48 ≤ c) × (c ≤ 57)) s → split_dots s ≡ s ∷ []
split_dots-digits [] h = refl
split_dots-digits (c ∷ s) h =
    let other : (c == 46) ≡ false = ground (arith, h.0) in rw (other, split_dots-digits s h.1)

split_dots-append :
    (w f : Str) → All (λ c. (48 ≤ c) × (c ≤ 57)) w → split_dots (w ++ 46 ∷ f) ≡ w ∷ split_dots f
split_dots-append [] f h = refl
split_dots-append (c ∷ w) f h =
    let other : (c == 46) ≡ false = ground (arith, h.0) in rw (other, split_dots-append w f h.1)

parts-digits : (w f : Str) → IsDigits w → IsDigits f → valid_parts (w ∷ f ∷ []) ≡ true
parts-digits w f h k = ground (arith, (IsDigits-iff w).1 h, (IsDigits-iff f).1 k)

parts-IsDecimal :
    (s : Str) (ps : List Str) → split_dots s ≡ ps → valid_parts ps ≡ true → IsDecimal s
unfolding join_dots
parts-IsDecimal s [] h e = cc
parts-IsDecimal s (w ∷ []) h e =
    inl (subst IsDigits (ap join_dots (sym h) ∙ join_dots-split_dots s) ((IsDigits-iff w).0 e))
parts-IsDecimal s (w ∷ f ∷ []) h e = inr (
  w,
  f,
  sym (join_dots-split_dots s) ∙ ap join_dots h,
  (IsDigits-iff w).0 (ground (arith, e)),
  (IsDigits-iff f).0 (ground (arith, e)),
)
parts-IsDecimal s (w ∷ f ∷ p ∷ ps) h e = cc

IsDecimal-iff : (s : Str) → (valid_parts (split_dots s) ≡ true) ↔ IsDecimal s
IsDecimal-iff s = (λ h. parts-IsDecimal s (split_dots s) refl h, decimal-parts s)
  where
    decimal-parts : (s : Str) → IsDecimal s → valid_parts (split_dots s) ≡ true
    decimal-parts s (inl d) = rw (split_dots-digits s d.1) ((IsDigits-iff s).1 d)
    decimal-parts s (inr (w, f, e, d, k)) =
        rw (e, split_dots-append w f d.1, split_dots-digits f k.1) (parts-digits w f d k)

-- A cost is made exactly of a currency of three letters A to Z and an amount of digits, with at
-- most one dot and digits before and after it; it keeps both as they are.
pub new_cost_iff :
    (currency decimal : Str) (c : Cost)
    → (new_cost currency decimal ≡ ok c) ↔ (
        IsCurrency currency
        × IsDecimal decimal
        × (record { currency = currency; decimal = decimal } ≡ c))
unfolding new_cost
new_cost_iff currency decimal c = (
  λ e.
      (let tests =
          refusals ((len currency == 3) && all is_ascii_uppercase (bytes currency))
            (valid_parts (split_dots decimal)) e in
        ((IsCurrency-iff currency).0 tests.0, (IsDecimal-iff decimal).0 tests.1, tests.2)),
  λ (k, d, e).
      (let upper = (IsCurrency-iff currency).1 k in
        let parts = (IsDecimal-iff decimal).1 d in rw (upper, parts) (ap ok e)),
)
  where
    refusals :
        (a b : Bool)
        → ◌≡◌ {A = Result Error Cost}
            (if not a || not b
              then err invalid_cost
              else ok (record { currency = currency; decimal = decimal }))
            (ok c)
        → (a ≡ true) × (b ≡ true) × (record { currency = currency; decimal = decimal } ≡ c)
    refusals true true e = (refl, refl, ok_injective _ c e)
    refusals true false e = cc
    refusals false b e = cc
