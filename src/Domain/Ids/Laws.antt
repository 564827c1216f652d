-- ===== src/Domain/Ids/Laws.antt =====
-- What the validated texts are, described by their parts.
use document_intelligence.Base.{
  ℕ, ◌≤◌, ◌≡◌, ◌≢◌, ◌↔◌, refl, sym, ap, ◌⊎◌, inl, inr, true, false, List, [], ◌∷◌, ◌++◌, Option,
  none, some, arith, ==_refl, all, Result, ok, err,
}
use document_intelligence.Base.Text.{Str, codes, bytes, len, is_empty, strip_prefix, utf8_char}
use document_intelligence.Domain.Errors.{Error, invalid_job_id}
use document_intelligence.Domain.Ids.{validated_id, id_byte, JobId, new_job_id}

strip_prefix-append : (p s : Str) → strip_prefix p (p ++ s) ≡ some s
unfolding strip_prefix
strip_prefix-append [] s = refl
strip_prefix-append (c ∷ p) s = rw (==_refl c) (strip_prefix-append p s)

append-strip_prefix : (p s : Str) {t : Str} → strip_prefix p s ≡ some t → s ≡ p ++ t
unfolding strip_prefix
append-strip_prefix [] s h = cc
append-strip_prefix (c ∷ p) [] h = cc
append-strip_prefix (c ∷ p) (d ∷ s) {t} h = ground (arith, append-strip_prefix p s {t = t})

-- An identifier is its prefix and a suffix of 1 to 64 bytes, all of them letters, digits or `_`.
pub record IsId (prefix value : Str) : Type 0 where
  pub suffix : Str
  pub splits : value ≡ prefix ++ suffix
  pub nonempty : is_empty suffix ≡ false
  pub short : len suffix ≤ 64
  pub plain : all id_byte (bytes suffix) ≡ true

validated_id-of_suffix :
    (value prefix suffix : Str) (e : Error)
    → strip_prefix prefix value ≡ some suffix
    → validated_id value prefix e ≡ ok value
    → IsId prefix value
unfolding validated_id
validated_id-of_suffix value prefix suffix e s h = record {
  suffix = suffix;
  splits = append-strip_prefix prefix value s;
  nonempty = ground arith;
  short = ground arith;
  plain = ground arith;
}

validated_id-of_none :
    (value prefix : Str) (e : Error)
    → strip_prefix prefix value ≡ none
    → validated_id value prefix e ≢ ok value
unfolding validated_id
validated_id-of_none value prefix e s h = ground arith

validated_id-suffix :
    (value prefix suffix : Str) (e : Error)
    → strip_prefix prefix value ≡ some suffix
    → is_empty suffix ≡ false
    → len suffix ≤ 64
    → all id_byte (bytes suffix) ≡ true
    → validated_id value prefix e ≡ ok value
unfolding validated_id
validated_id-suffix value prefix suffix e s n l p = ground arith

pub validated_id_outcomes :
    (value prefix : Str) (e : Error)
    → (validated_id value prefix e ≡ ok value) ⊎ (validated_id value prefix e ≡ err e)
unfolding validated_id
validated_id_outcomes value prefix e = ground arith

-- `validated_id` accepts exactly the texts that consist of the prefix and such a suffix, and
-- returns the text that it was given; it refuses every other text with the error it was given.
pub validated_id_iff :
    (value prefix : Str) (e : Error)
    → ((validated_id value prefix e ≡ ok value) ↔ IsId prefix value)
      × ((validated_id value prefix e ≡ ok value) ⊎ (validated_id value prefix e ≡ err e))
validated_id_iff value prefix e = (
  (λ h. of_option (strip_prefix prefix value) refl h, λ i. validated_id-append prefix i),
  validated_id_outcomes value prefix e,
)
  where
    of_option :
        (o : Option Str)
        → strip_prefix prefix value ≡ o
        → validated_id value prefix e ≡ ok value
        → IsId prefix value
    of_option none s h = absurd (validated_id-of_none value prefix e s h)
    of_option (some suffix) s h = validated_id-of_suffix value prefix suffix e s h

    validated_id-append : (p : Str) → IsId p value → validated_id value p e ≡ ok value
    validated_id-append p i =
        validated_id-suffix value p i.suffix e (rw i.splits (strip_prefix-append p i.suffix))
          i.nonempty i.short i.plain

-- A code point whose bytes are all bytes of an identifier is one itself.
id_char : (c : ℕ) → all id_byte (utf8_char c) ≡ true → id_byte c ≡ true
id_char c h = ground arith

all-append_left : (xs ys : List ℕ) → all id_byte (xs ++ ys) ≡ true → all id_byte xs ≡ true
all-append_left [] ys h = refl
all-append_left (x ∷ xs) ys h = ground (arith, all-append_left xs ys)

all-append_right : (xs ys : List ℕ) → all id_byte (xs ++ ys) ≡ true → all id_byte ys ≡ true
all-append_right [] ys h = h
all-append_right (x ∷ xs) ys h = ground (arith, all-append_right xs ys)

-- So the code points of a text are letters, digits and `_` if its bytes are.
pub id_chars : (s : Str) → all id_byte (bytes s) ≡ true → all id_byte s ≡ true
unfolding bytes
id_chars [] h = refl
id_chars (c ∷ s) h = ground (
  arith,
  id_char c (all-append_left (utf8_char c) (bytes s) h),
  id_chars s (all-append_right (utf8_char c) (bytes s) h),
)

text_of : Result Error JobId → Str
text_of (ok j) = j.text
text_of (err e) = []

-- An accepted job id wraps the text that it was given, and this is an identifier.
pub new_job_id-IsId :
    (value : Str) (j : JobId)
    → new_job_id value ≡ ok j
    → (j.text ≡ value) × IsId (codes "job_") value
unfolding new_job_id text_of
new_job_id-IsId value j h = elim (validated_id_outcomes value (codes "job_") invalid_job_id) [
  | inl e ↦
      (sym (ap text_of (rw e at h)), (validated_id_iff value (codes "job_") invalid_job_id).0.0 e)
  | inr e ↦ absurd (cc (rw e at h))
]

all-append :
    (xs ys : List ℕ) → all id_byte xs ≡ true → all id_byte ys ≡ true → all id_byte (xs ++ ys) ≡ true
all-append [] ys h k = k
all-append (x ∷ xs) ys h k = ground (arith, all-append xs ys)

-- Its code points are letters, digits and `_`.
pub new_job_id-chars :
    (value : Str) (j : JobId) → new_job_id value ≡ ok j → all id_byte j.text ≡ true
new_job_id-chars value j h =
    let (same, i) = new_job_id-IsId value j h in
    rw (same, i.splits) (all-append (codes "job_") i.suffix refl (id_chars i.suffix i.plain))
