-- ===== src/Domain/Results/Laws.antt =====
-- What the constructor of a document's result and the reading of a stored one accept, from
-- crates/ocr-domain/src/lib.rs.
use mathlib.Core.List.{Permᴰ}
use mathlib.Core.Option as Option
use document_intelligence.Base.{
  ◌<◌, ◌≤◌, ◌≡◌, ◌≢◌, ◌↔◌, ◌⊎◌, inl, inr, refl, ap, subst, ◌∙◌, Bool, true, false, ◌&&◌, ◌||◌, not,
  List, [], ◌∷◌, Option, none, some, arith, if◌then◌else◌, ltb, ◌==◌, any, All, All-imp, length,
  Result, ok, err, ok_injective, sort_by_key, sort_by_key-Permᴰ, sort_by_key-IsSorted,
  sort_by_key_unique, increasing-IsSorted, IsSorted, IsIncreasing, Permᴰ_sym, Permᴰ_refl,
  length-Permᴰ,
}
use document_intelligence.Base.Text.{Str, len, is_empty}
use document_intelligence.Domain.Errors.{
  Error, missing_document_evidence, invalid_field_name, invalid_document_page,
}
use document_intelligence.Domain.Ids.{DocumentId, DocumentVersion}
use document_intelligence.Domain.Pages.{DocumentPage, Evidence}
use document_intelligence.Domain.Documents.{
  ExtractedValue, ProcessingProvenance, new_processing_provenance,
}
use document_intelligence.Domain.Results.{
  DocumentResult, DocumentResultPayload, page_number, repeats_page, bad_field_name, result_of, new,
  stored_provenance, try_from,
}
use document_intelligence.Domain.Results.Parts.{HasParts, result_of-HasParts, HasParts-result_of}
use document_intelligence.PageWorkflow.{maximum_page_count}

repeats_page_iff :
    (ps : List DocumentPage)
    → IsSorted page_number ps
    → (repeats_page ps ≡ false) ↔ IsIncreasing page_number ps
repeats_page_iff [] s = (λ h. tt, λ h. refl)
repeats_page_iff (p ∷ []) s = (λ h. (tt, tt), λ h. refl)
repeats_page_iff (p ∷ q ∷ ps) s =
    let rest = repeats_page_iff (q ∷ ps) s.1 in
    (
      λ h.
          (let below : page_number p < page_number q = ground (arith, h, s.0.0) in
            (
              (
                below,
                All-imp (λ y. page_number q ≤ page_number y) (λ y. page_number p < page_number y)
                    (λ y k. omega (arith, below, k)) ps s.1.0,
              ),
              rest.0 (ground (arith, h)),
            )),
      λ h. ground (arith, h.0.0, rest.1 h.1),
    )

uncited_iff :
    (text markdown : Str) (citations : List Evidence)
    → ((not (is_empty text) || not (is_empty markdown)) && length citations == 0 ≡ false)
      ↔ (((text ≡ []) × (markdown ≡ [])) ⊎ (citations ≢ []))
uncited_iff [] [] cs = (λ h. inl (refl, refl), λ h. refl)
uncited_iff [] (c ∷ m) [] = (λ h. cc, λ h. elim h [ inl k ↦ cc k.1 | inr k ↦ absurd (k refl) ])
uncited_iff (c ∷ s) m [] = (λ h. cc, λ h. elim h [ inl k ↦ cc k.0 | inr k ↦ absurd (k refl) ])
uncited_iff [] (c ∷ m) (e ∷ es) = (λ h. inr (λ k. cc), λ h. ground arith)
uncited_iff (c ∷ s) m (e ∷ es) = (λ h. inr (λ k. cc), λ h. ground arith)

four_tests {κ} :
    {A : Type κ} (a b c d : Bool) (e f g : Error) (r s : A)
    → ◌≡◌ {A = Result Error A}
        (if a then err e else if b then err f else if c then err g else (if d then err g else ok r))
        (ok s)
    → (a ≡ false) × (b ≡ false) × (c ≡ false) × (d ≡ false) × (r ≡ s)
four_tests true b c d e f g r s h = cc
four_tests false true c d e f g r s h = cc
four_tests false false true d e f g r s h = cc
four_tests false false false true e f g r s h = cc
four_tests false false false false e f g r s h = (refl, refl, refl, refl, ok_injective r s h)

module _ {ℓ} {Value : Type ℓ} where
  -- A result with text cites its evidence, and its fields have names of 1 to 128 bytes.
  abbrev pub IsComplete : DocumentResultPayload Value → Type 0
  IsComplete payload =
      (((payload.text ≡ []) × (payload.markdown ≡ [])) ⊎ (payload.citations ≢ []))
      × All (λ f. (f.0 ≢ []) × (len f.0 ≤ 128)) payload.fields

  -- A result of a payload: its pages in the order of their numbers, which differ.
  abbrev pub IsResultOf :
      DocumentId → DocumentVersion → DocumentResultPayload Value → DocumentResult Value → Type ℓ
  IsResultOf document_id document_version payload r =
      IsComplete payload
      × (length payload.pages ≤ maximum_page_count)
      × Permᴰ payload.pages r.pages
      × IsIncreasing page_number r.pages
      × HasParts document_id document_version payload r

  names_iff :
      (fs : List (Str × ExtractedValue Value))
      → (any bad_field_name fs ≡ false) ↔ All (λ f. (f.0 ≢ []) × (len f.0 ≤ 128)) fs
  names_iff [] = (λ h. tt, λ h. refl)
  names_iff (([], v) ∷ fs) = (λ h. cc, λ h. absurd (h.0.0 refl))
  names_iff ((c ∷ s, v) ∷ fs) =
      let rest = names_iff fs in
      (
        λ h. (((λ e. cc), ground (arith, h)), rest.0 (ground (arith, h))),
        λ h. ground (arith, h.0.1, rest.1 h.1),
      )

  abbrev uncited : DocumentResultPayload Value → Bool
  uncited p = (not (is_empty p.text) || not (is_empty p.markdown)) && length p.citations == 0

  made :
      (id : DocumentId) (version : DocumentVersion) (payload : DocumentResultPayload Value)
      (r : DocumentResult Value)
      → new id version payload ≡ ok r
      → IsResultOf id version payload r
  unfolding new
  made id version payload r e =
      let sorted = sort_by_key page_number payload.pages in
      let tests =
        four_tests (uncited payload) (any bad_field_name payload.fields)
          (ltb maximum_page_count (length payload.pages)) (repeats_page sorted)
          missing_document_evidence invalid_field_name invalid_document_page
          (result_of id version payload sorted) r e in
      let same : sorted ≡ r.pages = ap (λ (x : DocumentResult Value). x.pages) tests.4 in
      let increasing =
        (repeats_page_iff sorted (sort_by_key-IsSorted page_number payload.pages)).0 tests.3 in
      (
        (
          (uncited_iff payload.text payload.markdown payload.citations).0 tests.0,
          (names_iff payload.fields).0 tests.1,
        ),
        ground (arith, tests.2),
        subst (λ l. Permᴰ payload.pages l) same
            (Permᴰ_sym (sort_by_key-Permᴰ page_number payload.pages)),
        subst (IsIncreasing page_number) same increasing,
        subst (HasParts id version payload) tests.4 (result_of-HasParts id version payload sorted),
      )

  accept :
      (id : DocumentId) (version : DocumentVersion) (payload : DocumentResultPayload Value)
      (ps : List DocumentPage)
      → IsComplete payload
      → length payload.pages ≤ maximum_page_count
      → sort_by_key page_number payload.pages ≡ ps
      → repeats_page ps ≡ false
      → new id version payload ≡ ok (result_of id version payload ps)
  unfolding new
  accept id version payload ps complete l s r =
      let cited = (uncited_iff payload.text payload.markdown payload.citations).1 complete.0 in
      let named = (names_iff payload.fields).1 complete.1 in
      let few : ltb maximum_page_count (length payload.pages) ≡ false = ground (arith, l) in
      rw (cited, named, few, s, r)

  -- A result is made exactly of a payload that cites evidence for its text, names its fields in 1
  -- to 128 bytes, and has at most 1000 pages with numbers that differ. It has each part of the
  -- payload under its name, the parts of the provenance or none of them, and the pages in the order
  -- of their numbers.
  pub new_result_iff :
      (id : DocumentId) (version : DocumentVersion) (payload : DocumentResultPayload Value)
      (r : DocumentResult Value)
      → (new id version payload ≡ ok r) ↔ IsResultOf id version payload r
  new_result_iff id version payload r = (
    made id version payload r,
    λ (complete, l, p, increasing, parts).
        (let sorted = increasing-IsSorted page_number r.pages increasing in
          accept id version payload r.pages complete l (sort_by_key_unique page_number p increasing)
            ((repeats_page_iff r.pages sorted).1 increasing)
          ∙ ap ok (HasParts-result_of id version payload r parts)),
  )

-- A provenance that `ProcessingProvenance::new` accepts.
abbrev pub IsMade : Option ProcessingProvenance → Type 0
IsMade none = Unit
IsMade (some p) =
    new_processing_provenance p.provider p.model_version p.processing_profile_version p.duration_ms
    ≡ ok p

stored-IsMade :
    (o : Option ProcessingProvenance)
    → IsMade o
    → stored_provenance
        (Option.map (λ p. p.provider) o)
        (Option.map (λ p. p.model_version) o)
        (Option.map (λ p. p.processing_profile_version) o)
        (Option.map (λ p. p.duration_ms) o)
      ≡ ok o
unfolding stored_provenance
stored-IsMade none h = refl
stored-IsMade (some p) h = rw h

module _ {ℓ} {Value : Type ℓ} where
  try_from-result_of :
      (id : DocumentId) (version : DocumentVersion) (payload : DocumentResultPayload Value)
      (ps : List DocumentPage)
      → IsComplete payload
      → length ps ≤ maximum_page_count
      → IsIncreasing page_number ps
      → IsMade payload.provenance
      → try_from (result_of id version payload ps) ≡ ok (result_of id version payload ps)
  unfolding try_from
  try_from-result_of id version payload ps complete l increasing h =
      let again =
        (new_result_iff id version (record payload { pages = ps })
            (result_of id version payload ps)).1
          (
            complete,
            l,
            Permᴰ_refl ps,
            increasing,
            result_of-HasParts id version (record payload { pages = ps }) ps,
          ) in
      rw (stored-IsMade payload.provenance h, again)

  -- The stored form of a result that was made is read back as the same result, where its
  -- provenance, if it has one, is one that `ProcessingProvenance::new` accepts.
  pub try_from-new :
      (id : DocumentId) (version : DocumentVersion) (payload : DocumentResultPayload Value)
      (r : DocumentResult Value)
      → IsMade payload.provenance
      → new id version payload ≡ ok r
      → try_from r ≡ ok r
  try_from-new id version payload r h e =
      let (complete, l, p, increasing, parts) = made id version payload r e in
      subst (λ x. try_from x ≡ ok x) (HasParts-result_of id version payload r parts)
        (try_from-result_of id version payload r.pages complete (omega (arith, l, length-Permᴰ p))
          increasing h)
