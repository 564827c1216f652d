-- ===== src/Domain/Pages.antt =====
-- Text observations and the pages that hold them, from crates/ocr-domain/src/lib.rs. The
-- conversions from `RawTextObservation` and `RawDocumentPage` call `new` with the same fields.
pub mod Order
pub mod Made
use document_intelligence.Base.{
  ℕ, ◌+◌, Bool, true, false, ◌&&◌, ◌||◌, not, List, [], ◌∷◌, Option, none, some, if◌then◌else◌, ltb,
  ◌==◌, all, any, length, Result, ok, err, sort_by_key,
}
use document_intelligence.Base.Text.{Str, len, str_eq, is_whitespace, is_some_and}
use document_intelligence.Domain.Errors.{Error, invalid_text_observation, invalid_document_page}
use document_intelligence.Domain.Ids.{ObservationId}
use document_intelligence.Domain.Geometry.{PageNumber, Confidence, Polygon}

pub data ObservationLevel : Type 0 where
  page paragraph line word : ObservationLevel

pub record Evidence : Type 0 where
  pub page : PageNumber
  pub polygon : Polygon
  pub observation_id : ObservationId

pub record TextObservation : Type 0 where
  pub observation_id : ObservationId
  pub level : ObservationLevel
  pub text : Str
  pub confidence : Confidence
  pub polygon : Polygon
  pub reading_order : ℕ
  pub parent_observation_id : Option ObservationId

-- `==` on observation identifiers
abbrev pub same_id : ObservationId → ObservationId → Bool
same_id a b = str_eq a.text b.text

unfoldable pub new_text_observation :
    ObservationId
    → ObservationLevel
    → Str
    → Confidence
    → Polygon
    → ℕ
    → Option ObservationId
    → Result Error TextObservation
unfolding len str_eq
new_text_observation observation_id level text confidence polygon reading_order parent =
    if all is_whitespace text || ltb 65536 (len text)
    then err invalid_text_observation
    else if is_some_and parent (same_id observation_id)
    then err invalid_text_observation
    else ok (record {
      observation_id = observation_id;
      level = level;
      text = text;
      confidence = confidence;
      polygon = polygon;
      reading_order = reading_order;
      parent_observation_id = parent;
    })

pub record DocumentPage : Type 0 where
  pub page : PageNumber
  pub width : ℕ
  pub height : ℕ
  pub observations : List TextObservation

-- `contains` of `seen_orders` and of `seen_ids`, which hold those of the observations before
abbrev pub seen_order : ℕ → List TextObservation → Bool
seen_order order before = any (λ o. o.reading_order == order) before

abbrev pub seen_id : ObservationId → List TextObservation → Bool
seen_id id before = any (λ o. same_id o.observation_id id) before

-- The test of one observation, true for one that `DocumentPage::new` refuses.
abbrev pub is_misplaced : List TextObservation → TextObservation → Bool
is_misplaced before o =
    seen_order o.reading_order before
    || (is_some_and o.parent_observation_id (λ p. not (seen_id p before))
        || seen_id o.observation_id before)

-- The loop of `DocumentPage::new`: whether it refuses one of the observations.
unfoldable pub has_misplaced : List TextObservation → List TextObservation → Bool
unfolding str_eq
has_misplaced before [] = false
has_misplaced before (o ∷ os) = is_misplaced before o || has_misplaced (o ∷ before) os

unfoldable pub new_document_page :
    PageNumber → ℕ → ℕ → List TextObservation → Result Error DocumentPage
unfolding has_misplaced sort_by_key
new_document_page number width height observations =
    if width == 0 || (height == 0 || ltb 10_0000 (length observations))
    then err invalid_document_page
    else (let sorted = sort_by_key (λ o. o.reading_order) observations in
        if has_misplaced [] sorted
        then err invalid_document_page
        else ok (record { page = number; width = width; height = height; observations = sorted }))
