-- ===== src/Domain/Results/Tests.antt =====
-- Pages, results, sizes and costs, and the theorems at these inputs.
use document_intelligence.Base.{ℕ, ◌≡◌, ◌↔◌, refl, [], ◌∷◌, none, some, ok, err}
use document_intelligence.Base.Text.{codes}
use document_intelligence.Domain.Errors.{
  invalid_document_page, invalid_text_observation, invalid_cost, invalid_page_geometry,
  invalid_processing_provenance, missing_document_evidence, unsupported_result_schema_version,
}
use document_intelligence.Domain.Ids.{ObservationId, DocumentId, DocumentVersion}
use document_intelligence.Domain.Geometry.{
  Confidence, PageNumber, PageGeometry, Polygon, one, new_page_geometry,
}
use document_intelligence.Domain.Pages.{
  TextObservation, DocumentPage, line, word, new_text_observation, new_document_page,
}
use document_intelligence.Domain.Pages.Made.{IsPageOf, new_document_page_iff}
use document_intelligence.Domain.Documents.{Cost, new_cost, new_processing_provenance}
use document_intelligence.Domain.Results.{
  DocumentResult, DocumentResultPayload, new, try_from, result_of,
}
use document_intelligence.Domain.Results.Laws.{IsResultOf, new_result_iff, try_from-new}

abbrev sure : Confidence
sure = record { value = one }

abbrev shape : Polygon
shape = record { points = [] }

abbrev line_id : ObservationId
line_id = record { text = codes "obs_line" }

abbrev a_line : TextObservation
a_line = record {
  observation_id = line_id;
  level = line;
  text = codes "Total 12";
  confidence = sure;
  polygon = shape;
  reading_order = 1;
  parent_observation_id = none;
}

abbrev a_word : TextObservation
a_word = record {
  observation_id = record { text = codes "obs_word" };
  level = word;
  text = codes "Total";
  confidence = sure;
  polygon = shape;
  reading_order = 2;
  parent_observation_id = some line_id;
}

abbrev one_page : PageNumber
one_page = record { number = 1 }

abbrev two_page : PageNumber
two_page = record { number = 2 }

abbrev a_page : DocumentPage
a_page = record { page = one_page; width = 800; height = 600; observations = a_line ∷ a_word ∷ [] }

abbrev empty_page : DocumentPage
empty_page = record { page = two_page; width = 800; height = 600; observations = [] }

-- The observations are sorted; one whose parent is missing or read later is refused.
pages_made :
    (new_document_page one_page 800 600 (a_word ∷ a_line ∷ []) ≡ ok a_page)
    × (new_document_page one_page 800 600 (a_word ∷ []) ≡ err invalid_document_page)
    × (new_document_page one_page 800 600 (a_line ∷ a_line ∷ []) ≡ err invalid_document_page)
    × (new_document_page one_page 0 600 [] ≡ err invalid_document_page)
unfolding new_document_page
pages_made = (refl, refl, refl, refl)

observations_made :
    (new_text_observation line_id line (codes "Total 12") sure shape 1 none ≡ ok a_line)
    × (new_text_observation line_id line (codes " \t") sure shape 1 none
        ≡ err invalid_text_observation)
    × (new_text_observation line_id line (codes "x") sure shape 1 (some line_id)
        ≡ err invalid_text_observation)
unfolding new_text_observation
observations_made = (refl, refl, refl)

new_document_page_iff_example :
    (new_document_page one_page 800 600 (a_word ∷ a_line ∷ []) ≡ ok a_page)
    ↔ IsPageOf one_page 800 600 (a_word ∷ a_line ∷ []) a_page
new_document_page_iff_example = new_document_page_iff one_page 800 600 (a_word ∷ a_line ∷ []) a_page

abbrev id : DocumentId
id = record { text = codes "doc_1" }

abbrev version : DocumentVersion
version = record { text = codes "sha256:0" }

abbrev payload : DocumentResultPayload ℕ
payload = record {
  text = codes "Total 12";
  markdown = [];
  pages = empty_page ∷ a_page ∷ [];
  fields = [];
  tables = [];
  confidence = none;
  citations = record { page = one_page; polygon = shape; observation_id = line_id } ∷ [];
  warnings = [];
  validation_failures = [];
  provenance = some (record {
    provider = codes "native";
    model_version = codes "1.0";
    processing_profile_version = codes "standard-2";
    duration_ms = 12;
  });
  cost = none;
}

abbrev a_result : DocumentResult ℕ
a_result = result_of id version payload (a_page ∷ empty_page ∷ [])

results_made :
    (new id version payload ≡ ok a_result)
    × (new id version (record payload { citations = [] }) ≡ err missing_document_evidence)
    × (new id version (record payload { pages = a_page ∷ a_page ∷ [] }) ≡ err invalid_document_page)
unfolding new
results_made = (refl, refl, refl)

results_read :
    (try_from (record a_result { provider = none }) ≡ err invalid_processing_provenance)
    × (try_from (record a_result { schema_version = codes "2.0" })
        ≡ err unsupported_result_schema_version)
unfolding try_from
results_read = (refl, refl)

new_result_iff_example :
    (new id version payload ≡ ok a_result) ↔ IsResultOf id version payload a_result
new_result_iff_example = new_result_iff id version payload a_result

try_from-new_example : try_from a_result ≡ ok a_result
unfolding new_processing_provenance
try_from-new_example = try_from-new id version payload a_result refl results_made.0

abbrev geometry : PageGeometry
geometry = record { page = one_page; width = 800; height = 600 }

sizes :
    (new_page_geometry one_page 800 600 ≡ ok geometry)
    × (new_page_geometry one_page 20000 20000 ≡ err invalid_page_geometry)
unfolding new_page_geometry
sizes = (refl, refl)

abbrev price : Cost
price = record { currency = codes "USD"; decimal = codes "0.015" }

costs :
    (new_cost (codes "USD") (codes "0.015") ≡ ok price)
    × (new_cost (codes "usd") (codes "1") ≡ err invalid_cost)
    × (new_cost (codes "USD") (codes "1.") ≡ err invalid_cost)
    × (new_cost (codes "USD") (codes "1.2.3") ≡ err invalid_cost)
unfolding new_cost
costs = (refl, refl, refl, refl)
