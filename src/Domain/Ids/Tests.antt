-- ===== src/Domain/Ids/Tests.antt =====
-- Accepted and refused texts, and the theorems at these inputs.
use document_intelligence.Base.{◌≡◌, refl, ok, err}
use document_intelligence.Base.Text.{codes}
use document_intelligence.Domain.Errors.{
  invalid_job_id, invalid_product_id, invalid_stable_code, invalid_document_version,
  invalid_embedding_version,
}
use document_intelligence.Domain.Ids.{
  new_job_id, new_product_id, new_stable_code, new_document_version, new_embedding_version,
}

job_ids :
    (new_job_id (codes "job_a1") ≡ ok (record { text = codes "job_a1" }))
    × (new_job_id (codes "job_") ≡ err invalid_job_id)
    × (new_job_id (codes "job_a-1") ≡ err invalid_job_id)
    × (new_job_id (codes "ten_a1") ≡ err invalid_job_id)
unfolding new_job_id
job_ids = (refl, refl, refl, refl)

product_ids :
    (new_product_id (codes "kora-2") ≡ ok (record { text = codes "kora-2" }))
    × (new_product_id (codes "-kora") ≡ err invalid_product_id)
    × (new_product_id (codes "Kora") ≡ err invalid_product_id)
unfolding new_product_id
product_ids = (refl, refl, refl)

codes_and_versions :
    (new_stable_code (codes "low_contrast") ≡ ok (record { text = codes "low_contrast" }))
    × (new_stable_code (codes "2fast") ≡ err invalid_stable_code)
    × (new_document_version (codes "sha256:12") ≡ err invalid_document_version)
    × (new_embedding_version (codes "emb_e5.small") ≡ ok (record { text = codes "emb_e5.small" }))
    × (new_embedding_version (codes "emb_e5.") ≡ err invalid_embedding_version)
unfolding new_stable_code new_document_version new_embedding_version
codes_and_versions = (refl, refl, refl, refl, refl)
