-- ===== src/Domain/SemanticMemory/Tests.antt =====
-- A point of the vector index, its collection and its metadata, and the theorem for its message.
use document_intelligence.Base.{◌≡◌, refl, [], ◌∷◌, arith, ok, err}
use document_intelligence.Base.Text.{codes, bytes, len}
use document_intelligence.Domain.Errors.{
  invalid_semantic_collection, invalid_semantic_query_scope, invalid_vector_point_metadata,
}
use document_intelligence.Domain.Ids.{
  TenantId, MemoryRecordId, MemoryRecordVersion, EmbeddingVersion,
}
use document_intelligence.Domain.SemanticMemory.{
  SemanticCollection, VectorPointMetadata, pos, negsuc, new_semantic_collection, alias,
  new_semantic_query_scope, new_vector_point_metadata,
}
use document_intelligence.Domain.SemanticMemory.Laws.{message-injective}

abbrev tenant : TenantId
tenant = record { text = codes "ten_a" }

abbrev memory : MemoryRecordId
memory = record { text = codes "mem_b" }

abbrev version : MemoryRecordVersion
version = record { text = codes "sha256:0" }

abbrev embedding : EmbeddingVersion
embedding = record { text = codes "emb_e5" }

abbrev collection : SemanticCollection
collection = record { schema_major = 1; embedding_major = 12 }

collections :
    (new_semantic_collection 1 12 ≡ ok collection)
    × (new_semantic_collection 0 12 ≡ err invalid_semantic_collection)
    × (alias collection ≡ codes "ocr-memory-s1-e12")
    × (new_semantic_query_scope tenant collection 101 ≡ err invalid_semantic_query_scope)
unfolding new_semantic_collection alias new_semantic_query_scope
collections = (refl, refl, refl, refl)

abbrev metadata : VectorPointMetadata
metadata = record {
  tenant_id = tenant;
  memory_record_id = memory;
  memory_record_version = version;
  document_id = record { text = codes "doc_1" };
  document_version = record { text = codes "sha256:0" };
  chunk_id = record { text = codes "chk_1" };
  observation_ids = record { text = codes "obs_1" } ∷ record { text = codes "obs_2" } ∷ [];
  embedding_version = embedding;
  collection = collection;
  retention_deadline_unix_seconds = pos 5;
}

-- Evidence twice, no evidence, and a deadline that is not after the epoch are refused.
points :
    (new_vector_point_metadata metadata ≡ ok metadata)
    × (new_vector_point_metadata (record metadata {
      observation_ids = record { text = codes "obs_1" } ∷ record { text = codes "obs_1" } ∷ [];
    })
        ≡ err invalid_vector_point_metadata)
    × (new_vector_point_metadata (record metadata { observation_ids = [] })
        ≡ err invalid_vector_point_metadata)
    × (new_vector_point_metadata (record metadata { retention_deadline_unix_seconds = negsuc 0 })
        ≡ err invalid_vector_point_metadata)
unfolding new_vector_point_metadata
points = (refl, refl, refl, refl)

message-injective_example :
    (bytes tenant.text ≡ bytes tenant.text)
    × (bytes memory.text ≡ bytes memory.text)
    × (bytes version.text ≡ bytes version.text)
    × (bytes embedding.text ≡ bytes embedding.text)
unfolding len bytes
message-injective_example =
    message-injective tenant tenant memory memory version version embedding embedding
      (omega arith, omega arith, omega arith, omega arith)
      (omega arith, omega arith, omega arith, omega arith) refl
