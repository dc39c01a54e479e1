-- ===== src/Relay/BlobStore/Tests.antt =====
-- relay/store.py: examples.
use yakr.Prelude.{◌≡◌, refl, some, [], ◌∷◌, ok, replicate, Bytes}
use yakr.Relay.BlobStore.{BlobStore, empty, new_row, store}
use yakr.Relay.BlobStore.Quota.{IsValid, Reach, here, next, stored, Reach-IsValid, empty-IsValid}

abbrev alice : Bytes
alice = replicate 32 1

abbrev nine : Bytes
nine = 9 ∷ []

abbrev eight : Bytes
eight = 8 ∷ []

abbrev before : BlobStore
before = empty 10 2

abbrev after : BlobStore
after = record {
  max_blob_size = 10;
  max_blobs_per_tag = 2;
  next_id = 2;
  rows = new_row 0 alice 5 (7 ∷ []) (some nine) 1 ∷ [];
}

store_accepts : store 0 alice 5 (7 ∷ []) (some nine) before ≡ ok after
unfolding store
store_accepts = refl

after-Reach : Reach 0 before 0 after
after-Reach = next here (stored alice 5 (7 ∷ []) (some nine) after store_accepts)

Reach-IsValid_example : IsValid 0 after
Reach-IsValid_example = Reach-IsValid (empty-IsValid 0 10 2) after-Reach
