-- ===== src/HybridPq.antt =====
-- packages/yakr-core/src/yakr_core/hybrid_pq.py: when a hybrid session has to be re-keyed, and ML-KEM-768, which
-- is a parameter with its sizes.
use yakr.Prelude.{
  ℕ, ◌-◌, ◌*◌, ◌++◌, Bool, false, not, ◌||◌, Result, ok, ◌>>◌, raise_if, leb, ◌==◌, if◌then◌else◌,
  length, Bytes, codes,
}
use yakr.Crypto.{Crypto}
use yakr.Crypto.Derivation.{hkdf_derive}

abbrev pub pq_rekey_max_messages : ℕ
pq_rekey_max_messages = 10000

abbrev pub pq_rekey_max_age_ms : ℕ
pq_rekey_max_age_ms = 7 * 24 * 60 * 60 * 1000

abbrev pub public_key_size : ℕ
public_key_size = 1184

abbrev pub secret_key_size : ℕ
secret_key_size = 2400

abbrev pub ciphertext_size : ℕ
ciphertext_size = 1088

abbrev pub plaintext_size : ℕ
plaintext_size = 32

pub data HybridError : Type 0 where
  public_key_length secret_key_length ciphertext_length secret_length : HybridError

-- The age `now - session_started_at` is below 0 while the clock is behind.
unfoldable pub needs_pq_rekey : ℕ → Bool → ℕ → ℕ → Bool
needs_pq_rekey now hybrid session_started_at messages_sent =
    if not hybrid
    then false
    else leb pq_rekey_max_age_ms (now - session_started_at)
      || leb pq_rekey_max_messages messages_sent

module _ (k : Crypto) where
  -- `coins` are the random bytes of the encapsulation.
  unfoldable pub kem_encapsulate : Bytes → Bytes → Result HybridError (Bytes × Bytes)
  kem_encapsulate coins public_key = do
    raise_if (not (length public_key == public_key_size)) public_key_length
    ok (k.kem_encrypt public_key coins)

  unfoldable pub kem_decapsulate : Bytes → Bytes → Result HybridError Bytes
  kem_decapsulate secret_key ciphertext = do
    raise_if (not (length secret_key == secret_key_size)) secret_key_length
    raise_if (not (length ciphertext == ciphertext_size)) ciphertext_length
    ok (k.kem_decrypt secret_key ciphertext)

  unfoldable pub derive_hybrid_master : Bytes → Bytes → Bytes → Bytes → Result HybridError Bytes
  derive_hybrid_master identity_shared ephemeral_shared pq_secret transcript_hash = do
    raise_if (not (length pq_secret == plaintext_size)) secret_length
    ok (
        hkdf_derive k ((identity_shared ++ ephemeral_shared) ++ pq_secret)
          (codes "yakr/v0.6/hybrid-master") transcript_hash)
