-- ===== src/Crypto.antt =====
-- packages/yakr-core/src/yakr_core/crypto.py, and the cryptographic libraries (cryptography, nacl,
-- hashlib, hmac), which the program only calls and which are a parameter.
pub mod Derivation
pub mod Sealing
use yakr.Prelude.{
  ℕ, ◌≡◌, refl, Bool, true, Option, none, some, List, [], ◌++◌, Result, ok, err, ◌>>=◌, ◌>>◌,
  raise_if, or_raise, ◌∷◌, ◌<◌, ◌==◌, arith, ltb, if◌then◌else◌, length, take, drop, Bytes, IsBytes,
  replicate, eqb,
}

-- `ed25519_verify` is false where the library raises: a bad signature, or a key of the wrong size. The AEAD takes
-- the key, the associated data and the nonce; `hkdf` the length, the key material, the info and the salt; `hmac_sha256` the key
-- and the message; `kem_encrypt` the public key and the random bytes, for the ciphertext and the secret.
pub record Crypto : Type 0 where
  pub sha256 : Bytes → Bytes
  pub ed25519_verify : Bytes → Bytes → Bytes → Bool
  pub ed25519_sign : Bytes → Bytes → Bytes
  pub ed25519_public : Bytes → Bytes
  pub aead_encrypt : Bytes → Bytes → Bytes → Bytes → Bytes
  pub aead_decrypt : Bytes → Bytes → Bytes → Bytes → Option Bytes
  pub hkdf : ℕ → Bytes → Bytes → Bytes → Bytes
  pub x25519_public : Bytes → Bytes
  pub x25519_exchange : Bytes → Bytes → Option Bytes
  pub hmac_sha256 : Bytes → Bytes → Bytes
  pub kem_encrypt : Bytes → Bytes → Bytes × Bytes
  pub kem_decrypt : Bytes → Bytes → Bytes

-- What the AEAD is documented to do: it opens what it sealed, and it makes bytes of bytes.
pub record IsAead (k : Crypto) : Type 0 where
  pub opens :
      (key ad nonce plaintext : Bytes)
      → k.aead_decrypt key ad nonce (k.aead_encrypt key ad nonce plaintext) ≡ some plaintext
  pub sealed-IsBytes :
      (key ad nonce plaintext : Bytes)
      → IsBytes plaintext
      → IsBytes (k.aead_encrypt key ad nonce plaintext)

-- What Ed25519 is documented to do: a signature is 64 bytes, and verifies under the key's public part.
pub record IsSignature (k : Crypto) : Type 0 where
  pub verifies :
      (private message : Bytes)
      → k.ed25519_verify (k.ed25519_public private) (k.ed25519_sign private message) message ≡ true
  pub signature-IsBytes : (private message : Bytes) → IsBytes (k.ed25519_sign private message)
  pub signature-length : (private message : Bytes) → length (k.ed25519_sign private message) ≡ 64

pub data CryptoError : Type 0 where
  ciphertext_too_short decryption_failed : CryptoError

-- The nonce is the 24 bytes that `os.urandom` gave.
unfoldable pub xchacha_encrypt : Crypto → Bytes → Bytes → Bytes → Bytes → Bytes
xchacha_encrypt k nonce key plaintext ad = nonce ++ k.aead_encrypt key ad nonce plaintext

unfoldable pub xchacha_decrypt : Crypto → Bytes → Bytes → Bytes → Result CryptoError Bytes
xchacha_decrypt k key payload ad = do
  raise_if (ltb (length payload) 24) ciphertext_too_short
  or_raise (k.aead_decrypt key ad (take 24 payload) (drop 24 payload)) decryption_failed

-- For the examples: a sealed text has a mark before it.
abbrev pub toy_open : Bytes → Option Bytes
toy_open [] = none
toy_open (b ∷ bs) = if b == 7 then some bs else none

-- For the examples: a signature is the key before the message, and all exchanges agree on one secret.
abbrev pub toy_crypto : Crypto
toy_crypto = record {
  sha256 = λ bs. replicate 32 5;
  ed25519_verify = λ public signature message. eqb signature (public ++ message);
  ed25519_sign = λ private message. private ++ message;
  ed25519_public = λ private. private;
  aead_encrypt = λ key ad nonce plaintext. 7 ∷ plaintext;
  aead_decrypt = λ key ad nonce sealed. toy_open sealed;
  hkdf = λ size ikm info salt. take size (ikm ++ salt ++ replicate size 8);
  x25519_public = λ private. private;
  x25519_exchange = λ private public. some (replicate 32 9);
  hmac_sha256 = λ key message. key ++ message;
  kem_encrypt = λ public coins. (replicate 1088 4, replicate 32 6);
  kem_decrypt = λ private ciphertext. replicate 32 6;
}

pub toy_crypto-IsAead : IsAead toy_crypto
toy_crypto-IsAead = record {
  opens = λ key ad nonce plaintext. refl;
  sealed-IsBytes = λ key ad nonce plaintext h. (omega arith, h);
}

-- For the examples: every signature verifies.
abbrev pub trusting_crypto : Crypto
trusting_crypto = record toy_crypto { ed25519_verify = λ public signature message. true }

-- For the examples: all signatures are the same 64 bytes.
abbrev pub signing_crypto : Crypto
signing_crypto = record toy_crypto {
  ed25519_sign = λ private message. replicate 64 7;
  ed25519_verify = λ public signature message. eqb signature (replicate 64 7);
}

pub signing_crypto-IsSignature : IsSignature signing_crypto
unfolding eqb
signing_crypto-IsSignature = record {
  verifies = λ private message. refl;
  signature-IsBytes = λ private message. ground arith;
  signature-length = λ private message. refl;
}
