-- ===== src/Ratchet/Chains.antt =====
-- ratchet.py: the key derivations, and the keys of skipped messages.
use yakr.Prelude.{
  ℕ, zero, suc, ◌+◌, none, some, [], ◌∷◌, ◌++◌, Result, err, or_raise, take, drop, Bytes, Text,
  codes, lookup, insert, decimal, hex,
}
use yakr.Base64.{b64encode, b64decode}
use yakr.Crypto.{Crypto, CryptoError}
use yakr.Ratchet.State.{RatchetState}

pub data RatchetError : Type 0 where
  payload_too_short invalid_header recv_chain_missing send_chain_missing already_received :
      RatchetError
  skip_gap_too_large skipped_key_limit peer_key_length bad_exchange header_overflow
        bad_skipped_key :
      RatchetError
  sealed_message : CryptoError → RatchetError

abbrev pub max_skip_gap : ℕ
max_skip_gap = 128

abbrev pub max_skipped_keys : ℕ
max_skipped_keys = 256

abbrev pub ratchet_magic : Bytes
ratchet_magic = codes "YKDR2"

-- `f"{dh_public.hex()}:{n}"`
unfoldable pub key_id : Bytes → ℕ → Text
key_id dh_public n = hex dh_public ++ b':' ∷ decimal n

unfoldable pub store_skip : Bytes → ℕ → Bytes → RatchetState → RatchetState
store_skip dh_public n message_key s = record s {
  skipped_keys = insert (key_id dh_public n) (b64encode message_key) s.skipped_keys;
}

-- The stored key stays where it is. A missing one is the error of `decrypt`.
unfoldable pub skip_key : Bytes → ℕ → RatchetState → Result RatchetError Bytes
skip_key dh_public n s = elim (lookup (key_id dh_public n) s.skipped_keys) [
  | none ↦ err already_received
  | some stored ↦ or_raise (b64decode stored) bad_skipped_key
]

module _ (k : Crypto) where
  unfoldable pub kdf_rk : Bytes → Bytes → Bytes × Bytes
  kdf_rk root_key dh_output =
      let material = k.hkdf 64 root_key (codes "yakr/v1.0/double-ratchet-rk") dh_output in
      (take 32 material, drop 32 material)

  -- The message key, and the next chain key.
  unfoldable pub kdf_ck : Bytes → Bytes × Bytes
  kdf_ck chain_key =
      let material = k.hkdf 64 chain_key (codes "yakr/v1.0/double-ratchet-ck") [] in
      (take 32 material, drop 32 material)

  -- `while self.recv_n < message_n`, with the number of rounds: the chain key and the state behind it.
  unfoldable pub skip_keys : ℕ → Bytes → Bytes → RatchetState → Bytes × RatchetState
  skip_keys zero dh_public chain_key s = (chain_key, s)
  skip_keys (suc gap) dh_public chain_key s =
      let step = kdf_ck chain_key in
      let stored = store_skip dh_public s.recv_n step.0 s in
      skip_keys gap dh_public step.1
        (record stored { recv_chain_key = some step.1; recv_n = s.recv_n + 1 })
