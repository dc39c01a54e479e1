-- ===== src/Crypto/Derivation.antt =====
-- crypto.py: the keys that are derived from secrets, with SHA-256.
use yakr.Prelude.{ℕ, ◌/◌, ◌%◌, ◌++◌, [], ◌∷◌, Bytes, Text, codes}
use yakr.Crypto.{Crypto}

-- `seq.to_bytes(8, "big")`, for a number below 2 ^ 64.
unfoldable pub pack64 : ℕ → Bytes
pack64 n =
    n / 0x100000000000000 % 256
    ∷ n / 0x1000000000000 % 256
    ∷ n / 0x10000000000 % 256
    ∷ n / 0x100000000 % 256
    ∷ n / 0x1000000 % 256
    ∷ n / 0x10000 % 256
    ∷ n / 0x100 % 256
    ∷ n % 256
    ∷ []

module _ (k : Crypto) where
  -- `hkdf_derive` with its default length of 32.
  abbrev pub hkdf_derive : Bytes → Bytes → Bytes → Bytes
  hkdf_derive ikm info salt = k.hkdf 32 ikm info salt

  unfoldable pub derive_master_secret : Bytes → Bytes → Bytes
  derive_master_secret shared_secret salt =
      hkdf_derive shared_secret (codes "yakr/v0.1/master") salt

  unfoldable pub derive_message_key : Bytes → ℕ → Bytes
  derive_message_key master_secret seq =
      hkdf_derive master_secret (codes "yakr/v0.1/message-key" ++ pack64 seq) []

  -- `direction.encode("utf-8")`, of a text in ASCII.
  unfoldable pub derive_mailbox_secret : Bytes → Text → Bytes
  derive_mailbox_secret master_secret direction =
      hkdf_derive master_secret (codes "yakr/v0.1/mailbox-tag" ++ direction) []
