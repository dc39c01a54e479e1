-- ===== src/Ephemeral.antt =====
-- core/ephemeral.py: lifetimes in milliseconds, and the tests on a message's `valid_until`.
use yakr.Prelude.{ℕ, ◌+◌, ◌*◌, Bool, Result, raise_if, ltb}

abbrev pub message_ttl_ms : ℕ
message_ttl_ms = 24 * 60 * 60 * 1000

abbrev pub presence_ttl_ms : ℕ
presence_ttl_ms = 30 * 60 * 1000

abbrev pub default_blob_ttl_ms : ℕ
default_blob_ttl_ms = message_ttl_ms

abbrev pub max_relay_blob_ttl_ms : ℕ
max_relay_blob_ttl_ms = message_ttl_ms

abbrev pub message_valid_until : ℕ → ℕ
message_valid_until created_at = created_at + message_ttl_ms

abbrev pub is_message_expired : ℕ → ℕ → Bool
is_message_expired valid_until now = ltb valid_until now

pub data TtlError : Type 0 where
  message_expired : TtlError

-- The argument `now` is the clock that the call reads.
abbrev pub enforce_message_ttl : ℕ → ℕ → Result TtlError (Unit {0})
enforce_message_ttl valid_until now = raise_if (is_message_expired valid_until now) message_expired
