-- ===== src/Onion.antt =====
-- packages/yakr-core/src/yakr_core/onion.py: a packet of two layers, for an entry relay and a mailbox relay.
pub mod RoundTrip
use yakr.Prelude.{
  ℕ, Bool, Option, some, none, List, [], ◌++◌, Result, ok, err, ◌>>=◌, or_raise, on_error, Bytes,
  Text, codes, eqb, if◌then◌else◌,
}
use yakr.Codec.{
  Codec, Value, int, bytes, text, list, map, other, end, field, Fields, get, int_field, str_field,
  bytes_field,
}
use yakr.Crypto.{Crypto, CryptoError, xchacha_encrypt, xchacha_decrypt}
use yakr.Message.{OuterBlob}

-- A layer that does not open, and any other exception.
pub data OnionError : Type 0 where
  sealed_layer : CryptoError → OnionError
  malformed : OnionError

-- `data[…]` of what was loaded: only a dict has the keys.
abbrev pub fields_of : Value → Option Fields
fields_of (map fs) = some fs
fields_of _ = none

unfoldable pub mailbox_instruction : OuterBlob → Value
mailbox_instruction outer = map (
    field (codes "mailbox_tag") (bytes outer.mailbox_tag) (
      field (codes "expires_at") (int outer.expires_at)
        (field (codes "ciphertext") (bytes outer.ciphertext) end)))

unfoldable pub forward_instruction : Text → Bytes → Value
forward_instruction next_relay inner =
    map (field (codes "next_relay") (text next_relay) (field (codes "inner") (bytes inner) end))

unfoldable pub entry_packet : Bytes → Value
entry_packet sealed =
    map (field (codes "version") (int 1) (field (codes "entry_ciphertext") (bytes sealed) end))

module _ (c : Codec) where
  unfoldable pub encode_mailbox_instruction : OuterBlob → Bytes
  encode_mailbox_instruction outer = c.dumps (mailbox_instruction outer)

  unfoldable pub decode_mailbox_instruction : Bytes → Result OnionError OuterBlob
  decode_mailbox_instruction payload = do
    value ← or_raise (c.loads payload) malformed
    data_ ← or_raise (fields_of value) malformed
    mailbox_tag ← or_raise (bytes_field c (codes "mailbox_tag") data_) malformed
    expires_at ← or_raise (int_field c (codes "expires_at") data_) malformed
    ciphertext ← or_raise (bytes_field c (codes "ciphertext") data_) malformed
    ok (record {
      version = 1;
      mailbox_tag = mailbox_tag;
      expires_at = expires_at;
      ciphertext = ciphertext;
    })

  unfoldable pub encode_forward_instruction : Text → Bytes → Bytes
  encode_forward_instruction next_relay inner = c.dumps (forward_instruction next_relay inner)

  unfoldable pub decode_forward_instruction : Bytes → Result OnionError (Text × Bytes)
  decode_forward_instruction payload = do
    value ← or_raise (c.loads payload) malformed
    data_ ← or_raise (fields_of value) malformed
    next_relay ← or_raise (str_field c (codes "next_relay") data_) malformed
    inner ← or_raise (bytes_field c (codes "inner") data_) malformed
    ok (next_relay, inner)

module _ (k : Crypto) where
  unfoldable pub encrypt_layer : Bytes → Bytes → Bytes → Bytes
  encrypt_layer nonce wrap_secret plaintext = xchacha_encrypt k nonce wrap_secret plaintext []

  unfoldable pub decrypt_layer : Bytes → Bytes → Result OnionError Bytes
  decrypt_layer wrap_secret payload =
      on_error sealed_layer (xchacha_decrypt k wrap_secret payload [])

abbrev pub ingest_url : Text → Text
ingest_url mailbox_relay_url = mailbox_relay_url ++ codes "/v1/ingest"

module _ (c : Codec) (k : Crypto) where
  -- The layer for the mailbox relay.
  unfoldable pub mailbox_layer : Bytes → Bytes → OuterBlob → Bytes
  mailbox_layer nonce mailbox_wrap_secret outer =
      encrypt_layer k nonce mailbox_wrap_secret (encode_mailbox_instruction c outer)

  -- The two nonces are those of the inner and of the outer layer.
  unfoldable pub build_onion_packet : Bytes → Bytes → Bytes → Bytes → Text → OuterBlob → Bytes
  build_onion_packet inner_nonce outer_nonce entry_wrap_secret mailbox_wrap_secret mailbox_relay_url
        outer =
      let mailbox_cipher = mailbox_layer inner_nonce mailbox_wrap_secret outer in
      let forward_plain =
        encode_forward_instruction c (ingest_url mailbox_relay_url) mailbox_cipher in
      let entry_cipher = encrypt_layer k outer_nonce entry_wrap_secret forward_plain in
      c.dumps (entry_packet entry_cipher)

  unfoldable pub decode_entry_packet : Bytes → Bytes → Result OnionError (Text × Bytes)
  decode_entry_packet packet entry_wrap_secret = do
    value ← or_raise (c.loads packet) malformed
    data_ ← or_raise (fields_of value) malformed
    entry_ciphertext ← or_raise (bytes_field c (codes "entry_ciphertext") data_) malformed
    forward_plain ← decrypt_layer k entry_wrap_secret entry_ciphertext
    decode_forward_instruction c forward_plain

  unfoldable pub decode_mailbox_packet : Bytes → Bytes → Result OnionError OuterBlob
  decode_mailbox_packet inner_ciphertext mailbox_wrap_secret = do
    mailbox_plain ← decrypt_layer k mailbox_wrap_secret inner_ciphertext
    decode_mailbox_instruction c mailbox_plain
