-- ===== src/Onion/RoundTrip.antt =====
-- onion.py: each relay peels its own layer.
use yakr.Prelude.{◌≡◌, refl, ok, length, eqb, Bytes, Text, []}
use yakr.Codec.{Codec}
use yakr.Crypto.{Crypto, IsAead}
use yakr.Crypto.Sealing.{xchacha_decrypt-encrypt}
use yakr.Message.{OuterBlob}
use yakr.Onion.{
  mailbox_instruction, forward_instruction, entry_packet, encode_mailbox_instruction,
  decode_mailbox_instruction, encode_forward_instruction, decode_forward_instruction, encrypt_layer,
  decrypt_layer, ingest_url, mailbox_layer, build_onion_packet, decode_entry_packet,
  decode_mailbox_packet,
}

module _ (c : Codec) (k : Crypto) (a : IsAead k) where
  decrypt_layer-encrypt_layer :
      (nonce secret plaintext : Bytes)
      → length nonce ≡ 24
      → decrypt_layer k secret (encrypt_layer k nonce secret plaintext) ≡ ok plaintext
  unfolding decrypt_layer encrypt_layer
  decrypt_layer-encrypt_layer nonce secret plaintext size =
      rw (xchacha_decrypt-encrypt k a nonce secret plaintext [] size) refl

  decode-encode_forward_instruction :
      (next_relay : Text) (inner : Bytes)
      → decode_forward_instruction c (encode_forward_instruction c next_relay inner)
        ≡ ok (next_relay, inner)
  unfolding decode_forward_instruction encode_forward_instruction forward_instruction eqb
  decode-encode_forward_instruction next_relay inner =
      rw c.loads-dumps (simp (c.bytes_of_bytes, c.str_of_text) refl)

  decode-encode_mailbox_instruction :
      (outer : OuterBlob)
      → decode_mailbox_instruction c (encode_mailbox_instruction c outer)
        ≡ ok (record outer { version = 1 })
  unfolding decode_mailbox_instruction encode_mailbox_instruction mailbox_instruction eqb
  decode-encode_mailbox_instruction outer =
      rw c.loads-dumps (simp (c.bytes_of_bytes, c.int_of_int) refl)

  -- The entry relay finds the address of the mailbox relay and the layer for it, and the mailbox relay finds the
  -- blob in that layer, with version 1.
  pub decode-build_onion_packet :
      (inner_nonce outer_nonce entry_secret mailbox_secret : Bytes) (url : Text) (outer : OuterBlob)
      → length inner_nonce ≡ 24
      → length outer_nonce ≡ 24
      → (decode_entry_packet c k
            (build_onion_packet c k inner_nonce outer_nonce entry_secret mailbox_secret url outer)
            entry_secret
          ≡ ok (ingest_url url, mailbox_layer c k inner_nonce mailbox_secret outer))
        × (decode_mailbox_packet c k
              (mailbox_layer c k inner_nonce mailbox_secret outer)
              mailbox_secret
            ≡ ok (record outer { version = 1 }))
  unfolding decode_entry_packet build_onion_packet decode_mailbox_packet mailbox_layer entry_packet
      eqb
  decode-build_onion_packet inner_nonce outer_nonce entry_secret mailbox_secret url outer h h' = (
    rw c.loads-dumps (
        rw (c.bytes_of_bytes _, decrypt_layer-encrypt_layer outer_nonce entry_secret _ h')
          (decode-encode_forward_instruction _ _)),
    rw (decrypt_layer-encrypt_layer inner_nonce mailbox_secret _ h)
        (decode-encode_mailbox_instruction outer),
  )
