-- ===== src/Relay/App/Forwarding/Delivery.antt =====
-- relay/app.py and onion.py: a packet on its way through both relays.
use yakr.Prelude.{
  ℕ, ◌<◌, ◌≡◌, refl, All-append, true, false, Option, none, some, [], Result, ok, err,
  if◌then◌else◌, length, Bytes, Text, IsBytes, eqb, eqb_refl,
}
use yakr.Base64.{b64encode}
use yakr.Base64.RoundTrip.{b64decode-b64encode}
use yakr.Codec.{Codec}
use yakr.Crypto.{Crypto, IsAead, xchacha_encrypt}
use yakr.Message.{OuterBlob}
use yakr.Onion.{
  build_onion_packet, mailbox_layer, encrypt_layer, encode_mailbox_instruction, ingest_url,
}
use yakr.Onion.RoundTrip.{decode-build_onion_packet}
use yakr.Relay.BlobStore
use yakr.Relay.BlobStore.{BlobStore}
use yakr.Relay.Auth.{RelayRuntime, check_ticket}
use yakr.Relay.App.{RelayState}
use yakr.Relay.App.Forwarding.{
  is_forwarder, is_mailbox, forward_reply, open_packet, relay_packet, ingest_packet,
}

-- The status that the server of the mailbox relay sends, and its state.
abbrev pub ingest_reply : RelayState → Result ℕ RelayState → Option ℕ × RelayState
ingest_reply s (err status) = (some status, s)
ingest_reply s (ok s') = (some 201, s')

module _ (c : Codec) (k : Crypto) where
  -- A network in which the mailbox relay is at one address.
  abbrev pub post_to :
      ℕ → Text → RelayRuntime → Text → Text → Option Text → RelayState → Option ℕ × RelayState
  post_to now url runtime next_url inner ticket s =
      if eqb next_url (ingest_url url)
      then ingest_reply s
          (ingest_packet c k now runtime (record { inner = inner; ticket = ticket }) s)
      else (none, s)

  packet-IsBytes :
      (inner_nonce outer_nonce entry_secret mailbox_secret : Bytes) (url : Text) (outer : OuterBlob)
      → IsBytes
          (build_onion_packet c k inner_nonce outer_nonce entry_secret mailbox_secret url outer)
  unfolding build_onion_packet
  packet-IsBytes inner_nonce outer_nonce entry_secret mailbox_secret url outer = c.dumps-IsBytes _

  instruction-IsBytes : (outer : OuterBlob) → IsBytes (encode_mailbox_instruction c outer)
  unfolding encode_mailbox_instruction
  instruction-IsBytes outer = c.dumps-IsBytes _

  layer-IsBytes :
      (a : IsAead k) (nonce secret : Bytes) (outer : OuterBlob)
      → IsBytes nonce
      → IsBytes (mailbox_layer c k nonce secret outer)
  unfolding mailbox_layer encrypt_layer xchacha_encrypt
  layer-IsBytes a nonce secret outer written =
      All-append (λ b. b < 256) nonce _ written
        (a.sealed-IsBytes secret [] nonce _ (instruction-IsBytes outer))

  -- What the entry relay opens.
  open_packet-build :
      (a : IsAead k) (now : ℕ) (entry : RelayRuntime) (url : Text)
      (inner_nonce outer_nonce entry_secret mailbox_secret : Bytes) (outer : OuterBlob)
      (ticket : Option Text)
      → is_forwarder entry.role ≡ true
      → entry.require_tickets ≡ false
      → entry.wrap_secret ≡ some entry_secret
      → length inner_nonce ≡ 24
      → length outer_nonce ≡ 24
      → open_packet c k now entry (record {
        packet =
            b64encode (
              build_onion_packet c k inner_nonce outer_nonce entry_secret mailbox_secret url outer);
        ticket = ticket;
      })
        ≡ ok (ingest_url url, mailbox_layer c k inner_nonce mailbox_secret outer)
  unfolding open_packet check_ticket
  open_packet-build a now entry url inner_nonce outer_nonce entry_secret mailbox_secret outer ticket
        forwards free keyed size size' =
      let (opened, found) =
        decode-build_onion_packet c k a inner_nonce outer_nonce entry_secret mailbox_secret url
          outer size size' in
      let read =
        b64decode-b64encode
          (build_onion_packet c k inner_nonce outer_nonce entry_secret mailbox_secret url outer)
          (packet-IsBytes inner_nonce outer_nonce entry_secret mailbox_secret url outer) in
      rw (forwards, free, keyed, read, opened) refl

  -- What the mailbox relay does with the layer.
  ingest_packet-layer :
      (a : IsAead k) (now : ℕ) (mailbox : RelayRuntime) (nonce secret : Bytes) (outer : OuterBlob)
      (ticket : Option Text) (s : RelayState) (store : BlobStore)
      → is_mailbox mailbox.role ≡ true
      → mailbox.require_tickets ≡ false
      → mailbox.wrap_secret ≡ some secret
      → length nonce ≡ 24
      → IsBytes nonce
      → BlobStore.store now outer.mailbox_tag outer.expires_at outer.ciphertext none s.store
        ≡ ok store
      → ingest_packet c k now mailbox
          (record { inner = b64encode (mailbox_layer c k nonce secret outer); ticket = ticket })
          s
        ≡ ok (record s { store = store })
  unfolding ingest_packet check_ticket
  ingest_packet-layer a now mailbox nonce secret outer ticket s store keeps free keyed size written
        stored =
      let (opened, found) =
        decode-build_onion_packet c k a nonce nonce secret secret [] outer size size in
      let read =
        b64decode-b64encode (mailbox_layer c k nonce secret outer)
          (layer-IsBytes a nonce secret outer written) in
      rw (keeps, free, keyed, read, found, stored) refl

  -- A packet that was built for two relays that require no tickets reaches the mailbox relay by way of the entry
  -- relay: the blob is stored there as `store` stores it, and the sender is told that it was forwarded.
  pub onion_packet_arrives :
      (a : IsAead k) (now : ℕ) (entry mailbox : RelayRuntime) (url : Text)
      (inner_nonce outer_nonce entry_secret mailbox_secret : Bytes) (outer : OuterBlob)
      (ticket : Option Text) (s : RelayState) (store : BlobStore)
      → is_forwarder entry.role ≡ true
      → is_mailbox mailbox.role ≡ true
      → entry.require_tickets ≡ false
      → mailbox.require_tickets ≡ false
      → entry.wrap_secret ≡ some entry_secret
      → mailbox.wrap_secret ≡ some mailbox_secret
      → length inner_nonce ≡ 24
      → length outer_nonce ≡ 24
      → IsBytes inner_nonce
      → BlobStore.store now outer.mailbox_tag outer.expires_at outer.ciphertext none s.store
        ≡ ok store
      → relay_packet c k
          (post_to now url mailbox)
          now
          entry
          (record {
            packet = b64encode (
                build_onion_packet c k inner_nonce outer_nonce entry_secret mailbox_secret url
                  outer);
            ticket = ticket;
          })
          s
        ≡ (ok (ingest_url url), record s { store = store })
  unfolding relay_packet forward_reply
  onion_packet_arrives a now entry mailbox url inner_nonce outer_nonce entry_secret mailbox_secret
        outer ticket s store forwards keeps free free' keyed keyed' size size' written stored =
      rw
        (
          open_packet-build a now entry url inner_nonce outer_nonce entry_secret mailbox_secret
              outer ticket forwards free keyed size size',
          eqb_refl (ingest_url url),
          ingest_packet-layer a now mailbox inner_nonce mailbox_secret outer ticket s store keeps
              free' keyed' size written stored,
        )
        refl
