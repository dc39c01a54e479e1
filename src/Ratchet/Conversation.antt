-- ===== src/Ratchet/Conversation.antt =====
-- ratchet.py: a run of messages in order, and two that arrive the other way round.
use yakr.Prelude.{
  ◌+◌, ◌-◌, ◌≤◌, ◌<◌, ◌≡◌, refl, subst, true, false, some, List, [], ◌∷◌, map, All, Result, ok, err,
  ◌>>=◌, ltb, length, Bytes, IsBytes, insert, lookup-insert_self, arith,
}
use yakr.Base64.{b64encode}
use yakr.Base64.RoundTrip.{b64decode-b64encode}
use yakr.Crypto.{Crypto, IsAead}
use yakr.Ratchet.State.{RatchetState}
use yakr.Ratchet.Chains.{
  RatchetError, max_skipped_keys, kdf_ck, skip_keys, skip_key, store_skip, key_id,
}
use yakr.Ratchet.Delivery.{
  InSync, packet_of, sent, received, encrypt-ready, decrypt-next, decrypt-keyed, InSync-next,
}
use yakr.Ratchet.{encrypt, fits_header, decrypt, message_key_for}

-- A message, and the bytes that are drawn for it: for its nonce and for a ratchet step.
pub record Message : Type 0 where
  pub plaintext : Bytes
  pub nonce : Bytes
  pub fresh : Bytes

module _ (k : Crypto) where
  collect :
      Result RatchetError Bytes
      → Result RatchetError (List Bytes)
      → Result RatchetError (List Bytes)
  collect got rest = do plaintext ← got; plaintexts ← rest; ok (plaintext ∷ plaintexts)

  -- Each message is encrypted, carried over and decrypted before the next one.
  unfoldable pub converse :
      List Message → RatchetState → RatchetState → Result RatchetError (List Bytes)
  unfolding collect
  converse [] sender receiver = ok []
  converse (m ∷ ms) sender receiver = elim (encrypt k m.fresh m.nonce m.plaintext sender).0 [
    | err e ↦ err e
    | ok payload ↦
        let got = decrypt k m.fresh payload receiver in
        collect got.0 (converse ms (encrypt k m.fresh m.nonce m.plaintext sender).1 got.1)
  ]

  -- Between two sides in step, every message that is sent is read as it was written, in order, as long as the
  -- counter fits its 32 bits.
  pub converse-InSync :
      (a : IsAead k) (ms : List Message) (chain_key : Bytes) (sender receiver : RatchetState)
      → InSync chain_key sender receiver
      → All (λ m. length m.nonce ≡ 24) ms
      → sender.prev_send_n < 4294967296
      → sender.send_n + length ms ≤ 4294967296
      → converse ms sender receiver ≡ ok (map (λ m. m.plaintext) ms)
  unfolding converse
  converse-InSync a [] chain_key s r h sizes low room = refl
  converse-InSync a (m ∷ ms) chain_key s r h sizes low room =
      let fits : fits_header k s.prev_send_n s.send_n ≡ true =
        unfold fits_header in ground (arith, low, room) in
      rw
        (
          converse,
          encrypt-ready k a m.fresh m.nonce m.plaintext chain_key s h.ready h.sends fits,
          decrypt-next k a m.fresh m.nonce m.plaintext chain_key s r sizes.0 fits h,
          encrypt-ready k a m.fresh m.nonce m.plaintext chain_key s h.ready h.sends fits,
          converse-InSync a ms (kdf_ck k chain_key).1 (sent k a chain_key s)
              (received k a chain_key r) (InSync-next k a chain_key s r h) sizes.1 low
              (omega (arith, room)),
        )
        refl

  -- The receiver after it read the second of two messages before the first.
  abbrev pub overtaken : Bytes → Bytes → RatchetState → RatchetState
  overtaken chain_key peer r = record r {
    skipped_keys = insert (key_id peer r.recv_n) (b64encode (kdf_ck k chain_key).0) r.skipped_keys;
    recv_chain_key = some (kdf_ck k (kdf_ck k chain_key).1).1;
    recv_n = r.recv_n + 1 + 1;
  }

  message_key_for-second :
      (chain_key peer : Bytes) (r : RatchetState)
      → length r.skipped_keys < max_skipped_keys
      → message_key_for k chain_key peer (r.recv_n + 1) r
        ≡ (ok (kdf_ck k (kdf_ck k chain_key).1).0, overtaken chain_key peer r)
  unfolding message_key_for skip_keys store_skip
  message_key_for-second chain_key peer r room =
      let none_before : ltb (r.recv_n + 1) r.recv_n ≡ false = ground arith in
      let one : r.recv_n + 1 - r.recv_n ≡ 1 = omega arith in
      let fits : ltb max_skipped_keys (length r.skipped_keys + 1) ≡ false = ground (arith, room) in
      simp (none_before, one, fits) refl

  message_key_for-skipped :
      (chain_key chain_key' peer : Bytes) (r : RatchetState)
      → IsBytes (kdf_ck k chain_key).0
      → message_key_for k chain_key' peer r.recv_n (overtaken chain_key peer r)
        ≡ (ok (kdf_ck k chain_key).0, overtaken chain_key peer r)
  unfolding message_key_for skip_key
  message_key_for-skipped chain_key chain_key' peer r written =
      let before : ltb r.recv_n (r.recv_n + 1 + 1) ≡ true = ground arith in
      simp
        (
          before,
          skip_key,
          lookup-insert_self (key_id peer r.recv_n) (b64encode (kdf_ck k chain_key).0)
              r.skipped_keys,
          b64decode-b64encode (kdf_ck k chain_key).0 written,
        )
        refl

  -- Of two messages that arrive the other way round both are read. The first one can be read again and again:
  -- reading it leaves its key in place.
  pub overtaken_message_opens_again :
      (a : IsAead k) (m m' : Message) (chain_key : Bytes) (s r : RatchetState)
      → InSync chain_key s r
      → length m.nonce ≡ 24
      → length m'.nonce ≡ 24
      → s.prev_send_n < 4294967296
      → s.send_n + 1 < 4294967296
      → length r.skipped_keys < max_skipped_keys
      → IsBytes (kdf_ck k chain_key).0
      → (first second : Bytes) × (s₁ : RatchetState) × (s₂ : RatchetState) × (r₁ : RatchetState)
        × (encrypt k m.fresh m.nonce m.plaintext s ≡ (ok first, s₁))
        × (encrypt k m'.fresh m'.nonce m'.plaintext s₁ ≡ (ok second, s₂))
        × (decrypt k m'.fresh second r ≡ (ok m'.plaintext, r₁))
        × (decrypt k m.fresh first r₁ ≡ (ok m.plaintext, r₁))
  overtaken_message_opens_again a m m' chain_key s r h size size' low room free written =
      let fits : fits_header k s.prev_send_n s.send_n ≡ true =
        unfold fits_header in ground (arith, low, room) in
      let fits' : fits_header k s.prev_send_n (s.send_n + 1) ≡ true =
        unfold fits_header in ground (arith, low, room) in
      let peer = s.dh_self_public in
      let chain_key' = (kdf_ck k chain_key).1 in
      let s₁ = sent k a chain_key s in
      let r₁ = overtaken chain_key peer r in
      let key' : message_key_for k chain_key peer (s.send_n + 1) r
          ≡ (ok (kdf_ck k chain_key').0, r₁) =
        subst (λ n. message_key_for k chain_key peer (n + 1) r ≡ (ok (kdf_ck k chain_key').0, r₁))
          h.counts (message_key_for-second chain_key peer r free) in
      let key : message_key_for k (kdf_ck k chain_key').1 peer s.send_n r₁
          ≡ (ok (kdf_ck k chain_key).0, r₁) =
        subst
          (λ n.
            message_key_for k (kdf_ck k chain_key').1 peer n r₁ ≡ (ok (kdf_ck k chain_key).0, r₁))
          h.counts (message_key_for-skipped chain_key (kdf_ck k chain_key').1 peer r written) in
      (
        packet_of k a m.nonce m.plaintext chain_key s,
        packet_of k a m'.nonce m'.plaintext chain_key' s₁,
        s₁,
        sent k a chain_key' s₁,
        r₁,
        encrypt-ready k a m.fresh m.nonce m.plaintext chain_key s h.ready h.sends fits,
        encrypt-ready k a m'.fresh m'.nonce m'.plaintext chain_key' s₁ h.ready refl fits',
        decrypt-keyed k a m'.fresh peer chain_key (kdf_ck k chain_key').0 m'.nonce m'.plaintext
            s.prev_send_n (s.send_n + 1) r r₁ fits' h.public_size h.peer h.receives key' size',
        decrypt-keyed k a m.fresh peer (kdf_ck k chain_key').1 (kdf_ck k chain_key).0 m.nonce
            m.plaintext s.prev_send_n s.send_n r₁ r₁ fits h.public_size h.peer refl key size,
      )
