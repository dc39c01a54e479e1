-- ===== src/Ratchet/Delivery.antt =====
-- ratchet.py: messages from one side of a ratchet to the other.
use yakr.Prelude.{
  ℕ, ◌+◌, ◌-◌, ◌≤◌, ◌≡◌, refl, subst, true, false, none, some, ◌++◌, ok, ltb, length, Bytes,
  eqb_refl, arith,
}
use yakr.Crypto.{Crypto, IsAead, xchacha_encrypt}
use yakr.Crypto.Sealing.{xchacha_decrypt-encrypt}
use yakr.Ratchet.State.{RatchetState}
use yakr.Ratchet.Chains.{max_skipped_keys, kdf_ck, skip_keys}
use yakr.Ratchet.Packet.{decrypt-packet}
use yakr.Ratchet.{
  header, encrypt, encrypt_ready, encrypt_chain, fits_header, decrypt, restore_on_error,
  receive_on_chain, open_with, message_key_for, adopt_peer,
}

-- The receiver knows the sender's key and stands where the sender stands on their chain.
pub record InSync (chain_key : Bytes) (sender receiver : RatchetState) : Type 0 where
  pub peer : receiver.dh_peer_public ≡ some sender.dh_self_public
  pub sends : sender.send_chain_key ≡ some chain_key
  pub receives : receiver.recv_chain_key ≡ some chain_key
  pub counts : receiver.recv_n ≡ sender.send_n
  pub ready : sender.pending_pairing_dh_ratchet_peer ≡ none
  pub public_size : length sender.dh_self_public ≡ 32
  pub room : length receiver.skipped_keys ≤ max_skipped_keys

module _ (k : Crypto) (a : IsAead k) where
  -- What `encrypt` makes of a ready sender.
  abbrev pub packet_of : Bytes → Bytes → Bytes → RatchetState → Bytes
  packet_of nonce plaintext chain_key s =
      let aad = header k s.dh_self_public s.prev_send_n s.send_n in
      aad ++ xchacha_encrypt k nonce (kdf_ck k chain_key).0 plaintext aad

  abbrev pub sent : Bytes → RatchetState → RatchetState
  sent chain_key s = record s {
    send_chain_key = some (kdf_ck k chain_key).1;
    send_n = s.send_n + 1;
  }

  abbrev pub received : Bytes → RatchetState → RatchetState
  received chain_key s = record s {
    recv_chain_key = some (kdf_ck k chain_key).1;
    recv_n = s.recv_n + 1;
  }

  pub encrypt-ready :
      (fresh nonce plaintext chain_key : Bytes) (s : RatchetState)
      → s.pending_pairing_dh_ratchet_peer ≡ none
      → s.send_chain_key ≡ some chain_key
      → fits_header k s.prev_send_n s.send_n ≡ true
      → encrypt k fresh nonce plaintext s
        ≡ (ok (packet_of nonce plaintext chain_key s), sent chain_key s)
  unfolding encrypt encrypt_ready encrypt_chain
  encrypt-ready fresh nonce plaintext chain_key s ready chained fits =
      simp (encrypt, ready, encrypt_ready, chained, encrypt_chain, fits) refl

  pub adopt_peer-known :
      (fresh peer : Bytes) (r : RatchetState)
      → r.dh_peer_public ≡ some peer
      → adopt_peer k fresh peer r ≡ (ok tt, r)
  unfolding adopt_peer
  adopt_peer-known fresh peer r known = simp (adopt_peer, known, eqb_refl peer) refl

  message_key_for-next :
      (chain_key peer : Bytes) (r : RatchetState)
      → length r.skipped_keys ≤ max_skipped_keys
      → message_key_for k chain_key peer r.recv_n r
        ≡ (ok (kdf_ck k chain_key).0, received chain_key r)
  unfolding message_key_for skip_keys
  message_key_for-next chain_key peer r room =
      let none_before : ltb r.recv_n r.recv_n ≡ false = ground arith in
      let no_gap : r.recv_n - r.recv_n ≡ 0 = omega arith in
      let fits : ltb max_skipped_keys (length r.skipped_keys + 0) ≡ false = ground (arith, room) in
      simp (none_before, no_gap, fits) refl

  -- A message on the chain of the receiver, from a peer that it knows.
  receive_on_chain-key :
      (peer chain_key message_key nonce plaintext : Bytes) (prev_n n : ℕ) (r r' : RatchetState)
      → r.recv_chain_key ≡ some chain_key
      → message_key_for k chain_key peer n r ≡ (ok message_key, r')
      → length nonce ≡ 24
      → receive_on_chain k peer prev_n n
          (xchacha_encrypt k nonce message_key plaintext (header k peer prev_n n))
          (ok tt, r)
        ≡ (ok plaintext, r')
  unfolding receive_on_chain open_with
  receive_on_chain-key peer chain_key message_key nonce plaintext prev_n n r r' chained keyed size =
      rw
        (
          receive_on_chain,
          chained,
          keyed,
          xchacha_decrypt-encrypt k a nonce message_key plaintext (header k peer prev_n n) size,
        )
        refl

  -- A packet that the receiver has the key for is opened.
  pub decrypt-keyed :
      (fresh peer chain_key message_key nonce plaintext : Bytes) (prev_n n : ℕ)
      (r r' : RatchetState)
      → fits_header k prev_n n ≡ true
      → length peer ≡ 32
      → r.dh_peer_public ≡ some peer
      → r.recv_chain_key ≡ some chain_key
      → message_key_for k chain_key peer n r ≡ (ok message_key, r')
      → length nonce ≡ 24
      → decrypt k fresh
          (header k peer prev_n n
            ++ xchacha_encrypt k nonce message_key plaintext (header k peer prev_n n))
          r
        ≡ (ok plaintext, r')
  unfolding fits_header restore_on_error
  decrypt-keyed fresh peer chain_key message_key nonce plaintext prev_n n r r' fits sized known
        chained keyed size =
      rw
        (
          decrypt-packet k fresh peer
              (xchacha_encrypt k nonce message_key plaintext (header k peer prev_n n)) prev_n n r
              sized (ground arith) (ground arith),
          adopt_peer-known fresh peer r known,
          receive_on_chain-key peer chain_key message_key nonce plaintext prev_n n r r' chained
              keyed size,
        )
        refl

  pub decrypt-next :
      (fresh nonce plaintext chain_key : Bytes) (s r : RatchetState)
      → length nonce ≡ 24
      → fits_header k s.prev_send_n s.send_n ≡ true
      → InSync chain_key s r
      → decrypt k fresh (packet_of nonce plaintext chain_key s) r
        ≡ (ok plaintext, received chain_key r)
  decrypt-next fresh nonce plaintext chain_key s r size fits h =
      decrypt-keyed fresh s.dh_self_public chain_key (kdf_ck k chain_key).0 nonce plaintext
        s.prev_send_n s.send_n r (received chain_key r) fits h.public_size h.peer h.receives
        (subst
          (λ n.
            message_key_for k chain_key s.dh_self_public n r
            ≡ (ok (kdf_ck k chain_key).0, received chain_key r))
          h.counts (message_key_for-next chain_key s.dh_self_public r h.room))
        size

  pub InSync-next :
      (chain_key : Bytes) (s r : RatchetState)
      → InSync chain_key s r
      → InSync (kdf_ck k chain_key).1 (sent chain_key s) (received chain_key r)
  InSync-next chain_key s r h = record {
    peer = h.peer;
    sends = refl;
    receives = refl;
    counts = omega (arith, h.counts);
    ready = h.ready;
    public_size = h.public_size;
    room = h.room;
  }
