-- ===== src/Ratchet/Bound.antt =====
-- ratchet.py: how many keys of skipped messages a state holds.
use yakr.Prelude.{
  ℕ, zero, suc, ◌+◌, ◌-◌, ◌≤◌, ◌≡◌, refl, ap, sym, ◌∙◌, Bool-cases, Option-cases, none, some, inl,
  inr, [], Result, ok, err, Result-cases, bind-eq-ok, raise_if-then-eq-ok, ok-injective, ltb, ◌==◌,
  length, take, drop, Bytes, eqb, unpack, length-insert, arith,
}
use yakr.Base64.{b64encode}
use yakr.Crypto.{Crypto}
use yakr.Ratchet.State.{RatchetState, SavedRatchet, to_dict, from_dict, dec}
use yakr.Ratchet.Chains.{
  RatchetError, max_skipped_keys, ratchet_magic, kdf_ck, kdf_rk, skip_keys, store_skip, key_id,
}
use yakr.Ratchet.{
  renew_send, pairing_send_init, pairing_recv_init, dh_ratchet, encrypt, encrypt_ready,
  encrypt_chain, encrypt_initialised, adopt_peer, message_key_for, open_with, fits_header,
  receive_on_chain, restore_snapshot, restore_on_error, decrypt,
}

-- No more than `MAX_SKIPPED_KEYS`.
abbrev pub IsBounded : RatchetState → Type 0
IsBounded s = length s.skipped_keys ≤ max_skipped_keys

module _ (k : Crypto) where
  -- The methods of a ratchet, on any arguments, whatever they return or raise.
  pub data Step (s : RatchetState) : RatchetState → Type 0 where
    encrypted : (fresh nonce plaintext : Bytes) → Step s (encrypt k fresh nonce plaintext s).1
    decrypted : (fresh payload : Bytes) → Step s (decrypt k fresh payload s).1
    paired : (peer : Bytes) → Step s (pairing_recv_init k peer s).1

  pub data Reach (s₀ : RatchetState) : RatchetState → Type 0 where
    here : Reach s₀ s₀
    next : {s s' : RatchetState} → Reach s₀ s → Step s s' → Reach s₀ s'

  length-skip_keys :
      (gap : ℕ) (peer chain_key : Bytes) (s : RatchetState)
      → length (skip_keys k gap peer chain_key s).1.skipped_keys ≤ length s.skipped_keys + gap
  unfolding skip_keys store_skip
  length-skip_keys zero peer chain_key s = omega arith
  length-skip_keys (suc gap) peer chain_key s =
      let step = kdf_ck k chain_key in
      let stored : RatchetState = record (store_skip peer s.recv_n step.0 s) {
        recv_chain_key = some step.1;
        recv_n = s.recv_n + 1;
      } in
      omega (
        arith,
        length-skip_keys gap peer step.1 stored,
        length-insert (key_id peer s.recv_n) (b64encode step.0) s.skipped_keys,
      )

  renew_send-keys :
      (fresh peer root : Bytes) (s : RatchetState)
      → (renew_send k fresh peer root s).1.skipped_keys ≡ s.skipped_keys
  unfolding renew_send
  renew_send-keys fresh peer root s = elim (Option-cases (k.x25519_exchange fresh peer)) [
    | inl bad ↦ rw (renew_send, bad) refl
    | inr (dh, good) ↦ rw (renew_send, good) refl
  ]

  message_key_for-IsBounded :
      (chain_key peer : Bytes) (n : ℕ) (s : RatchetState)
      → IsBounded s
      → IsBounded (message_key_for k chain_key peer n s).1
  unfolding message_key_for
  message_key_for-IsBounded chain_key peer n s h =
      ground (arith, h, length-skip_keys (n - s.recv_n) peer chain_key s)

  dh_ratchet-IsBounded :
      (fresh peer : Bytes) (s : RatchetState) → IsBounded (dh_ratchet k fresh peer s).1
  unfolding dh_ratchet
  dh_ratchet-IsBounded fresh peer s =
      elim (Option-cases (k.x25519_exchange s.dh_self_private peer)) [
        | inl bad ↦ rw (dh_ratchet, bad) (omega arith)
        | inr (dh, good) ↦
            let root = (kdf_rk k s.root_key dh).0 in
            let s₁ : RatchetState = record s {
              root_key = root;
              dh_peer_public = some peer;
              recv_chain_key = some (kdf_rk k s.root_key dh).1;
              recv_n = 0;
              skipped_keys = [];
            } in
            let kept : length (renew_send k fresh peer root s₁).1.skipped_keys ≤ max_skipped_keys =
              rw (renew_send-keys fresh peer root s₁) (omega arith) in
            rw (dh_ratchet, good) kept
      ]

  from_dict-keys :
      (d : SavedRatchet) (s : RatchetState) → from_dict d ≡ ok s → s.skipped_keys ≡ d.skipped_keys
  unfolding from_dict
  from_dict-keys d s e =
      let (e1, r1) = raise_if-then-eq-ok _ _ _ e in
      let (x2, e2, r2) = bind-eq-ok (dec d.dh_peer_public) _ r1 in
      let (x3, e3, r3) = bind-eq-ok (dec d.send_chain_key) _ r2 in
      let (x4, e4, r4) = bind-eq-ok (dec d.recv_chain_key) _ r3 in
      let (x5, e5, r5) = bind-eq-ok (dec d.pending_pairing_dh_ratchet_peer) _ r4 in
      let (x6, e6, r6) = bind-eq-ok (dec d.root_key) _ r5 in
      let (x7, e7, r7) = bind-eq-ok (dec d.dh_self_private) _ r6 in
      let (x8, e8, r8) = bind-eq-ok (dec d.dh_self_public) _ r7 in
      sym (ap (λ (x : RatchetState). x.skipped_keys) (ok-injective r8))

  restore_snapshot-keys :
      (before now : RatchetState) → (restore_snapshot k before now).skipped_keys ≡ now.skipped_keys
  unfolding restore_snapshot
  restore_snapshot-keys before now =
      let d : SavedRatchet = record (to_dict before) { skipped_keys = now.skipped_keys } in
      elim (Result-cases (from_dict d)) [
        | inl (s, read) ↦ rw (restore_snapshot, read) (from_dict-keys d s read)
        | inr (e, unread) ↦ rw (restore_snapshot, unread) refl
      ]

  adopt_peer-IsBounded :
      (fresh peer : Bytes) (s : RatchetState)
      → IsBounded s
      → IsBounded (adopt_peer k fresh peer s).1
  unfolding adopt_peer
  adopt_peer-IsBounded fresh peer s h = elim (Option-cases s.dh_peer_public) [
    | inl new ↦ simp (adopt_peer, new) h
    | inr (known, old) ↦ elim (Bool-cases (eqb known peer)) [
      | inl same ↦ simp (adopt_peer, old, same) h
      | inr other ↦ simp (adopt_peer, old, other) (dh_ratchet-IsBounded fresh peer s)
    ]
  ]

  open_with-keys :
      (ciphertext aad : Bytes) (r : Result RatchetError Bytes × RatchetState)
      → (open_with k ciphertext aad r).1 ≡ r.1
  unfolding open_with
  open_with-keys ciphertext aad (ok key, s) = refl
  open_with-keys ciphertext aad (err e, s) = refl

  receive_on_chain-IsBounded :
      (peer : Bytes) (prev_n n : ℕ) (ciphertext : Bytes)
      (r : Result RatchetError (Unit {0}) × RatchetState)
      → IsBounded r.1
      → IsBounded (receive_on_chain k peer prev_n n ciphertext r).1
  unfolding receive_on_chain
  receive_on_chain-IsBounded peer prev_n n ciphertext (err e, s) h = h
  receive_on_chain-IsBounded peer prev_n n ciphertext (ok u, s) h =
      elim (Option-cases s.recv_chain_key) [
        | inl none_yet ↦ simp (receive_on_chain, none_yet) h
        | inr (chain_key, chained) ↦
            let keyed = message_key_for-IsBounded chain_key peer n s h in
            simp (receive_on_chain, chained, open_with-keys) keyed
      ]

  restore_on_error-IsBounded :
      (before : RatchetState) (r : Result RatchetError Bytes × RatchetState)
      → IsBounded r.1
      → IsBounded (restore_on_error k before r).1
  unfolding restore_on_error
  restore_on_error-IsBounded before (ok plaintext, s) h = h
  restore_on_error-IsBounded before (err e, s) h = rw (restore_snapshot-keys before s) h

  decrypt-IsBounded :
      (fresh payload : Bytes) (s : RatchetState)
      → IsBounded s
      → IsBounded (decrypt k fresh payload s).1
  unfolding decrypt
  decrypt-IsBounded fresh payload s h =
      let peer = take 32 (drop 5 payload) in
      let r =
        receive_on_chain k peer (unpack (take 4 (drop 37 payload)))
          (unpack (take 4 (drop 41 payload))) (drop 45 payload) (adopt_peer k fresh peer s) in
      let received : IsBounded (restore_on_error k s r).1 = restore_on_error-IsBounded s r (
        receive_on_chain-IsBounded peer (unpack (take 4 (drop 37 payload)))
          (unpack (take 4 (drop 41 payload))) (drop 45 payload) (adopt_peer k fresh peer s)
          (adopt_peer-IsBounded fresh peer s h)) in
      elim (Bool-cases (ltb (length payload) 45)) [
        | inl short ↦ rw short h
        | inr long ↦ elim (Bool-cases (eqb (take 5 payload) ratchet_magic)) [
          | inl marked ↦ rw (long, marked) received
          | inr other ↦ rw (long, other) h
        ]
      ]

  encrypt_ready-keys :
      (nonce plaintext : Bytes) (s : RatchetState)
      → (encrypt_ready k nonce plaintext s).1.skipped_keys ≡ s.skipped_keys
  unfolding encrypt_ready encrypt_chain
  encrypt_ready-keys nonce plaintext s = elim (Option-cases s.send_chain_key) [
    | inl none_yet ↦ simp (encrypt_ready, none_yet) refl
    | inr (chain_key, chained) ↦ elim (Bool-cases (fits_header k s.prev_send_n s.send_n)) [
      | inl fits ↦ simp (encrypt_ready, chained, encrypt_chain, fits) refl
      | inr over ↦ simp (encrypt_ready, chained, encrypt_chain, over) refl
    ]
  ]

  pairing_send_init-keys :
      (fresh peer : Bytes) (s : RatchetState)
      → (pairing_send_init k fresh peer s).1.skipped_keys ≡ s.skipped_keys
  unfolding pairing_send_init
  pairing_send_init-keys fresh peer s = elim (Bool-cases (length peer == 32)) [
    | inr odd ↦ rw odd refl
    | inl sized ↦ elim (Option-cases (k.x25519_exchange s.dh_self_private peer)) [
      | inl bad ↦ rw (sized, bad) refl
      | inr (dh, good) ↦
          rw (sized, good)
            (renew_send-keys fresh peer (kdf_rk k s.root_key dh).0
              (record s { dh_peer_public = some peer }))
    ]
  ]

  pairing_recv_init-keys :
      (peer : Bytes) (s : RatchetState)
      → (pairing_recv_init k peer s).1.skipped_keys ≡ s.skipped_keys
  unfolding pairing_recv_init
  pairing_recv_init-keys peer s = elim (Bool-cases (length peer == 32)) [
    | inr odd ↦ rw odd refl
    | inl sized ↦ elim (Option-cases (k.x25519_exchange s.dh_self_private peer)) [
      | inl bad ↦ rw (sized, bad) refl
      | inr (dh, good) ↦ rw (sized, good) refl
    ]
  ]

  encrypt_initialised-keys :
      (nonce plaintext : Bytes) (r : Result RatchetError (Unit {0}) × RatchetState)
      → (encrypt_initialised k nonce plaintext r).1.skipped_keys ≡ r.1.skipped_keys
  unfolding encrypt_initialised
  encrypt_initialised-keys nonce plaintext (err e, s) = refl
  encrypt_initialised-keys nonce plaintext (ok u, s) = encrypt_ready-keys nonce plaintext s

  pub encrypt-keys :
      (fresh nonce plaintext : Bytes) (s : RatchetState)
      → (encrypt k fresh nonce plaintext s).1.skipped_keys ≡ s.skipped_keys
  unfolding encrypt
  encrypt-keys fresh nonce plaintext s = elim (Option-cases s.pending_pairing_dh_ratchet_peer) [
    | inl ready ↦ simp (encrypt, ready) (encrypt_ready-keys nonce plaintext s)
    | inr (peer, pending) ↦
        let s₁ : RatchetState = record s { pending_pairing_dh_ratchet_peer = none } in
        simp (encrypt, pending)
          (encrypt_initialised-keys nonce plaintext (pairing_send_init k fresh peer s₁)
            ∙ pairing_send_init-keys fresh peer s₁)
  ]

  Step-IsBounded : {s s' : RatchetState} → Step s s' → IsBounded s → IsBounded s'
  Step-IsBounded {s} (encrypted fresh nonce plaintext) h =
      rw (encrypt-keys fresh nonce plaintext s) h
  Step-IsBounded {s} (decrypted fresh payload) h = decrypt-IsBounded fresh payload s h
  Step-IsBounded {s} (paired peer) h = rw (pairing_recv_init-keys peer s) h

  -- Whatever packets arrive and whatever messages are sent, a ratchet that starts with no more than 256 skipped keys
  -- never holds more.
  pub Reach-IsBounded : {s₀ s : RatchetState} → Reach s₀ s → IsBounded s₀ → IsBounded s
  Reach-IsBounded here h = h
  Reach-IsBounded (next before st) h = Step-IsBounded st (Reach-IsBounded before h)
