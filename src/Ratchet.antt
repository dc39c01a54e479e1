-- ===== src/Ratchet.antt =====
-- packages/yakr-core/src/yakr_core/ratchet.py: the double ratchet of a contact. A method returns its
-- result with the state it leaves, also where it raises.
pub mod State
pub mod Chains
pub mod Packet
pub mod Bound
pub mod Delivery
pub mod Conversation
pub mod Forgery
mod Tests
use yakr.Prelude.{
  ℕ, zero, suc, ◌+◌, ◌-◌, Bool, true, false, not, ◌||◌, Option, none, some, List, [], ◌∷◌, ◌++◌,
  Result, ok, err, on_error, ltb, leb, ◌==◌, if◌then◌else◌, length, take, drop, Bytes, Text, codes,
  eqb, lookup, insert, pack32, unpack,
}
use yakr.Base64.{b64encode, b64decode}
use yakr.Crypto.{Crypto, CryptoError, xchacha_encrypt, xchacha_decrypt}
use yakr.Ratchet.State.{RatchetState, to_dict, from_dict}
use yakr.Ratchet.Chains.{
  RatchetError, max_skip_gap, max_skipped_keys, ratchet_magic, kdf_rk, kdf_ck, key_id, store_skip,
  skip_key, skip_keys,
}

-- The three DH steps. The key pair that the program generates is the argument `fresh`; a private
-- key or a public key that the library refuses makes the exchange fail.
module _ (k : Crypto) where
  -- The last part of a step: a new key pair, and the send chain from it.
  renew_send : Bytes → Bytes → Bytes → RatchetState → Result RatchetError (Unit {0}) × RatchetState
  renew_send fresh peer root s =
      let s₁ = record s { dh_self_private = fresh; dh_self_public = k.x25519_public fresh } in
      elim (k.x25519_exchange fresh peer) [
        | none ↦ (err RatchetError.bad_exchange, s₁)
        | some dh_output ↦
            let chain = kdf_rk k root dh_output in
            (
              ok tt,
              record s₁ {
                root_key = chain.0;
                send_chain_key = some chain.1;
                prev_send_n = s₁.send_n;
                send_n = 0;
              },
            )
      ]

  unfoldable pub pairing_send_init :
      Bytes → Bytes → RatchetState → Result RatchetError (Unit {0}) × RatchetState
  unfolding renew_send
  pairing_send_init fresh peer s =
      let s₁ = record s { dh_peer_public = some peer } in
      let exchanged : Result RatchetError (Unit {0}) × RatchetState =
        elim (k.x25519_exchange s.dh_self_private peer) [
          | none ↦ (err RatchetError.bad_exchange, s₁)
          | some dh_output ↦ renew_send fresh peer (kdf_rk k s.root_key dh_output).0 s₁
        ] in
      if not (length peer == 32) then (err RatchetError.peer_key_length, s) else exchanged

  unfoldable pub pairing_recv_init :
      Bytes → RatchetState → Result RatchetError (Unit {0}) × RatchetState
  pairing_recv_init peer s =
      let s₁ = record s { dh_peer_public = some peer } in
      let exchanged : Result RatchetError (Unit {0}) × RatchetState =
        elim (k.x25519_exchange s.dh_self_private peer) [
          | none ↦ (err RatchetError.bad_exchange, s₁)
          | some dh_output ↦
              let chain = kdf_rk k s.root_key dh_output in
              (ok tt, record s₁ { root_key = chain.0; recv_chain_key = some chain.1; recv_n = 0 })
        ] in
      if not (length peer == 32) then (err RatchetError.peer_key_length, s) else exchanged

  unfoldable pub dh_ratchet :
      Bytes → Bytes → RatchetState → Result RatchetError (Unit {0}) × RatchetState
  unfolding renew_send
  dh_ratchet fresh peer s =
      let s₁ = record s { skipped_keys = []; dh_peer_public = some peer } in
      elim (k.x25519_exchange s.dh_self_private peer) [
        | none ↦ (err RatchetError.bad_exchange, s₁)
        | some dh_output ↦
            let chain = kdf_rk k s.root_key dh_output in
            renew_send fresh peer chain.0
              (record s₁ { root_key = chain.0; recv_chain_key = some chain.1; recv_n = 0 })
      ]

  abbrev pub header : Bytes → ℕ → ℕ → Bytes
  header dh_public prev_n message_n =
      ratchet_magic ++ dh_public ++ pack32 prev_n ++ pack32 message_n

  -- `struct.pack` refuses a number that needs more than 32 bits.
  unfoldable pub fits_header : ℕ → ℕ → Bool
  fits_header prev_n message_n = if leb 4294967296 prev_n then false else ltb message_n 4294967296

  encrypt_chain : Bytes → Bytes → Bytes → RatchetState → Result RatchetError Bytes × RatchetState
  unfolding fits_header
  encrypt_chain nonce plaintext chain_key s =
      let step = kdf_ck k chain_key in
      let s₁ = record s { send_chain_key = some step.1 } in
      let aad = header s.dh_self_public s.prev_send_n s.send_n in
      if fits_header s.prev_send_n s.send_n
      then (
        ok (aad ++ xchacha_encrypt k nonce step.0 plaintext aad),
        record s₁ { send_n = s.send_n + 1 },
      )
      else (err RatchetError.header_overflow, s₁)

  encrypt_ready : Bytes → Bytes → RatchetState → Result RatchetError Bytes × RatchetState
  unfolding encrypt_chain
  encrypt_ready nonce plaintext s = elim s.send_chain_key [
    | none ↦ (err RatchetError.send_chain_missing, s)
    | some chain_key ↦ encrypt_chain nonce plaintext chain_key s
  ]

  encrypt_initialised :
      Bytes
      → Bytes
      → Result RatchetError (Unit {0}) × RatchetState
      → Result RatchetError Bytes × RatchetState
  unfolding encrypt_ready
  encrypt_initialised nonce plaintext (err e, s) = (err e, s)
  encrypt_initialised nonce plaintext (ok _, s) = encrypt_ready nonce plaintext s

  -- `fresh` is for the pending ratchet of a pairing, `nonce` for the cipher.
  unfoldable pub encrypt :
      Bytes → Bytes → Bytes → RatchetState → Result RatchetError Bytes × RatchetState
  unfolding encrypt_initialised
  encrypt fresh nonce plaintext s = elim s.pending_pairing_dh_ratchet_peer [
    | none ↦ encrypt_ready nonce plaintext s
    | some peer ↦
        encrypt_initialised nonce plaintext
          (pairing_send_init fresh peer (record s { pending_pairing_dh_ratchet_peer = none }))
  ]

  -- The peer's key is taken over, is the known one, or starts a new ratchet step.
  pub adopt_peer : Bytes → Bytes → RatchetState → Result RatchetError (Unit {0}) × RatchetState
  adopt_peer fresh peer s = elim s.dh_peer_public [
    | none ↦ (ok tt, record s { dh_peer_public = some peer })
    | some known ↦ if eqb known peer then (ok tt, s) else dh_ratchet fresh peer s
  ]

  -- The message key on the receiving chain.
  pub message_key_for : Bytes → Bytes → ℕ → RatchetState → Result RatchetError Bytes × RatchetState
  message_key_for chain_key peer message_n s =
      let gap = message_n - s.recv_n in
      let skipped = skip_keys k gap peer chain_key s in
      let step = kdf_ck k skipped.0 in
      if ltb message_n s.recv_n
      then (skip_key peer message_n s, s)
      else if ltb max_skip_gap gap
      then (err RatchetError.skip_gap_too_large, s)
      else if ltb max_skipped_keys (length s.skipped_keys + gap)
      then (err RatchetError.skipped_key_limit, s)
      else (ok step.0, record skipped.1 { recv_chain_key = some step.1; recv_n = message_n + 1 })

  -- Opening the ciphertext with the key that was found.
  open_with :
      Bytes
      → Bytes
      → Result RatchetError Bytes × RatchetState
      → Result RatchetError Bytes × RatchetState
  open_with ciphertext aad (err e, s) = (err e, s)
  open_with ciphertext aad (ok message_key, s) =
      (on_error RatchetError.sealed_message (xchacha_decrypt k message_key ciphertext aad), s)

  pub receive_on_chain :
      Bytes
      → ℕ
      → ℕ
      → Bytes
      → Result RatchetError (Unit {0}) × RatchetState
      → Result RatchetError Bytes × RatchetState
  unfolding open_with message_key_for
  receive_on_chain peer prev_n message_n ciphertext (err e, s) = (err e, s)
  receive_on_chain peer prev_n message_n ciphertext (ok _, s) = elim s.recv_chain_key [
    | none ↦ (err RatchetError.recv_chain_missing, s)
    | some chain_key ↦
        open_with ciphertext (header peer prev_n message_n)
          (message_key_for chain_key peer message_n s)
  ]

  -- `_restore_snapshot`: the snapshot holds the dict `skipped_keys` itself and not a copy, so what was done to
  -- it since the snapshot stays.
  restore_snapshot : RatchetState → RatchetState → RatchetState
  restore_snapshot before now =
      elim (from_dict (record (to_dict before) { skipped_keys = now.skipped_keys })) [
        | ok restored ↦ restored
        | err _ ↦ now
      ]

  -- The `try` of `decrypt`.
  pub restore_on_error :
      RatchetState
      → Result RatchetError Bytes × RatchetState
      → Result RatchetError Bytes × RatchetState
  unfolding restore_snapshot
  restore_on_error before (ok plaintext, s) = (ok plaintext, s)
  restore_on_error before (err e, s) = (err e, restore_snapshot before s)

  unfoldable pub decrypt : Bytes → Bytes → RatchetState → Result RatchetError Bytes × RatchetState
  unfolding restore_on_error receive_on_chain adopt_peer
  decrypt fresh payload s =
      let peer = take 32 (drop 5 payload) in
      let prev_n = unpack (take 4 (drop 37 payload)) in
      let message_n = unpack (take 4 (drop 41 payload)) in
      if ltb (length payload) 45
      then (err RatchetError.payload_too_short, s)
      else if not (eqb (take 5 payload) ratchet_magic)
      then (err RatchetError.invalid_header, s)
      else restore_on_error s
          (receive_on_chain peer prev_n message_n (drop 45 payload) (adopt_peer fresh peer s))
