-- ===== src/Ratchet/Forgery.antt =====
-- ratchet.py: what a packet that fails to decrypt leaves behind.
use yakr.Prelude.{
  ◌≢◌, ℕ, ◌≡◌, refl, ap, ◌∙◌, subst, Bool-cases, false, Option, none, some, inl, inr, [], ◌∷◌,
  Result, ok, err, null, length, Bytes, Text, IsBytes, Dict, lookup, ◌<◌, true, eqb, eqb_ne,
  eqb_refl, arith, take, drop, unpack, ltb,
}
use yakr.Base64.{b64encode}
use yakr.Base64.RoundTrip.{b64decode-b64encode, null-b64encode}
use yakr.Crypto.{Crypto, decryption_failed, xchacha_decrypt}
use yakr.Ratchet.State.{RatchetState, to_dict, from_dict, dec, encode_optional, or_none}
use yakr.Ratchet.Chains.{
  RatchetError, skip_key, already_received, ratchet_magic, skip_keys, kdf_rk, kdf_ck,
}
use yakr.Ratchet.{
  renew_send, decrypt, restore_snapshot, restore_on_error, receive_on_chain, adopt_peer, dh_ratchet,
}

-- A key that is there is not empty and is made of bytes.
abbrev pub IsKey : Option Bytes → Type 0
IsKey none = Unit
IsKey (some bs) = IsBytes bs × (null bs ≡ false)

-- What the program keeps true of the byte strings of a state.
pub record IsWellFormed (s : RatchetState) : Type 0 where
  pub root : IsBytes s.root_key
  pub private : IsBytes s.dh_self_private
  pub public : IsBytes s.dh_self_public
  pub peer : IsKey s.dh_peer_public
  pub send_chain : IsKey s.send_chain_key
  pub recv_chain : IsKey s.recv_chain_key
  pub pending : IsKey s.pending_pairing_dh_ratchet_peer

dec-b64encode : (bs : Bytes) → IsBytes bs → dec (b64encode bs) ≡ ok bs
unfolding dec
dec-b64encode [] h = unfold b64encode in refl
dec-b64encode (b ∷ bs) h = rw (null-b64encode b bs h, b64decode-b64encode (b ∷ bs) h) refl

-- `from_dict` reads an optional key as it was written.
read_optional :
    (key : Option Bytes)
    → IsKey key
    → (bs : Bytes) × (dec (encode_optional key) ≡ ok bs) × (or_none bs ≡ key)
unfolding dec encode_optional
read_optional none h = ([], refl, refl)
read_optional (some []) (h, e) = absurd (ground (arith, e))
read_optional (some (b ∷ bs)) (h, e) = (b ∷ bs, dec-b64encode (b ∷ bs) h, refl)

-- A state is read from its dict as it was, and with it whatever the dict of the skipped keys holds by then.
pub from_dict-to_dict :
    (s : RatchetState) (keys : Dict Text)
    → IsWellFormed s
    → from_dict (record (to_dict s) { skipped_keys = keys }) ≡ ok (record s { skipped_keys = keys })
unfolding from_dict to_dict
from_dict-to_dict s keys w =
    let (peer, e1, f1) = read_optional s.dh_peer_public w.peer in
    let (send, e2, f2) = read_optional s.send_chain_key w.send_chain in
    let (recv, e3, f3) = read_optional s.recv_chain_key w.recv_chain in
    let (pending, e4, f4) = read_optional s.pending_pairing_dh_ratchet_peer w.pending in
    rw
      (
        e1,
        e2,
        e3,
        e4,
        dec-b64encode s.root_key w.root,
        dec-b64encode s.dh_self_private w.private,
        dec-b64encode s.dh_self_public w.public,
        f1,
        f2,
        f3,
        f4,
      )
      refl

abbrev refused_with : RatchetError → RatchetState → Result RatchetError Bytes × RatchetState
refused_with e s = (err e, s)

module _ (k : Crypto) where
  restore_snapshot-WellFormed :
      (before now : RatchetState)
      → IsWellFormed before
      → restore_snapshot k before now ≡ record before { skipped_keys = now.skipped_keys }
  unfolding restore_snapshot
  restore_snapshot-WellFormed before now w =
      rw (restore_snapshot, from_dict-to_dict before now.skipped_keys w) refl

  restore_on_error-err :
      (before : RatchetState) (r : Result RatchetError Bytes × RatchetState) (e : RatchetError)
      (s' : RatchetState)
      → IsWellFormed before
      → restore_on_error k before r ≡ (err e, s')
      → s' ≡ record before { skipped_keys = s'.skipped_keys }
  unfolding restore_on_error
  restore_on_error-err before (ok plaintext, now) e s' w h = absurd (ground (arith, h))
  restore_on_error-err before (err e', now) e s' w h =
      let restored : record before { skipped_keys = now.skipped_keys } ≡ s' =
        ground (arith, h, restore_snapshot-WellFormed before now w) in
      subst (λ (x : RatchetState). x ≡ record before { skipped_keys = x.skipped_keys }) restored
        refl

  -- A packet that fails to decrypt, for whatever reason, leaves the keys, the counters and the peer as they were:
  -- only the skipped keys can differ.
  pub failed_decrypt_restores :
      (fresh payload : Bytes) (s s' : RatchetState) (e : RatchetError)
      → IsWellFormed s
      → decrypt k fresh payload s ≡ (err e, s')
      → s' ≡ record s { skipped_keys = s'.skipped_keys }
  unfolding decrypt
  failed_decrypt_restores fresh payload s s' e w h = elim (Bool-cases (ltb (length payload) 45)) [
    | inl short ↦
        let same : s ≡ s' = ground (arith, h) in
        subst (λ (x : RatchetState). x ≡ record s { skipped_keys = x.skipped_keys }) same refl
    | inr long ↦ elim (Bool-cases (eqb (take 5 payload) ratchet_magic)) [
      | inr other ↦
          let same : s ≡ s' = ground (arith, h) in
          subst (λ (x : RatchetState). x ≡ record s { skipped_keys = x.skipped_keys }) same refl
      | inl marked ↦ restore_on_error-err s _ e s' w (rw (long, marked) at h)
    ]
  ]

  -- A ratchet step to a new key leaves a receiving chain with no message and no skipped key.
  adopt_stranger :
      (fresh peer known dh dh' : Bytes) (s : RatchetState)
      → s.dh_peer_public ≡ some known
      → known ≢ peer
      → k.x25519_exchange s.dh_self_private peer ≡ some dh
      → k.x25519_exchange fresh peer ≡ some dh'
      → (s₁ : RatchetState) × (chain_key : Bytes) × (adopt_peer k fresh peer s ≡ (ok tt, s₁))
        × (s₁.recv_chain_key ≡ some chain_key)
        × (s₁.recv_n ≡ 0)
        × (s₁.skipped_keys ≡ [])
  unfolding adopt_peer dh_ratchet
  adopt_stranger fresh peer known dh dh' s named other exchanged exchanged' =
      let chain = kdf_rk k s.root_key dh in
      let chain' = kdf_rk k chain.0 dh' in
      let s₁ : RatchetState = record s {
        root_key = chain'.0;
        dh_self_private = fresh;
        dh_self_public = k.x25519_public fresh;
        dh_peer_public = some peer;
        send_chain_key = some chain'.1;
        recv_chain_key = some chain.1;
        send_n = 0;
        recv_n = 0;
        prev_send_n = s.send_n;
        skipped_keys = [];
      } in
      (
        s₁,
        chain.1,
        simp
            (
              adopt_peer,
              named,
              eqb_ne known peer other,
              dh_ratchet,
              exchanged,
              renew_send,
              exchanged',
            )
            refl,
        refl,
        refl,
        refl,
      )

  -- A first message that does not open on such a chain.
  receive_sealed :
      (peer ciphertext chain_key : Bytes) (prev_n : ℕ) (s : RatchetState)
      → s.recv_chain_key ≡ some chain_key
      → s.recv_n ≡ 0
      → s.skipped_keys ≡ []
      → ltb (length ciphertext) 24 ≡ false
      → ((key ad nonce : Bytes) → k.aead_decrypt key ad nonce (drop 24 ciphertext) ≡ none)
      → (s₂ : RatchetState) × (receive_on_chain k peer prev_n 0 ciphertext (ok tt, s)
          ≡ (err (RatchetError.sealed_message decryption_failed), s₂))
        × (s₂.skipped_keys ≡ [])
  unfolding receive_on_chain skip_keys xchacha_decrypt
  receive_sealed peer ciphertext chain_key prev_n s chained zeroth cleared sized refused =
      let s₂ : RatchetState = record s {
        recv_chain_key = some (kdf_ck k chain_key).1;
        recv_n = 1;
      } in
      (s₂, simp (chained, zeroth, cleared, sized, refused) refl, cleared)

  passed_number_refused :
      (peer ciphertext : Bytes) (prev_n message_n : ℕ) (chain_key : Bytes) (s : RatchetState)
      → s.skipped_keys ≡ []
      → s.recv_chain_key ≡ some chain_key
      → ltb message_n s.recv_n ≡ true
      → receive_on_chain k peer prev_n message_n ciphertext (ok tt, s) ≡ (err already_received, s)
  unfolding receive_on_chain skip_key lookup
  passed_number_refused peer ciphertext prev_n message_n chain_key s cleared chained old =
      let lost : skip_key peer message_n s ≡ err already_received = rw (skip_key, cleared) refl in
      simp (chained, old, lost) refl

  -- Without skipped keys, a packet of the peer whose number was passed is refused.
  passed_packet_refused :
      (fresh packet known chain_key : Bytes) (s : RatchetState)
      → IsWellFormed s
      → s.skipped_keys ≡ []
      → s.dh_peer_public ≡ some known
      → s.recv_chain_key ≡ some chain_key
      → ltb (length packet) 45 ≡ false
      → take 5 packet ≡ ratchet_magic
      → take 32 (drop 5 packet) ≡ known
      → unpack (take 4 (drop 41 packet)) < s.recv_n
      → decrypt k fresh packet s ≡ (err already_received, s)
  unfolding decrypt restore_on_error
  passed_packet_refused fresh packet known chain_key s w cleared named chained long marked own
        passed =
      let old : ltb (unpack (take 4 (drop 41 packet))) s.recv_n ≡ true = ground (arith, passed) in
      let magic : eqb (take 5 packet) ratchet_magic ≡ true = rw marked (eqb_refl ratchet_magic) in
      let kept : adopt_peer k fresh (take 32 (drop 5 packet)) s ≡ (ok tt, s) =
        unfold adopt_peer in rw (own, named, eqb_refl known) refl in
      rw (long, magic, kept, passed_number_refused _ _ _ _ chain_key s cleared chained old)
        (ap (refused_with already_received) (restore_snapshot-WellFormed s s w))

  -- A packet from a key that is not the peer's, with the number 0 and room for a nonce, clears the skipped keys
  -- although it fails to decrypt: every packet of the peer with a number that the receiver has passed, which a
  -- skipped key could have opened, is then refused as already received.
  pub forged_packet_clears_skipped :
      (fresh payload known dh dh' : Bytes) (s : RatchetState)
      → IsWellFormed s
      → ltb (length payload) 45 ≡ false
      → take 5 payload ≡ ratchet_magic
      → unpack (take 4 (drop 41 payload)) ≡ 0
      → s.dh_peer_public ≡ some known
      → known ≢ take 32 (drop 5 payload)
      → k.x25519_exchange s.dh_self_private (take 32 (drop 5 payload)) ≡ some dh
      → k.x25519_exchange fresh (take 32 (drop 5 payload)) ≡ some dh'
      → ltb (length (drop 45 payload)) 24 ≡ false
      → ((key ad nonce : Bytes) → k.aead_decrypt key ad nonce (drop 24 (drop 45 payload)) ≡ none)
      → (decrypt k fresh payload s
          ≡ (err (RatchetError.sealed_message decryption_failed), record s { skipped_keys = [] }))
        × ((fresh' packet chain_key : Bytes)
            → s.recv_chain_key ≡ some chain_key
            → ltb (length packet) 45 ≡ false
            → take 5 packet ≡ ratchet_magic
            → take 32 (drop 5 packet) ≡ known
            → unpack (take 4 (drop 41 packet)) < s.recv_n
            → decrypt k fresh' packet (record s { skipped_keys = [] })
              ≡ (err already_received, record s { skipped_keys = [] }))
  unfolding decrypt restore_on_error eqb
  forged_packet_clears_skipped fresh payload known dh dh' s w long marked zeroth named other
        exchanged exchanged' sized refused =
      let peer = take 32 (drop 5 payload) in
      let (s₁, chain_key, adopted, chained, first, cleared) =
        adopt_stranger fresh peer known dh dh' s named other exchanged exchanged' in
      let (s₂, received, left) =
        receive_sealed peer (drop 45 payload) chain_key (unpack (take 4 (drop 37 payload))) s₁
          chained first cleared sized refused in
      (
        rw (long, marked, zeroth, adopted, received)
            (ap (refused_with (RatchetError.sealed_message decryption_failed)) (
              restore_snapshot-WellFormed s s₂ w
              ∙ ap (λ (d : Dict Text). record s { skipped_keys = d }) left)),
        λ fresh' packet key chained' long' marked' own passed.
            passed_packet_refused fresh' packet known key (record s { skipped_keys = [] })
              (record {
                root = w.root;
                private = w.private;
                public = w.public;
                peer = w.peer;
                send_chain = w.send_chain;
                recv_chain = w.recv_chain;
                pending = w.pending;
              })
              refl named chained' long' marked' own passed,
      )
