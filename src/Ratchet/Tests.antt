-- ===== src/Ratchet/Tests.antt =====
-- ratchet.py: examples.
use yakr.Prelude.{
  ltb, ◌<◌, length, ℕ, zero, suc, ◌≡◌, ◌≢◌, ◌<◌, refl, false, none, some, [], ◌∷◌, ◌++◌, ok, err,
  Bytes, IsBytes, replicate, take, drop, unpack, arith, codes,
}
use yakr.Crypto.{toy_crypto, toy_crypto-IsAead, decryption_failed}
use yakr.Ratchet.State.{RatchetState}
use yakr.Ratchet.Chains.{RatchetError, kdf_ck, already_received, ratchet_magic, payload_too_short}
use yakr.Ratchet.Delivery.{InSync}
use yakr.Ratchet.Conversation.{Message, converse, converse-InSync, overtaken_message_opens_again}
use yakr.Ratchet.Forgery.{IsWellFormed, failed_decrypt_restores, forged_packet_clears_skipped}
use yakr.Ratchet.Bound.{IsBounded, here, next, decrypted, Reach-IsBounded}
use yakr.Ratchet.{encrypt, decrypt}

replicate-IsBytes : (n b : ℕ) → b < 256 → IsBytes (replicate n b)
replicate-IsBytes zero b h = tt
replicate-IsBytes (suc n) b h = (h, replicate-IsBytes n b h)

abbrev alice : RatchetState
alice = record {
  root_key = replicate 32 1;
  dh_self_private = replicate 32 2;
  dh_self_public = replicate 32 3;
  dh_peer_public = some (replicate 32 4);
  send_chain_key = some (replicate 32 5);
  recv_chain_key = some (replicate 32 6);
  send_n = 0;
  recv_n = 0;
  prev_send_n = 0;
  skipped_keys = [];
  hybrid = false;
  pending_pairing_dh_ratchet_peer = none;
}

abbrev bob : RatchetState
bob = record alice {
  dh_self_private = replicate 32 9;
  dh_self_public = replicate 32 4;
  dh_peer_public = some (replicate 32 3);
  send_chain_key = some (replicate 32 6);
  recv_chain_key = some (replicate 32 5);
}

in_sync : InSync (replicate 32 5) alice bob
in_sync = record {
  peer = refl;
  sends = refl;
  receives = refl;
  counts = refl;
  ready = refl;
  public_size = refl;
  room = omega arith;
}

abbrev hello : Message
hello = record { plaintext = codes "hello"; nonce = replicate 24 0; fresh = replicate 32 8 }

abbrev there : Message
there = record { plaintext = codes "there"; nonce = replicate 24 1; fresh = replicate 32 8 }

converse-InSync_example :
    converse toy_crypto (hello ∷ there ∷ []) alice bob ≡ ok (codes "hello" ∷ codes "there" ∷ [])
converse-InSync_example =
    converse-InSync toy_crypto toy_crypto-IsAead (hello ∷ there ∷ []) (replicate 32 5) alice bob
      in_sync (refl, (refl, tt)) (omega arith) (omega arith)

message_key-IsBytes : IsBytes (kdf_ck toy_crypto (replicate 32 5)).0
unfolding kdf_ck
message_key-IsBytes = replicate-IsBytes 32 5 (omega arith)

overtaken_message_opens_again_example :
    (first second : Bytes) × (s₁ : RatchetState) × (s₂ : RatchetState) × (r₁ : RatchetState)
    × (encrypt toy_crypto hello.fresh hello.nonce hello.plaintext alice ≡ (ok first, s₁))
    × (encrypt toy_crypto there.fresh there.nonce there.plaintext s₁ ≡ (ok second, s₂))
    × (decrypt toy_crypto there.fresh second bob ≡ (ok there.plaintext, r₁))
    × (decrypt toy_crypto hello.fresh first r₁ ≡ (ok hello.plaintext, r₁))
overtaken_message_opens_again_example =
    overtaken_message_opens_again toy_crypto toy_crypto-IsAead hello there (replicate 32 5) alice
      bob in_sync refl refl (omega arith) (omega arith) (omega arith) message_key-IsBytes

bob-IsWellFormed : IsWellFormed bob
bob-IsWellFormed = record {
  root = replicate-IsBytes 32 1 (omega arith);
  private = replicate-IsBytes 32 9 (omega arith);
  public = replicate-IsBytes 32 4 (omega arith);
  peer = (replicate-IsBytes 32 3 (omega arith), refl);
  send_chain = (replicate-IsBytes 32 6 (omega arith), refl);
  recv_chain = (replicate-IsBytes 32 5 (omega arith), refl);
  pending = tt;
}

short_refused : decrypt toy_crypto [] [] bob ≡ (err payload_too_short, bob)
unfolding decrypt
short_refused = refl

failed_decrypt_restores_example : bob ≡ record bob { skipped_keys = bob.skipped_keys }
failed_decrypt_restores_example =
    failed_decrypt_restores toy_crypto [] [] bob bob payload_too_short bob-IsWellFormed
      short_refused

abbrev stranger : Bytes
stranger = replicate 32 11

abbrev forged : Bytes
forged = ratchet_magic ++ stranger ++ replicate 8 0 ++ replicate 25 1

stranger_ne : replicate 32 3 ≢ take 32 (drop 5 forged)
stranger_ne e = ground (arith, e)

zeroth : unpack (take 4 (drop 41 forged)) ≡ 0
unfolding unpack
zeroth = refl

never_opens :
    (key ad nonce : Bytes) → toy_crypto.aead_decrypt key ad nonce (drop 24 (drop 45 forged)) ≡ none
never_opens key ad nonce = refl

-- One message was skipped.
abbrev waiting_bob : RatchetState
waiting_bob = record bob { recv_n = 2; skipped_keys = (codes "key", codes "AQ") ∷ [] }

waiting_bob-IsWellFormed : IsWellFormed waiting_bob
waiting_bob-IsWellFormed = record {
  root = bob-IsWellFormed.root;
  private = bob-IsWellFormed.private;
  public = bob-IsWellFormed.public;
  peer = bob-IsWellFormed.peer;
  send_chain = bob-IsWellFormed.send_chain;
  recv_chain = bob-IsWellFormed.recv_chain;
  pending = tt;
}

forged_packet_clears_skipped_example :
    (decrypt toy_crypto (replicate 32 8) forged waiting_bob ≡ (
      err (RatchetError.sealed_message decryption_failed),
      record waiting_bob { skipped_keys = [] },
    ))
    × ((fresh' packet chain_key : Bytes)
        → waiting_bob.recv_chain_key ≡ some chain_key
        → ltb (length packet) 45 ≡ false
        → take 5 packet ≡ ratchet_magic
        → take 32 (drop 5 packet) ≡ replicate 32 3
        → unpack (take 4 (drop 41 packet)) < waiting_bob.recv_n
        → decrypt toy_crypto fresh' packet (record waiting_bob { skipped_keys = [] })
          ≡ (err already_received, record waiting_bob { skipped_keys = [] }))
forged_packet_clears_skipped_example =
    forged_packet_clears_skipped toy_crypto (replicate 32 8) forged (replicate 32 3)
      (replicate 32 9) (replicate 32 9) waiting_bob waiting_bob-IsWellFormed refl refl zeroth refl
      stranger_ne refl refl refl never_opens

Reach-IsBounded_example : IsBounded (decrypt toy_crypto [] forged bob).1
Reach-IsBounded_example = Reach-IsBounded toy_crypto (next here (decrypted [] forged)) (omega arith)
