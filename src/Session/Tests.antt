-- ===== src/Session/Tests.antt =====
-- session.py: examples.
use yakr.Prelude.{
  ◌+◌, ◌≡◌, ◌≢◌, refl, arith, true, [], ◌∷◌, ok, err, length, replicate, codes, All, List, Result,
}
use yakr.Crypto.{toy_crypto, toy_crypto-IsAead}
use yakr.Message.{OuterBlob, text_message, inner_to_bytes}
use yakr.Privacy.{pad_plaintext, pad_to_class, select_size_class}
use yakr.Ratchet.Delivery.{sent, encrypt-ready}
use yakr.Ratchet.{encrypt, decrypt, fits_header}
use yakr.Contact.{Contact}
use yakr.Session.{
  unable_to_decrypt, malformed_message, accept_decrypted, restore_auxiliary, decrypt_outer,
  decrypt_inbound, ratchet_failure,
}
use yakr.Session.Conversation.{InStep, Turn, IsTimely, IsAsWritten, exchange, texts_are_received}
use yakr.Session.Addressing.{asked_tags, sent_blob_is_asked}
use yakr.Session.Sending.{EncryptedMessage, SendError, encrypt_inner, send_sealed, encrypt_text}
use yakr.HybridPq.{needs_pq_rekey}
use yakr.Mailbox.{current_epoch}
use yakr.Mailbox.Lookback.{is_asked}
use yakr.Sample.{
  sealed, toy_json, toy_json-IsJson, sender, in_sync, contact, hello, receiver-IsWellFormed,
  alice_device, bob_device, alice, bob,
}
use yakr.Session.Receiving.{accepted_seqs, count_up, accepted_seqs_in_order}
use yakr.Session.Delivery.{IsDue, contact_after, sealed_message_is_received}
use yakr.Session.Rollback.{IsRestored, refused_message_rolls_back}

header_fits : fits_header toy_crypto 0 0 ≡ true
unfolding fits_header
header_fits = refl

hello-IsDue : IsDue 200 hello contact
unfolding text_message
hello-IsDue = record { own_conversation = refl; next_seq = refl; alive = ground arith }

sealed_message_is_received_example :
    decrypt_inbound toy_json toy_crypto 200 [] sealed contact
    ≡ (ok hello, contact_after toy_crypto toy_crypto-IsAead (5 ∷ []) hello contact)
unfolding pad_plaintext pad_to_class select_size_class
sealed_message_is_received_example =
    sealed_message_is_received toy_json toy_crypto toy_json-IsJson toy_crypto-IsAead 200 0 hello []
      [] (replicate 24 0) (inner_to_bytes toy_json hello) (5 ∷ []) sealed sender
      (sent toy_crypto toy_crypto-IsAead (5 ∷ []) sender) contact in_sync receiver-IsWellFormed
      hello-IsDue refl (ground arith) (ground arith) refl
      (encrypt-ready toy_crypto toy_crypto-IsAead [] (replicate 24 0)
        (inner_to_bytes toy_json hello) (5 ∷ []) sender refl refl header_fits)

abbrev junk : OuterBlob
junk = record sealed { ciphertext = 1 ∷ [] }

accepted_seqs_in_order_example :
    accepted_seqs toy_json toy_crypto
      (record { now = 200; fresh = []; outer = sealed } ∷ [])
      contact
    ≡ count_up toy_json toy_crypto (contact.last_recv_seq + 1) (
        length (
          accepted_seqs toy_json toy_crypto
            (record { now = 200; fresh = []; outer = sealed } ∷ [])
            contact))
accepted_seqs_in_order_example =
    accepted_seqs_in_order toy_json toy_crypto
      (record { now = 200; fresh = []; outer = sealed } ∷ []) contact

junk_refused :
    decrypt_inbound toy_json toy_crypto 200 [] junk contact ≡ (err unable_to_decrypt, contact)
unfolding decrypt_inbound decrypt_outer decrypt ratchet_failure accept_decrypted restore_auxiliary
junk_refused = refl

unable_ne_malformed : unable_to_decrypt ≢ malformed_message
unable_ne_malformed e = ground (arith, e)

refused_message_rolls_back_example : IsRestored contact contact
refused_message_rolls_back_example =
    refused_message_rolls_back toy_json toy_crypto 200 [] junk contact contact unable_to_decrypt
      receiver-IsWellFormed junk_refused unable_ne_malformed

abbrev hi_again : Turn
hi_again = record {
  sent_at = 300;
  received_at = 400;
  sender_fresh = [];
  receiver_fresh = [];
  nonce = replicate 24 0;
  body = codes "again";
}

abbrev turns : List Turn
turns = record hi_again { sent_at = 100; received_at = 200; body = codes "hello" } ∷ hi_again ∷ []

alice-bob-InStep : InStep (5 ∷ []) alice bob
alice-bob-InStep = record {
  ratchets = in_sync;
  conversation = refl;
  mode = refl;
  numbers = refl;
  prev_room = ground arith;
}

hi-IsTimely : IsTimely hi_again
hi-IsTimely = record { size = refl; alive = ground arith }

hello-IsTimely :
    IsTimely (record hi_again { sent_at = 100; received_at = 200; body = codes "hello" })
hello-IsTimely = record { size = refl; alive = ground arith }

texts_are_received_example :
    All IsAsWritten (exchange toy_json toy_crypto turns alice_device alice bob)
texts_are_received_example =
    texts_are_received toy_json toy_crypto toy_json-IsJson toy_crypto-IsAead turns (5 ∷ [])
      alice_device alice bob alice-bob-InStep (hello-IsTimely, (hi-IsTimely, tt)) (ground arith)

-- Two messages go through.
two_exchanged : length (exchange toy_json toy_crypto turns alice_device alice bob) ≡ 2
unfolding exchange encrypt_text encrypt_inner needs_pq_rekey pad_plaintext pad_to_class
    select_size_class send_sealed encrypt
two_exchanged = refl

abbrev sent_hello : Result SendError EncryptedMessage × Contact
sent_hello = encrypt_inner toy_json toy_crypto 100 [] (replicate 24 0) alice_device hello alice

abbrev message_of : Result SendError EncryptedMessage → EncryptedMessage
message_of (ok m) = m
message_of (err e) = record {
  outer_blob = junk;
  inner_message = hello;
  msg_id = [];
  mailbox_tag = record { tag = []; epoch = 0; direction = [] };
  padding_bytes = 0;
}

hello_was_sent : sent_hello ≡ (ok (message_of sent_hello.0), sent_hello.1)
unfolding encrypt_inner send_sealed pad_plaintext pad_to_class select_size_class needs_pq_rekey
    encrypt
hello_was_sent = refl

sent_blob_is_asked_example :
    is_asked
      (message_of sent_hello.0).outer_blob.mailbox_tag
      (asked_tags toy_crypto 7200000 bob_device bob)
    ≡ true
unfolding current_epoch
sent_blob_is_asked_example =
    sent_blob_is_asked toy_json toy_crypto 100 7200000 [] (replicate 24 0) alice_device bob_device
      hello alice sent_hello.1 bob (message_of sent_hello.0) hello_was_sent refl refl refl refl
      (ground arith) (ground arith)
