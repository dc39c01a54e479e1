-- ===== src/Sample.antt =====
-- Data of the examples: the two sides of a conversation, and the first text.
use yakr.Prelude.{Bool, ◌==◌, refl, arith, false, none, some, [], ◌∷◌, replicate, codes}
use yakr.Codec.{Value, other}
use yakr.Codec.Sample.Laws.{sample}
use yakr.Contact.{Contact}
use yakr.Contact.RoundTrip.{IsSavable}
use yakr.Crypto.{toy_crypto, toy_crypto-IsAead}
use yakr.Message.{Json, InnerMessage, OuterBlob, text_message, inner_value, inner_to_bytes}
use yakr.Message.RoundTrip.{IsJson}
use yakr.Privacy.{fast}
use yakr.Ratchet.Delivery.{InSync, packet_of}
use yakr.Ratchet.Forgery.{IsWellFormed}
use yakr.Ratchet.State.{RatchetState}
use yakr.Session.Sending.{Sender}

-- The truth of JSON's values, for the examples.
abbrev is_true : Value → Bool
is_true (other n) = n == 1
is_true _ = false

-- The codec that the examples use, for JSON.
abbrev pub toy_json : Json
toy_json = record {
  dumps = sample.dumps;
  loads = sample.loads;
  int_of = sample.int_of;
  str_of = sample.str_of;
  bool_of = is_true;
}

pub toy_json-IsJson : IsJson toy_json
toy_json-IsJson = record {
  inner_loads = λ m. sample.loads-dumps (inner_value m);
  int_of_int = sample.int_of_int;
  str_of_text = sample.str_of_text;
}

abbrev pub sender : RatchetState
sender = record {
  root_key = 1 ∷ [];
  dh_self_private = 2 ∷ [];
  dh_self_public = replicate 32 3;
  dh_peer_public = some (4 ∷ []);
  send_chain_key = some (5 ∷ []);
  recv_chain_key = some (6 ∷ []);
  send_n = 0;
  recv_n = 0;
  prev_send_n = 0;
  skipped_keys = [];
  hybrid = false;
  pending_pairing_dh_ratchet_peer = none;
}

abbrev pub receiver : RatchetState
receiver = record sender {
  dh_peer_public = some (replicate 32 3);
  send_chain_key = some (6 ∷ []);
  recv_chain_key = some (5 ∷ []);
}

pub in_sync : InSync (5 ∷ []) sender receiver
in_sync = record {
  peer = refl;
  sends = refl;
  receives = refl;
  counts = refl;
  ready = refl;
  public_size = refl;
  room = omega arith;
}

abbrev pub contact : Contact
contact = record {
  name = codes "Bob";
  signing_public = [];
  agreement_public = [];
  master_secret = [];
  conversation_id = codes "pair";
  next_send_seq = 1;
  last_recv_seq = 0;
  contact_id = none;
  transcript_hash = none;
  ratchet = receiver;
  delivery_profile = none;
  peer_acked_my_profile_version = 0;
  peer_acked_my_relay_names = [];
  hybrid_pq = false;
  session_started_at = 0;
  privacy_mode = fast;
}

abbrev pub hello : InnerMessage
hello = text_message 100 (codes "pair") (codes "device") 1 (codes "hello")

pub receiver-IsWellFormed : IsWellFormed receiver
receiver-IsWellFormed = record {
  root = ground arith;
  private = ground arith;
  public = ground arith;
  peer = (ground arith, refl);
  send_chain = (ground arith, refl);
  recv_chain = (ground arith, refl);
  pending = tt;
}

abbrev pub bob_device : Sender
bob_device = record { name = codes "Bob"; device_id = codes "device"; signing_private = 3 ∷ [] }

abbrev pub alice_device : Sender
alice_device = record { name = codes "Alice"; device_id = codes "tablet"; signing_private = 4 ∷ [] }

-- Alice's contact for Bob, and Bob's for Alice.
abbrev pub alice : Contact
alice = record contact { ratchet = sender }

abbrev pub bob : Contact
bob = record contact { name = codes "Alice" }

pub contact-IsSavable : IsSavable contact
contact-IsSavable = record {
  signing = tt;
  agreement = tt;
  master = tt;
  id = tt;
  transcript = tt;
  ratchet = receiver-IsWellFormed;
  profile = tt;
  names = tt;
}

-- The first text, as Alice seals it.
abbrev pub sealed : OuterBlob
sealed = record {
  version = 1;
  mailbox_tag = replicate 32 1;
  expires_at = 500;
  ciphertext =
      packet_of toy_crypto toy_crypto-IsAead (replicate 24 0) (inner_to_bytes toy_json hello)
        (5 ∷ []) sender;
}
