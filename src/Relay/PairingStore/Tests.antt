-- ===== src/Relay/PairingStore/Tests.antt =====
-- pairing_store.py: examples.
use yakr.Prelude.{
  ◌≡◌, refl, arith, true, false, none, some, [], ◌∷◌, ok, err, replicate, Bytes, Text, eqb, lookup,
  insert,
}
use yakr.Base64.{b64encode}
use yakr.Crypto.{toy_crypto}
use yakr.Relay.PairingStore.{
  Session, PairingStore, already_consumed, register, store_request, store_response, get_response,
  get_pending_request, default_ttl_ms,
}
use yakr.Relay.PairingStore.SingleUse.{here, single_use}

abbrev secret : Bytes
secret = replicate 32 7

abbrev tag : Text
tag = b64encode (toy_crypto.sha256 secret)

abbrev asked : Session
asked = record {
  invite_secret = secret;
  registered_at = 3;
  request = some (1 ∷ []);
  response = none;
  consumed = false;
}

abbrev waiting : PairingStore
waiting = record { ttl_ms = default_ttl_ms; sessions = insert tag asked [] }

abbrev answered : PairingStore
answered = record {
  ttl_ms = default_ttl_ms;
  sessions =
      insert tag (record asked { response = some (2 ∷ []); consumed = true }) (insert tag asked []);
}

response_stored : store_response toy_crypto secret (2 ∷ []) waiting ≡ ok (tag, answered)
unfolding store_response lookup insert eqb b64encode
response_stored = refl

waiting_found : lookup tag waiting.sessions ≡ some asked
unfolding lookup insert eqb b64encode
waiting_found = refl

single_use_example :
    (get_response tag answered ≡ some (2 ∷ []))
    × (get_pending_request tag answered ≡ none)
    × (register toy_crypto 9 secret answered ≡ err already_consumed)
    × ((request : Bytes)
        → store_request toy_crypto 9 secret request answered ≡ err already_consumed)
    × ((again : Bytes) → store_response toy_crypto secret again answered ≡ err already_consumed)
single_use_example =
    single_use toy_crypto 9 9 secret (2 ∷ []) tag asked waiting answered answered response_stored
      waiting_found here (omega arith)
