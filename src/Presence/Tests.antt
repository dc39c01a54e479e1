-- ===== src/Presence/Tests.antt =====
-- presence.py: an example, a relay that moved.
use yakr.Prelude.{
  ◌+◌, ◌≡◌, refl, arith, true, false, Bool, none, some, [], ok, ltb, if◌then◌else◌, Text, codes,
  eqb, rstrip,
}
use yakr.Codec.Sample.Laws.{sample}
use yakr.Ephemeral.{presence_ttl_ms}
use yakr.Message.{presence_message}
use yakr.Presence.Payload.{
  IsPresenceJson, bool_value, presence_value, for_operator, presence_to_b64,
}
use yakr.Presence.{apply_presence_message, resolve_operator_url}
use yakr.Presence.Resolving.{told_url_is_used}
use yakr.Sample.{toy_json, contact}
use yakr.LocalStore.{FileLocalStore, empty_database}

bool_of_bool : (b : Bool) → toy_json.bool_of (bool_value b) ≡ b
bool_of_bool true = refl
bool_of_bool false = refl

toy_json-IsPresenceJson : IsPresenceJson toy_json
toy_json-IsPresenceJson = record {
  presence_loads = λ p. sample.loads-dumps (presence_value p);
  presence-IsBytes = λ p. sample.dumps-IsBytes (presence_value p);
  int_of_int = sample.int_of_int;
  str_of_text = sample.str_of_text;
  bool_of_bool = bool_of_bool;
}

abbrev store : FileLocalStore
store = record { test_fault = none; db = empty_database; contact_files = []; local_profile = none }

told_url_is_used_example :
    (let p = for_operator 1000 (codes "Bob") (codes "https://new/") true in
      let inner =
        presence_message 1000
          (codes "pair")
          (codes "device")
          4
          (presence_to_b64 toy_json p)
          p.valid_until in
      (s' : FileLocalStore) × (apply_presence_message toy_json 2000 contact inner store
        ≡ ok (some p, s'))
      × (resolve_operator_url 3000 (codes "Bob") (codes "https://old") s'
          ≡ rstrip b'/' (
              if ltb 3000 (1000 + presence_ttl_ms)
              then codes "https://new/"
              else codes "https://old"))
      × ((other other_url : Text)
          → eqb (codes "Bob") other ≡ false
          → resolve_operator_url 3000 other other_url s'
            ≡ resolve_operator_url 3000 other other_url store))
told_url_is_used_example =
    told_url_is_used toy_json toy_json-IsPresenceJson 1000 2000 3000 4 (codes "Bob")
      (codes "https://new/") (codes "https://old") (codes "pair") (codes "device") contact store
      refl (ground arith)
