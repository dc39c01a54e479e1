-- ===== src/Message.antt =====
-- packages/yakr-core/src/yakr_core/message.py: the outer blob that relays store, and the message in it.
pub mod RelayJson
pub mod RoundTrip
use yakr.Prelude.{
  ℕ, ◌+◌, ◌≡◌, Bool, Option, some, none, List, [], ◌∷◌, Result, ok, err, ◌>>=◌, or_raise, Bytes,
  Text, codes, eqb, if◌then◌else◌,
}
use yakr.Codec.{Value, int, text, map, other, Fields, end, field, get}
use yakr.Ephemeral.{message_ttl_ms, message_valid_until}

pub record OuterBlob : Type 0 where
  pub version : ℕ
  pub mailbox_tag : Bytes
  pub expires_at : ℕ
  pub ciphertext : Bytes

-- Python's `json` with UTF-8, and `int`, `str` and `bool` of what it loads. JSON has no bytes: a dict of numbers, texts
-- and `null` is read as it was written. `null` is the value `other 0`.
pub record Json : Type 0 where
  pub dumps : Value → Bytes
  pub loads : Bytes → Option Value
  pub int_of : Value → Option ℕ
  pub str_of : Value → Option Text
  pub bool_of : Value → Bool

abbrev pub null_value : Value
null_value = other 0

-- `type` and `message_id` are taken from the JSON as they are.
pub record InnerMessage : Type 0 where
  pub version : ℕ
  pub conversation_id : Text
  pub sender_device_id : Text
  pub seq : ℕ
  pub created_at : ℕ
  pub valid_until : ℕ
  pub type : Value
  pub body : Text
  pub message_id : Value

-- `asdict(self)` with the keys sorted.
unfoldable pub inner_value : InnerMessage → Value
inner_value m = map (
    field (codes "body") (text m.body) (
      field (codes "conversation_id") (text m.conversation_id) (
        field (codes "created_at") (int m.created_at) (
          field (codes "message_id") m.message_id (
            field (codes "sender_device_id") (text m.sender_device_id) (
              field (codes "seq") (int m.seq) (
                field (codes "type") m.type (
                  field (codes "valid_until") (int m.valid_until)
                    (field (codes "version") (int m.version) end)))))))))

-- `InnerMessage.text`
unfoldable pub text_message : ℕ → Text → Text → ℕ → Text → InnerMessage
text_message now conversation_id sender_device_id seq body = record {
  version = 1;
  conversation_id = conversation_id;
  sender_device_id = sender_device_id;
  seq = seq;
  created_at = now;
  valid_until = message_valid_until now;
  type = text (codes "text");
  body = body;
  message_id = null_value;
}

-- `InnerMessage.receipt`
unfoldable pub receipt_message : ℕ → Text → Text → ℕ → Text → InnerMessage
receipt_message now conversation_id sender_device_id seq message_id = record {
  version = 1;
  conversation_id = conversation_id;
  sender_device_id = sender_device_id;
  seq = seq;
  created_at = now;
  valid_until = message_valid_until now;
  type = text (codes "receipt");
  body = [];
  message_id = text message_id;
}

-- `InnerMessage.profile`
unfoldable pub profile_message : ℕ → Text → Text → ℕ → Text → InnerMessage
profile_message now conversation_id sender_device_id seq profile_b64 = record {
  version = 1;
  conversation_id = conversation_id;
  sender_device_id = sender_device_id;
  seq = seq;
  created_at = now;
  valid_until = message_valid_until now;
  type = text (codes "profile");
  body = profile_b64;
  message_id = null_value;
}

-- `InnerMessage.presence`, with the `valid_until` that its caller gives.
unfoldable pub presence_message : ℕ → Text → Text → ℕ → Text → ℕ → InnerMessage
presence_message now conversation_id sender_device_id seq presence_b64 valid_until = record {
  version = 1;
  conversation_id = conversation_id;
  sender_device_id = sender_device_id;
  seq = seq;
  created_at = now;
  valid_until = valid_until;
  type = text (codes "presence");
  body = presence_b64;
  message_id = null_value;
}

-- The exceptions are not told apart.
pub data InnerError : Type 0 where
  malformed : InnerError

-- `payload.get(key, default)`
abbrev pub get_or : Text → Value → Fields → Value
get_or key default_value fs = elim (get key fs) [ none ↦ default_value | some v ↦ v ]

module _ (j : Json) where
  unfoldable pub inner_to_bytes : InnerMessage → Bytes
  inner_to_bytes m = j.dumps (inner_value m)

  abbrev pub json_int : Text → Fields → Option ℕ
  json_int key fs = elim (get key fs) [ none ↦ none | some v ↦ j.int_of v ]

  abbrev pub json_str : Text → Fields → Option Text
  json_str key fs = elim (get key fs) [ none ↦ none | some v ↦ j.str_of v ]

  unfoldable pub inner_of_fields : Fields → Result InnerError InnerMessage
  inner_of_fields fs = do
    created_at ← or_raise (json_int (codes "created_at") fs) malformed
    valid_until ←
        or_raise (j.int_of (get_or (codes "valid_until") (int (created_at + message_ttl_ms)) fs))
          malformed
    version ← or_raise (json_int (codes "version") fs) malformed
    conversation_id ← or_raise (json_str (codes "conversation_id") fs) malformed
    sender_device_id ← or_raise (json_str (codes "sender_device_id") fs) malformed
    seq ← or_raise (json_int (codes "seq") fs) malformed
    type ← or_raise (get (codes "type") fs) malformed
    body ← or_raise (j.str_of (get_or (codes "body") (text []) fs)) malformed
    ok (record {
      version = version;
      conversation_id = conversation_id;
      sender_device_id = sender_device_id;
      seq = seq;
      created_at = created_at;
      valid_until = valid_until;
      type = type;
      body = body;
      message_id = get_or (codes "message_id") null_value fs;
    })

  inner_of_value : Value → Result InnerError InnerMessage
  unfolding inner_of_fields
  inner_of_value (map fs) = inner_of_fields fs
  inner_of_value _ = err malformed

  -- Numbers are natural here: a negative `seq` or `created_at`, which the source reads, is malformed.
  unfoldable pub inner_from_bytes : Bytes → Result InnerError InnerMessage
  unfolding inner_of_value
  inner_from_bytes payload = do value ← or_raise (j.loads payload) malformed; inner_of_value value
