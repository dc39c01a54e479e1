-- ===== src/Presence/Payload.antt =====
-- packages/yakr-core/src/yakr_core/presence.py: `PresencePayload` and its JSON.
use yakr.Prelude.{
  ℕ, ◌+◌, ◌≡◌, refl, Bool, true, false, not, Option, some, Result, ok, err, ◌>>=◌, ◌>>◌, raise_if,
  or_raise, Bytes, Text, IsBytes, codes, eqb, rstrip,
}
use yakr.Base64.{b64encode, b64decode}
use yakr.Base64.RoundTrip.{b64decode-b64encode}
use yakr.Codec.{Value, int, text, map, other, end, field, get}
use yakr.Ephemeral.{presence_ttl_ms}
use yakr.Message.{Json, json_int, json_str}

abbrev pub presence_protocol : Text
presence_protocol = codes "yakr-v1.1/presence"

-- The `protocol` is left out: it is always the same.
pub record PresencePayload : Type 0 where
  pub operator_name : Text
  pub reachable_url : Text
  pub relay_active : Bool
  pub valid_until : ℕ

-- The two `ValueError`s of reading, any other exception of it, and the `YakrError` of `apply_presence_message`.
pub data PresenceError : Type 0 where
  unsupported_presence unreadable operator_mismatch : PresenceError

unfoldable pub for_operator : ℕ → Text → Text → Bool → PresencePayload
for_operator now operator_name reachable_url relay_active = record {
  operator_name = operator_name;
  reachable_url = rstrip b'/' reachable_url;
  relay_active = relay_active;
  valid_until = now + presence_ttl_ms;
}

-- JSON's `true` and `false`.
abbrev pub bool_value : Bool → Value
bool_value true = other 1
bool_value false = other 2

-- The dict with its keys sorted.
abbrev pub presence_value : PresencePayload → Value
presence_value p = map (
    field (codes "operator_name") (text p.operator_name) (
      field (codes "protocol") (text presence_protocol) (
        field (codes "reachable_url") (text (rstrip b'/' p.reachable_url)) (
          field (codes "relay_active") (bool_value p.relay_active)
            (field (codes "valid_until") (int p.valid_until) end)))))

abbrev is_presence_protocol : Option Value → Bool
is_presence_protocol (some (text t)) = eqb t presence_protocol
is_presence_protocol _ = false

module _ (j : Json) where
  unfoldable pub presence_to_bytes : PresencePayload → Bytes
  presence_to_bytes p = j.dumps (presence_value p)

  presence_of_value : Value → Result PresenceError PresencePayload
  presence_of_value (map fs) = do
    raise_if (not (is_presence_protocol (get (codes "protocol") fs))) unsupported_presence
    operator_name ← or_raise (json_str j (codes "operator_name") fs) unreadable
    reachable_url ← or_raise (json_str j (codes "reachable_url") fs) unreadable
    relay_active ← or_raise (get (codes "relay_active") fs) unreadable
    valid_until ← or_raise (json_int j (codes "valid_until") fs) unreadable
    ok (record {
      operator_name = operator_name;
      reachable_url = rstrip b'/' reachable_url;
      relay_active = j.bool_of relay_active;
      valid_until = valid_until;
    })
  presence_of_value _ = err unreadable

  unfoldable pub presence_from_bytes : Bytes → Result PresenceError PresencePayload
  unfolding presence_of_value
  presence_from_bytes payload = do
    value ← or_raise (j.loads payload) unreadable
    presence_of_value value

  unfoldable pub presence_to_b64 : PresencePayload → Text
  presence_to_b64 p = b64encode (presence_to_bytes p)

  unfoldable pub presence_from_b64 : Text → Result PresenceError PresencePayload
  presence_from_b64 value = do
    payload ← or_raise (b64decode value) unreadable
    presence_from_bytes payload

-- What the program relies on of `json` here.
pub record IsPresenceJson (j : Json) : Type 0 where
  pub presence_loads :
      (p : PresencePayload) → j.loads (j.dumps (presence_value p)) ≡ some (presence_value p)
  pub presence-IsBytes : (p : PresencePayload) → IsBytes (j.dumps (presence_value p))
  pub int_of_int : (n : ℕ) → j.int_of (int n) ≡ some n
  pub str_of_text : (t : Text) → j.str_of (text t) ≡ some t
  pub bool_of_bool : (b : Bool) → j.bool_of (bool_value b) ≡ b

-- A presence is read as it was made.
pub presence_from_b64-to_b64 :
    (j : Json) (l : IsPresenceJson j) (p : PresencePayload)
    → rstrip b'/' p.reachable_url ≡ p.reachable_url
    → presence_from_b64 j (presence_to_b64 j p) ≡ ok p
unfolding presence_from_b64 presence_to_b64 presence_from_bytes presence_to_bytes presence_of_value
    eqb
presence_from_b64-to_b64 j l p h =
    rw (b64decode-b64encode (presence_to_bytes j p) (l.presence-IsBytes p), l.presence_loads p)
      (simp (l.int_of_int, l.str_of_text, l.bool_of_bool, h) refl)
