-- ===== src/Relay/PairingStore.antt =====
-- packages/yakr-relay/src/yakr_relay/pairing_store.py: the mailbox through which an inviter and a joiner
-- exchange one request and one response. The table `pairing_sessions` is a dict by its primary key.
pub mod SingleUse
pub mod Exchange
mod Tests
use yakr.Prelude.{
  ℕ, ◌-◌, ◌*◌, Bool, true, false, not, Option, none, some, List, [], ◌∷◌, Result, ok, err, ◌>>=◌,
  ◌>>◌, raise_if, ltb, leb, ◌==◌, if◌then◌else◌, length, count, select, Bytes, Text, eqb, Dict,
  lookup, insert,
}
use yakr.Base64.{b64encode}
use yakr.Crypto.{Crypto}

-- A row of `pairing_sessions`, but for its key.
pub record Session : Type 0 where
  pub invite_secret : Bytes
  pub registered_at : ℕ
  pub request : Option Bytes
  pub response : Option Bytes
  pub consumed : Bool

pub record PairingStore : Type 0 where
  pub ttl_ms : ℕ
  pub sessions : Dict Session

abbrev pub default_ttl_ms : ℕ
default_ttl_ms = 30 * 60 * 1000

pub data PairingError : Type 0 where
  secret_length already_consumed unknown_session secret_mismatch : PairingError

-- `registered_at < now - ttl_ms`: no row is that old while the clock is below `ttl_ms`.
unfoldable pub is_stale : ℕ → ℕ → Text × Session → Bool
is_stale now ttl_ms (tag, row) = ltb row.registered_at (now - ttl_ms)

unfoldable pub is_recent : ℕ → ℕ → Text × Session → Bool
unfolding is_stale
is_recent now ttl_ms e = not (is_stale now ttl_ms e)

unfoldable pub sweep_expired : ℕ → PairingStore → ℕ × PairingStore
sweep_expired now s = (
  count (is_stale now s.ttl_ms) s.sessions,
  record s { sessions = select (is_recent now s.ttl_ms) s.sessions },
)

abbrev pub is_consumed : Option Session → Bool
is_consumed none = false
is_consumed (some row) = row.consumed

abbrev save : Text → Session → PairingStore → PairingStore
save tag row s = record s { sessions = insert tag row s.sessions }

unfoldable pub get_pending_request : Text → PairingStore → Option Bytes
get_pending_request tag s = elim (lookup tag s.sessions) [
  | none ↦ none
  | some row ↦ if row.consumed then none else row.request
]

unfoldable pub get_response : Text → PairingStore → Option Bytes
get_response tag s = elim (lookup tag s.sessions) [
  | none ↦ none
  | some row ↦ if not row.consumed then none else row.response
]

unfoldable pub verify_secret : Text → Bytes → PairingStore → Result PairingError (Unit {0})
verify_secret tag secret s = elim (lookup tag s.sessions) [
  | none ↦ err unknown_session
  | some row ↦ raise_if (not (eqb row.invite_secret secret)) secret_mismatch
]

module _ (k : Crypto) where
  -- core/pairing.py
  unfoldable pub invite_tag_for_secret : Bytes → Result PairingError Text
  invite_tag_for_secret secret = do
    raise_if (not (length secret == 32)) secret_length
    ok (b64encode (k.sha256 secret))

  unfoldable pub register : ℕ → Bytes → PairingStore → Result PairingError (Text × PairingStore)
  unfolding invite_tag_for_secret
  register now secret s = do
    raise_if (not (length secret == 32)) secret_length
    tag ← invite_tag_for_secret secret
    raise_if (is_consumed (lookup tag s.sessions)) already_consumed
    ok (
      tag,
      save tag
          (record {
            invite_secret = secret;
            registered_at = now;
            request = none;
            response = none;
            consumed = false;
          })
          s,
    )

  put_request :
      ℕ → Text → Bytes → Bytes → Option Session → PairingStore → Result PairingError PairingStore
  put_request now tag secret request none s = ok (
      save tag
        (record {
          invite_secret = secret;
          registered_at = now;
          request = some request;
          response = none;
          consumed = false;
        })
        s)
  put_request now tag secret request (some row) s =
      if row.consumed
      then err already_consumed
      else ok (save tag (record row { request = some request }) s)

  unfoldable pub store_request :
      ℕ → Bytes → Bytes → PairingStore → Result PairingError (Text × PairingStore)
  unfolding invite_tag_for_secret put_request
  store_request now secret request s = do
    tag ← invite_tag_for_secret secret
    s' ← put_request now tag secret request (lookup tag s.sessions) s
    ok (tag, s')

  put_response : Text → Bytes → Option Session → PairingStore → Result PairingError PairingStore
  put_response tag response none s = err unknown_session
  put_response tag response (some row) s =
      if row.consumed
      then err already_consumed
      else ok (save tag (record row { response = some response; consumed = true }) s)

  unfoldable pub store_response :
      Bytes → Bytes → PairingStore → Result PairingError (Text × PairingStore)
  unfolding invite_tag_for_secret put_response
  store_response secret response s = do
    tag ← invite_tag_for_secret secret
    s' ← put_response tag response (lookup tag s.sessions) s
    ok (tag, s')
