-- ===== src/Relay/CapabilityStore.antt =====
-- packages/yakr-relay/src/yakr_relay/capability_store.py: the registered grants and the nonces that
-- were used. `_load` and `_save` copy this state to a JSON file and are left out.
pub mod Nonces
pub mod Registration
pub mod Revocation
use yakr.Prelude.{
  ℕ, ◌+◌, ◌-◌, ◌*◌, Bool, true, false, not, Option, none, some, List, [], ◌∷◌, Result, ok, err,
  ◌>>=◌, ◌>>◌, raise_if, or_raise, ltb, leb, ◌==◌, if◌then◌else◌, select, Bytes, Text, Dict, lookup,
  insert,
}
use yakr.Base64.{b64encode, b64decode}
use yakr.Codec.{Codec}
use yakr.Crypto.{Crypto}
use yakr.Capability.Payload.{
  CapabilityGrant, GrantError, to_b64, from_b64, generation_rollback, nonce_replay,
}
use yakr.Capability.{verify_capability_grant}

abbrev pub default_capability_overlap_ms : ℕ
default_capability_overlap_ms = 48 * 60 * 60 * 1000

-- `ttl` in `_prune_nonces`
abbrev pub nonce_ttl_ms : ℕ
nonce_ttl_ms = 10 * 60 * 1000

-- A value of `_active`.
pub record Entry : Type 0 where
  pub grant_b64 : Text
  pub registered_at : ℕ
  pub revoked_at : Option ℕ
  pub overlap_until_ms : Option ℕ

pub record CapabilityGrantStore : Type 0 where
  pub overlap_window_ms : ℕ
  pub active : Dict Entry
  pub seen_nonces : Dict ℕ

-- `now - seen_at <= ttl`, also where the clock went back.
unfoldable pub is_fresh : ℕ → Text × ℕ → Bool
is_fresh now (key, seen_at) = leb (now - seen_at) nonce_ttl_ms

unfoldable pub prune_nonces : ℕ → CapabilityGrantStore → CapabilityGrantStore
prune_nonces now s = record s { seen_nonces = select (is_fresh now) s.seen_nonces }

unfoldable pub consume_nonce :
    ℕ → Text → CapabilityGrantStore → Result GrantError CapabilityGrantStore
unfolding prune_nonces
consume_nonce now nonce_b64 s =
    let pruned = prune_nonces now s in
    elim (lookup nonce_b64 pruned.seen_nonces) [
      | some seen_at ↦ err nonce_replay
      | none ↦ ok (record pruned { seen_nonces = insert nonce_b64 now pruned.seen_nonces })
    ]

unfoldable pub revoke_entry :
    ℕ → ℕ → Text → CapabilityGrantStore → Option Entry → CapabilityGrantStore
revoke_entry now window key s none = s
revoke_entry now window key s (some e) = record s {
  active =
      insert key (record e { revoked_at = some now; overlap_until_ms = some (now + window) })
        s.active;
}

-- The window is the argument `overlap_window_ms`, or that of the store.
unfoldable pub revoke_with_overlap :
    ℕ → Option ℕ → Bytes → CapabilityGrantStore → CapabilityGrantStore
unfolding revoke_entry
revoke_with_overlap now window capability_id s =
    let key = b64encode capability_id in
    revoke_entry now (elim window [ none ↦ s.overlap_window_ms | some w ↦ w ]) key s
      (lookup key s.active)

unfoldable pub revoke_immediately : ℕ → Bytes → CapabilityGrantStore → CapabilityGrantStore
revoke_immediately now capability_id s = revoke_with_overlap now (some 0) capability_id s

is_over : ℕ → Option ℕ → Bool
is_over now none = false
is_over now (some until) = leb until now

module _ (c : Codec) (k : Crypto) where
  -- `existing["grant_b64"]`, against which a new grant's generation is checked.
  unfoldable pub check_generation : CapabilityGrant → Option Entry → Result GrantError (Unit {0})
  check_generation grant none = ok tt
  check_generation grant (some existing) = do
    prev ← from_b64 c existing.grant_b64
    raise_if (ltb grant.capability_generation prev.capability_generation) generation_rollback

  abbrev pub fresh_entry : ℕ → CapabilityGrant → Entry
  fresh_entry now grant = record {
    grant_b64 = to_b64 c grant;
    registered_at = now;
    revoked_at = none;
    overlap_until_ms = none;
  }

  unfoldable pub register :
      ℕ
      → Bytes
      → Text
      → Bytes
      → CapabilityGrant
      → CapabilityGrantStore
      → Result GrantError CapabilityGrantStore
  unfolding check_generation
  register now relay_public relay_name pin grant s = do
    verify_capability_grant c k now relay_public relay_name pin grant
    let key = b64encode grant.capability_id
    check_generation grant (lookup key s.active)
    ok (record s { active = insert key (fresh_entry now grant) s.active })

  is_registered_entry : ℕ → CapabilityGrant → Option Entry → Result GrantError Bool
  unfolding is_over
  is_registered_entry now grant none = ok false
  is_registered_entry now grant (some e) = do
    stored ← from_b64 c e.grant_b64
    ok (
        if stored.capability_generation == grant.capability_generation
        then not (is_over now e.overlap_until_ms)
        else false)

  unfoldable pub is_registered : ℕ → CapabilityGrant → CapabilityGrantStore → Result GrantError Bool
  unfolding is_registered_entry
  is_registered now grant s =
      is_registered_entry now grant (lookup (b64encode grant.capability_id) s.active)
