-- ===== src/Relay/CapabilityStore/Nonces.antt =====
-- capability_store.py: how long a used nonce is remembered.
use yakr.Prelude.{
  ℕ, ◌+◌, ◌≤◌, ◌≡◌, ◌≢◌, refl, Bool, Option, none, some, [], ◌∷◌, arith, ok, select, Bytes, Text,
  Dict, lookup, insert, lookup-insert, eqb_iff, lookup-insert_self, lookup-insert_ne, bind-eq-ok,
}
use yakr.Codec.{Codec}
use yakr.Crypto.{Crypto}
use yakr.Base64.{b64encode}
use yakr.Capability.{verify_capability_grant}
use yakr.Capability.Payload.{CapabilityGrant}
use yakr.Relay.CapabilityStore.{
  CapabilityGrantStore, nonce_ttl_ms, is_fresh, consume_nonce, check_generation,
  revoke_with_overlap, register,
}

-- A fresh entry survives the pruning.
lookup-select_fresh :
    (now : ℕ) (key : Text) (seen_at : ℕ) (d : Dict ℕ)
    → lookup key d ≡ some seen_at
    → now ≤ seen_at + nonce_ttl_ms
    → lookup key (select (is_fresh now) d) ≡ some seen_at
unfolding lookup is_fresh
lookup-select_fresh now key seen_at [] e h = cc
lookup-select_fresh now key seen_at ((j, v) ∷ d) e h =
    ground (arith, lookup-select_fresh now key seen_at d)

-- Is the nonce remembered since `seen_at`, while it matters?
abbrev pub Remembers : Text → ℕ → ℕ → CapabilityGrantStore → Type 0
Remembers nonce seen_at now s =
    now ≤ seen_at + nonce_ttl_ms → lookup nonce s.seen_nonces ≡ some seen_at

abbrev pruned_nonces : ℕ → CapabilityGrantStore → Dict ℕ
pruned_nonces now s = select (is_fresh now) s.seen_nonces

consume_nonce-eq-ok :
    (now : ℕ) (nonce : Text) (s s' : CapabilityGrantStore)
    → consume_nonce now nonce s ≡ ok s'
    → (lookup nonce (pruned_nonces now s) ≡ none)
      × (s'.seen_nonces ≡ insert nonce now (pruned_nonces now s))
unfolding consume_nonce
consume_nonce-eq-ok now nonce s s' e = ground arith

pub consume_nonce-Remembers :
    (now : ℕ) (nonce : Text) (s s' : CapabilityGrantStore)
    → consume_nonce now nonce s ≡ ok s'
    → Remembers nonce now now s'
consume_nonce-Remembers now nonce s s' e h =
    rw ((consume_nonce-eq-ok now nonce s s' e).1)
      (lookup-insert_self nonce now (pruned_nonces now s))

-- A nonce that is still remembered is refused.
pub consume_nonce-replay :
    (now seen_at : ℕ) (nonce : Text) (s s' : CapabilityGrantStore)
    → Remembers nonce seen_at now s
    → now ≤ seen_at + nonce_ttl_ms
    → consume_nonce now nonce s ≢ ok s'
consume_nonce-replay now seen_at nonce s s' r h e = cc (
  (consume_nonce-eq-ok now nonce s s' e).0,
  lookup-select_fresh now nonce seen_at s.seen_nonces (r h) h,
)

lookup-select-none :
    (p : Text × ℕ → Bool) (key : Text) (d : Dict ℕ)
    → lookup key d ≡ none
    → lookup key (select p d) ≡ none
unfolding lookup
lookup-select-none p key [] e = refl
lookup-select-none p key ((j, v) ∷ d) e = ground (arith, lookup-select-none p key d)

-- A nonce that is not remembered is accepted and recorded.
pub consume_nonce-unused :
    (now : ℕ) (nonce : Text) (s : CapabilityGrantStore)
    → lookup nonce s.seen_nonces ≡ none
    → consume_nonce now nonce s
      ≡ ok (record s { seen_nonces = insert nonce now (select (is_fresh now) s.seen_nonces) })
unfolding consume_nonce
consume_nonce-unused now nonce s e =
    ground (arith, lookup-select-none (is_fresh now) nonce s.seen_nonces e)

pub consume_nonce-active :
    (now : ℕ) (nonce : Text) (s s' : CapabilityGrantStore)
    → consume_nonce now nonce s ≡ ok s'
    → s'.active ≡ s.active
unfolding consume_nonce
consume_nonce-active now nonce s s' e = ground arith

-- Another nonce that was not remembered still is not.
pub consume_nonce-ne :
    (now : ℕ) (nonce other : Text) (s s' : CapabilityGrantStore)
    → consume_nonce now nonce s ≡ ok s'
    → nonce ≢ other
    → lookup other s.seen_nonces ≡ none
    → lookup other s'.seen_nonces ≡ none
consume_nonce-ne now nonce other s s' e ne unused = cc (
  (consume_nonce-eq-ok now nonce s s' e).1,
  lookup-insert_ne nonce other now (pruned_nonces now s) ne,
  lookup-select-none (is_fresh now) other s.seen_nonces unused,
)

keeps_consume :
    (now seen_at : ℕ) (nonce other : Text) (s s' : CapabilityGrantStore)
    → Remembers nonce seen_at now s
    → consume_nonce now other s ≡ ok s'
    → Remembers nonce seen_at now s'
keeps_consume now seen_at nonce other s s' r e h =
    let (unused, stored) = consume_nonce-eq-ok now other s s' e in
    ground (
      arith,
      lookup-select_fresh now nonce seen_at s.seen_nonces (r h) h,
      lookup-insert other nonce now (pruned_nonces now s),
      eqb_iff other nonce,
    )

-- The calls of the registry, at a clock that only rises.
pub data Step (c : Codec) (k : Crypto) (t : ℕ) (s : CapabilityGrantStore)
    : ℕ → CapabilityGrantStore → Type 0 where
  wait : (d : ℕ) → Step c k t s (t + d) s
  consumed :
      (nonce : Text) (s' : CapabilityGrantStore)
      → consume_nonce t nonce s ≡ ok s'
      → Step c k t s t s'
  registered :
      (relay_public : Bytes) (relay_name : Text) (pin : Bytes) (g : CapabilityGrant)
      (s' : CapabilityGrantStore)
      → register c k t relay_public relay_name pin g s ≡ ok s'
      → Step c k t s t s'
  revoked :
      (window : Option ℕ) (capability_id : Bytes)
      → Step c k t s t (revoke_with_overlap t window capability_id s)

pub data Reach (c : Codec) (k : Crypto) (t₀ : ℕ) (s₀ : CapabilityGrantStore)
    : ℕ → CapabilityGrantStore → Type 0 where
  here : Reach c k t₀ s₀ t₀ s₀
  next :
      {t t' : ℕ} {s s' : CapabilityGrantStore}
      → Reach c k t₀ s₀ t s
      → Step c k t s t' s'
      → Reach c k t₀ s₀ t' s'

module _ (c : Codec) (k : Crypto) where
  register-seen_nonces :
      (now : ℕ) (relay_public : Bytes) (relay_name : Text) (pin : Bytes) (g : CapabilityGrant)
      (s s' : CapabilityGrantStore)
      → register c k now relay_public relay_name pin g s ≡ ok s'
      → s'.seen_nonces ≡ s.seen_nonces
  unfolding register
  register-seen_nonces now relay_public relay_name pin g s s' e =
      let (u, e1, r1) =
        bind-eq-ok (verify_capability_grant c k now relay_public relay_name pin g) _ e in
      let (u', e2, r2) =
        bind-eq-ok (check_generation c k g (lookup (b64encode g.capability_id) s.active)) _ r1 in
      ground arith

  revoke_with_overlap-seen_nonces :
      (now : ℕ) (window : Option ℕ) (capability_id : Bytes) (s : CapabilityGrantStore)
      → (revoke_with_overlap now window capability_id s).seen_nonces ≡ s.seen_nonces
  unfolding revoke_with_overlap
  revoke_with_overlap-seen_nonces now window capability_id s = ground arith

  Step-Remembers :
      (nonce : Text) (seen_at : ℕ) {t t' : ℕ} {s s' : CapabilityGrantStore}
      → Step c k t s t' s'
      → Remembers nonce seen_at t s
      → Remembers nonce seen_at t' s'
  Step-Remembers nonce seen_at (wait d) r = λ h. r (omega arith)
  Step-Remembers nonce seen_at {t} {s = s} (consumed other s' e) r =
      keeps_consume t seen_at nonce other s s' r e
  Step-Remembers nonce seen_at {t} {s = s} (registered relay_public relay_name pin g s' e) r =
      λ h. rw (register-seen_nonces t relay_public relay_name pin g s s' e) (r h)
  Step-Remembers nonce seen_at {t} {s = s} (revoked window capability_id) r =
      λ h. rw (revoke_with_overlap-seen_nonces t window capability_id s) (r h)

  -- A nonce stays remembered for its ten minutes, whatever calls come.
  pub Reach-Remembers :
      (nonce : Text) (seen_at : ℕ) {t₀ : ℕ} {s₀ : CapabilityGrantStore} {t : ℕ}
      {s : CapabilityGrantStore}
      → Reach c k t₀ s₀ t s
      → Remembers nonce seen_at t₀ s₀
      → Remembers nonce seen_at t s
  Reach-Remembers nonce seen_at here r = r
  Reach-Remembers nonce seen_at (next before st) r =
      Step-Remembers nonce seen_at st (Reach-Remembers nonce seen_at before r)
