-- ===== src/Relay/CapabilityStore/Registration.antt =====
-- capability_store.py `register`: what is registered, and that generations never fall.
use yakr.Prelude.{
  ℕ, ◌≤◌, ◌<◌, ◌≡◌, ◌≢◌, refl, ap, ◌∙◌, true, Option, some, arith, ok, Option-cases, Bool-cases,
  inl, inr, Bytes, Text, lookup, insert, lookup-insert, lookup-insert_self, eqb, eqb_iff,
  bind-eq-ok,
}
use yakr.Base64.{b64encode}
use yakr.Codec.{Codec}
use yakr.Crypto.{Crypto}
use yakr.Capability.{verify_capability_grant}
use yakr.Capability.Payload.{CapabilityGrant, from_b64}
use yakr.Capability.RoundTrip.{from_b64-to_b64}
use yakr.Relay.CapabilityStore.{
  CapabilityGrantStore, Entry, check_generation, fresh_entry, register, is_registered,
  revoke_with_overlap,
}
use yakr.Relay.CapabilityStore.Nonces.{
  Step, Reach, wait, consumed, registered, revoked, here, next, consume_nonce-active,
}

module _ (c : Codec) (k : Crypto) where
  pub register-eq-ok :
      (now : ℕ) (relay_public : Bytes) (relay_name : Text) (pin : Bytes) (g : CapabilityGrant)
      (s s' : CapabilityGrantStore)
      → register c k now relay_public relay_name pin g s ≡ ok s'
      → (verify_capability_grant c k now relay_public relay_name pin g ≡ ok tt)
        × (check_generation c k g (lookup (b64encode g.capability_id) s.active) ≡ ok tt)
        × (s' ≡ record s {
          active = insert (b64encode g.capability_id) (fresh_entry c k now g) s.active;
        })
  unfolding register
  register-eq-ok now relay_public relay_name pin g s s' e =
      let (u, e1, r1) =
        bind-eq-ok (verify_capability_grant c k now relay_public relay_name pin g) _ e in
      let (u', e2, r2) =
        bind-eq-ok (check_generation c k g (lookup (b64encode g.capability_id) s.active)) _ r1 in
      (e1, e2, ground arith)

  -- A grant that `register` accepted is registered from then on, until a call about its id.
  pub register-is_registered :
      (now later : ℕ) (relay_public : Bytes) (relay_name : Text) (pin : Bytes) (g : CapabilityGrant)
      (s s' : CapabilityGrantStore)
      → register c k now relay_public relay_name pin g s ≡ ok s'
      → is_registered c k later g s' ≡ ok true
  unfolding is_registered
  register-is_registered now later relay_public relay_name pin g s s' e =
      let (e1, e2, e3) = register-eq-ok now relay_public relay_name pin g s s' e in
      rw
        (
          e3,
          lookup-insert_self (b64encode g.capability_id) (fresh_entry c k now g) s.active,
          from_b64-to_b64 c g,
        )
        (ground arith)

  -- The registry holds a grant of at least this generation under the key.
  pub record HasGeneration (key : Text) (least : ℕ) (s : CapabilityGrantStore) : Type 0 where
    pub entry : Entry
    pub grant : CapabilityGrant
    pub found : lookup key s.active ≡ some entry
    pub decoded : from_b64 c entry.grant_b64 ≡ ok grant
    pub generation_le : least ≤ grant.capability_generation

  generation_checked :
      (g prev : CapabilityGrant) (e : Entry)
      → from_b64 c e.grant_b64 ≡ ok prev
      → check_generation c k g (some e) ≡ ok tt
      → prev.capability_generation ≤ g.capability_generation
  unfolding check_generation
  generation_checked g prev e read checked = ground arith

  register-HasGeneration :
      (key : Text) (least now : ℕ) (relay_public : Bytes) (relay_name : Text) (pin : Bytes)
      (g : CapabilityGrant) (s s' : CapabilityGrantStore)
      → HasGeneration key least s
      → register c k now relay_public relay_name pin g s ≡ ok s'
      → HasGeneration key least s'
  register-HasGeneration key least now relay_public relay_name pin g s s' h e =
      let own = b64encode g.capability_id in
      let (e1, e2, e3) = register-eq-ok now relay_public relay_name pin g s s' e in
      elim (Bool-cases (eqb own key)) [
        | inl same ↦
            let own_key : own ≡ key = (eqb_iff own key).0 same in
            let checked : check_generation c k g (some h.entry) ≡ ok tt =
              cc (e2, own_key, h.found) in
            record {
              entry = fresh_entry c k now g;
              grant = g;
              found = rw (e3, lookup-insert own key, same) refl;
              decoded = from_b64-to_b64 c g;
              generation_le =
                  omega (
                    arith,
                    h.generation_le,
                    generation_checked g h.grant h.entry h.decoded checked,
                  );
            }
        | inr different ↦ record {
          entry = h.entry;
          grant = h.grant;
          found = rw (e3, lookup-insert own key, different) h.found;
          decoded = h.decoded;
          generation_le = h.generation_le;
        }
      ]

  -- An update of an entry that keeps its grant.
  update-HasGeneration :
      (key own : Text) (least : ℕ) (e e' : Entry) (s : CapabilityGrantStore)
      → lookup own s.active ≡ some e
      → e'.grant_b64 ≡ e.grant_b64
      → HasGeneration key least s
      → HasGeneration key least (record s { active = insert own e' s.active })
  update-HasGeneration key own least e e' s found kept h = elim (Bool-cases (eqb own key)) [
    | inl same ↦
        let own_key : own ≡ key = (eqb_iff own key).0 same in
        let one : e.grant_b64 ≡ h.entry.grant_b64 = cc (found, own_key, h.found) in
        record {
          entry = e';
          grant = h.grant;
          found = rw (lookup-insert own key, same) refl;
          decoded = ap (from_b64 c) (kept ∙ one) ∙ h.decoded;
          generation_le = h.generation_le;
        }
    | inr different ↦ record {
      entry = h.entry;
      grant = h.grant;
      found = rw (lookup-insert own key, different) h.found;
      decoded = h.decoded;
      generation_le = h.generation_le;
    }
  ]

  revoke-HasGeneration :
      (key : Text) (least now : ℕ) (window : Option ℕ) (capability_id : Bytes)
      (s : CapabilityGrantStore)
      → HasGeneration key least s
      → HasGeneration key least (revoke_with_overlap now window capability_id s)
  unfolding revoke_with_overlap
  revoke-HasGeneration key least now window capability_id s h =
      let own = b64encode capability_id in
      elim (Option-cases (lookup own s.active)) [
        | inl absent ↦ rw absent h
        | inr (e, found) ↦ rw found (update-HasGeneration key own least e _ s found refl h)
      ]

  Step-HasGeneration :
      (key : Text) (least : ℕ) {t t' : ℕ} {s s' : CapabilityGrantStore}
      → Step c k t s t' s'
      → HasGeneration key least s
      → HasGeneration key least s'
  Step-HasGeneration key least (wait d) h = h
  Step-HasGeneration key least {t} {s = s} (consumed nonce s' e) h = record {
    entry = h.entry;
    grant = h.grant;
    found = rw (consume_nonce-active t nonce s s' e) h.found;
    decoded = h.decoded;
    generation_le = h.generation_le;
  }
  Step-HasGeneration key least {t} {s = s} (registered relay_public relay_name pin g s' e) h =
      register-HasGeneration key least t relay_public relay_name pin g s s' h e
  Step-HasGeneration key least {t} {s = s} (revoked window capability_id) h =
      revoke-HasGeneration key least t window capability_id s h

  Reach-HasGeneration :
      (key : Text) (least : ℕ) {t₀ : ℕ} {s₀ : CapabilityGrantStore} {t : ℕ}
      {s : CapabilityGrantStore}
      → Reach c k t₀ s₀ t s
      → HasGeneration key least s₀
      → HasGeneration key least s
  Reach-HasGeneration key least here h = h
  Reach-HasGeneration key least (next before st) h =
      Step-HasGeneration key least st (Reach-HasGeneration key least before h)

  -- After a grant was registered, whatever calls come, no grant with the same id and a lower generation is
  -- registered again.
  pub rollback_refused :
      (now later : ℕ) (relay_public : Bytes) (relay_name : Text) (pin : Bytes)
      (g old : CapabilityGrant) (s s₁ s₂ s₃ : CapabilityGrantStore)
      → register c k now relay_public relay_name pin g s ≡ ok s₁
      → Reach c k now s₁ later s₂
      → old.capability_id ≡ g.capability_id
      → old.capability_generation < g.capability_generation
      → register c k later relay_public relay_name pin old s₂ ≢ ok s₃
  rollback_refused now later relay_public relay_name pin g old s s₁ s₂ s₃ e r same lower e' =
      let own = b64encode g.capability_id in
      let (e1, e2, e3) = register-eq-ok now relay_public relay_name pin g s s₁ e in
      let first : HasGeneration own g.capability_generation s₁ = record {
        entry = fresh_entry c k now g;
        grant = g;
        found = rw e3 (lookup-insert_self own (fresh_entry c k now g) s.active);
        decoded = from_b64-to_b64 c g;
        generation_le = omega arith;
      } in
      let h = Reach-HasGeneration own g.capability_generation r first in
      let (f1, f2, f3) = register-eq-ok later relay_public relay_name pin old s₂ s₃ e' in
      let checked : check_generation c k old (some h.entry) ≡ ok tt =
        cc (f2, h.found, ap b64encode same) in
      omega (arith, h.generation_le, generation_checked old h.grant h.entry h.decoded checked)
