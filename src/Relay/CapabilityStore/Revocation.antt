-- ===== src/Relay/CapabilityStore/Revocation.antt =====
-- capability_store.py `revoke_with_overlap` and `revoke_immediately`: when a revoked grant stops, and what brings
-- it back.
use yakr.Prelude.{
  ℕ, ◌+◌, ◌<◌, ◌≡◌, refl, true, none, some, arith, ok, Option-cases, inl, inr, ltb, ◌==◌, Bytes,
  Text, lookup, insert, lookup-insert_self, bind-eq-ok,
}
use yakr.Base64.{b64encode}
use yakr.Codec.{Codec}
use yakr.Crypto.{Crypto}
use yakr.Capability.{verify_capability_grant}
use yakr.Capability.Payload.{CapabilityGrant, from_b64}
use yakr.Capability.RoundTrip.{from_b64-to_b64}
use yakr.Relay.CapabilityStore.{
  CapabilityGrantStore, Entry, check_generation, fresh_entry, register, is_registered,
  revoke_with_overlap, revoke_immediately,
}
use yakr.Relay.CapabilityStore.Registration.{register-eq-ok, register-is_registered}

module _ (c : Codec) (k : Crypto) where
  -- The entry that makes a grant registered.
  record Holds (g : CapabilityGrant) (s : CapabilityGrantStore) : Type 0 where
    entry : Entry
    stored : CapabilityGrant
    found : lookup (b64encode g.capability_id) s.active ≡ some entry
    decoded : from_b64 c entry.grant_b64 ≡ ok stored
    same_generation : (stored.capability_generation == g.capability_generation) ≡ true

  is_registered-Holds :
      (now : ℕ) (g : CapabilityGrant) (s : CapabilityGrantStore)
      → is_registered c k now g s ≡ ok true
      → Holds g s
  unfolding is_registered
  is_registered-Holds now g s e =
      elim (Option-cases (lookup (b64encode g.capability_id) s.active)) [
        | inl absent ↦ cc (rw absent at e)
        | inr (entry, found) ↦
            let (stored, e1, r1) = bind-eq-ok (from_b64 c entry.grant_b64) _ (rw found at e) in
            record {
              entry = entry;
              stored = stored;
              found = found;
              decoded = e1;
              same_generation = ground arith;
            }
      ]

  -- A registered grant that is revoked with an overlap window passes exactly until the window ends.
  pub is_registered-revoke_with_overlap :
      (now at later window : ℕ) (g : CapabilityGrant) (s : CapabilityGrantStore)
      → is_registered c k at g s ≡ ok true
      → is_registered c k later g (revoke_with_overlap now (some window) g.capability_id s)
        ≡ ok (ltb later (now + window))
  unfolding is_registered revoke_with_overlap
  is_registered-revoke_with_overlap now at later window g s e =
      let h = is_registered-Holds at g s e in
      let own = b64encode g.capability_id in
      rw (h.found, lookup-insert_self own _ s.active, h.decoded, h.same_generation) (ground arith)

  -- The overlap window of the store applies where the call gives none: a second call, on a grant that was revoked
  -- at once, lets it pass again until that window ends.
  pub supersede_revives :
      (now at second later : ℕ) (g : CapabilityGrant) (s : CapabilityGrantStore)
      → is_registered c k at g s ≡ ok true
      → later < second + s.overlap_window_ms
      → is_registered c k later g (
          revoke_with_overlap second none g.capability_id
            (revoke_immediately now g.capability_id s))
        ≡ ok true
  unfolding is_registered revoke_with_overlap revoke_immediately
  supersede_revives now at second later g s e early =
      let h = is_registered-Holds at g s e in
      let own = b64encode g.capability_id in
      let first : Entry = record h.entry {
        revoked_at = some now;
        overlap_until_ms = some (now + 0);
      } in
      rw
        (
          h.found,
          lookup-insert_self own first s.active,
          lookup-insert_self own _ (insert own first s.active),
          h.decoded,
          h.same_generation,
        )
        (ground arith)

  -- The revoked entry still holds the grant itself.
  revoked_entry :
      (now at : ℕ) (g : CapabilityGrant) (s s₁ : CapabilityGrantStore)
      → s₁
        ≡ record s { active = insert (b64encode g.capability_id) (fresh_entry c k at g) s.active }
      → check_generation c k g
          (lookup (b64encode g.capability_id) (revoke_immediately now g.capability_id s₁).active)
        ≡ ok tt
  unfolding check_generation revoke_with_overlap revoke_immediately
  revoked_entry now at g s s₁ e =
      let own = b64encode g.capability_id in
      rw
        (
          e,
          lookup-insert_self own (fresh_entry c k at g) s.active,
          lookup-insert_self own _ (insert own (fresh_entry c k at g) s.active),
          from_b64-to_b64 c g,
        )
        (ground arith)

  register_again :
      (now : ℕ) (relay_public : Bytes) (relay_name : Text) (pin : Bytes) (g : CapabilityGrant)
      (s : CapabilityGrantStore)
      → verify_capability_grant c k now relay_public relay_name pin g ≡ ok tt
      → check_generation c k g (lookup (b64encode g.capability_id) s.active) ≡ ok tt
      → register c k now relay_public relay_name pin g s
        ≡ ok (record s {
          active = insert (b64encode g.capability_id) (fresh_entry c k now g) s.active;
        })
  unfolding register
  register_again now relay_public relay_name pin g s verified checked = rw (verified, checked) refl

  -- A revoked grant that has not expired is accepted by `register` again, which clears the revocation: it needs
  -- nothing but the grant.
  pub revoked_grant_registers_again :
      (now at later : ℕ) (relay_public : Bytes) (relay_name : Text) (pin : Bytes)
      (g : CapabilityGrant) (s s₁ : CapabilityGrantStore)
      → register c k at relay_public relay_name pin g s ≡ ok s₁
      → verify_capability_grant c k later relay_public relay_name pin g ≡ ok tt
      → (s₂ : CapabilityGrantStore) × (register c k later relay_public relay_name pin g
            (revoke_immediately now g.capability_id s₁)
          ≡ ok s₂)
        × (is_registered c k later g s₂ ≡ ok true)
  revoked_grant_registers_again now at later relay_public relay_name pin g s s₁ e verified =
      let own = b64encode g.capability_id in
      let (e1, e2, e3) = register-eq-ok c k at relay_public relay_name pin g s s₁ e in
      let revoked = revoke_immediately now g.capability_id s₁ in
      let s₂ : CapabilityGrantStore = record revoked {
        active = insert own (fresh_entry c k later g) revoked.active;
      } in
      let again : register c k later relay_public relay_name pin g revoked ≡ ok s₂ =
        register_again later relay_public relay_name pin g revoked verified
          (revoked_entry now at g s s₁ e3) in
      (
        s₂,
        again,
        register-is_registered c k later later relay_public relay_name pin g revoked s₂ again,
      )
