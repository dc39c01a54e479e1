-- ===== src/DeliveryProfile/Updates.antt =====
-- delivery_profile.py `apply_delivery_profile_update`: what a contact's profile is after the updates that its
-- peer sent, and that may be replayed, reordered or forged.
mod Tests
use yakr.Prelude.{
  ℕ, ◌+◌, ◌≤◌, ◌≡◌, refl, ap, sym, ◌∙◌, subst, ◌⊎◌, inl, inr, Bool, true, false, not, ◌&&◌,
  Bool-cases, Option, none, some, List, [], ◌∷◌, Result, ok, err, Result-cases, ◌>>=◌, ◌>>◌,
  raise_if, bind-eq-ok, ltb, leb, ◌==◌, if◌then◌else◌, Bytes, eqb, eqb_iff, arith,
}
use yakr.Codec.{Codec}
use yakr.Contact.{Contact}
use yakr.Crypto.{Crypto}
use yakr.DeliveryProfile.Payload.{DeliveryProfile, ProfileError, to_bytes}
use yakr.DeliveryProfile.{
  verify_delivery_profile, accept_over, accept_delivery_profile_update, profile_is_expired,
}

-- A profile that arrives, with the clock.
pub record Offer : Type 0 where
  pub now : ℕ
  pub profile : DeliveryProfile

abbrev pub version_of : Option DeliveryProfile → ℕ
version_of none = 0
version_of (some p) = p.version

module _ (c : Codec) (k : Crypto) where
  unfoldable pub apply_delivery_profile_update :
      ℕ → DeliveryProfile → Bytes → Contact → Result ProfileError Contact
  apply_delivery_profile_update now p signing_public x = do
    verify_delivery_profile c k p signing_public
    accept_delivery_profile_update c k now x.delivery_profile p
    ok (record x { delivery_profile = some p })

  abbrev pub keep_or : Contact → Result ProfileError Contact → Contact
  keep_or x (ok x') = x'
  keep_or x (err e) = x

  -- The contact after all of them; a refused update changes nothing.
  unfoldable pub after_offers : Bytes → List Offer → Contact → Contact
  after_offers key [] x = x
  after_offers key (o ∷ os) x =
      after_offers key os (keep_or x (apply_delivery_profile_update o.now o.profile key x))

  abbrev succeeds : Result ProfileError (Unit {0}) → Bool
  succeeds (ok u) = true
  succeeds (err e) = false

  -- The peer signed it, and it has not expired.
  unfoldable pub is_genuine : Bytes → Offer → Bool
  is_genuine key o =
      succeeds (verify_delivery_profile c k o.profile key)
      && not (profile_is_expired o.now o.profile)

  abbrev max : ℕ → ℕ → ℕ
  max m n = if ltb m n then n else m

  -- The greatest version among the one stored and the genuine ones.
  unfoldable pub newest_version : Bytes → List Offer → ℕ → ℕ
  newest_version key [] n = n
  newest_version key (o ∷ os) n =
      newest_version key os (if is_genuine key o then max n o.profile.version else n)

  -- The peer signed the profile that is stored.
  abbrev pub IsTrusted : Bytes → Option DeliveryProfile → Type 0
  IsTrusted key none = Unit
  IsTrusted key (some p) = verify_delivery_profile c k p key ≡ ok tt

  -- One update: the version is the greater one if the offer is genuine, and the stored profile is still trusted.
  record IsUpdated (key : Bytes) (o : Offer) (x x' : Contact) : Type 0 where
    version : version_of x'.delivery_profile ≡ (
        if is_genuine key o
        then max (version_of x.delivery_profile) o.profile.version
        else version_of x.delivery_profile)
    trusted : IsTrusted key x.delivery_profile → IsTrusted key x'.delivery_profile

  accept_over-version :
      (current : Option DeliveryProfile) (p : DeliveryProfile)
      → accept_over c k current p ≡ ok tt
      → max (version_of current) p.version ≡ p.version
  unfolding accept_over
  accept_over-version none p e = ground arith
  accept_over-version (some q) p e = ground (arith, e)

  accept_over-refused :
      (current : Option DeliveryProfile) (p : DeliveryProfile) (x : ProfileError)
      → accept_over c k current p ≡ err x
      → max (version_of current) p.version ≡ version_of current
  unfolding accept_over
  accept_over-refused none p x e = cc
  accept_over-refused (some q) p x e = ground (arith, e)

  apply-IsUpdated :
      (key : Bytes) (o : Offer) (x : Contact)
      → IsUpdated key o x (keep_or x (apply_delivery_profile_update o.now o.profile key x))
  unfolding apply_delivery_profile_update accept_delivery_profile_update is_genuine
  apply-IsUpdated key o x = elim (Result-cases (verify_delivery_profile c k o.profile key)) [
    | inr (e, bad) ↦ rw bad (record { version = rw (is_genuine, bad) refl; trusted = λ h. h })
    | inl (u, good) ↦ elim (Bool-cases (profile_is_expired o.now o.profile)) [
      | inl old ↦
          rw (good, old) (record { version = rw (is_genuine, good, old) refl; trusted = λ h. h })
      | inr valid ↦ elim (Result-cases (accept_over c k x.delivery_profile o.profile)) [
        | inl (v, accepted) ↦
            rw (good, valid, accepted)
              (record {
                version =
                    rw (is_genuine, good, valid)
                      (sym (accept_over-version x.delivery_profile o.profile accepted));
                trusted = λ h. good;
              })
        | inr (e, refused) ↦
            rw (good, valid, refused)
              (record {
                version =
                    rw (is_genuine, good, valid)
                      (sym (accept_over-refused x.delivery_profile o.profile e refused));
                trusted = λ h. h;
              })
      ]
    ]
  ]

  -- Whatever profiles arrive under a peer's name, in whatever order and however often, the stored version ends as the
  -- greatest among the first one and those that the peer signed and that had not expired: a rollback has
  -- no effect. A profile that the peer did not sign is never stored.
  pub after_offers_newest :
      (key : Bytes) (os : List Offer) (x : Contact)
      → IsTrusted key x.delivery_profile
      → (version_of (after_offers key os x).delivery_profile
          ≡ newest_version key os (version_of x.delivery_profile))
        × IsTrusted key (after_offers key os x).delivery_profile
  unfolding after_offers newest_version
  after_offers_newest key [] x h = (refl, h)
  after_offers_newest key (o ∷ os) x h =
      let x' = keep_or x (apply_delivery_profile_update o.now o.profile key x) in
      let step = apply-IsUpdated key o x in
      let rest = after_offers_newest key os x' (step.trusted h) in
      (rest.0 ∙ ap (newest_version key os) step.version, rest.1)
