-- ===== src/Relay/PairingStore/SingleUse.antt =====
-- pairing_store.py: an invite serves one exchange.
use yakr.Prelude.{
  ℕ, ◌+◌, ◌≤◌, ◌≡◌, refl, ◌∙◌, true, false, none, some, [], ◌∷◌, arith, ok, err, Option-cases, inl,
  inr, ◌==◌, length, select, Bytes, Text, eqb_iff, Dict, lookup, insert, lookup-insert,
  lookup-insert_self,
}
use yakr.Base64.{b64encode}
use yakr.Crypto.{Crypto}
use yakr.Relay.PairingStore.{
  Session, PairingStore, already_consumed, is_recent, sweep_expired, is_consumed,
  get_pending_request, get_response, register, store_request, store_response,
}

-- A recent row survives the sweep.
lookup-select_recent :
    (now ttl_ms : ℕ) (tag : Text) (row : Session) (d : Dict Session)
    → lookup tag d ≡ some row
    → now ≤ row.registered_at + ttl_ms
    → lookup tag (select (is_recent now ttl_ms) d) ≡ some row
unfolding lookup is_recent
lookup-select_recent now ttl_ms tag row [] e h = cc
lookup-select_recent now ttl_ms tag row ((j, v) ∷ d) e h =
    ground (arith, lookup-select_recent now ttl_ms tag row d)

-- The session is there until it is older than the lifetime of sessions.
pub record Stays (ttl_ms : ℕ) (tag : Text) (row : Session) (now : ℕ) (s : PairingStore)
    : Type 0 where
  pub lifetime : s.ttl_ms ≡ ttl_ms
  pub found : now ≤ row.registered_at + ttl_ms → lookup tag s.sessions ≡ some row

module _ (k : Crypto) where
  -- The calls of the store, at a clock that only rises.
  pub data Step (t : ℕ) (s : PairingStore) : ℕ → PairingStore → Type 0 where
    wait : (d : ℕ) → Step t s (t + d) s
    registered :
        (secret : Bytes) (tag : Text) (s' : PairingStore)
        → register k t secret s ≡ ok (tag, s')
        → Step t s t s'
    requested :
        (secret request : Bytes) (tag : Text) (s' : PairingStore)
        → store_request k t secret request s ≡ ok (tag, s')
        → Step t s t s'
    responded :
        (secret response : Bytes) (tag : Text) (s' : PairingStore)
        → store_response k secret response s ≡ ok (tag, s')
        → Step t s t s'
    swept : Step t s t (sweep_expired t s).1

  pub data Reach (t₀ : ℕ) (s₀ : PairingStore) : ℕ → PairingStore → Type 0 where
    here : Reach t₀ s₀ t₀ s₀
    next : {t t' : ℕ} {s s' : PairingStore} → Reach t₀ s₀ t s → Step t s t' s' → Reach t₀ s₀ t' s'

  -- What every call that writes does: it saves a row under a tag whose session is not consumed.
  record Saved (s s' : PairingStore) : Type 0 where
    own : Text
    row : Session
    lifetime : s'.ttl_ms ≡ s.ttl_ms
    inserted : s'.sessions ≡ insert own row s.sessions
    unused : is_consumed (lookup own s.sessions) ≡ false

  register-Saved :
      (now : ℕ) (secret : Bytes) (tag : Text) (s s' : PairingStore)
      → register k now secret s ≡ ok (tag, s')
      → Saved s s'
  unfolding register
  register-Saved now secret tag s s' e = record {
    own = b64encode (k.sha256 secret);
    row = record {
      invite_secret = secret;
      registered_at = now;
      request = none;
      response = none;
      consumed = false;
    };
    lifetime = ground arith;
    inserted = ground arith;
    unused = ground arith;
  }

  store_request-Saved :
      (now : ℕ) (secret request : Bytes) (tag : Text) (s s' : PairingStore)
      → store_request k now secret request s ≡ ok (tag, s')
      → Saved s s'
  unfolding store_request
  store_request-Saved now secret request tag s s' e =
      let own = b64encode (k.sha256 secret) in
      elim (Option-cases (lookup own s.sessions)) [
        | inl absent ↦ record {
          own = own;
          row = record {
            invite_secret = secret;
            registered_at = now;
            request = some request;
            response = none;
            consumed = false;
          };
          lifetime = ground arith;
          inserted = ground arith;
          unused = ground arith;
        }
        | inr (row, found) ↦ record {
          own = own;
          row = record row { request = some request };
          lifetime = ground arith;
          inserted = ground arith;
          unused = ground arith;
        }
      ]

  store_response-Saved :
      (secret response : Bytes) (tag : Text) (s s' : PairingStore)
      → store_response k secret response s ≡ ok (tag, s')
      → Saved s s'
  unfolding store_response
  store_response-Saved secret response tag s s' e =
      let own = b64encode (k.sha256 secret) in
      elim (Option-cases (lookup own s.sessions)) [
        | inl absent ↦ absurd (ground arith)
        | inr (row, found) ↦ record {
          own = own;
          row = record row { response = some response; consumed = true };
          lifetime = ground arith;
          inserted = ground arith;
          unused = ground arith;
        }
      ]

  Saved-Stays :
      (ttl_ms : ℕ) (tag : Text) (row : Session) (t : ℕ) (s s' : PairingStore)
      → row.consumed ≡ true
      → Saved s s'
      → Stays ttl_ms tag row t s
      → Stays ttl_ms tag row t s'
  Saved-Stays ttl_ms tag row t s s' done w h = record {
    lifetime = w.lifetime ∙ h.lifetime;
    found = λ early. rw w.inserted (
        ground (
          arith,
          h.found early,
          lookup-insert w.own tag w.row s.sessions,
          eqb_iff w.own tag,
          w.unused,
        ));
  }

  Step-Stays :
      (ttl_ms : ℕ) (tag : Text) (row : Session) {t t' : ℕ} {s s' : PairingStore}
      → row.consumed ≡ true
      → Step t s t' s'
      → Stays ttl_ms tag row t s
      → Stays ttl_ms tag row t' s'
  Step-Stays ttl_ms tag row done (wait d) h = record {
    lifetime = h.lifetime;
    found = λ early. h.found (omega arith);
  }
  Step-Stays ttl_ms tag row {t} {s = s} done (registered secret own s' e) h =
      Saved-Stays ttl_ms tag row t s s' done (register-Saved t secret own s s' e) h
  Step-Stays ttl_ms tag row {t} {s = s} done (requested secret request own s' e) h =
      Saved-Stays ttl_ms tag row t s s' done (store_request-Saved t secret request own s s' e) h
  Step-Stays ttl_ms tag row {t} {s = s} done (responded secret response own s' e) h =
      Saved-Stays ttl_ms tag row t s s' done (store_response-Saved secret response own s s' e) h
  Step-Stays ttl_ms tag row {t} {s = s} done swept h =
      unfold sweep_expired in
      record {
        lifetime = h.lifetime;
        found = λ early.
            rw h.lifetime (lookup-select_recent t ttl_ms tag row s.sessions (h.found early) early);
      }

  Reach-Stays :
      (ttl_ms : ℕ) (tag : Text) (row : Session) {t₀ : ℕ} {s₀ : PairingStore} {t : ℕ}
      {s : PairingStore}
      → row.consumed ≡ true
      → Reach t₀ s₀ t s
      → Stays ttl_ms tag row t₀ s₀
      → Stays ttl_ms tag row t s
  Reach-Stays ttl_ms tag row done here h = h
  Reach-Stays ttl_ms tag row done (next before st) h =
      Step-Stays ttl_ms tag row done st (Reach-Stays ttl_ms tag row done before h)

  -- The row that a response leaves.
  abbrev answered : Session → Bytes → Session
  answered row response = record row { response = some response; consumed = true }

  store_response-eq-ok :
      (secret response : Bytes) (tag : Text) (row : Session) (s s' : PairingStore)
      → store_response k secret response s ≡ ok (tag, s')
      → lookup tag s.sessions ≡ some row
      → ((length secret == 32) ≡ true)
        × (tag ≡ b64encode (k.sha256 secret))
        × (s'.ttl_ms ≡ s.ttl_ms)
        × (s'.sessions ≡ insert tag (answered row response) s.sessions)
  unfolding store_response
  store_response-eq-ok secret response tag row s s' e found =
      let own = b64encode (k.sha256 secret) in
      let sized : (length secret == 32) ≡ true = ground arith in
      let same : tag ≡ own = elim (Option-cases (lookup own s.sessions)) [
        | inl absent ↦ absurd (ground arith)
        | inr (r, there) ↦ ground arith
      ] in
      let there : lookup own s.sessions ≡ some row = rw same at found in
      (sized, same, ground arith, ground arith)

  -- Once a response was stored, then whatever calls come and until the session is older than the lifetime: the
  -- response is read back as it was stored, no request is pending, and the invite can be neither registered nor
  -- requested nor answered again.
  pub single_use :
      (now later : ℕ) (secret response : Bytes) (tag : Text) (row : Session)
      (s s₁ s₂ : PairingStore)
      → store_response k secret response s ≡ ok (tag, s₁)
      → lookup tag s.sessions ≡ some row
      → Reach now s₁ later s₂
      → later ≤ row.registered_at + s.ttl_ms
      → (get_response tag s₂ ≡ some response)
        × (get_pending_request tag s₂ ≡ none)
        × (register k later secret s₂ ≡ err already_consumed)
        × ((request : Bytes) → store_request k later secret request s₂ ≡ err already_consumed)
        × ((again : Bytes) → store_response k secret again s₂ ≡ err already_consumed)
  unfolding store_response store_request register get_response get_pending_request
  single_use now later secret response tag row s s₁ s₂ e found r early =
      let (sized, same, lifetime, inserted) =
        store_response-eq-ok secret response tag row s s₁ e found in
      let stays : Stays s.ttl_ms tag (answered row response) now s₁ = record {
        lifetime = lifetime;
        found = λ _. rw inserted (lookup-insert_self tag (answered row response) s.sessions);
      } in
      let there : lookup tag s₂.sessions ≡ some (answered row response) =
        (Reach-Stays s.ttl_ms tag (answered row response) refl r stays).found early in
      let own : lookup (b64encode (k.sha256 secret)) s₂.sessions ≡ some (answered row response) =
        rw same at there in
      (
        rw (there, get_response) refl,
        rw (there, get_pending_request) refl,
        rw (sized, own) refl,
        λ request. rw (sized, own) refl,
        λ again. rw (sized, own) refl,
      )
