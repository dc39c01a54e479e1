-- ===== src/Mailbox/Lookback.antt =====
-- mailbox.py: a receiver asks for the tag under which the sender stored, for as long as its lookback reaches.
use yakr.Prelude.{
  ℕ, zero, suc, ◌+◌, ◌-◌, ◌*◌, ◌≤◌, ◌<◌, ◌≡◌, refl, ap, ◌==◌, true, false, Bool, Bool-cases, inl,
  inr, List, [], ◌∷◌, ◌++◌, length, length-append, any, eqb, eqb_refl, if◌then◌else◌, Bytes, Text,
  arith,
}
use yakr.Crypto.{Crypto}
use yakr.Privacy.{PrivacyMode, fast, balanced, high}
use yakr.Mailbox.{
  MailboxTag, MailboxTagDeriver, current_epoch, decoy_count, derive_at, derive, tags_back,
  candidate_epochs, decoys_from, decoys, fetch_tags_for_mode,
}

-- One of the tags is this one.
abbrev pub is_asked : Bytes → List MailboxTag → Bool
is_asked tag = any (λ t. eqb t.tag tag)

any-append_left {ℓ} :
    {A : Type ℓ} (p : A → Bool) (xs ys : List A) → any p xs ≡ true → any p (xs ++ ys) ≡ true
any-append_left p [] ys h = cc
any-append_left p (x ∷ xs) ys h = ground (arith, any-append_left p xs ys)

if-true : (b x : Bool) → x ≡ true → (if b then true else x) ≡ true
if-true true x h = refl
if-true false x h = h

module _ (k : Crypto) where
  tags_back-asked :
      (d : MailboxTagDeriver) (direction : Text) (epoch offset n back : ℕ)
      → offset ≤ back
      → back < offset + n
      → is_asked
          (derive_at k d direction (epoch - back)).tag
          (tags_back k d direction epoch offset n)
        ≡ true
  unfolding tags_back
  tags_back-asked d direction epoch offset zero back h g = absurd (omega arith)
  tags_back-asked d direction epoch offset (suc n) back h g = elim (Bool-cases (offset == back)) [
    | inl here ↦
        let same : offset ≡ back = ground arith in
        rw (same, eqb_refl (derive_at k d direction (epoch - back)).tag) refl
    | inr later ↦
        if-true
          (eqb (derive_at k d direction (epoch - offset)).tag
            (derive_at k d direction (epoch - back)).tag)
          _ (tags_back-asked d direction epoch (offset + 1) n back (ground arith) (omega arith))
  ]

  length-tags_back :
      (d : MailboxTagDeriver) (direction : Text) (epoch offset n : ℕ)
      → length (tags_back k d direction epoch offset n) ≡ n
  unfolding tags_back
  length-tags_back d direction epoch offset zero = refl
  length-tags_back d direction epoch offset (suc n) =
      ap suc (length-tags_back d direction epoch (offset + 1) n)

  length-decoys_from :
      (secret : Bytes) (direction : Text) (epoch index n : ℕ)
      → length (decoys_from k secret direction epoch index n) ≡ n
  unfolding decoys_from
  length-decoys_from secret direction epoch index zero = refl
  length-decoys_from secret direction epoch index (suc n) =
      ap suc (length-decoys_from secret direction epoch (index + 1) n)

  length-decoys :
      (secret : Bytes) (direction : Text) (n : ℕ) (real : List MailboxTag)
      → length (decoys k secret direction n real) ≡ length real * n
  unfolding decoys
  length-decoys secret direction n [] = omega arith
  length-decoys secret direction n (t ∷ ts) =
      rw
        (
          length-append (decoys_from k secret direction t.epoch 0 n)
              (decoys k secret direction n ts),
          length-decoys_from secret direction t.epoch 0 n,
          length-decoys secret direction n ts,
        )
        (grind arith)

  length-with_decoys :
      (d : MailboxTagDeriver) (direction : Text) (epoch n count : ℕ) (secret : Bytes)
      → (let real = tags_back k d direction epoch 0 n in
          length (real ++ decoys k secret direction count real) ≡ n * (count + 1))
  length-with_decoys d direction epoch n count secret =
      let real = tags_back k d direction epoch 0 n in
      rw
        (
          length-append real (decoys k secret direction count real),
          length-decoys secret direction count real,
          length-tags_back d direction epoch 0 n,
        )
        (grind arith)

  fetch_tags_for_mode-asked :
      (now lookback : ℕ) (d : MailboxTagDeriver) (direction : Text) (mode : PrivacyMode)
      (tag : Bytes)
      → is_asked tag (candidate_epochs k now d direction lookback) ≡ true
      → is_asked tag (fetch_tags_for_mode k now d direction mode d.secret lookback) ≡ true
  unfolding fetch_tags_for_mode
  fetch_tags_for_mode-asked now lookback d direction fast tag h = h
  fetch_tags_for_mode-asked now lookback d direction balanced tag h =
      any-append_left _ (candidate_epochs k now d direction lookback) _ h
  fetch_tags_for_mode-asked now lookback d direction high tag h =
      any-append_left _ (candidate_epochs k now d direction lookback) _ h

  -- A fetch asks for the same number of tags whatever is in the mailbox: the real ones, and the mode's decoys for each.
  pub length-fetch_tags_for_mode :
      (now lookback : ℕ) (d : MailboxTagDeriver) (direction : Text) (mode : PrivacyMode)
      (secret : Bytes)
      → length (fetch_tags_for_mode k now d direction mode secret lookback)
        ≡ (lookback + 1) * (decoy_count mode + 1)
  unfolding fetch_tags_for_mode candidate_epochs
  length-fetch_tags_for_mode now lookback d direction fast secret =
      rw (length-tags_back d direction (current_epoch now d.epoch_secs) 0 (lookback + 1))
        (omega arith)
  length-fetch_tags_for_mode now lookback d direction balanced secret =
      length-with_decoys d direction (current_epoch now d.epoch_secs) (lookback + 1) 3 secret
  length-fetch_tags_for_mode now lookback d direction high secret =
      length-with_decoys d direction (current_epoch now d.epoch_secs) (lookback + 1) 7 secret

  -- The tag under which a sender stores at one time is among those that the receiver, with the same secret, asks
  -- for at a later time, in every privacy mode, as long as no more than `lookback` epochs have passed.
  pub stored_tag_is_asked :
      (sent_at now lookback : ℕ) (d : MailboxTagDeriver) (direction : Text) (mode : PrivacyMode)
      → current_epoch sent_at d.epoch_secs ≤ current_epoch now d.epoch_secs
      → current_epoch now d.epoch_secs ≤ current_epoch sent_at d.epoch_secs + lookback
      → is_asked
          (derive k sent_at d direction).tag
          (fetch_tags_for_mode k now d direction mode d.secret lookback)
        ≡ true
  unfolding candidate_epochs derive
  stored_tag_is_asked sent_at now lookback d direction mode before near =
      let then_ = current_epoch sent_at d.epoch_secs in
      let epoch = current_epoch now d.epoch_secs in
      let real : is_asked (derive_at k d direction then_).tag
            (tags_back k d direction epoch 0 (lookback + 1))
          ≡ true =
        let same : epoch - (epoch - then_) ≡ then_ = omega arith in
        rw same at (
          tags_back-asked d direction epoch 0 (lookback + 1) (epoch - then_) (omega arith)
            (omega arith)) in
      fetch_tags_for_mode-asked now lookback d direction mode _ real
