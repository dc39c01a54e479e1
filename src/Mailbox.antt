-- ===== src/Mailbox.antt =====
-- packages/yakr-core/src/yakr_core/mailbox.py, and of privacy.py the tags that a client fetches: the tags of
-- the last epochs, with decoys between them. Names are ASCII, and an epoch is past the first ones.
pub mod Lookback
use yakr.Prelude.{ℕ, zero, suc, ◌+◌, ◌-◌, ◌/◌, ◌++◌, List, [], ◌∷◌, Bytes, Text, codes, decimal}
use yakr.Crypto.{Crypto}
use yakr.Base64.{b64encode}
use yakr.Privacy.{PrivacyMode, fast, balanced, high}

pub record MailboxTag : Type 0 where
  pub tag : Bytes
  pub epoch : ℕ
  pub direction : Text

unfoldable pub tag_b64 : MailboxTag → Text
tag_b64 t = b64encode t.tag

-- `int(time.time()) // epoch_secs`; the clock is in milliseconds.
unfoldable pub current_epoch : ℕ → ℕ → ℕ
current_epoch now epoch_secs = now / 1000 / epoch_secs

pub record MailboxTagDeriver : Type 0 where
  pub secret : Bytes
  pub epoch_secs : ℕ

abbrev pub decoy_count : PrivacyMode → ℕ
decoy_count fast = 0
decoy_count balanced = 3
decoy_count high = 7

module _ (k : Crypto) where
  -- `derive` of an epoch.
  unfoldable pub derive_at : MailboxTagDeriver → Text → ℕ → MailboxTag
  unfolding decimal
  derive_at d direction epoch = record {
    tag = k.hmac_sha256 d.secret (direction ++ b'|' ∷ decimal epoch);
    epoch = epoch;
    direction = direction;
  }

  -- `derive` of the current epoch.
  unfoldable pub derive : ℕ → MailboxTagDeriver → Text → MailboxTag
  derive now d direction = derive_at d direction (current_epoch now d.epoch_secs)

  -- `[… for offset in range(offset, offset + n)]`
  unfoldable pub tags_back : MailboxTagDeriver → Text → ℕ → ℕ → ℕ → List MailboxTag
  tags_back d direction epoch offset zero = []
  tags_back d direction epoch offset (suc n) =
      derive_at d direction (epoch - offset) ∷ tags_back d direction epoch (offset + 1) n

  unfoldable pub candidate_epochs : ℕ → MailboxTagDeriver → Text → ℕ → List MailboxTag
  candidate_epochs now d direction lookback =
      tags_back d direction (current_epoch now d.epoch_secs) 0 (lookback + 1)

  unfoldable pub derive_decoy_tag : Bytes → Text → ℕ → ℕ → MailboxTag
  unfolding decimal
  derive_decoy_tag mailbox_secret direction epoch index = record {
    tag =
        k.hmac_sha256 mailbox_secret
          (codes "decoy|" ++ (direction ++ b'|' ∷ (decimal epoch ++ b'|' ∷ decimal index)));
    epoch = epoch;
    direction = direction;
  }

  -- The decoys of one tag, from an index on.
  decoys_from : Bytes → Text → ℕ → ℕ → ℕ → List MailboxTag
  decoys_from secret direction epoch index zero = []
  decoys_from secret direction epoch index (suc n) =
      derive_decoy_tag secret direction epoch index
      ∷ decoys_from secret direction epoch (index + 1) n

  -- The loop over the real tags.
  decoys : Bytes → Text → ℕ → List MailboxTag → List MailboxTag
  unfolding decoys_from
  decoys secret direction n [] = []
  decoys secret direction n (real ∷ rest) =
      decoys_from secret direction real.epoch 0 n ++ decoys secret direction n rest

  unfoldable pub fetch_tags_for_mode :
      ℕ → MailboxTagDeriver → Text → PrivacyMode → Bytes → ℕ → List MailboxTag
  unfolding decoys
  fetch_tags_for_mode now d direction fast secret lookback =
      candidate_epochs now d direction lookback
  fetch_tags_for_mode now d direction mode secret lookback =
      let real = candidate_epochs now d direction lookback in
      real ++ decoys secret direction (decoy_count mode) real
