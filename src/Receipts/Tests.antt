-- ===== src/Receipts/Tests.antt =====
-- receipt_cmds.py: an example, a receipt that no relay takes.
use yakr.Prelude.{false, none, [], replicate}
use yakr.Codec.Sample.Laws.{sample}
use yakr.Sample.{contact}
use yakr.LocalStore.{FileLocalStore, empty_database}
use yakr.LocalStore.Contacts.{save_contact}
use yakr.Receipts.{Surroundings, failed}

abbrev unreached : Surroundings
unreached = record {
  now = 210;
  fresh = [];
  nonce = replicate 24 0;
  fails = λ n. false;
  fails_again = λ n. false;
  delivers = λ m x s. (failed, x, s);
}

abbrev store : FileLocalStore
store =
    save_contact sample contact
      (record { test_fault = none; db = empty_database; contact_files = []; local_profile = none })
