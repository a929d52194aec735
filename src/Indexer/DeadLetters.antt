-- ===== src/Indexer/DeadLetters.antt =====
-- server/internal/indexer/indexer.go: the record of a log that does not decode.
use rwa_platform_evm.Common.{List, [], ◌∷◌, Option, none, some, false}
use rwa_platform_evm.Common.Result.{ok}
use rwa_platform_evm.Models.Transaction.{Hash}
use rwa_platform_evm.Models.DeadLetter.{Log, DeadLetterId, DeadLetterEntry, decode_failure}
use rwa_platform_evm.Store.DeadLetters.{record_entry}
use rwa_platform_evm.Indexer.State.{Config, M}

abbrev pub dead_letter_id : Config → Log → DeadLetterId
dead_letter_id c l = record { chain_id = c.chain_id; tx_hash = l.tx_hash; log_index = l.index }

abbrev pub first_topic : List Hash → Option Hash
first_topic [] = none
first_topic (t ∷ ts) = some t

abbrev pub dead_letter_of : Config → Log → DeadLetterEntry
dead_letter_of c l = record {
  id = dead_letter_id c l;
  block_number = l.block_number;
  block_hash = l.block_hash;
  event_signature = first_topic l.topics;
  error_category = decode_failure;
  retry_count = 0;
  first_failed_at = c.now;
  last_failed_at = c.now;
  source_data = some l;
  is_resolved = false;
}

unfoldable pub record_dead_letter : Config → Log → M (Unit {0})
record_dead_letter c l w =
    (ok tt, record w { dead_letters = record_entry (dead_letter_of c l) w.dead_letters })
