-- ===== src/Tests/Indexers.antt =====
-- server/internal/indexer/indexer.go: concrete runs.
use rwa_platform_evm.Common.{[], ◌∷◌, some, ◌≡◌, refl, true, false, arith, ◌+◌, ℕ}
use rwa_platform_evm.Common.Result.{ok}
use rwa_platform_evm.Models.ChainEvent.{IndexerCheckpoint}
use rwa_platform_evm.Indexer.State.{Config, World, Log}
use rwa_platform_evm.Indexer.Ancestor.{find_common_ancestor}
use rwa_platform_evm.Indexer.Ancestor.Search.{Recovers, find_common_ancestor-Recovers}
use rwa_platform_evm.Indexer.Scan.{scan_chunk, scan_fuel, validate_logs}
use rwa_platform_evm.Indexer.Scan.Accepted.{Accepts, validate_logs-Accepts}
use rwa_platform_evm.Indexer.DeadLetters.{dead_letter_id, dead_letter_of}
use rwa_platform_evm.Indexer.Retry.{retry_dead_letter}
use rwa_platform_evm.Indexer.Retry.Reaches.{Settles}
use rwa_platform_evm.Indexer.Retry.Settles.{retry_dead_letter-Settles}
use rwa_platform_evm.Indexer.Poll.Stops.{Stops, IsSmallHead, poll-Stops}
use rwa_platform_evm.Indexer.Scan.Ranges.{Yields, InRange, scan_chunk-InRange}
use rwa_platform_evm.Indexer.Poll.{poll, scan_and_commit_chunk}
use rwa_platform_evm.Indexer.Poll.Chunks.{Advances, scan_and_commit_chunk-Advances}

abbrev sample_log : Log
sample_log = record {
  address = 70;
  topics = [];
  input = [];
  block_number = 12;
  tx_hash = 3;
  index = 0;
  block_hash = 512;
  is_removed = false;
}

-- Block `n` has the hash `500 + n`, and the log stands in block 12.
abbrev sample_config : Config
sample_config = record {
  source = λ _. record {
    block_number = some 20;
    header_by_number = λ n. some (500 + n);
    filter_logs = λ from to. ok (sample_log ∷ []);
  };
  decode = λ _. some ("Transfer", []);
  chain_id = 1;
  addresses = 70 ∷ [];
  start_block = 1;
  has_block_hashes = true;
  has_dead_letters = false;
  rollback_window = 5;
  max_history = 100;
  max_auto_reorg_depth = 8;
  max_log_range = 4;
  max_range_retries = 3;
  now = 1000;
}

abbrev sample_checkpoint : IndexerCheckpoint
sample_checkpoint = record {
  last_block = 10;
  last_block_hash = some 999;
  updated_at = 900;
  reconciliation_required = false;
  version = 4;
}

abbrev sample_world : World
sample_world = record {
  store = record {
    events = [];
    hashes = (9, 509) ∷ (10, 999) ∷ [];
    checkpoint = some sample_checkpoint;
  };
  dead_letters = [];
  calls = 0;
}

find_common_ancestor-Recovers_example :
    Recovers sample_config sample_checkpoint 10 sample_world
      (find_common_ancestor sample_config sample_checkpoint 10 sample_world)
find_common_ancestor-Recovers_example =
    find_common_ancestor-Recovers sample_config sample_checkpoint 10 sample_world refl

scan_chunk-InRange_example :
    Yields
      (InRange sample_config 11 14 sample_world.store)
      (λ v. v.store ≡ sample_world.store)
      (scan_chunk (scan_fuel sample_config 11 14) sample_config 1 11 14 sample_world)
scan_chunk-InRange_example =
    scan_chunk-InRange (scan_fuel sample_config 11 14) sample_config 1 11 14 sample_world
      (ground arith) (ground arith)

scan_and_commit_chunk-Advances_example :
    Advances sample_config 20 11 14 sample_checkpoint sample_world.store
      (scan_and_commit_chunk 3 sample_config sample_checkpoint 11 14 20 sample_world)
scan_and_commit_chunk-Advances_example =
    scan_and_commit_chunk-Advances 3 sample_config sample_checkpoint 11 14 20 sample_world
      (ground arith) (ground arith)

validate_logs-Accepts_example :
    Yields
      (λ r _. Accepts sample_config (sample_log ∷ []) ((14, 514) ∷ []) r)
      (λ _. Unit)
      (validate_logs sample_config (sample_log ∷ []) ((14, 514) ∷ []) sample_world)
validate_logs-Accepts_example =
    validate_logs-Accepts sample_config (sample_log ∷ []) ((14, 514) ∷ []) sample_world

heads_small :
    (k n : ℕ) → (sample_config.source k).block_number ≡ some n → IsSmallHead sample_config n
heads_small k n h = (ground arith, ground arith)

poll-Stops_example : Stops (poll sample_config sample_world)
poll-Stops_example = poll-Stops sample_config sample_world heads_small

-- A log in the queue whose block the chain no longer has under that hash.
abbrev queued_log : Log
queued_log = record sample_log { block_hash = 999 }

abbrev queue_config : Config
queue_config = record sample_config { has_dead_letters = true }

abbrev queue_world : World
queue_world = record sample_world {
  dead_letters =
      (dead_letter_id queue_config queued_log, dead_letter_of queue_config queued_log) ∷ [];
}

retry_dead_letter-Settles_example :
    Settles queue_config
      (dead_letter_id queue_config queued_log)
      queue_world
      (retry_dead_letter queue_config (dead_letter_id queue_config queued_log) queue_world)
retry_dead_letter-Settles_example =
    retry_dead_letter-Settles queue_config (dead_letter_id queue_config queued_log) queue_world
