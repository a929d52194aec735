-- ===== src/Indexer/Retry.antt =====
-- server/internal/indexer/indexer.go: `RetryDeadLetter`. `Exists` and `Create` do not fail in memory.
pub mod Reaches
pub mod Settles
use rwa_platform_evm.Common.{
  ℕ, String, Bool, true, false, List, Option, none, some, if◌then◌else◌, ◌==◌, nat_eq,
}
use rwa_platform_evm.Common.Result.{Result, ok, err}
use rwa_platform_evm.Models.Transaction.{Hash}
use rwa_platform_evm.Models.ChainEvent.{ChainEvent, Value}
use rwa_platform_evm.Models.DeadLetter.{Log, DeadLetterId, DeadLetterEntry, orphaned}
use rwa_platform_evm.Store.Transactions.{RepoError}
use rwa_platform_evm.Store.Chain.{ChainStore, EventStore, exists, create_event}
use rwa_platform_evm.Store.DeadLetters.{DeadLetterStore, record_entry, get_entry, resolve}
use rwa_platform_evm.Indexer.State.{
  Config, World, M, ◌>>=◌, header_at, no_dead_letters, unknown_entry, unreadable_entry,
}
use rwa_platform_evm.Indexer.DeadLetters.{record_dead_letter}
use rwa_platform_evm.Indexer.Scan.{log_key, build_event}

unfoldable pub stored_queue : Result RepoError DeadLetterStore → M (Unit {0})
stored_queue (ok m) w = (ok tt, record w { dead_letters = m })
stored_queue (err e) w = (err unknown_entry, w)

unfoldable pub resolve_entry : DeadLetterId → M (Unit {0})
unfolding stored_queue
resolve_entry id w = stored_queue (resolve id w.dead_letters) w

-- The record of a dismissal has no times of its own: Go's zero times are 0.
abbrev pub dismissal_of : DeadLetterEntry → DeadLetterEntry
dismissal_of e = record e {
  error_category = orphaned;
  retry_count = 0;
  first_failed_at = 0;
  last_failed_at = 0;
  is_resolved = false;
}

unfoldable pub dismiss : DeadLetterId → DeadLetterEntry → M (Unit {0})
unfolding resolve_entry
dismiss id e w =
    resolve_entry id (record w { dead_letters = record_entry (dismissal_of e) w.dead_letters })

abbrev pub create_unless : Bool → ChainEvent → EventStore → EventStore
create_unless true e m = m
create_unless false e m = create_event e m

unfoldable pub ingest :
    Config → DeadLetterId → Log → Option (String × List (String × Value)) → M (Unit {0})
unfolding resolve_entry
ingest c id l none w = record_dead_letter c l w
ingest c id l (some (name, fields)) w = resolve_entry id (record w {
  store = record w.store {
    events =
        create_unless (exists (log_key c l) w.store.events) (build_event c l name fields)
          w.store.events;
  };
})

unfoldable pub retry_under : Config → DeadLetterId → DeadLetterEntry → Log → Hash → M (Unit {0})
unfolding dismiss ingest
retry_under c id e l h w =
    if h == l.block_hash then ingest c id l (c.decode l) w else dismiss id e w

unfoldable pub retry_entry : Config → DeadLetterId → DeadLetterEntry → Option Log → M (Unit {0})
unfolding retry_under
retry_entry c id e none w = (err unreadable_entry, w)
retry_entry c id e (some l) w = (header_at c l.block_number >>= λ h. retry_under c id e l h) w

retry_found : Config → DeadLetterId → Result RepoError DeadLetterEntry → M (Unit {0})
unfolding retry_entry
retry_found c id (err e) w = (err unknown_entry, w)
retry_found c id (ok e) w = retry_entry c id e e.source_data w

unfoldable pub retry_dead_letter : Config → DeadLetterId → M (Unit {0})
unfolding retry_found
retry_dead_letter c id w =
    if c.has_dead_letters
    then retry_found c id (get_entry id w.dead_letters) w
    else (err no_dead_letters, w)
