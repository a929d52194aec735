-- ===== src/Store/DeadLetters.antt =====
-- server/internal/dal/memory/dead_letter.go.
use rwa_platform_evm.Common.{◌+◌, true, false, List, Option, none, some}
use rwa_platform_evm.Common.Dict.{lookup, insert}
use rwa_platform_evm.Common.Result.{Result, ok, err}
use rwa_platform_evm.Models.DeadLetter.{DeadLetterId, DeadLetterEntry, dead_letter_eq}
use rwa_platform_evm.Store.Transactions.{RepoError, not_found}

abbrev pub DeadLetterStore : Type 0
DeadLetterStore = List (DeadLetterId × DeadLetterEntry)

-- A repeated failure counts up, keeps the time of the first one, and is unresolved again.
abbrev pub recorded : DeadLetterEntry → Option DeadLetterEntry → DeadLetterEntry
recorded e none = e
recorded e (some old) = record e {
  first_failed_at = old.first_failed_at;
  retry_count = old.retry_count + 1;
  is_resolved = false;
}

unfoldable pub record_entry : DeadLetterEntry → DeadLetterStore → DeadLetterStore
record_entry e m = insert e.id (recorded e (lookup e.id m)) m

unfoldable pub get_entry : DeadLetterId → DeadLetterStore → Result RepoError DeadLetterEntry
get_entry id m = elim (lookup id m) [ some e ↦ ok e | none ↦ err not_found ]

unfoldable pub resolve : DeadLetterId → DeadLetterStore → Result RepoError DeadLetterStore
resolve id m = elim (lookup id m) [
  | some e ↦ ok (insert id (record e { is_resolved = true }) m)
  | none ↦ err not_found
]
