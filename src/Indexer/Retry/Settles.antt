-- ===== src/Indexer/Retry/Settles.antt =====
-- server/internal/indexer/indexer.go: every end of `RetryDeadLetter`.
use rwa_platform_evm.Common.{
  Bool, true, false, Option, none, some, if◌then◌else◌, ◌==◌, nat_eq, nat_beq_iff, ◌+◌, ◌≡◌, ◌≢◌,
  inl, inr, refl, arith, Bool-cases,
}
use rwa_platform_evm.Common.Dict.{lookup}
use rwa_platform_evm.Common.Result.{Result, ok, err}
use rwa_platform_evm.Models.Transaction.{Hash}
use rwa_platform_evm.Models.ChainEvent.{key_eq}
use rwa_platform_evm.Models.DeadLetter.{Log, DeadLetterId, DeadLetterEntry, dead_letter_eq}
use rwa_platform_evm.Store.Transactions.{not_found}
use rwa_platform_evm.Store.DeadLetters.{get_entry}
use rwa_platform_evm.Indexer.State.{
  Config, World, IndexError, no_dead_letters, header_at, and_then, answered,
}
use rwa_platform_evm.Indexer.Retry.{retry_under, retry_entry, retry_found, retry_dead_letter}
use rwa_platform_evm.Indexer.Retry.Reaches.{Ends, Settles, Reaches, dismiss-Reaches, ingest-Reaches}

-- A call that ends well settles the entry.
reached-Settles :
    (c : Config) (id : DeadLetterId) (entry : DeadLetterEntry) (l : Log) (h : Hash) (w : World)
    (r : Result IndexError (Unit {0}) × World)
    → lookup id w.dead_letters ≡ some entry
    → entry.source_data ≡ some l
    → (c.source w.calls).header_by_number l.block_number ≡ some h
    → Reaches (Ends c id w l h) r
    → Settles c id w r
reached-Settles c id entry l h w (ok u, v) found data_ head e = (entry, l, h, found, data_, head, e)
reached-Settles c id entry l h w (err x, v) found data_ head e = absurd e

under-Reaches :
    (c : Config) (id : DeadLetterId) (entry : DeadLetterEntry) (l : Log) (h : Hash) (w v : World)
    → lookup id v.dead_letters ≡ some entry
    → v.store ≡ w.store
    → Reaches (Ends c id w l h) (retry_under c id entry l h v)
unfolding retry_under
under-Reaches c id entry l h w v found same = elim (Bool-cases (h == l.block_hash)) [
  | inl y ↦ rw y (
      ingest-Reaches c id entry l h w v (c.decode l) found same ((nat_beq_iff h l.block_hash).0 y)
        refl)
  | inr n ↦
      let far : h ≢ l.block_hash = ground (arith, nat_beq_iff h l.block_hash) in
      rw n (dismiss-Reaches c id entry l h w v found same far)
]

-- The header is asked for with the world's next call.
headed-Settles :
    (c : Config) (id : DeadLetterId) (entry : DeadLetterEntry) (l : Log) (w : World)
    (o : Option Hash)
    → lookup id w.dead_letters ≡ some entry
    → entry.source_data ≡ some l
    → (c.source w.calls).header_by_number l.block_number ≡ o
    → Settles c id w
        (and_then (answered o (record w { calls = w.calls + 1 })) (λ h. retry_under c id entry l h))
headed-Settles c id entry l w none found data_ head = (refl, refl)
headed-Settles c id entry l w (some h) found data_ head =
    reached-Settles c id entry l h w _ found data_ head
      (under-Reaches c id entry l h w (record w { calls = w.calls + 1 }) found refl)

entry-Settles :
    (c : Config) (id : DeadLetterId) (entry : DeadLetterEntry) (o : Option Log) (w : World)
    → lookup id w.dead_letters ≡ some entry
    → entry.source_data ≡ o
    → Settles c id w (retry_entry c id entry o w)
unfolding retry_entry header_at
entry-Settles c id entry none w found data_ = (refl, refl)
entry-Settles c id entry (some l) w found data_ =
    headed-Settles c id entry l w ((c.source w.calls).header_by_number l.block_number) found data_
      refl

queue-Settles :
    (c : Config) (id : DeadLetterId) (o : Option DeadLetterEntry) (w : World)
    → lookup id w.dead_letters ≡ o
    → Settles c id w (retry_found c id (elim o [ some e ↦ ok e | none ↦ err not_found ]) w)
unfolding retry_found
queue-Settles c id none w found = (refl, refl)
queue-Settles c id (some e) w found = entry-Settles c id e e.source_data w found refl

if-Settles :
    (c : Config) (id : DeadLetterId) (w : World) (b : Bool)
    (r s : Result IndexError (Unit {0}) × World)
    → Settles c id w r
    → Settles c id w s
    → Settles c id w (if b then r else s)
if-Settles c id w true r s h k = h
if-Settles c id w false r s h k = k

-- A retry that fails changes no event and no entry. One that goes through had an entry with the log's
-- data, and the hash that the chain has now for the log's block: is it another one, then the entry is
-- handled and no event changes; is it the log's own but the log does not decode, then no event changes
-- and the log waits in the queue; else an event stands under the log's key, no other event has changed,
-- and the entry is handled.
pub retry_dead_letter-Settles :
    (c : Config) (id : DeadLetterId) (w : World) → Settles c id w (retry_dead_letter c id w)
unfolding retry_dead_letter get_entry
retry_dead_letter-Settles c id w =
    if-Settles c id w c.has_dead_letters (retry_found c id (get_entry id w.dead_letters) w)
      (err no_dead_letters, w) (queue-Settles c id (lookup id w.dead_letters) w refl) (refl, refl)
