-- ===== src/TxIndex/Vanished.antt =====
-- server/internal/txindex/txindex.go: the marking of records whose events are gone.
use rwa_platform_evm.Common.{
  ℕ, String, true, false, List, [], ◌∷◌, Option, none, some, string_eq, nat_eq, ◌≡◌, ◌⊎◌, refl,
  Bool-cases, Option-cases, inl, inr, ◌∙◌, ap, sym, subst,
}
use mathlib.Core.Bool.{decide}
use rwa_platform_evm.Common.Dict.{lookup, insert}
use rwa_platform_evm.Common.Result.{Result, ok, err}
use rwa_platform_evm.Models.Transaction.{
  Hash, Transaction, TxStatus-discrete, reorged, is_event_derived,
}
use rwa_platform_evm.Models.ChainEvent.{ChainEvent, IndexerCheckpoint}
use rwa_platform_evm.Store.Transactions.{
  TransactionStore, RepoError, create, update, get_by_tx_hash, list,
}
use rwa_platform_evm.TxIndex.Groups.{IsWitness, grouped-IsWitness}
use rwa_platform_evm.Store.Transactions.Writes.{create-ok, update-ok}
use rwa_platform_evm.Store.Transactions.Keyed.{IsKeyed, insert-IsKeyed}
use rwa_platform_evm.Store.Chain.{EventStore, list_all}
use rwa_platform_evm.TxIndex.{
  Texts, Done, Groups, stored_as, then_on, found_record, write_record, build_event_derived_tx,
  index_hash, live_of, pick_primary, index_groups, is_settled, is_live, mark_vanished,
  reconcile_groups, reconcile_stack_transactions, is_frozen, group_by_hash,
}
use rwa_platform_evm.TxIndex.Marking.{then_on-error, mark_vanished-Settled, list-SettledBut}

stored_as-IsKeyed :
    (t : Transaction) (m : TransactionStore) (r : Result RepoError TransactionStore)
    → ((n : TransactionStore) → r ≡ ok n → n ≡ insert t.id t m)
    → IsKeyed m
    → IsKeyed (stored_as m r).txs
unfolding stored_as
stored_as-IsKeyed t m (ok n) w k = subst IsKeyed (sym (w n refl)) (insert-IsKeyed t m k)
stored_as-IsKeyed t m (err e) w k = k

write_record-IsKeyed :
    (o : Option Transaction) (t : Transaction) (m : TransactionStore)
    → IsKeyed m
    → IsKeyed (write_record o t m).txs
unfolding write_record
write_record-IsKeyed none t m k =
    stored_as-IsKeyed t m (create t m) (λ n e. (create-ok t m n e).1) k
write_record-IsKeyed (some old) t m k = elim (Bool-cases (is_event_derived old)) [
  | inl y ↦ rw y (stored_as-IsKeyed t m (update t m) (update-ok t m) k)
  | inr x ↦ rw x k
]

index_hash-IsKeyed :
    (texts : Texts) (chain now : ℕ) (hash : Hash) (live : List ChainEvent) (p : Option ChainEvent)
    (m : TransactionStore)
    → IsKeyed m
    → IsKeyed (index_hash texts chain now hash live p m).txs
unfolding index_hash
index_hash-IsKeyed texts chain now hash [] none m k = k
index_hash-IsKeyed texts chain now hash [] (some e) m k = k
index_hash-IsKeyed texts chain now hash (first ∷ rest) none m k = k
index_hash-IsKeyed texts chain now hash (first ∷ rest) (some e) m k =
    let old = found_record (get_by_tx_hash chain hash m) in
    write_record-IsKeyed old
      (build_event_derived_tx texts chain hash first (first ∷ rest) e old now) m k

then_on-IsKeyed :
    (d : Done) (next : TransactionStore → Done)
    → IsKeyed d.txs
    → ((s : TransactionStore) → IsKeyed s → IsKeyed (next s).txs)
    → IsKeyed (then_on d next).txs
unfolding then_on
then_on-IsKeyed d next k f = elim (Option-cases d.error) [
  | inl n ↦ rw n (f d.txs k)
  | inr (e, s) ↦ rw s k
]

index_groups-IsKeyed :
    (texts : Texts) (chain now : ℕ) (groups : Groups) (m : TransactionStore)
    → IsKeyed m
    → IsKeyed (index_groups texts chain now groups m).txs
unfolding index_groups
index_groups-IsKeyed texts chain now [] m k = k
index_groups-IsKeyed texts chain now ((hash, evs) ∷ groups) m k =
    then_on-IsKeyed _ (index_groups texts chain now groups)
      (index_hash-IsKeyed texts chain now hash (live_of evs) (pick_primary (live_of evs)) m k)
      (λ s. index_groups-IsKeyed texts chain now groups s)

decide-holds {ℓ} : {P : Type ℓ} (d : Dec P) → decide d ≡ true → P
unfolding decide
decide-holds (yes p) h = p
decide-holds (no n) h = cc

settled-cases :
    (groups : Groups) (t : Transaction)
    → is_settled groups t ≡ true
    → is_event_derived t ≡ true
    → (t.status ≡ reorged) ⊎ (is_live t.tx_hash groups ≡ true)
unfolding is_settled
settled-cases groups t s d = elim (Bool-cases (is_live t.tx_hash groups)) [
  | inl l ↦ inr l
  | inr n ↦ inl (decide-holds (TxStatus-discrete t.status reorged) (rw (d, n) at s))
]

-- After a reconciliation that went through, no event-derived record outlives its events: it is marked
-- as reorged, or the chain still has an event of its transaction that is neither removed nor without a
-- usable name. The store holds each record under its own ID, and the indexer is not frozen.
pub reconcile-Reports :
    (texts : Texts) (chain now : ℕ) (checkpoint : Option IndexerCheckpoint) (events : EventStore)
    (m : TransactionStore)
    → IsKeyed m
    → is_frozen checkpoint ≡ false
    → (reconcile_stack_transactions texts chain now checkpoint events m).error ≡ none
    → (id : String) (t : Transaction)
    → lookup id ((reconcile_stack_transactions texts chain now checkpoint events m).txs) ≡ some t
    → is_event_derived t ≡ true
    → (t.status ≡ reorged)
      ⊎ ((e : ChainEvent) × IsWitness (list_all chain ("Transfer" ∷ []) events) t.tx_hash e)
unfolding reconcile_stack_transactions reconcile_groups
reconcile-Reports texts chain now checkpoint events m k x h id t at d =
    let es = list_all chain ("Transfer" ∷ []) events in
    let groups = group_by_hash [] es in
    let first = index_groups texts chain now groups m in
    let (went, marked, out) =
      then_on-error first (λ s. mark_vanished now groups (list s) s) (rw x at h) in
    let keyed = index_groups-IsKeyed texts chain now groups m k in
    let settled =
      mark_vanished-Settled now groups (list first.txs) first.txs keyed
        (list-SettledBut groups first.txs) marked in
    elim (settled id t (ap (lookup id) (sym out) ∙ (rw x at at))) [
      | inl s ↦ elim (settled-cases groups t s d) [
        | inl r ↦ inl r
        | inr l ↦ inr (grouped-IsWitness t.tx_hash es l)
      ]
      | inr i ↦ absurd i
    ]
