-- ===== src/TxIndex/Spares.antt =====
-- server/internal/txindex/txindex.go: which records the reconciliation leaves alone.
use rwa_platform_evm.Common.{
  ℕ, String, true, false, List, [], ◌∷◌, Option, none, some, string_eq, nat_eq, ◌≡◌, ◌≢◌, refl,
  arith, Bool-cases, inl, inr, ◌∙◌, sym,
}
use text.Mathlib.Text.{starts_with}
use text.Mathlib.TextPositions.{starts_with-append}
use text.Mathlib.TextEquality.{eq_iff}
use rwa_platform_evm.Common.Dict.{lookup, lookup-insert}
use rwa_platform_evm.Models.Transaction.{
  Hash, Transaction, reorged, is_event_derived, event_derived_tx_id_prefix,
}
use rwa_platform_evm.Models.ChainEvent.{ChainEvent, IndexerCheckpoint}
use rwa_platform_evm.Store.Transactions.{TransactionStore, create, update, get_by_tx_hash, list}
use rwa_platform_evm.Store.Chain.{EventStore, list_all}
use rwa_platform_evm.TxIndex.{
  Texts, Done, Groups, stored_as, then_on, found_record, write_record, build_event_derived_tx,
  index_hash, index_groups, live_of, pick_primary, is_settled, mark_vanished, reconcile_groups,
  reconcile_stack_transactions, is_frozen, group_by_hash,
}

-- The record under an ID is the one that the store before has.
abbrev Same : String → TransactionStore → Done → Type 0
Same id m d = lookup id d.txs ≡ lookup id m

abbrev Foreign : String → Type 0
Foreign id = starts_with id event_derived_tx_id_prefix ≡ false

stored_as-create :
    (id : String) (t : Transaction) (m : TransactionStore)
    → t.id ≢ id
    → Same id m (stored_as m (create t m))
unfolding stored_as create
stored_as-create id t m n = ground (arith, lookup-insert t.id id t m, eq_iff t.id id)

stored_as-update :
    (id : String) (t : Transaction) (m : TransactionStore)
    → t.id ≢ id
    → Same id m (stored_as m (update t m))
unfolding stored_as update
stored_as-update id t m n = ground (arith, lookup-insert t.id id t m, eq_iff t.id id)

write_record-Same :
    (id : String) (o : Option Transaction) (t : Transaction) (m : TransactionStore)
    → t.id ≢ id
    → Same id m (write_record o t m)
unfolding write_record
write_record-Same id none t m n = stored_as-create id t m n
write_record-Same id (some old) t m n = elim (Bool-cases (is_event_derived old)) [
  | inl y ↦ rw y (stored_as-update id t m n)
  | inr x ↦ rw x refl
]

derived-other : (id : String) (t : Transaction) → Foreign id → is_event_derived t ≡ true → t.id ≢ id
unfolding is_event_derived
derived-other id t f d e =
    let bad : starts_with id event_derived_tx_id_prefix ≡ true = rw (sym e) d in
    let clash : true ≡ false = sym bad ∙ f in cc

built-derived :
    (texts : Texts) (chain now : ℕ) (hash : Hash) (first : ChainEvent) (live : List ChainEvent)
    (e : ChainEvent) (old : Option Transaction)
    → is_event_derived (build_event_derived_tx texts chain hash first live e old now) ≡ true
unfolding is_event_derived build_event_derived_tx
built-derived texts chain now hash first live e old =
    starts_with-append event_derived_tx_id_prefix (texts.hash_text hash)

index_hash-Same :
    (texts : Texts) (chain now : ℕ) (hash : Hash) (live : List ChainEvent) (p : Option ChainEvent)
    (id : String) (m : TransactionStore)
    → Foreign id
    → Same id m (index_hash texts chain now hash live p m)
unfolding index_hash
index_hash-Same texts chain now hash [] none id m f = refl
index_hash-Same texts chain now hash [] (some e) id m f = refl
index_hash-Same texts chain now hash (first ∷ rest) none id m f = refl
index_hash-Same texts chain now hash (first ∷ rest) (some e) id m f =
    let old = found_record (get_by_tx_hash chain hash m) in
    let t = build_event_derived_tx texts chain hash first (first ∷ rest) e old now in
    write_record-Same id old t m
      (derived-other id t f (built-derived texts chain now hash first (first ∷ rest) e old))

then_on-Same :
    (id : String) (m : TransactionStore) (d : Done) (next : TransactionStore → Done)
    → Same id m d
    → ((s : TransactionStore) → Same id s (next s))
    → Same id m (then_on d next)
unfolding then_on
then_on-Same id m d next h k = ground (arith, k d.txs)

index_groups-Same :
    (texts : Texts) (chain now : ℕ) (groups : Groups) (id : String) (m : TransactionStore)
    → Foreign id
    → Same id m (index_groups texts chain now groups m)
unfolding index_groups
index_groups-Same texts chain now [] id m f = refl
index_groups-Same texts chain now ((hash, evs) ∷ groups) id m f =
    then_on-Same id m _ (index_groups texts chain now groups)
      (index_hash-Same texts chain now hash (live_of evs) (pick_primary (live_of evs)) id m f)
      (λ s. index_groups-Same texts chain now groups id s f)

settled-derived :
    (groups : Groups) (t : Transaction) → is_settled groups t ≡ false → is_event_derived t ≡ true
unfolding is_settled
settled-derived groups t h = ground arith

mark_vanished-Same :
    (now : ℕ) (groups : Groups) (ts : List Transaction) (id : String) (m : TransactionStore)
    → Foreign id
    → Same id m (mark_vanished now groups ts m)
unfolding mark_vanished
mark_vanished-Same now groups [] id m f = refl
mark_vanished-Same now groups (t ∷ ts) id m f = elim (Bool-cases (is_settled groups t)) [
  | inl y ↦ rw y (mark_vanished-Same now groups ts id m f)
  | inr x ↦
      let n = derived-other id t f (settled-derived groups t x) in
      let next = record t { status = reorged; updated_at = now } in
      rw x (
        then_on-Same id m (stored_as m (update next m)) (mark_vanished now groups ts)
          (stored_as-update id next m n) (λ s. mark_vanished-Same now groups ts id s f))
]

-- Whatever ID has not the prefix of event-derived records keeps its record through the whole
-- reconciliation, on the frozen chain and where a write fails too: records of the transaction manager
-- are never changed, and none is made up.
pub reconcile-spares :
    (texts : Texts) (chain now : ℕ) (checkpoint : Option IndexerCheckpoint) (events : EventStore)
    (m : TransactionStore) (id : String)
    → starts_with id event_derived_tx_id_prefix ≡ false
    → lookup id ((reconcile_stack_transactions texts chain now checkpoint events m).txs)
      ≡ lookup id m
unfolding reconcile_stack_transactions reconcile_groups
reconcile-spares texts chain now checkpoint events m id f =
    elim (Bool-cases (is_frozen checkpoint)) [
      | inl y ↦ rw y refl
      | inr x ↦
          let groups = group_by_hash [] (list_all chain ("Transfer" ∷ []) events) in
          rw x (
            then_on-Same id m (index_groups texts chain now groups m)
              (λ s. mark_vanished now groups (list s) s)
              (index_groups-Same texts chain now groups id m f)
              (λ s. mark_vanished-Same now groups (list s) id s f))
    ]
