-- ===== src/TxIndex/Marking.antt =====
-- server/internal/txindex/txindex.go: the loop that marks the records without live events.
use rwa_platform_evm.Common.{
  ℕ, String, Bool, true, not, ◌||◌, List, [], ◌∷◌, map, none, some, string_eq, nat_eq, ◌≡◌, ◌⊎◌,
  ◌≢◌, refl, arith, Bool-cases, inl, inr, ◌∙◌, ap, sym, subst, In, sort-In,
}
use mathlib.Core.Bool.{decide}
use text.Mathlib.TextEquality.{eq_iff}
use rwa_platform_evm.Common.Dict.{lookup, insert, lookup-insert}
use rwa_platform_evm.Models.Transaction.{Transaction, TxStatus-discrete, reorged, is_event_derived}
use rwa_platform_evm.Store.Transactions.{
  TransactionStore, update, list, submitted_before, has_status,
}
use rwa_platform_evm.Store.Transactions.Keyed.{IsKeyed, lookup-id, insert-IsKeyed}
use rwa_platform_evm.TxIndex.{Done, Groups, stored_as, then_on, is_settled, is_live, mark_vanished}

-- Every record is settled, or it is still to be looked at.
abbrev pub SettledBut : Groups → List Transaction → TransactionStore → Type 0
SettledBut groups todo m =
    (id : String) (t : Transaction)
    → lookup id m ≡ some t
    → (is_settled groups t ≡ true) ⊎ In t todo

pub reorged-settled :
    (groups : Groups) (t : Transaction) (now : ℕ)
    → is_settled groups (record t { status = reorged; updated_at = now }) ≡ true
unfolding is_settled has_status TxStatus-discrete mathlib.Core.Bool.decide
reorged-settled groups t now =
    by_cases (is_event_derived (record t { status = reorged; updated_at = now }))
      (is_live t.tx_hash groups)
  where
    by_cases : (d l : Bool) → (not d || (l || true)) ≡ true
    by_cases d l = ground arith

pub drop_head :
    (groups : Groups) (t : Transaction) (ts : List Transaction) (m : TransactionStore)
    → is_settled groups t ≡ true
    → SettledBut groups (t ∷ ts) m
    → SettledBut groups ts m
drop_head groups t ts m s h id x e = elim (h id x e) [
  | inl y ↦ inl y
  | inr (inl same) ↦ inl (subst (λ v. is_settled groups v ≡ true) (sym same) s)
  | inr (inr i) ↦ inr i
]

pub lookup-inserted :
    (id : String) (t x : Transaction) (m : TransactionStore)
    → lookup id (insert t.id t m) ≡ some x
    → (t ≡ x) ⊎ ((t.id ≢ id) × (lookup id m ≡ some x))
lookup-inserted id t x m e = ground (arith, lookup-insert t.id id t m, eq_iff t.id id)

-- After the write of the head as reorged: whatever equals the head stands under the head's ID.
pub write_head :
    (groups : Groups) (t next : Transaction) (ts : List Transaction) (m : TransactionStore)
    → IsKeyed m
    → next.id ≡ t.id
    → is_settled groups next ≡ true
    → SettledBut groups (t ∷ ts) m
    → SettledBut groups ts (insert next.id next m)
write_head groups t next ts m k same s h id x e = elim (lookup-inserted id next x m e) [
  | inl q ↦ inl (subst (λ v. is_settled groups v ≡ true) q s)
  | inr (n, e') ↦ elim (h id x e') [
    | inl y ↦ inl y
    | inr (inl q) ↦
        absurd (n (same ∙ ap (λ (v : Transaction). v.id) (sym q) ∙ lookup-id m id x k e'))
    | inr (inr i) ↦ inr i
  ]
]

-- What a chain of two calls that succeeds leaves.
pub then_on-error :
    (d : Done) (next : TransactionStore → Done)
    → (then_on d next).error ≡ none
    → (d.error ≡ none) × ((next d.txs).error ≡ none) × ((then_on d next).txs ≡ (next d.txs).txs)
unfolding then_on
then_on-error d next h = ground arith

pub stored_as-update :
    (t : Transaction) (m : TransactionStore)
    → (stored_as m (update t m)).error ≡ none
    → (stored_as m (update t m)).txs ≡ insert t.id t m
unfolding stored_as update
stored_as-update t m h = ground arith

pub mark_vanished-Settled :
    (now : ℕ) (groups : Groups) (ts : List Transaction) (m : TransactionStore)
    → IsKeyed m
    → SettledBut groups ts m
    → (mark_vanished now groups ts m).error ≡ none
    → SettledBut groups [] ((mark_vanished now groups ts m).txs)
unfolding mark_vanished
mark_vanished-Settled now groups [] m k s h = s
mark_vanished-Settled now groups (t ∷ ts) m k s h = elim (Bool-cases (is_settled groups t)) [
  | inl y ↦ rw y (mark_vanished-Settled now groups ts m k (drop_head groups t ts m y s) (rw y at h))
  | inr x ↦
      let next = record t { status = reorged; updated_at = now } in
      let (wrote, went, out) =
        then_on-error (stored_as m (update next m)) (mark_vanished now groups ts) (rw x at h) in
      let new = stored_as-update next m wrote in
      rw (x, out)
        (mark_vanished-Settled now groups ts ((stored_as m (update next m)).txs)
          (subst IsKeyed (sym new) (insert-IsKeyed next m k))
          (subst (SettledBut groups ts) (sym new)
            (write_head groups t next ts m k refl (reorged-settled groups t now) s))
          went)
]

pub lookup-In :
    (id : String) (t : Transaction) (m : TransactionStore)
    → lookup id m ≡ some t
    → In t (map (λ e. e.1) m)
unfolding lookup
lookup-In id t [] h = cc
lookup-In id t ((j, v) ∷ m) h = ground (arith, lookup-In id t m)

pub list-SettledBut : (groups : Groups) (m : TransactionStore) → SettledBut groups (list m) m
unfolding list
list-SettledBut groups m id t h =
    inr (sort-In submitted_before (map (λ e. e.1) m) t (lookup-In id t m h))
