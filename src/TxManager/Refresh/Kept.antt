-- ===== src/TxManager/Refresh/Kept.antt =====
-- server/internal/blockchain/txmanager.go: the writes of a refresh keep what identifies a record.
use rwa_platform_evm.Common.{
  ℕ, String, Bool, true, false, List, [], ◌∷◌, some, ◌≡◌, refl, inl, inr, In, Bool-cases, ◌∙◌, ap,
  sym, subst, ◌==◌, string_eq, nat_eq, ◌&&◌,
}
use rwa_platform_evm.Common.Dict.{lookup, insert, lookup-insert}
use rwa_platform_evm.Common.Result.{Result, ok, err}
use text.Mathlib.TextEquality.{eq_iff}
use rwa_platform_evm.Models.Transaction.{Transaction, TxStatus, pending, reorged}
use rwa_platform_evm.Store.Transactions
use rwa_platform_evm.Store.Transactions.{
  TransactionStore, RepoError, has_status, get, list, list_replacements, list_unfinalized,
}
use rwa_platform_evm.Store.Transactions.Writes.{update-ok}
use rwa_platform_evm.Store.Transactions.Keyed.{IsKeyed, insert-IsKeyed}
use rwa_platform_evm.TxManager.State.{TxError, Receipt}
use rwa_platform_evm.TxManager.Monad.{World, Env, M, and_then, update_tx}
use rwa_platform_evm.TxManager.Refresh.{
  each, mark, marked, settle_receipt, advanced, handle_receipt, is_canonical,
}

-- What identifies a transaction: all of its fields but its status, its block, its replacement and the
-- time of its last change.
abbrev pub core : Transaction → Transaction
core t = record t {
  status = pending;
  block_number = 0;
  block_hash = 0;
  replaced_by = "";
  updated_at = 0;
}

-- Every record of the first store stands in the second, the same transaction.
abbrev pub Keeps : TransactionStore → TransactionStore → Type 0
Keeps m n =
    (id : String) (t : Transaction)
    → lookup id m ≡ some t
    → (t' : Transaction) × (lookup id n ≡ some t') × (core t' ≡ core t)

abbrev pub Stands : TransactionStore → Transaction → Type 0
Stands m t = (u : Transaction) × (lookup t.id m ≡ some u) × (core u ≡ core t)

-- A step keeps the records, and the store's keys in order.
abbrev pub Good : TransactionStore → Result TxError (Unit {0}) × World → Type 0
Good m out = Keeps m out.1.txs × IsKeyed out.1.txs

pub Keeps-refl : (m : TransactionStore) → Keeps m m
Keeps-refl m id t h = (t, h, refl)

pub Keeps-trans : (l m n : TransactionStore) → Keeps l m → Keeps m n → Keeps l n
Keeps-trans l m n f g id t h =
    let (u, hu, eu) = f id t h in let (v, hv, ev) = g id u hu in (v, hv, ev ∙ eu)

pub insert-Keeps : (t : Transaction) (m : TransactionStore) → Stands m t → Keeps m (insert t.id t m)
insert-Keeps t m (u, hu, eu) id x h = elim (Bool-cases (t.id == id)) [
  | inl hit ↦
      let same : t.id ≡ id = (eq_iff t.id id).0 hit in
      let old : some u ≡ some x = sym hu ∙ ap (λ i. lookup i m) same ∙ h in
      (t, rw (lookup-insert t.id id t m, hit) refl, sym eu ∙ some_core u x old)
  | inr miss ↦ (x, rw (lookup-insert t.id id t m, miss) h, refl)
]
  where
    some_core : (a b : Transaction) → some a ≡ some b → core a ≡ core b
    some_core a b q = cc

pub update_tx-Good :
    (t : Transaction) (w : World) → IsKeyed w.txs → Stands w.txs t → Good w.txs (update_tx t w)
unfolding update_tx
update_tx-Good t w k s = go (Transactions.update t w.txs) refl
  where
    go :
        (r : Result RepoError TransactionStore)
        → Transactions.update t w.txs ≡ r
        → Good w.txs (update_tx t w)
    go (ok m) q =
        let is : m ≡ insert t.id t w.txs = update-ok t w.txs m q in
        rw (q, update_tx) (rw is (insert-Keeps t w.txs s, insert-IsKeyed t w.txs k))
    go (err e) q = rw (q, update_tx) (Keeps-refl w.txs, k)

pub and_then-Good :
    (m : TransactionStore) (out : Result TxError (Unit {0}) × World) (f : Unit {0} → M (Unit {0}))
    → Good m out
    → (Keeps m out.1.txs → IsKeyed out.1.txs → Good out.1.txs (f tt out.1))
    → Good m (and_then out f)
and_then-Good m (err e, v) f good next = good
and_then-Good m (ok _, v) f (kept, keyed) next =
    let rest = next kept keyed in (Keeps-trans m v.txs (f tt v).1.txs kept rest.0, rest.1)

pub each-Good :
    (f : Transaction → M (Unit {0}))
    → ((t : Transaction) (w : World) → IsKeyed w.txs → Stands w.txs t → Good w.txs (f t w))
    → (l : List Transaction) (w : World) → IsKeyed w.txs
    → ((t : Transaction) → In t l → Stands w.txs t)
    → Good w.txs (each f l w)
unfolding each
each-Good f step [] w k all = (Keeps-refl w.txs, k)
each-Good f step (t ∷ l) w k all =
    and_then-Good w.txs (f t w) (λ _. each f l) (step t w k (all t (inl refl)))
      λ kept keyed. each-Good f step l (f t w).1 keyed λ x i. still x (all x (inr i)) kept
  where
    still : (x : Transaction) → Stands w.txs x → Keeps w.txs (f t w).1.txs → Stands (f t w).1.txs x
    still x (u, hu, eu) kept = let (u', hu', eu') = kept x.id u hu in (u', hu', eu' ∙ eu)

-- The two ways in which a refresh writes: not at all, or a change of the record's own status.
pub unchanged :
    (w : World) (out : Result TxError (Unit {0}) × World)
    → IsKeyed w.txs
    → out.1.txs ≡ w.txs
    → Good w.txs out
unchanged w out k e = subst (λ n. Keeps w.txs n × IsKeyed n) (sym e) (Keeps-refl w.txs, k)

pub mark-Good :
    (env : Env) (s : TxStatus) (t : Transaction) (w : World)
    → IsKeyed w.txs
    → Stands w.txs t
    → Good w.txs (mark env s t w)
unfolding mark
mark-Good env s t w k st = elim (Bool-cases (has_status s t)) [
  | inl same ↦ rw same (Keeps-refl w.txs, k)
  | inr other ↦ rw other (update_tx-Good (marked env s t) w k st)
]

pub settle_receipt-Good :
    (env : Env) (r : Receipt) (s : TxStatus) (t : Transaction) (w : World)
    → IsKeyed w.txs
    → Stands w.txs t
    → Good w.txs (settle_receipt env r s t w)
unfolding settle_receipt
settle_receipt-Good env r s t w k st =
    elim (Bool-cases
      (has_status s t && t.block_number == r.block_number && t.block_hash == r.block_hash)) [
        | inl same ↦ rw same (Keeps-refl w.txs, k)
        | inr other ↦ rw other (update_tx-Good (advanced env r s t) w k st)
      ]

pub handle_receipt-Good :
    (env : Env) (current confirmations : ℕ) (t : Transaction) (w : World) (r : Receipt)
    → IsKeyed w.txs
    → Stands w.txs t
    → Good w.txs (handle_receipt env t r current confirmations w)
unfolding handle_receipt
handle_receipt-Good env current confirmations t w r k st = go (is_canonical env r) refl
  where
    go :
        (c : Result TxError Bool)
        → is_canonical env r ≡ c
        → Good w.txs (handle_receipt env t r current confirmations w)
    go (err x) q = rw (q, handle_receipt) (Keeps-refl w.txs, k)
    go (ok true) q = rw (q, handle_receipt) (settle_receipt-Good env r _ t w k st)
    go (ok false) q = rw (q, handle_receipt) (mark-Good env reorged t w k st)
