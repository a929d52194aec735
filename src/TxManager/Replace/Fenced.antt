-- ===== src/TxManager/Replace/Fenced.antt =====
-- server/internal/blockchain/txmanager.go: what `Replace` leaves of the original and the replacement.
use rwa_platform_evm.Common.{
  ℕ, true, false, ◌∷◌, ◌+◌, Option, none, some, ◌==◌, string_eq, nat_eq, ◌≡◌, ◌≢◌, refl, ◌⊎◌, inl,
  inr, arith, Bool-cases, Option-cases, ◌∙◌, nat_beq_iff, sym, ap,
}
use rwa_platform_evm.Common.Dict.{lookup, insert, lookup-insert_other, lookup-insert_self}
use rwa_platform_evm.Common.Result.{Result, ok, err}
use rwa_platform_evm.Models.Transaction.{Transaction, pending, failed}
use rwa_platform_evm.Store.Transactions
use rwa_platform_evm.Store.Transactions.{RepoError, not_found, TransactionStore}
use rwa_platform_evm.Store.Transactions.Writes.{update-found, create-ok}
use rwa_platform_evm.TxManager.State.{
  SignedTx, SendError, TxError, outcome_unknown, rejected, concurrently_modified,
}
use rwa_platform_evm.TxManager.Monad.{World, Env, create_tx, update_tx, try_update_tx, send}
use rwa_platform_evm.TxManager.Guards.{is_ambiguous_broadcast}
use rwa_platform_evm.TxManager.Refresh.{marked}
use rwa_platform_evm.TxManager.Replace.{
  displaced, restored, settle_replacement, linked_then_sent, store_and_replace,
  try_update_conditional,
}

abbrev linked_old : Env → Transaction → Transaction → Transaction
linked_old env old new = record (displaced env old new) { version = old.version + 1 }

abbrev restored_old : Env → Transaction → Transaction → Transaction
restored_old env old new = record (restored env old new) { version = old.version + 1 + 1 }

-- The three ways a broadcast replacement ends, and what is then on record.
abbrev pub Outcome : Env → Transaction → Transaction → Result TxError Transaction × World → Type 0
Outcome env old new (r, w) =
    ((r ≡ ok (marked env pending new))
      × (lookup new.id w.txs ≡ some (marked env pending new))
      × (lookup old.id w.txs ≡ some (linked_old env old new)))
    ⊎ ((r ≡ err outcome_unknown)
        × (lookup new.id w.txs ≡ some new)
        × (lookup old.id w.txs ≡ some (linked_old env old new)))
    ⊎ ((r ≡ err rejected)
        × (lookup new.id w.txs ≡ some (marked env failed new))
        × (lookup old.id w.txs ≡ some (restored_old env old new)))

try_update_conditional-lem :
    (tx old : Transaction) (expected : ℕ) (w : World)
    → lookup tx.id w.txs ≡ some old
    → old.version ≡ expected
    → try_update_conditional tx expected w
      ≡ record w { txs = insert tx.id (record tx { version = expected + 1 }) w.txs }
unfolding try_update_conditional Transactions.update_conditional
try_update_conditional-lem tx old expected w h v = ground (arith, nat_beq_iff old.version expected)

try_update_tx-lem :
    (tx old : Transaction) (w : World)
    → lookup tx.id w.txs ≡ some old
    → try_update_tx tx w ≡ record w { txs = insert tx.id tx w.txs }
unfolding try_update_tx
try_update_tx-lem tx old w h = rw (update-found tx old w.txs h) refl

settle_replacement-Outcome :
    (env : Env) (old new : Transaction) (answer : Option SendError) (w : World)
    → new.id ≢ old.id
    → lookup new.id w.txs ≡ some new
    → lookup old.id w.txs ≡ some (linked_old env old new)
    → ((settle_replacement env old new answer w).1.sent ≡ w.sent)
      × Outcome env old new (settle_replacement env old new answer w)
unfolding settle_replacement update_tx try_update_tx try_update_conditional
    Transactions.update_conditional
settle_replacement-Outcome env old new none w d n o =
    rw (update-found (marked env pending new) new w.txs n) (
      refl,
      inl (
        refl,
        lookup-insert_self new.id _ w.txs,
        lookup-insert_other new.id old.id _ w.txs d ∙ o,
      ),
    )
settle_replacement-Outcome env old new (some e) w d n o =
    elim (Bool-cases (is_ambiguous_broadcast e)) [
      | inl q ↦ rw q (refl, inr (inl (refl, n, o)))
      | inr q ↦
          let written = lookup-insert_other new.id old.id (marked env failed new) w.txs d in
          rw
            (
              q,
              try_update_tx-lem (marked env failed new) new w n,
              try_update_conditional-lem (restored env old new) (linked_old env old new)
                  (old.version + 1) (record w { txs = insert new.id (marked env failed new) w.txs })
                  (written ∙ o) refl,
            )
            (
              refl,
              inr (
                  inr (
                    refl,
                    (lookup-insert_other old.id new.id _ _ (λ e. d (sym e))
                        ∙ lookup-insert_self new.id _ w.txs),
                    lookup-insert_self old.id _ _,
                  )),
            )
    ]

-- Where somebody else has changed the original meanwhile, the replacement is marked failed.
abbrev pub Conflicted :
    Env → Transaction → Transaction → World → Result TxError Transaction × World → Type 0
Conflicted env old new w (r, v) =
    (r ≡ err concurrently_modified)
    × (v.sent ≡ w.sent)
    × (lookup new.id v.txs ≡ some (marked env failed new))
    × (lookup old.id v.txs ≡ lookup old.id w.txs)
    × ((t : Transaction) → lookup old.id w.txs ≡ some t → t.version ≢ old.version)

-- A repository error before anything is sent.
abbrev pub Refused : World → Result TxError Transaction × World → Type 0
Refused w (r, v) = (v.sent ≡ w.sent) × ((e : RepoError) × (r ≡ err (TxError.store e)))

abbrev pub Fenced :
    Env → Transaction → Transaction → SignedTx → World → Result TxError Transaction × World → Type 0
Fenced env old new s w out =
    ((out.1.sent ≡ s ∷ w.sent)
      × ((t : Transaction) × (lookup old.id w.txs ≡ some t) × (t.version ≡ old.version))
      × Outcome env old new out)
    ⊎ Conflicted env old new w out
    ⊎ Refused w out

-- What `update_conditional` answers, with what it says of the original.
update_conditional-lem :
    (tx : Transaction) (expected : ℕ) (m : TransactionStore)
    → ((t : Transaction) × (lookup tx.id m ≡ some t)
        × (t.version ≡ expected)
        × (Transactions.update_conditional tx expected m
            ≡ ok (true, insert tx.id (record tx { version = expected + 1 }) m)))
      ⊎ ((t : Transaction) × (lookup tx.id m ≡ some t)
          × (t.version ≢ expected)
          × (Transactions.update_conditional tx expected m ≡ ok (false, m)))
      ⊎ ((e : RepoError) × (Transactions.update_conditional tx expected m ≡ err e))
unfolding Transactions.update_conditional
update_conditional-lem tx expected m = elim (Option-cases (lookup tx.id m)) [
  | inl n ↦ rw (n, Transactions.update_conditional) (inr (inr (not_found, refl)))
  | inr (t, q) ↦ elim (Bool-cases (t.version == expected)) [
    | inl y ↦
        rw (q, y, Transactions.update_conditional)
          (inl (t, refl, (nat_beq_iff t.version expected).0 y, refl))
    | inr x ↦
        rw (q, x, Transactions.update_conditional)
          (inr (inl (t, refl, ground (arith, nat_beq_iff t.version expected), refl)))
  ]
]

linked_then_sent-Fenced :
    (env : Env) (old new : Transaction) (s : SignedTx) (w : World)
    → new.id ≢ old.id
    → lookup new.id w.txs ≡ some new
    → Fenced env old new s w (
        linked_then_sent env old new s
          (Transactions.update_conditional (displaced env old new) old.version w.txs)
          w)
unfolding linked_then_sent send
linked_then_sent-Fenced env old new s w d n =
    elim (update_conditional-lem (displaced env old new) old.version w.txs) [
      | inl (t, q, v, u) ↦
          let linked = insert old.id (linked_old env old new) w.txs in
          let after =
            settle_replacement-Outcome env old new (env.client.send_transaction s)
              (record w { txs = linked; sent = s ∷ w.sent }) d
              (lookup-insert_other old.id new.id _ w.txs (λ e. d (sym e)) ∙ n)
              (lookup-insert_self old.id _ w.txs) in
          rw u (inl (after.0, (t, q, v), after.1))
      | inr (inl (t, q, v, u)) ↦
          rw (u, try_update_tx-lem (marked env failed new) new w n)
            (inr (
              inl (
                refl,
                refl,
                lookup-insert_self new.id _ w.txs,
                lookup-insert_other new.id old.id _ w.txs d,
                (λ t' q' e. v (cc)),
              )))
      | inr (inr (e, u)) ↦ rw u (inr (inr (refl, (e, refl))))
    ]

-- The state before counts only by the original's record and by what was sent.
Fenced-before :
    (env : Env) (old new : Transaction) (s : SignedTx) (w w' : World)
    (out : Result TxError Transaction × World)
    → w'.sent ≡ w.sent
    → lookup old.id w'.txs ≡ lookup old.id w.txs
    → Fenced env old new s w' out
    → Fenced env old new s w out
Fenced-before env old new s w w' (r, v) a b (inl (x, (t, q, z), o)) =
    inl (x ∙ ap (◌∷◌ s) a, (t, sym b ∙ q, z), o)
Fenced-before env old new s w w' (r, v) a b (inr (inl (x, y, z, q, k))) =
    inr (inl (x, y ∙ a, z, q ∙ b, (λ t e. k t (b ∙ e))))
Fenced-before env old new s w w' (r, v) a b (inr (inr (x, y))) = inr (inr (x ∙ a, y))

-- A replacement with an ID of its own is sent only if the original is at the version that was read, and then both records say how it
-- went: pending with the original linked to it, unknown with the original linked to it, or failed with
-- the original pending again. Where the original was changed meanwhile nothing is sent, the replacement
-- is marked failed and the original is left alone; and a repository error sends nothing.
pub store_and_replace-Fenced :
    (env : Env) (old new : Transaction) (s : SignedTx) (w : World)
    → new.id ≢ old.id
    → Fenced env old new s w (store_and_replace env old new s w)
unfolding store_and_replace create_tx
store_and_replace-Fenced env old new s w d = stored_first (Transactions.create new w.txs) refl
  where
    stored_first :
        (r : Result RepoError TransactionStore)
        → Transactions.create new w.txs ≡ r
        → Fenced env old new s w (store_and_replace env old new s w)
    stored_first (err e) q = rw (q, store_and_replace, create_tx) (inr (inr (refl, (e, refl))))
    stored_first (ok m) q =
        let same = (create-ok new w.txs m q).1 in
        rw (q, store_and_replace, create_tx)
          (Fenced-before env old new s w (record w { txs = m })
            (linked_then_sent env old new s
              (Transactions.update_conditional (displaced env old new) old.version m)
              (record w { txs = m }))
            refl (ap (lookup old.id) same ∙ lookup-insert_other new.id old.id new w.txs d)
            (linked_then_sent-Fenced env old new s (record w { txs = m }) d
              (ap (lookup new.id) same ∙ lookup-insert_self new.id new w.txs)))
