-- ===== src/TxManager/Guards/Nonces.antt =====
-- server/internal/blockchain/txmanager.go: `allocateNonce` finds the least nonce above those held, and
-- `needsInterventionTx` finds a blocker exactly when there is one.
use rwa_platform_evm.Common.{
  ℕ, ◌+◌, ◌%◌, ◌≤◌, ◌<◌, ◌≡◌, ◌⊎◌, inl, inr, refl, ◌∙◌, Bool, true, false, List, [], ◌∷◌, none,
  some, if◌then◌else◌, ltb, In, arith, Bool-cases, Option-cases, keep, In-keep, keep-In,
}
use rwa_platform_evm.Common.Result.{ok}
use rwa_platform_evm.Models.Transaction.{
  Address, Transaction, needs_intervention, reorged, nonce_consumed_externally,
}
use rwa_platform_evm.Store.Transactions
use rwa_platform_evm.Store.Transactions.{TransactionStore, any_status, has_status, list_by_statuses}
use rwa_platform_evm.TxManager.Fees.{uint64_mod}
use rwa_platform_evm.TxManager.State.{Client}
use rwa_platform_evm.TxManager.Guards.{
  allocate_nonce, raise_nonce, raised, holds_nonce, is_sender, needs_intervention_tx, first_where,
  is_stuck, is_unresolved,
}

-- A record that holds its nonce for the signer.
abbrev pub Holds : Address → Transaction → Type 0
Holds from t = (is_sender from t ≡ true) × (holds_nonce t.status ≡ true)

raised-cases :
    (from : Address) (next : ℕ) (t : Transaction)
    → (raised from next t ≡ next)
      ⊎ (Holds from t × (raised from next t ≡ (t.nonce + 1) % uint64_mod))
unfolding raised
raised-cases from next t = ground arith

raised-ge : (from : Address) (next : ℕ) (t : Transaction) → next ≤ raised from next t
unfolding raised
raised-ge from next t = ground arith

raised-above :
    (from : Address) (next : ℕ) (t : Transaction)
    → Holds from t
    → t.nonce + 1 < uint64_mod
    → t.nonce < raised from next t
unfolding raised
raised-above from next t h b = ground arith

raise_nonce-ge : (from : Address) (next : ℕ) (l : List Transaction) → next ≤ raise_nonce from next l
unfolding raise_nonce
raise_nonce-ge from next [] = omega arith
raise_nonce-ge from next (t ∷ l) =
    omega (arith, raised-ge from next t, raise_nonce-ge from (raised from next t) l)

raise_nonce-above :
    (from : Address) (next : ℕ) (l : List Transaction) (t : Transaction)
    → In t l
    → Holds from t
    → t.nonce + 1 < uint64_mod
    → t.nonce < raise_nonce from next l
unfolding raise_nonce
raise_nonce-above from next [] t i h b = absurd i
raise_nonce-above from next (x ∷ l) t (inl e) h b =
    let above : t.nonce < raised from next x =
      rw e (raised-above from next x (rw (← e) h) (rw (← e) b)) in
    omega (arith, above, raise_nonce-ge from (raised from next x) l)
raise_nonce-above from next (x ∷ l) t (inr i) h b =
    raise_nonce-above from (raised from next x) l t i h b

abbrev pub Taken : Address → ℕ → List Transaction → Type 0
Taken from n l = (t : Transaction) × In t l × Holds from t × (n ≡ (t.nonce + 1) % uint64_mod)

raise_nonce-from :
    (from : Address) (next : ℕ) (l : List Transaction)
    → (raise_nonce from next l ≡ next) ⊎ Taken from (raise_nonce from next l) l
unfolding raise_nonce
raise_nonce-from from next [] = inl refl
raise_nonce-from from next (x ∷ l) =
    go (raise_nonce-from from (raised from next x) l) (raised-cases from next x)
  where
    n : ℕ
    n = raise_nonce from (raised from next x) l

    go :
        (n ≡ raised from next x) ⊎ Taken from n l
        → (raised from next x ≡ next)
          ⊎ (Holds from x × (raised from next x ≡ (x.nonce + 1) % uint64_mod))
        → (n ≡ next) ⊎ Taken from n (x ∷ l)
    go (inr (t, i, h, e)) _ = inr (t, inr i, h, e)
    go (inl e) (inl k) = inl (e ∙ k)
    go (inl e) (inr (h, k)) = inr (x, inl refl, h, e ∙ k)

-- The nonce that is allocated is not below the node's pending and mined nonces, is above that of every
-- stored transaction that holds one for the signer (unless one more would wrap at 2^64), and is no higher than these demand: it is one of
-- the node's two answers, or follows a held nonce.
pub allocate_nonce-IsLeast :
    (client : Client) (from : Address) (m : TransactionStore) (n pending latest : ℕ)
    → client.pending_nonce_at from ≡ some pending
    → client.nonce_at from ≡ some latest
    → allocate_nonce client from m ≡ ok n
    → ((pending ≤ n)
        × (latest ≤ n)
        × ((t : Transaction)
            → In t (Transactions.list m)
            → Holds from t
            → t.nonce + 1 < uint64_mod
            → t.nonce < n))
      × ((n ≡ pending) ⊎ (n ≡ latest) ⊎ Taken from n (Transactions.list m))
unfolding allocate_nonce
allocate_nonce-IsLeast client from m n pending latest hp hl h =
    let base = if ltb pending latest then latest else pending in
    let is : n ≡ raise_nonce from base (Transactions.list m) =
      cc (rw (hp, hl, allocate_nonce) at h) in
    rw is (
      (
        ground (arith, raise_nonce-ge from base (Transactions.list m)),
        ground (arith, raise_nonce-ge from base (Transactions.list m)),
        raise_nonce-above from base (Transactions.list m),
      ),
      elim (raise_nonce-from from base (Transactions.list m)) [
        | inl e ↦ ground (arith, e)
        | inr taken ↦ inr (inr taken)
      ],
    )

first_where-some :
    (p : Transaction → Bool) (l : List Transaction) (t : Transaction)
    → first_where p l ≡ some t
    → In t l × (p t ≡ true)
unfolding first_where
first_where-some p [] t h = cc
first_where-some p (x ∷ l) t h = ground (arith, first_where-some p l t)

first_where-none :
    (p : Transaction → Bool) (l : List Transaction) (t : Transaction)
    → first_where p l ≡ none
    → In t l
    → p t ≡ false
unfolding first_where
first_where-none p [] t h i = absurd i
first_where-none p (x ∷ l) t h i = ground (arith, first_where-none p l t)

stuck_listed :
    (from : Address) (t : Transaction)
    → is_stuck from t ≡ true
    → any_status (needs_intervention ∷ reorged ∷ nonce_consumed_externally ∷ []) t ≡ true
stuck_listed from t h = ground arith

unresolved_listed :
    (from : Address) (t : Transaction)
    → is_unresolved from t ≡ true
    → any_status (needs_intervention ∷ reorged ∷ nonce_consumed_externally ∷ []) t ≡ true
unresolved_listed from t h = ground arith

-- The transactions that block a signer: one that needs an operator, or one that was reorged or
-- overtaken and may not be retried.
abbrev pub IsBlocking : Address → Transaction → Type 0
IsBlocking from t = (is_stuck from t ≡ true) ⊎ (is_unresolved from t ≡ true)

abbrev listed : List Transaction → List Transaction
listed = keep (any_status (needs_intervention ∷ reorged ∷ nonce_consumed_externally ∷ []))

not_blocking :
    (p : Transaction → Bool) (l : List Transaction) (t : Transaction)
    → (p t ≡ true
        → any_status (needs_intervention ∷ reorged ∷ nonce_consumed_externally ∷ []) t ≡ true)
    → first_where p (listed l) ≡ none
    → In t l
    → p t ≡ false
not_blocking p l t incl h i = elim (Bool-cases (p t)) [
  | inl hit ↦ first_where-none p (listed l) t h (
      keep-In (any_status (needs_intervention ∷ reorged ∷ nonce_consumed_externally ∷ [])) l t i
        (incl hit))
  | inr miss ↦ miss
]

-- A blocker is found exactly if the store has one: what is found blocks the signer, and where nothing
-- is found no stored transaction does.
pub needs_intervention_tx-decides :
    (from : Address) (m : TransactionStore)
    → ((t : Transaction)
        → needs_intervention_tx from m ≡ some t
        → In t (Transactions.list m) × IsBlocking from t)
      × ((t : Transaction)
          → needs_intervention_tx from m ≡ none
          → In t (Transactions.list m)
          → (is_stuck from t ≡ false) × (is_unresolved from t ≡ false))
unfolding needs_intervention_tx list_by_statuses
needs_intervention_tx-decides from m =
    elim (Option-cases (first_where (is_stuck from) (listed l))) [
      | inr (b, e) ↦ (
        λ t h. inl_blocks t b e (rw (e, needs_intervention_tx) at h),
        λ t h _. cc (rw (e, needs_intervention_tx) at h),
      )
      | inl e ↦ (
        λ t h.
            let (i, u) =
              first_where-some (is_unresolved from) (listed l) t
                (rw (e, needs_intervention_tx) at h) in
            ((In-keep _ l t i).0, inr u),
        λ t h i. (
          not_blocking (is_stuck from) l t (stuck_listed from t) e i,
          not_blocking (is_unresolved from) l t (unresolved_listed from t)
              (rw (e, needs_intervention_tx) at h) i,
        ),
      )
    ]
  where
    l : List Transaction
    l = Transactions.list m

    inl_blocks :
        (t b : Transaction)
        → first_where (is_stuck from) (listed l) ≡ some b
        → some b ≡ some t
        → In t l × IsBlocking from t
    inl_blocks t b e q =
        let (i, u) = first_where-some (is_stuck from) (listed l) t (e ∙ q) in
        ((In-keep _ l t i).0, inl u)
