-- ===== src/Sales/Rebuilt.antt =====
-- server/internal/sales/projector.go: the purchases are those of the stored events.
use rwa_platform_evm.Common.{
  ℕ, true, List, [], ◌∷◌, ◌==◌, nat_eq, nat_beq_iff, string_eq, ◌≡◌, ◌≢◌, ◌⊎◌, inl, inr, refl,
  arith, In, In-keep, keep-In, Bool-cases, sym, ap, ◌∙◌,
}
use rwa_platform_evm.Models.Transaction.{Address}
use rwa_platform_evm.Models.ChainEvent.{ChainEvent}
use rwa_platform_evm.Models.Purchase.{Purchase, PurchaseId, purchase_id_eq}
use rwa_platform_evm.Store.Chain.{EventStore}
use rwa_platform_evm.Redemption.{list_by_names}
use rwa_platform_evm.Sales.{
  purchase_of, build_purchases, upsert_purchase, upsert_purchases, delete_stale_purchases,
  vault_event_names, reconcile_purchases,
}

abbrev pub stamped_purchase : ℕ → Purchase → Purchase
stamped_purchase gen p = record p { generation = gen }

In-build_purchases :
    (es : List ChainEvent) (p : Purchase)
    → In p (build_purchases es)
    → (e : ChainEvent) × In e es × (e.name ≡ "Purchased") × (p ≡ purchase_of e)
unfolding build_purchases
In-build_purchases [] p i = absurd i
In-build_purchases (e ∷ es) p i = elim (Bool-cases (e.name == "Purchased")) [
  | inl y ↦
      let here = (rw y at i) in
      elim here [
        | inl same ↦ (e, inl refl, (string_eq.beq_iff e.name "Purchased").0 y, same)
        | inr j ↦ let (x, k, n, q) = In-build_purchases es p j in (x, inr k, n, q)
      ]
  | inr n ↦ let (x, k, m, q) = In-build_purchases es p (rw n at i) in (x, inr k, m, q)
]

build_purchases-In :
    (es : List ChainEvent) (e : ChainEvent)
    → In e es
    → e.name ≡ "Purchased"
    → In (purchase_of e) (build_purchases es)
unfolding build_purchases
build_purchases-In [] e i n = absurd i
build_purchases-In (x ∷ es) e (inl same) n =
    let named : (x.name == "Purchased") ≡ true =
      (string_eq.beq_iff x.name "Purchased").1 (ap (λ (v : ChainEvent). v.name) (sym same) ∙ n) in
    rw named (inl (ap purchase_of same))
build_purchases-In (x ∷ es) e (inr i) n = elim (Bool-cases (x.name == "Purchased")) [
  | inl y ↦ rw y (inr (build_purchases-In es e i n))
  | inr f ↦ rw f (build_purchases-In es e i n)
]

In-upsert_purchase :
    (p q : Purchase) (l : List Purchase) → In q (upsert_purchase p l) → (q ≡ p) ⊎ In q l
unfolding upsert_purchase
In-upsert_purchase p q [] i = i
In-upsert_purchase p q (old ∷ l) i = ground (arith, In-upsert_purchase p q l)

-- Every row is an upserted one, or one that was there.
In-upsert_purchases :
    (gen : ℕ) (ps l : List Purchase) (q : Purchase)
    → In q (upsert_purchases gen ps l)
    → ((p : Purchase) × In p ps × (q ≡ stamped_purchase gen p)) ⊎ In q l
unfolding upsert_purchases
In-upsert_purchases gen [] l q i = inr i
In-upsert_purchases gen (p ∷ ps) l q i =
    elim (In-upsert_purchases gen ps (upsert_purchase (stamped_purchase gen p) l) q i) [
      | inl (x, j, e) ↦ inl (x, inr j, e)
      | inr j ↦ elim (In-upsert_purchase (stamped_purchase gen p) q l j) [
        | inl e ↦ inl (p, inl refl, e)
        | inr k ↦ inr k
      ]
    ]

-- A row with an ID and the generation.
abbrev pub Listed : ℕ → PurchaseId → List Purchase → Type 0
Listed gen id l = (q : Purchase) × In q l × (q.id ≡ id) × (q.generation ≡ gen)

upsert-Listed :
    (gen : ℕ) (id : PurchaseId) (p : Purchase) (l : List Purchase)
    → p.generation ≡ gen
    → ((p.id ≡ id) ⊎ Listed gen id l)
    → Listed gen id (upsert_purchase p l)
unfolding upsert_purchase
upsert-Listed gen id p [] g (inl e) = (p, inl refl, e, g)
upsert-Listed gen id p [] g (inr (q, i, own, gq)) = absurd i
upsert-Listed gen id p (old ∷ l) g h = elim (Bool-cases (old.id == p.id)) [
  | inl y ↦ rw y (elim h [
    | inl e ↦ (p, inl refl, e, g)
    | inr (q, inl e, own, gq) ↦
        let same : old.id ≡ p.id = (purchase_id_eq.beq_iff old.id p.id).0 y in
        (p, inl refl, sym same ∙ ap (λ (v : Purchase). v.id) (sym e) ∙ own, g)
    | inr (q, inr i, own, gq) ↦ (q, inr i, own, gq)
  ])
  | inr n ↦ rw n (elim h [
    | inl e ↦ let (q, i, own, gq) = upsert-Listed gen id p l g (inl e) in (q, inr i, own, gq)
    | inr (q, inl e, own, gq) ↦ (q, inl e, own, gq)
    | inr (q, inr i, own, gq) ↦
        let (x, j, o, k) = upsert-Listed gen id p l g (inr (q, i, own, gq)) in (x, inr j, o, k)
  ])
]

upsert_purchases-Listed :
    (gen : ℕ) (id : PurchaseId) (ps l : List Purchase)
    → ((p : Purchase) × In p ps × (p.id ≡ id)) ⊎ Listed gen id l
    → Listed gen id (upsert_purchases gen ps l)
unfolding upsert_purchases
upsert_purchases-Listed gen id [] l (inl (p, i, e)) = absurd i
upsert_purchases-Listed gen id [] l (inr h) = h
upsert_purchases-Listed gen id (p ∷ ps) l h =
    upsert_purchases-Listed gen id ps (upsert_purchase (stamped_purchase gen p) l) (elim h [
      | inl (x, inl same, e) ↦ inr (
          upsert-Listed gen id (stamped_purchase gen p) l refl
            (inl (ap (λ (v : Purchase). v.id) (sym same) ∙ e)))
      | inl (x, inr i, e) ↦ inl (x, i, e)
      | inr k ↦ inr (upsert-Listed gen id (stamped_purchase gen p) l refl (inr k))
    ])

-- `Reconcile` makes the purchases those of the stored `Purchased` events of the vault, whatever was
-- listed before: every row left is one of these events, stamped with the rebuild's generation, and every
-- one of the events has a row under its ID. No row has that generation yet.
pub reconcile_purchases-rebuilds :
    (chain : ℕ) (vault : Address) (gen : ℕ) (events : EventStore) (l : List Purchase)
    → ((q : Purchase) → In q l → q.generation ≢ gen)
    → ((q : Purchase)
        → In q (reconcile_purchases chain vault gen events l)
        → (e : ChainEvent) × In e (list_by_names chain vault vault_event_names events)
          × (e.name ≡ "Purchased")
          × (q ≡ stamped_purchase gen (purchase_of e)))
      × ((e : ChainEvent)
          → In e (list_by_names chain vault vault_event_names events)
          → e.name ≡ "Purchased"
          → Listed gen ((purchase_of e).id) (reconcile_purchases chain vault gen events l))
unfolding reconcile_purchases delete_stale_purchases
reconcile_purchases-rebuilds chain vault gen events l fresh =
    let es = list_by_names chain vault vault_event_names events in
    let all = upsert_purchases gen (build_purchases es) l in
    (
      (λ q i.
          let (j, stamp) = In-keep (λ p. p.generation == gen) all q i in
          elim (In-upsert_purchases gen (build_purchases es) l q j) [
            | inl (p, k, e) ↦
                let (x, at, n, from) = In-build_purchases es p k in
                (x, at, n, e ∙ ap (stamped_purchase gen) from)
            | inr k ↦ absurd (fresh q k ((nat_beq_iff q.generation gen).0 stamp))
          ]),
      (λ e i n.
          let (q, j, own, g) =
            upsert_purchases-Listed gen ((purchase_of e).id) (build_purchases es) l
              (inl (purchase_of e, build_purchases-In es e i n, refl)) in
          (
            q,
            keep-In (λ p. p.generation == gen) all q j ((nat_beq_iff q.generation gen).1 g),
            own,
            g,
          )),
    )
