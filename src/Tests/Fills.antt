-- ===== src/Tests/Fills.antt =====
-- server/internal/sales/projector.go: a concrete run.
use rwa_platform_evm.Common.{List, [], ◌∷◌, ◌≡◌, ◌≢◌, inl, inr, In, string_eq, nat_eq, arith}
use rwa_platform_evm.Models.ChainEvent.{ChainEvent, text as field_text, event_key}
use rwa_platform_evm.Models.Purchase.{Purchase}
use rwa_platform_evm.Store.Chain.{EventStore}
use rwa_platform_evm.Redemption.{list_by_names}
use rwa_platform_evm.Sales.{purchase_of, vault_event_names, reconcile_purchases}
use rwa_platform_evm.Sales.Rebuilt.{stamped_purchase, Listed, reconcile_purchases-rebuilds}
use rwa_platform_evm.Tests.Projections.{event_at}

abbrev fill : ChainEvent
fill =
    event_at "Purchased" 10 3 (("buyer", field_text "0xa") ∷ ("tokenAmount", field_text "5") ∷ [])

abbrev sample_fills : EventStore
sample_fills = (event_key fill, fill) ∷ []

-- A row that nothing backs, of an older rebuild.
abbrev old_rows : List Purchase
old_rows =
    record (purchase_of fill) { id = record { tx_hash = 9; log_index = 0 }; generation = 1 } ∷ []

old_rows-fresh : (q : Purchase) → In q old_rows → q.generation ≢ 2
old_rows-fresh q (inl e) h = ground arith
old_rows-fresh q (inr i) h = absurd i

reconcile_purchases-rebuilds_example :
    ((q : Purchase)
      → In q (reconcile_purchases 1 70 2 sample_fills old_rows)
      → (e : ChainEvent) × In e (list_by_names 1 70 vault_event_names sample_fills)
        × (e.name ≡ "Purchased")
        × (q ≡ stamped_purchase 2 (purchase_of e)))
    × ((e : ChainEvent)
        → In e (list_by_names 1 70 vault_event_names sample_fills)
        → e.name ≡ "Purchased"
        → Listed 2 ((purchase_of e).id) (reconcile_purchases 1 70 2 sample_fills old_rows))
reconcile_purchases-rebuilds_example =
    reconcile_purchases-rebuilds 1 70 2 sample_fills old_rows old_rows-fresh
