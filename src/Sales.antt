-- ===== src/Sales.antt =====
-- server/internal/sales/projector.go, over the purchases of dal/memory/purchase.go.
pub mod Rebuilt
use rwa_platform_evm.Common.{
  ℕ, Bool, List, [], ◌∷◌, if◌then◌else◌, ◌==◌, nat_eq, string_eq, keep, String,
}
use rwa_platform_evm.Models.Transaction.{Address}
use rwa_platform_evm.Models.ChainEvent.{ChainEvent, text_field}
use rwa_platform_evm.Models.Purchase.{Purchase, purchase_id_eq}
use rwa_platform_evm.Store.Chain.{EventStore}
use rwa_platform_evm.Redemption.{list_by_names}

abbrev pub purchase_of : ChainEvent → Purchase
purchase_of e = record {
  id = record { tx_hash = e.tx_hash; log_index = e.log_index };
  buyer = text_field "buyer" e;
  recipient = text_field "recipient" e;
  token_amount = text_field "tokenAmount" e;
  quote_amount = text_field "quoteAmount" e;
  tx_hash = e.tx_hash;
  block_number = e.block_number;
  created_at = e.indexed_at;
  generation = 0;
}

unfoldable pub build_purchases : List ChainEvent → List Purchase
build_purchases [] = []
build_purchases (e ∷ es) =
    let rest = build_purchases es in if e.name == "Purchased" then purchase_of e ∷ rest else rest

unfoldable pub upsert_purchase : Purchase → List Purchase → List Purchase
upsert_purchase p [] = p ∷ []
upsert_purchase p (old ∷ l) =
    let rest = upsert_purchase p l in if old.id == p.id then p ∷ l else old ∷ rest

unfoldable pub upsert_purchases : ℕ → List Purchase → List Purchase → List Purchase
unfolding upsert_purchase
upsert_purchases gen [] l = l
upsert_purchases gen (p ∷ ps) l =
    upsert_purchases gen ps (upsert_purchase (record p { generation = gen }) l)

unfoldable pub delete_stale_purchases : ℕ → List Purchase → List Purchase
delete_stale_purchases gen l = keep (λ p. p.generation == gen) l

abbrev pub vault_event_names : List String
vault_event_names =
    "Purchased" ∷ "TreasuryChanged" ∷ "StrategyChanged" ∷ "ProceedsWithdrawn"
    ∷ "MinPurchaseQuoteChanged" ∷ []

unfoldable pub reconcile_purchases : ℕ → Address → ℕ → EventStore → List Purchase → List Purchase
unfolding build_purchases upsert_purchases delete_stale_purchases list_by_names
reconcile_purchases chain vault gen events l =
    delete_stale_purchases gen (
      upsert_purchases gen (build_purchases (list_by_names chain vault vault_event_names events)) l)
