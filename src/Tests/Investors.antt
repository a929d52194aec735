-- ===== src/Tests/Investors.antt =====
-- server/internal/compliance/projector.go: a concrete run.
use rwa_platform_evm.Common.{[], ◌∷◌, none, ◌≡◌, refl, true, false, sort, string_eq}
use rwa_platform_evm.Common.Dict.{lookup}
use rwa_platform_evm.Common.Rows.{AreRows}
use rwa_platform_evm.Models.ChainEvent.{ChainEvent, text, uint8, uint64, in_order, event_key}
use rwa_platform_evm.Models.Investor.{allowed, blocked}
use rwa_platform_evm.Store.Chain.{EventStore, list_by_name}
use rwa_platform_evm.Compliance.{Investors, reconcile_investors}
use rwa_platform_evm.Compliance.Latest.{latest}
use rwa_platform_evm.Compliance.Upserts.{view, expected, address_of}
use rwa_platform_evm.Compliance.Mirrors.{reconcile_investors-mirrors}

abbrev allowing : ChainEvent
allowing = record {
  chain_id = 1;
  address = 70;
  tx_hash = 3;
  log_index = 0;
  block_number = 10;
  block_hash = 500;
  name = "StatusChanged";
  fields = ("account", text "0xa") ∷ ("newStatus", uint8 1) ∷ ("newValidUntil", uint64 900) ∷ [];
  is_removed = false;
  indexed_at = 900;
}

abbrev sample_events : EventStore
sample_events = (event_key allowing, allowing) ∷ []

-- The first row is allowed by the event; nothing backs the second one any more.
abbrev sample_investors : Investors
sample_investors =
    (
      "0xa",
      record {
        address = "0xa";
        status = blocked;
        valid_until = 5;
        is_ownership_verified = true;
        created_at = 1;
        updated_at = 2;
      },
    )
    ∷ (
      "0xb",
      record {
        address = "0xb";
        status = allowed;
        valid_until = 5;
        is_ownership_verified = true;
        created_at = 1;
        updated_at = 2;
      },
    )
    ∷ []

sample_investors-AreRows : AreRows address_of sample_investors
unfolding lookup
sample_investors-AreRows = (refl, refl, (refl, refl, tt))

reconcile_investors-mirrors_example :
    view (lookup "0xb" (reconcile_investors 1 70 950 sample_events sample_investors))
    ≡ expected
        (lookup "0xb" sample_investors)
        (latest "0xb" none (sort in_order (list_by_name 1 70 "StatusChanged" sample_events)))
reconcile_investors-mirrors_example =
    reconcile_investors-mirrors 1 70 950 sample_events sample_investors "0xb"
      sample_investors-AreRows (λ e. cc)
