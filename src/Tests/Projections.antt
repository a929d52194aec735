-- ===== src/Tests/Projections.antt =====
-- server/internal/redemption: concrete runs.
use rwa_platform_evm.Common.{
  ℕ, String, List, [], ◌∷◌, none, some, ◌≡◌, ◌≢◌, ◌↔◌, ◌⊎◌, refl, true, false, sort, ◌≤◌, ◌+◌,
  string_eq, nat_eq, arith,
}
use mathlib.Core.List.{Permᴰ}
use rwa_platform_evm.Common.{inl, inr, sym, ap, ◌∙◌}
use rwa_platform_evm.Redemption.Orders.{IsPlaced, build_states-perm}
use rwa_platform_evm.Common.Dict.{lookup, insert, IsMap}
use rwa_platform_evm.Models.ChainEvent.{
  ChainEvent, Value, text as field_text, int64, event_key, key_eq,
}
use rwa_platform_evm.Models.Redemption.{RedemptionRequest, funded}
use rwa_platform_evm.Store.Chain.{EventStore}
use rwa_platform_evm.Redemption.{
  apply_event, kind_of, requested, States, build_states, claimable, reconcile, list_by_names,
  event_names,
}
use rwa_platform_evm.Redemption.Lifecycle.{status_of, Derives, build_states-Refines}
use rwa_platform_evm.Redemption.Places.{IsInOrder}
use rwa_platform_evm.Redemption.Projection.{
  IsConsistent, build_states-IsConsistent, claimable-decides,
}
use rwa_platform_evm.Redemption.Rebuild.{stamped, IsFresh, reconcile-Rebuilds}

abbrev pub event_at : String → ℕ → ℕ → List (String × Value) → ChainEvent
event_at name block hash fields = record {
  chain_id = 1;
  address = 70;
  tx_hash = hash;
  log_index = 0;
  block_number = block;
  block_hash = 500;
  name = name;
  fields = fields;
  is_removed = false;
  indexed_at = 900;
}

abbrev pub asked : ChainEvent
asked =
    event_at "RedemptionRequested" 10 3
      (("id", field_text "7") ∷ ("rwaAmount", field_text "25") ∷ ("createdAt", int64 100) ∷ [])

abbrev paid : ChainEvent
paid = event_at "RedemptionFunded" 12 4 (("id", field_text "7") ∷ [])

-- The funding comes first in the list, and later on the chain.
abbrev samples : List ChainEvent
samples = paid ∷ asked ∷ []

abbrev pub sample_events : EventStore
sample_events = (event_key paid, paid) ∷ (event_key asked, asked) ∷ []

build_states-Refines_example :
    (sorted : List ChainEvent) × Permᴰ samples sorted
    × IsInOrder sorted
    × Derives sorted "7" (lookup "7" (build_states 50 900 samples))
build_states-Refines_example = build_states-Refines 50 900 samples "7"

funded_at_last : status_of (lookup "7" (build_states 50 900 samples)) ≡ some funded
unfolding build_states sort lookup insert apply_event kind_of requested
funded_at_last = refl

build_states-IsConsistent_example : IsConsistent 50 (lookup "7" (build_states 50 900 samples))
build_states-IsConsistent_example = build_states-IsConsistent 50 900 samples "7"

abbrev sample_request : RedemptionRequest
sample_request = record {
  id = "7";
  beneficiary = "0xb";
  rwa_amount = "25";
  quote_amount = "";
  status = funded;
  created_at = 100;
  timeout_at = 150;
  reason_code = "";
  request_tx_hash = some 3;
  fund_tx_hash = some 4;
  funded_at_block = 12;
  funded_at = 900;
  claim_tx_hash = none;
  updated_at = 900;
  generation = 1;
}

claimable-decides_example : (claimable sample_request 20 6 ≡ true) ↔ (
    (sample_request.status ≡ funded)
    × ((◌≡◌ {A = ℕ} 6 0) ⊎ ((sample_request.funded_at_block ≢ 0) × (12 + 6 ≤ 20))))
claimable-decides_example = claimable-decides sample_request 20 6

-- A read model with one stale row.
abbrev stale : States
stale = ("8", sample_request) ∷ []

stale-IsMap : IsMap stale
unfolding lookup
stale-IsMap = (refl, tt)

stale-IsFresh : IsFresh 2 stale
unfolding lookup
stale-IsFresh id r h = ground arith

reconcile-Rebuilds_example :
    lookup "8" (reconcile 1 70 50 900 2 sample_events stale)
    ≡ stamped 2 (lookup "8" (build_states 50 900 (list_by_names 1 70 event_names sample_events)))
reconcile-Rebuilds_example =
    reconcile-Rebuilds 1 70 50 900 2 sample_events stale stale-IsMap stale-IsFresh "8"

paid_later : ◌≢◌ {A = ℕ} 12 10
paid_later e = omega (arith, e)

samples-IsPlaced : IsPlaced samples
samples-IsPlaced a b (inl p) (inl q) h k = p ∙ sym q
samples-IsPlaced a b (inl p) (inr (inl q)) h k = absurd (
    paid_later (
      sym (ap (λ (e : ChainEvent). e.block_number) p)
      ∙ h
      ∙ ap (λ (e : ChainEvent). e.block_number) q))
samples-IsPlaced a b (inr (inl p)) (inl q) h k = absurd (
    paid_later (
      sym (ap (λ (e : ChainEvent). e.block_number) q)
      ∙ sym h
      ∙ ap (λ (e : ChainEvent). e.block_number) p))
samples-IsPlaced a b (inr (inl p)) (inr (inl q)) h k = p ∙ sym q
samples-IsPlaced a b (inl p) (inr (inr i)) h k = absurd i
samples-IsPlaced a b (inr (inl p)) (inr (inr i)) h k = absurd i
samples-IsPlaced a b (inr (inr i)) j h k = absurd i

build_states-perm_example : build_states 50 900 samples ≡ build_states 50 900 (asked ∷ paid ∷ [])
build_states-perm_example =
    build_states-perm 50 900 samples (asked ∷ paid ∷ []) samples-IsPlaced ∣ Permᴰ.swap refl refl ∣₁
