-- ===== src/Income/Snapshot/Allotment.antt =====
-- server/internal/income/snapshot.go: `ComputeEntitlements` from the events to the entries.
use rwa_platform_evm.Common.{ℕ, String, false, Option, In, ◌≡◌, subst, sym}
use rwa_platform_evm.Common.Int.{pos}
use rwa_platform_evm.Common.Result.{ok, ◌>>=◌}
use rwa_platform_evm.Models.Transaction.{Address}
use rwa_platform_evm.Models.ChainEvent.{ChainEvent, text_field}
use rwa_platform_evm.Income.Snapshot.{
  Entitlement, Entitlements, EntitlementInput, Replay, check_supply_of, attributed, distribute,
  compute_entitlements, is_house,
}
use rwa_platform_evm.Income.Snapshot.Shares.{IsFair}
use rwa_platform_evm.Income.Snapshot.Holders.{
  IsCredit, Allots, after-Allots, checked-Sound, paid-Allots, attributed-Sound,
}

-- The entitlements that `ComputeEntitlements` returns split the total fairly. Each entry has a natural
-- balance, and of the total the part that its balance is of the eligible supply, rounded down, which is
-- not zero; what is distributed is the sum of the entries, and at most the total. The vault, the escrow
-- and the zero address have no entry. The total is not negative, and no redemption event has a negative
-- amount.
pub compute_entitlements-Allots :
    (address_of : String → Option Address) (inp : EntitlementInput) (now total : ℕ)
    (out : Entitlements)
    → inp.total ≡ pos total
    → ((e : ChainEvent) → In e inp.redemption_events → IsCredit (text_field "rwaAmount" e))
    → compute_entitlements address_of inp now ≡ ok out
    → IsFair total out × ((e : Entitlement) → In e out.entries → is_house inp e.account ≡ false)
unfolding compute_entitlements
compute_entitlements-Allots address_of inp now total out t c e = subst (Allots inp total) e (
    after-Allots inp total _ _ (λ (s : Replay).
      subst
        (λ x. Allots inp total (
          check_supply_of inp s.supply
          >>= (λ want. attributed address_of inp now s.balances)
          >>= λ m. distribute x m))
        (sym t)
        (paid-Allots inp total _ (
          checked-Sound inp (check_supply_of inp s.supply) _
            (λ want. attributed-Sound inp address_of now s.balances c)))))
