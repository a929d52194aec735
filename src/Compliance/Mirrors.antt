-- ===== src/Compliance/Mirrors.antt =====
-- server/internal/compliance/projector.go: what `Reconcile` leaves of each investor.
use rwa_platform_evm.Common.{
  ℕ, String, List, [], ◌∷◌, map, Option, none, some, string_eq, nat_eq, ◌≡◌, ◌≢◌, inl, inr, refl,
  sym, sort, ◌∙◌, ap, In, In-sort, sort-In, Option-cases,
}
use rwa_platform_evm.Common.Dict.{lookup, IsMap}
use rwa_platform_evm.Common.Rows.{AreRows, lookup-key_of, lookup-row, row-In}
use rwa_platform_evm.Models.Transaction.{Address}
use rwa_platform_evm.Models.ChainEvent.{in_order}
use rwa_platform_evm.Models.Investor.{Investor}
use rwa_platform_evm.Store.Chain.{EventStore, list_by_name}
use rwa_platform_evm.Compliance.{
  Standing, Standings, Investors, build_statuses, address_order, list_investors, with_standing,
  upsert_standings, reconcile_states, reconcile_investors,
}
use rwa_platform_evm.Compliance.Latest.{latest, build_statuses-latest, build_statuses-IsMap}
use rwa_platform_evm.Compliance.Upserts.{
  view, expected, address_of, upserted, lookup-upsert_standings, upsert_standings-AreRows,
}
use rwa_platform_evm.Compliance.Resets.{
  IsOf, reset_orphans-Stays, HasAddress, Due, reset_orphans-Cleared,
}

rows-IsOf :
    (m0 : Investors) (ts : List Investor)
    → ((t : Investor) → In t ts → lookup t.address m0 ≡ some t)
    → IsOf m0 ts
rows-IsOf m0 [] f = tt
rows-IsOf m0 (t ∷ ts) f = (f t (inl refl), rows-IsOf m0 ts (λ x i. f x (inr i)))

In-HasAddress :
    (account : String) (ts : List Investor) (t : Investor)
    → t.address ≡ account
    → In t ts
    → HasAddress account ts
In-HasAddress account [] t e i = i
In-HasAddress account (x ∷ ts) t e (inl same) = inl (ap address_of (sym same) ∙ e)
In-HasAddress account (x ∷ ts) t e (inr i) = inr (In-HasAddress account ts t e i)

list_investors-IsOf : (m : Investors) → AreRows address_of m → IsOf m (list_investors m)
unfolding list_investors
list_investors-IsOf m h =
    rows-IsOf m (sort address_order (map (λ e. e.1) m))
      (λ t i. lookup-row address_of m t h (In-sort address_order (map (λ e. e.1) m) t i))

list_investors-Due :
    (account : String) (m : Investors) → AreRows address_of m → Due account (list_investors m) m m
unfolding list_investors
list_investors-Due account m h = elim (Option-cases (lookup account m)) [
  | inl n ↦ inl (ap view n ∙ ap (λ o. expected o none) (sym n))
  | inr (t, e) ↦ inr (
    refl,
    In-HasAddress account (sort address_order (map (λ e. e.1) m)) t
        (lookup-key_of address_of m account t h e)
        (sort-In address_order (map (λ e. e.1) m) t (row-In address_of m account t e)),
  )
]

view-with_standing :
    (now : ℕ) (account : String) (s : Standing) (o : Option Investor)
    → view (some (with_standing now account s o)) ≡ expected o (some s)
unfolding with_standing
view-with_standing now account s none = refl
view-with_standing now account s (some old) = refl

reconcile_states-expected :
    (now : ℕ) (states : Standings) (m : Investors) (account : String) (o : Option Standing)
    → AreRows address_of m
    → IsMap states
    → lookup account states ≡ o
    → view (lookup account (reconcile_states now states m)) ≡ expected (lookup account m) o
unfolding reconcile_states
reconcile_states-expected now states m account none h k e =
    let m0 = upsert_standings now states m in
    let rows = upsert_standings-AreRows now states m h in
    reset_orphans-Cleared now states account (list_investors m0) m0 m0 e
      (list_investors-IsOf m0 rows) (list_investors-Due account m0 rows)
    ∙ ap (λ x. expected x none)
        (lookup-upsert_standings now account states m k
          ∙ ap (λ x. upserted now account x (lookup account m)) e)
reconcile_states-expected now states m account (some s) h k e =
    let m0 = upsert_standings now states m in
    ap view (
      reset_orphans-Stays now states account s (list_investors m0) m0 m0 e refl
      ∙ lookup-upsert_standings now account states m k
      ∙ ap (λ x. upserted now account x (lookup account m)) e)
    ∙ view-with_standing now account s (lookup account m)

-- After `Reconcile` an account's status and validity are those of its latest status change on the chain,
-- in the order of block and log index; where there is none, a row that was there is Unknown and valid
-- until 0, and no row is made. That ownership is verified stays as it was. Each row is stored under its
-- own address, and the account is not the empty text.
pub reconcile_investors-mirrors :
    (chain : ℕ) (registry : Address) (now : ℕ) (events : EventStore) (m : Investors)
    (account : String)
    → AreRows address_of m
    → account ≢ ""
    → view (lookup account (reconcile_investors chain registry now events m))
      ≡ expected
          (lookup account m)
          (latest account none (sort in_order (list_by_name chain registry "StatusChanged" events)))
unfolding reconcile_investors
reconcile_investors-mirrors chain registry now events m account h d =
    let listed = list_by_name chain registry "StatusChanged" events in
    reconcile_states-expected now (build_statuses listed) m account
      (latest account none (sort in_order listed)) h (build_statuses-IsMap listed)
      (build_statuses-latest account listed d)
