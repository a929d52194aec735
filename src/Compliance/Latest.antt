-- ===== src/Compliance/Latest.antt =====
-- server/internal/compliance/projector.go: `BuildStatuses` takes the latest change of each account.
use text.Mathlib.TextEquality.{eq_iff}
use rwa_platform_evm.Common.{
  String, ◌&&◌, List, [], ◌∷◌, Option, none, some, if◌then◌else◌, ◌==◌, string_eq, ◌≡◌, ◌≢◌, refl,
  arith, sort, ◌∙◌, ap,
}
use rwa_platform_evm.Common.Dict.{lookup, lookup-insert, IsMap, insert-IsMap}
use rwa_platform_evm.Models.ChainEvent.{ChainEvent, in_order}
use rwa_platform_evm.Compliance.{
  Standing, Standings, standing_of, account_of, apply_status, apply_statuses, build_statuses,
}

-- The last status change of an account in a list.
abbrev pub latest : String → Option Standing → List ChainEvent → Option Standing
latest account found [] = found
latest account found (e ∷ es) =
    latest account
      (if e.name == "StatusChanged" && account_of e == account then some (standing_of e) else found)
      es

apply_status-latest :
    (account : String) (e : ChainEvent) (m : Standings)
    → account ≢ ""
    → lookup account (apply_status e m) ≡ (
        if e.name == "StatusChanged" && account_of e == account
        then some (standing_of e)
        else lookup account m)
unfolding apply_status
apply_status-latest account e m d = ground (
  arith,
  lookup-insert (account_of e) account (standing_of e) m,
  eq_iff (account_of e) account,
  eq_iff (account_of e) "",
)

apply_statuses-latest :
    (account : String) (es : List ChainEvent) (m : Standings)
    → account ≢ ""
    → lookup account (apply_statuses es m) ≡ latest account (lookup account m) es
unfolding apply_statuses
apply_statuses-latest account [] m d = refl
apply_statuses-latest account (e ∷ es) m d =
    apply_statuses-latest account es (apply_status e m) d
    ∙ ap (λ o. latest account o es) (apply_status-latest account e m d)

pub build_statuses-latest :
    (account : String) (es : List ChainEvent)
    → account ≢ ""
    → lookup account (build_statuses es) ≡ latest account none (sort in_order es)
unfolding build_statuses lookup
build_statuses-latest account es d = apply_statuses-latest account (sort in_order es) [] d

apply_statuses-IsMap :
    (es : List ChainEvent) (m : Standings) → IsMap m → IsMap (apply_statuses es m)
unfolding apply_statuses apply_status
apply_statuses-IsMap [] m h = h
apply_statuses-IsMap (e ∷ es) m h =
    apply_statuses-IsMap es (apply_status e m)
      (ground (arith, insert-IsMap (account_of e) (standing_of e) m))

pub build_statuses-IsMap : (es : List ChainEvent) → IsMap (build_statuses es)
unfolding build_statuses
build_statuses-IsMap es = apply_statuses-IsMap (sort in_order es) [] tt
