-- ===== src/Redemption/Lives.antt =====
-- docs/spec/redemption-state-machine.md: the life of one request, by the names of its events.
use rwa_platform_evm.Common.{
  String, false, List, [], ◌∷◌, Option, none, some, if◌then◌else◌, ◌==◌, string_eq, nat_eq, ◌≡◌,
  refl, sym, subst, true, arith, inl, inr, Bool-cases,
}
use text.Mathlib.TextEquality.{eq_iff}
use rwa_platform_evm.Models.ChainEvent.{ChainEvent}
use rwa_platform_evm.Models.Redemption.{
  RedemptionStatus, pending, funded, completed, rejected, cancelled,
}
use rwa_platform_evm.Redemption.{Kind, request, fund, complete, reject, cancel, kind_of, id_of}

-- One request under way: a pending one is funded, rejected or cancelled, a funded one completes;
-- whatever else happens changes nothing.
abbrev pub go_on : Option RedemptionStatus → String → Option RedemptionStatus
go_on none name = none
go_on (some pending) name =
    if name == "RedemptionFunded"
    then some funded
    else if name == "RedemptionRejected"
    then some rejected
    else if name == "RedemptionCancelled"
    then some cancelled
    else some pending
go_on (some funded) name = if name == "RedemptionCompleted" then some completed else some funded
go_on (some s) name = some s

-- A request event starts it anew.
abbrev pub life : Option RedemptionStatus → String → Option RedemptionStatus
life o name = if name == "RedemptionRequested" then some pending else go_on o name

unfoldable pub lived : Option RedemptionStatus → List String → Option RedemptionStatus
lived o [] = o
lived o (name ∷ names) = lived (life o name) names

-- The names of the events with an ID, in their order.
abbrev pub names_of : String → List ChainEvent → List String
names_of id [] = []
names_of id (e ∷ es) = let rest = names_of id es in if id_of e == id then e.name ∷ rest else rest

-- The same life by the kinds of the code.
unfoldable pub life_kind : Option RedemptionStatus → Kind → Option RedemptionStatus
life_kind o request = some pending
life_kind (some pending) fund = some funded
life_kind (some pending) reject = some rejected
life_kind (some pending) cancel = some cancelled
life_kind (some funded) complete = some completed
life_kind o k = o

abbrev pub AgreeOn : String → Type 0
AgreeOn name = (o : Option RedemptionStatus) → life_kind o (kind_of name) ≡ life o name

AgreeOn-known :
    AgreeOn "RedemptionRequested"
    × AgreeOn "RedemptionFunded"
    × AgreeOn "RedemptionCompleted"
    × AgreeOn "RedemptionRejected"
    × AgreeOn "RedemptionCancelled"
unfolding life_kind kind_of
AgreeOn-known =
    (λ o. ground arith, λ o. ground arith, λ o. ground arith, λ o. ground arith, λ o. ground arith)

other :
    (name : String)
    → name == "RedemptionRequested" ≡ false
    → name == "RedemptionFunded" ≡ false
    → name == "RedemptionCompleted" ≡ false
    → name == "RedemptionRejected" ≡ false
    → name == "RedemptionCancelled" ≡ false
    → AgreeOn name
unfolding life_kind kind_of
other name a b c d e none = rw (a, b, c, d, e) refl
other name a b c d e (some pending) = rw (a, b, c, d, e) refl
other name a b c d e (some funded) = rw (a, b, c, d, e) refl
other name a b c d e (some completed) = rw (a, b, c, d, e) refl
other name a b c d e (some rejected) = rw (a, b, c, d, e) refl
other name a b c d e (some cancelled) = rw (a, b, c, d, e) refl

pub kind_of-life : (name : String) → AgreeOn name
kind_of-life name = elim (Bool-cases (name == "RedemptionRequested")) [
  | inl y ↦ named "RedemptionRequested" y AgreeOn-known.0
  | inr a ↦ elim (Bool-cases (name == "RedemptionFunded")) [
    | inl y ↦ named "RedemptionFunded" y AgreeOn-known.1
    | inr b ↦ elim (Bool-cases (name == "RedemptionCompleted")) [
      | inl y ↦ named "RedemptionCompleted" y AgreeOn-known.2
      | inr c ↦ elim (Bool-cases (name == "RedemptionRejected")) [
        | inl y ↦ named "RedemptionRejected" y AgreeOn-known.3
        | inr d ↦ elim (Bool-cases (name == "RedemptionCancelled")) [
          | inl y ↦ named "RedemptionCancelled" y AgreeOn-known.4
          | inr e ↦ other name a b c d e
        ]
      ]
    ]
  ]
]
  where
    named : (m : String) → name == m ≡ true → AgreeOn m → AgreeOn name
    named m y h = subst AgreeOn (sym ((eq_iff name m).0 y)) h
