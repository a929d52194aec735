-- ===== src/Compliance/Upserts.antt =====
-- server/internal/compliance/projector.go: the rows of accounts that the chain has a standing for.
use text.Mathlib.TextEquality.{eq_iff}
use rwa_platform_evm.Common.{
  ℕ, String, Bool, false, [], ◌∷◌, Option, none, some, if◌then◌else◌, ◌==◌, string_eq, nat_eq, ◌≡◌,
  inl, inr, refl, ◌∙◌, ap, subst, Bool-cases,
}
use rwa_platform_evm.Common.Dict.{lookup, insert, lookup-insert, IsMap}
use rwa_platform_evm.Common.Rows.{AreRows, insert-AreRows}
use rwa_platform_evm.Models.Investor.{Investor, unknown}
use rwa_platform_evm.Compliance.{
  Standing, Standings, Investors, upsert_investor, with_standing, upsert_standings,
}

-- What matters of a row: the standing, and whether ownership is verified.
abbrev pub view : Option Investor → Option (Standing × Bool)
view none = none
view (some inv) =
    some (record { status = inv.status; valid_until = inv.valid_until }, inv.is_ownership_verified)

-- The row that an old row and the chain's standing call for.
abbrev pub expected : Option Investor → Option Standing → Option (Standing × Bool)
expected none none = none
expected none (some s) = some (s, false)
expected (some inv) (some s) = some (s, inv.is_ownership_verified)
expected (some inv) none =
    some (record { status = unknown; valid_until = 0 }, inv.is_ownership_verified)

abbrev pub address_of : Investor → String
address_of inv = inv.address

abbrev pub upserted : ℕ → String → Option Standing → Option Investor → Option Investor
upserted now account none o = o
upserted now account (some s) o = some (with_standing now account s o)

pub with_standing-address :
    (now : ℕ) (account : String) (s : Standing) (o : Option Investor)
    → (with_standing now account s o).address ≡ account
unfolding with_standing
with_standing-address now account s none = refl
with_standing-address now account s (some old) = refl

pub lookup-upsert_standings :
    (now : ℕ) (account : String) (states : Standings) (m : Investors)
    → IsMap states
    → lookup account (upsert_standings now states m)
      ≡ upserted now account (lookup account states) (lookup account m)
unfolding upsert_standings upsert_investor lookup
lookup-upsert_standings now account [] m h = refl
lookup-upsert_standings now account ((key, s) ∷ states) m (fresh, h) =
    let inv = with_standing now key s (lookup key m) in
    let own = with_standing-address now key s (lookup key m) in
    let later = lookup-upsert_standings now account states (insert inv.address inv m) h in
    let here = lookup-insert inv.address account inv m in
    elim (Bool-cases (key == account)) [
      | inl y ↦
          let same : key ≡ account = (eq_iff key account).0 y in
          rw y (
            later
            ∙ ap (λ o. upserted now account o (lookup account (insert inv.address inv m)))
                (subst (λ x. lookup x states ≡ none) same fresh)
            ∙ here
            ∙ ap (λ x. if x == account then some inv else lookup account m) own
            ∙ ap (λ b. if b then some inv else lookup account m) y
            ∙ ap (λ x. some (with_standing now x s (lookup x m))) same)
      | inr n ↦ rw n (
          later
          ∙ ap (upserted now account (lookup account states)) (
              here
              ∙ ap (λ x. if x == account then some inv else lookup account m) own
              ∙ ap (λ b. if b then some inv else lookup account m) n))
    ]

pub upsert_standings-AreRows :
    (now : ℕ) (states : Standings) (m : Investors)
    → AreRows address_of m
    → AreRows address_of (upsert_standings now states m)
unfolding upsert_standings upsert_investor
upsert_standings-AreRows now [] m h = h
upsert_standings-AreRows now ((key, s) ∷ states) m h =
    let inv = with_standing now key s (lookup key m) in
    upsert_standings-AreRows now states (insert inv.address inv m)
      (insert-AreRows address_of m inv.address inv refl h)
