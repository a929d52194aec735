-- ===== src/Compliance/Resets.antt =====
-- server/internal/compliance/projector.go: the reset of the rows that nothing on the chain backs.
use text.Mathlib.TextEquality.{eq_iff}
use rwa_platform_evm.Common.{
  ℕ, String, true, false, List, [], ◌∷◌, none, some, if◌then◌else◌, ◌==◌, string_eq, nat_eq,
  nat_beq_iff, ◌≡◌, ◌≢◌, ◌⊎◌, inl, inr, refl, sym, arith, ◌∙◌, ap, subst, Bool-cases,
}
use rwa_platform_evm.Common.Dict.{lookup, insert, lookup-insert}
use rwa_platform_evm.Models.Investor.{Investor}
use rwa_platform_evm.Compliance.{
  Standing, Standings, Investors, upsert_investor, is_unknown, is_orphaned, reset, reset_orphans,
}
use rwa_platform_evm.Compliance.Upserts.{view, expected}

-- The loop over the rows: one of an account with a standing stays, and any other is cleared, at the
-- latest when its own turn comes.
abbrev pub Stays : String → Investors → Investors → Type 0
Stays account m0 m = lookup account m ≡ lookup account m0

abbrev pub Cleared : String → Investors → Investors → Type 0
Cleared account m0 m = view (lookup account m) ≡ expected (lookup account m0) none

abbrev pub IsOf : Investors → List Investor → Type 0
IsOf m0 [] = Unit
IsOf m0 (t ∷ ts) = (lookup t.address m0 ≡ some t) × IsOf m0 ts

pub orphaned-no_standing :
    (states : Standings) (inv : Investor)
    → is_orphaned states inv ≡ true
    → lookup inv.address states ≡ none
unfolding is_orphaned
orphaned-no_standing states inv h = ground arith

pub reset_orphans-Stays :
    (now : ℕ) (states : Standings) (account : String) (s : Standing) (ts : List Investor)
    (m0 m : Investors)
    → lookup account states ≡ some s
    → Stays account m0 m
    → Stays account m0 (reset_orphans now states ts m)
unfolding reset_orphans upsert_investor
reset_orphans-Stays now states account s [] m0 m e h = h
reset_orphans-Stays now states account s (t ∷ ts) m0 m e h =
    elim (Bool-cases (is_orphaned states t)) [
      | inr n ↦ rw n (reset_orphans-Stays now states account s ts m0 m e h)
      | inl y ↦
          let none_there = orphaned-no_standing states t y in
          let other : (t.address == account) ≡ false = ground (arith, eq_iff t.address account) in
          rw y (
            reset_orphans-Stays now states account s ts m0 (insert t.address (reset now t) m) e (
              lookup-insert t.address account (reset now t) m
              ∙ ap (λ b. if b then some (reset now t) else lookup account m) other
              ∙ h))
    ]

abbrev pub HasAddress : String → List Investor → Type 0
HasAddress account [] = ⊥
HasAddress account (t ∷ ts) = (t.address ≡ account) ⊎ HasAddress account ts

abbrev pub Due : String → List Investor → Investors → Investors → Type 0
Due account ts m0 m = Cleared account m0 m ⊎ (Stays account m0 m × HasAddress account ts)

pub unorphaned-default :
    (states : Standings) (t : Investor)
    → is_orphaned states t ≡ false
    → lookup t.address states ≡ none
    → view (some t) ≡ expected (some t) none
unfolding is_orphaned is_unknown
unorphaned-default states t h e = ground (arith, nat_beq_iff t.valid_until 0)

-- The turn of the account's own row, kept or written.
pub own-Cleared :
    (account : String) (t : Investor) (m0 m : Investors) (ts : List Investor)
    → lookup account m0 ≡ some t
    → view (some t) ≡ expected (some t) none
    → Due account (t ∷ ts) m0 m
    → Cleared account m0 m
own-Cleared account t m0 m ts e d (inl c) = c
own-Cleared account t m0 m ts e d (inr (s, i)) =
    ap view (s ∙ e) ∙ d ∙ ap (λ o. expected o none) (sym e)

pub reset-Cleared :
    (now : ℕ) (account : String) (t : Investor) (m0 m : Investors)
    → lookup account m0 ≡ some t
    → t.address ≡ account
    → Cleared account m0 (insert t.address (reset now t) m)
reset-Cleared now account t m0 m e same =
    ap view (
      lookup-insert t.address account (reset now t) m
      ∙ ap (λ b. if b then some (reset now t) else lookup account m)
          ((eq_iff t.address account).1 same))
    ∙ ap (λ o. expected o none) (sym e)

pub other-Due :
    (account : String) (t : Investor) (m0 m n : Investors) (ts : List Investor)
    → t.address ≢ account
    → lookup account n ≡ lookup account m
    → Due account (t ∷ ts) m0 m
    → Due account ts m0 n
other-Due account t m0 m n ts d e (inl c) = inl (ap view e ∙ c)
other-Due account t m0 m n ts d e (inr (s, inl same)) = absurd (d same)
other-Due account t m0 m n ts d e (inr (s, inr i)) = inr (e ∙ s, i)

pub reset_orphans-Cleared :
    (now : ℕ) (states : Standings) (account : String) (ts : List Investor) (m0 m : Investors)
    → lookup account states ≡ none
    → IsOf m0 ts
    → Due account ts m0 m
    → Cleared account m0 (reset_orphans now states ts m)
unfolding reset_orphans upsert_investor
reset_orphans-Cleared now states account [] m0 m e o (inl c) = c
reset_orphans-Cleared now states account [] m0 m e o (inr (s, i)) = absurd i
reset_orphans-Cleared now states account (t ∷ ts) m0 m e (at, o) d =
    let next = insert t.address (reset now t) m in
    elim (Bool-cases (t.address == account)) [
      | inl y ↦
          let same : t.address ≡ account = (eq_iff t.address account).0 y in
          let here : lookup account m0 ≡ some t = subst (λ x. lookup x m0 ≡ some t) same at in
          elim (Bool-cases (is_orphaned states t)) [
            | inl w ↦ rw w (
                reset_orphans-Cleared now states account ts m0 next e o
                  (inl (reset-Cleared now account t m0 m here same)))
            | inr k ↦ rw k (
                reset_orphans-Cleared now states account ts m0 m e o (
                  inl (
                    own-Cleared account t m0 m ts here
                      (unorphaned-default states t k
                        (subst (λ x. lookup x states ≡ none) (sym same) e))
                      d)))
          ]
      | inr n ↦
          let far : t.address ≢ account = ground (arith, eq_iff t.address account) in
          elim (Bool-cases (is_orphaned states t)) [
            | inl w ↦ rw w (
                reset_orphans-Cleared now states account ts m0 next e o (
                  other-Due account t m0 m next ts far
                    (lookup-insert t.address account (reset now t) m
                      ∙ ap (λ b. if b then some (reset now t) else lookup account m) n)
                    d))
            | inr k ↦ rw k (
                reset_orphans-Cleared now states account ts m0 m e o
                  (other-Due account t m0 m m ts far refl d))
          ]
    ]
