-- ===== src/Income/Snapshot/Shares.antt =====
-- server/internal/income/snapshot.go: how the total is split over the balances.
use native.Mathlib.Nat.{mul-add, add-mul, div-mul-le_self, le_of_mul-le-mul_right}
use rwa_platform_evm.Common.{
  ℕ, zero, suc, ◌+◌, ◌*◌, ◌/◌, ◌≤◌, ◌<◌, true, false, not, List, [], ◌∷◌, ◌≡◌, refl, sym, ◌∙◌, ap,
  subst, arith, Bool-cases, inl, inr, sum_by, keep, In, sort, In-sort, sum_by-sort,
}
use rwa_platform_evm.Common.Int.{pos, negsuc, abs, ◌+ℤ◌, is_zero}
use rwa_platform_evm.Common.Result.{Result, ok, err}
use rwa_platform_evm.Income.Snapshot.{
  Entitlement, Entitlements, IncomeError, Balances, sum_balances, is_nonzero, share, entries_of,
  sum_amounts, by_account, finish, distribute,
}

abbrev pub AllPos : Balances → Type 0
AllPos [] = Unit
AllPos ((a, b) ∷ m) = ((n : ℕ) × (b ≡ pos n)) × AllPos m

abbrev weight : Balances → ℕ
weight m = sum_by (λ e. abs e.1) m

abbrev floors : ℕ → ℕ → Balances → ℕ
floors total eligible m = sum_by (λ e. (total * abs e.1) / eligible) m

keep-AllPos : (m : Balances) → AllPos m → AllPos (keep is_nonzero m)
unfolding is_nonzero
keep-AllPos [] h = tt
keep-AllPos ((a, b) ∷ m) (p, h) = elim (Bool-cases (not (is_zero b))) [
  | inl y ↦ rw y (p, keep-AllPos m h)
  | inr x ↦ rw x (keep-AllPos m h)
]

weight-keep : (m : Balances) → weight (keep is_nonzero m) ≡ weight m
unfolding is_nonzero
weight-keep [] = refl
weight-keep ((a, b) ∷ m) = ground (arith, weight-keep m)

sum_balances-weight : (m : Balances) → AllPos m → sum_balances m ≡ pos (weight m)
unfolding sum_balances
sum_balances-weight [] h = refl
sum_balances-weight ((a, b) ∷ m) ((n, e), h) = ground (arith, sum_balances-weight m)

share-pos :
    (total eligible n : ℕ) → share (pos total) (pos eligible) (pos n) ≡ pos (total * n / eligible)
share-pos total eligible n = refl

is_zero-pos : (n : ℕ) → is_zero (pos n) ≡ true → n ≡ 0
is_zero-pos zero h = refl
is_zero-pos (suc n) h = cc

sum_amounts-floors :
    (total eligible : ℕ) (m : Balances)
    → AllPos m
    → sum_amounts (entries_of (pos total) (pos eligible) m) ≡ pos (floors total eligible m)
unfolding sum_amounts entries_of
sum_amounts-floors total eligible [] h = refl
sum_amounts-floors total eligible ((a, pos n) ∷ m) (p, h) =
    let rest = sum_amounts-floors total eligible m h in
    elim (Bool-cases (is_zero (pos (total * n / eligible)))) [
      | inl y ↦ rw y (rest ∙ ap pos (omega (arith, is_zero-pos (total * n / eligible) y)))
      | inr x ↦ rw x (ap (λ s. pos (total * n / eligible) +ℤ s) rest)
    ]
sum_amounts-floors total eligible ((a, negsuc n) ∷ m) (p, h) = cc

-- Rounded down, the shares of all together are at most the total.
floors-below :
    (total eligible : ℕ) (m : Balances) → floors total eligible m * eligible ≤ total * weight m
floors-below total eligible [] = omega arith
floors-below total eligible ((a, b) ∷ m) =
    let x = total * abs b in
    omega (
      arith,
      floors-below total eligible m,
      div-mul-le_self x eligible,
      add-mul (x / eligible) (floors total eligible m) eligible,
      mul-add total (abs b) (weight m),
    )

abbrev pub IsShare : ℕ → ℕ → Entitlement → Type 0
IsShare total eligible e =
    (n : ℕ) × (e.balance ≡ pos n)
    × (e.amount ≡ pos (total * n / eligible))
    × (0 < total * n / eligible)

entries-IsShare :
    (total eligible : ℕ) (m : Balances) (e : Entitlement)
    → AllPos m
    → In e (entries_of (pos total) (pos eligible) m)
    → IsShare total eligible e
unfolding entries_of
entries-IsShare total eligible [] e h i = absurd i
entries-IsShare total eligible ((a, negsuc n) ∷ m) e (p, h) i = cc
entries-IsShare total eligible ((a, pos n) ∷ m) e (p, h) i =
    elim (Bool-cases (is_zero (pos (total * n / eligible)))) [
      | inl y ↦ entries-IsShare total eligible m e h (rw y at i)
      | inr x ↦
          let here = (rw x at i) in
          elim here [
            | inl same ↦
                subst (IsShare total eligible) (sym same)
                  (n, refl, refl, positive (total * n / eligible) x)
            | inr j ↦ entries-IsShare total eligible m e h j
          ]
    ]
  where
    positive : (k : ℕ) → is_zero (pos k) ≡ false → 0 < k
    positive zero x = cc
    positive (suc k) x = omega arith

-- The split of a total: what each holder gets is a share rounded down, and not all of them together
-- more than the total.
abbrev pub IsFair : ℕ → Entitlements → Type 0
IsFair total out =
    (eligible : ℕ) × (0 < eligible)
    × (out.eligible_supply ≡ pos eligible)
    × ((distributed : ℕ) × (out.distributed ≡ pos distributed)
        × (distributed ≡ sum_by (λ e. abs e.amount) out.entries)
        × (distributed ≤ total))
    × ((e : Entitlement) → In e out.entries → IsShare total eligible e)

abbrev pub Fair : ℕ → Result IncomeError Entitlements → Type 0
Fair total (ok out) = IsFair total out
Fair total (err e) = Unit

sum_amounts-abs :
    (total eligible : ℕ) (m : Balances)
    → AllPos m
    → sum_by (λ e. abs e.amount) (entries_of (pos total) (pos eligible) m) ≡ floors total eligible m
unfolding entries_of
sum_amounts-abs total eligible [] h = refl
sum_amounts-abs total eligible ((a, pos n) ∷ m) (p, h) =
    let rest = sum_amounts-abs total eligible m h in
    elim (Bool-cases (is_zero (pos (total * n / eligible)))) [
      | inl y ↦ rw y (rest ∙ omega (arith, is_zero-pos (total * n / eligible) y))
      | inr x ↦ rw x (ap (λ s. total * n / eligible + s) rest)
    ]
sum_amounts-abs total eligible ((a, negsuc n) ∷ m) (p, h) = cc

finish-Fair :
    (total eligible : ℕ) (m : Balances) (es : List Entitlement)
    → AllPos m
    → 0 < eligible
    → weight m ≡ eligible
    → entries_of (pos total) (pos eligible) m ≡ es
    → Fair total (finish (pos eligible) es)
unfolding finish
finish-Fair total eligible m [] h l w s = tt
finish-Fair total eligible m (e ∷ es) h l w s =
    let all = e ∷ es in
    let sum : sum_amounts all ≡ pos (floors total eligible m) =
      ap sum_amounts (sym s) ∙ sum_amounts-floors total eligible m h in
    let parts : floors total eligible m ≡ sum_by (λ x. abs x.amount) (sort by_account all) =
      sym (sum_amounts-abs total eligible m h)
      ∙ ap (sum_by (λ x. abs x.amount)) s
      ∙ sym (sum_by-sort by_account (λ x. abs x.amount) all) in
    let below : floors total eligible m ≤ total =
      le_of_mul-le-mul_right
        (subst (λ x. floors total eligible m * eligible ≤ total * x) w
          (floors-below total eligible m))
        l in
    (
      eligible,
      l,
      refl,
      (floors total eligible m, sum, parts, below),
      (λ x i.
          entries-IsShare total eligible m x h (subst (In x) (sym s) (In-sort by_account all x i))),
    )

nonzero-pos : (n : ℕ) → is_zero (pos n) ≡ false → 0 < n
nonzero-pos zero h = cc
nonzero-pos (suc n) h = omega arith

pub distribute-Fair : (total : ℕ) (m : Balances) → AllPos m → Fair total (distribute (pos total) m)
unfolding distribute
distribute-Fair total m h =
    let w = sum_balances-weight m h in
    elim (Bool-cases (is_zero (pos (weight m)))) [
      | inl y ↦ rw (w, y) tt
      | inr x ↦
          rw (w, x)
            (finish-Fair total (weight m) (keep is_nonzero m)
              (entries_of (pos total) (pos (weight m)) (keep is_nonzero m)) (keep-AllPos m h)
              (nonzero-pos (weight m) x) (weight-keep m) refl)
    ]
