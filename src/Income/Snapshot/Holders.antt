-- ===== src/Income/Snapshot/Holders.antt =====
-- server/internal/income/snapshot.go: whose balances count, and the whole of `ComputeEntitlements`.
use rwa_platform_evm.Common.{
  ℕ, ◌+◌, String, false, not, ◌&&◌, leb, List, [], ◌∷◌, map, Option, none, some, if◌then◌else◌,
  ◌==◌, nat_eq, ◌≡◌, ◌≢◌, refl, sym, subst, arith, Bool-cases, inl, inr, In, In-keep, In-sort, keep,
  sort,
}
use rwa_platform_evm.Common.Dict.{lookup, insert, delete, delete_if}
use rwa_platform_evm.Common.Int.{ℤ, pos, negsuc, is_zero, set_string}
use rwa_platform_evm.Common.Result.{Result, ok, err, ◌>>=◌}
use rwa_platform_evm.Models.Transaction.{Address}
use rwa_platform_evm.Models.ChainEvent.{ChainEvent, in_order, text_field}
use rwa_platform_evm.Redemption.{States, build_states}
use rwa_platform_evm.Redemption.Amounts.{Amounts, build_states-Amounts}
use rwa_platform_evm.Income.Snapshot.{
  Entitlement, Entitlements, EntitlementInput, IncomeError, Ledger, Balances, survivors, is_house,
  is_open, int_balance, attribute, attribute_all, attributed, outsiders, share, is_nonzero,
  sum_balances, entries_of, by_account, finish, distribute,
}
use rwa_platform_evm.Income.Snapshot.Shares.{AllPos, IsFair, Fair, distribute-Fair}

-- An amount that is not negative, if it is one at all.
abbrev pub IsCredit : String → Type 0
IsCredit s = (n : ℕ) → set_string s ≢ some (negsuc n)

module _ (inp : EntitlementInput) where
  -- No balance is negative, and none is of the vault, the escrow or the zero address.
  abbrev Sound : Balances → Type 0
  Sound [] = Unit
  Sound ((a, b) ∷ m) = ((is_house inp a ≡ false) × ((n : ℕ) × (b ≡ pos n))) × Sound m

  Sound-AllPos : (m : Balances) → Sound m → AllPos m
  Sound-AllPos [] h = tt
  Sound-AllPos ((a, b) ∷ m) (p, h) = (p.1, Sound-AllPos m h)

  int_balance-cons :
      (a x : Address) (b : ℤ) (m : Balances)
      → int_balance a ((x, b) ∷ m) ≡ (if x == a then b else int_balance a m)
  unfolding lookup
  int_balance-cons a x b m = ground arith

  int_balance-pos : (a : Address) (m : Balances) → Sound m → (n : ℕ) × (int_balance a m ≡ pos n)
  unfolding lookup
  int_balance-pos a [] h = (0, refl)
  int_balance-pos a ((x, b) ∷ m) (p, h) = elim (Bool-cases (x == a)) [
    | inl y ↦ rw (int_balance-cons a x b m, y) (p.1)
    | inr n ↦ rw (int_balance-cons a x b m, n) (int_balance-pos a m h)
  ]

  insert-Sound :
      (a : Address) (n : ℕ) (m : Balances)
      → is_house inp a ≡ false
      → Sound m
      → Sound (insert a (pos n) m)
  unfolding insert
  insert-Sound a n [] o h = ((o, (n, refl)), tt)
  insert-Sound a n ((x, b) ∷ m) o (p, h) = elim (Bool-cases (x == a)) [
    | inl y ↦ rw y ((o, (n, refl)), h)
    | inr k ↦ rw k (p, insert-Sound a n m o h)
  ]

  abbrev SoundResult : Result IncomeError Balances → Type 0
  SoundResult (ok m) = Sound m
  SoundResult (err e) = Unit

  attribute-Sound :
      (id : String) (o : Option Address) (amount : Option ℤ) (m : Balances)
      → ((n : ℕ) → amount ≢ some (negsuc n))
      → Sound m
      → SoundResult (attribute inp id o amount m)
  unfolding attribute
  attribute-Sound id none amount m c h = tt
  attribute-Sound id (some a) none m c h = tt
  attribute-Sound id (some a) (some (negsuc n)) m c h = absurd (c n refl)
  attribute-Sound id (some a) (some (pos n)) m c h = elim (Bool-cases (is_house inp a)) [
    | inl y ↦ rw y h
    | inr x ↦ let (k, e) = int_balance-pos a m h in rw (x, e) (insert-Sound a (k + n) m x h)
  ]

  bind-Sound :
      (r : Result IncomeError Balances) (next : Balances → Result IncomeError Balances)
      → SoundResult r
      → ((m : Balances) → Sound m → SoundResult (next m))
      → SoundResult (r >>= next)
  bind-Sound (ok m) next h k = k m h
  bind-Sound (err e) next h k = tt

  attribute_all-Sound :
      (address_of : String → Option Address) (s : States) (m : Balances)
      → Amounts IsCredit s
      → Sound m
      → SoundResult (attribute_all address_of inp s m)
  unfolding attribute_all
  attribute_all-Sound address_of [] m c h = h
  attribute_all-Sound address_of ((id, r) ∷ s) m (p, c) h = elim (Bool-cases (is_open r.status)) [
    | inl y ↦ rw y (
        bind-Sound (attribute inp r.id (address_of r.beneficiary) (set_string r.rwa_amount) m)
          (λ next. attribute_all address_of inp s next)
          (attribute-Sound r.id (address_of r.beneficiary) (set_string r.rwa_amount) m p h)
          (λ next k. attribute_all-Sound address_of s next c k))
    | inr x ↦ rw x (attribute_all-Sound address_of s m c h)
  ]

  -- The accounts that are left of the ledger.
  In-delete :
      (a : Address) (m : Ledger) (e : Address × ℕ)
      → In e (delete a m)
      → In e m × ((e.0 == a) ≡ false)
  unfolding delete_if
  In-delete a [] e i = absurd i
  In-delete a ((x, n) ∷ m) e i = elim (Bool-cases (x == a)) [
    | inl y ↦ let (j, d) = In-delete a m e (rw y at i) in (inr j, d)
    | inr k ↦
        let here = (rw k at i) in
        elim here [
          | inl same ↦ (inl same, subst (λ p. (p.0 == a) ≡ false) (sym same) k)
          | inr j ↦ let (l, d) = In-delete a m e j in (inr l, d)
        ]
  ]

  outsiders-not_house :
      (m : Ledger) (e : Address × ℕ) → In e (outsiders inp m) → is_house inp e.0 ≡ false
  unfolding is_house
  outsiders-not_house m e i =
      let (j, zero_free) = In-delete 0 (delete inp.escrow (delete inp.vault m)) e i in
      let (k, escrow_free) = In-delete inp.escrow (delete inp.vault m) e j in
      let (l, vault_free) = In-delete inp.vault m e k in ground arith

  map-Sound :
      (m : Ledger)
      → ((e : Address × ℕ) → In e m → is_house inp e.0 ≡ false)
      → Sound (map (λ e. (e.0, pos e.1)) m)
  map-Sound [] f = tt
  map-Sound ((a, n) ∷ m) f = ((f (a, n) (inl refl), (n, refl)), map-Sound m (λ e i. f e (inr i)))

  entries-not_house :
      (total eligible : ℤ) (m : Balances) (e : Entitlement)
      → Sound m
      → In e (entries_of total eligible m)
      → is_house inp e.account ≡ false
  unfolding entries_of
  entries-not_house total eligible [] e h i = absurd i
  entries-not_house total eligible ((a, b) ∷ m) e (p, h) i =
      elim (Bool-cases (is_zero (share total eligible b))) [
        | inl y ↦ entries-not_house total eligible m e h (rw y at i)
        | inr x ↦
            let here = (rw x at i) in
            elim here [
              | inl same ↦ subst (λ v. is_house inp v.account ≡ false) (sym same) (p.0)
              | inr j ↦ entries-not_house total eligible m e h j
            ]
      ]

  keep-Sound : (m : Balances) → Sound m → Sound (keep is_nonzero m)
  unfolding is_nonzero
  keep-Sound [] h = tt
  keep-Sound ((a, b) ∷ m) (p, h) = elim (Bool-cases (not (is_zero b))) [
    | inl y ↦ rw y (p, keep-Sound m h)
    | inr x ↦ rw x (keep-Sound m h)
  ]

  abbrev Outside : Result IncomeError Entitlements → Type 0
  Outside (ok out) = (e : Entitlement) → In e out.entries → is_house inp e.account ≡ false
  Outside (err e) = Unit

  finish-Outside :
      (eligible : ℤ) (es : List Entitlement)
      → ((e : Entitlement) → In e es → is_house inp e.account ≡ false)
      → Outside (finish eligible es)
  unfolding finish
  finish-Outside eligible [] h = tt
  finish-Outside eligible (e ∷ es) h = λ x i. h x (In-sort by_account (e ∷ es) x i)

  distribute-Outside : (total : ℤ) (m : Balances) → Sound m → Outside (distribute total m)
  unfolding distribute
  distribute-Outside total m h = elim (Bool-cases (is_zero (sum_balances m))) [
    | inl y ↦ rw y tt
    | inr x ↦ rw x (
        finish-Outside (sum_balances m) (entries_of total (sum_balances m) (keep is_nonzero m))
          (λ e i.
            entries-not_house total (sum_balances m) (keep is_nonzero m) e (keep-Sound m h) i))
  ]

  pub attributed-Sound :
      (address_of : String → Option Address) (now : ℕ) (m : Ledger)
      → ((e : ChainEvent) → In e inp.redemption_events → IsCredit (text_field "rwaAmount" e))
      → SoundResult (attributed address_of inp now m)
  unfolding attributed survivors
  attributed-Sound address_of now m c =
      let events = sort in_order (
        keep (λ e. not e.is_removed && leb e.block_number inp.record_block)
          inp.redemption_events) in
      attribute_all-Sound address_of (build_states inp.redemption_timeout now events)
        (map (λ e. (e.0, pos e.1)) (outsiders inp m))
        (build_states-Amounts IsCredit inp.redemption_timeout now events (λ e i. c e (
          (In-keep (λ e. not e.is_removed && leb e.block_number inp.record_block)
            inp.redemption_events e
            (In-sort in_order
              (keep (λ e. not e.is_removed && leb e.block_number inp.record_block)
                inp.redemption_events)
              e i)).0)))
        (map-Sound (outsiders inp m) (outsiders-not_house m))

  abbrev pub Allots : ℕ → Result IncomeError Entitlements → Type 0
  Allots total (err e) = Unit
  Allots total (ok out) =
      IsFair total out × ((e : Entitlement) → In e out.entries → is_house inp e.account ≡ false)

  both :
      (total : ℕ) (r : Result IncomeError Entitlements) → Fair total r → Outside r → Allots total r
  both total (ok out) f o = (f, o)
  both total (err e) f o = tt

  pub paid-Allots :
      (total : ℕ) (r : Result IncomeError Balances)
      → SoundResult r
      → Allots total (r >>= λ m. distribute (pos total) m)
  paid-Allots total (err e) h = tt
  paid-Allots total (ok m) h =
      both total (distribute (pos total) m) (distribute-Fair total m (Sound-AllPos m h))
        (distribute-Outside (pos total) m h)

  pub checked-Sound {ℓ} :
      {A : Type ℓ} (r : Result IncomeError A) (next : A → Result IncomeError Balances)
      → ((a : A) → SoundResult (next a))
      → SoundResult (r >>= next)
  checked-Sound (ok a) next k = k a
  checked-Sound (err e) next k = tt

  pub after-Allots {ℓ} :
      {A : Type ℓ} (total : ℕ) (r : Result IncomeError A)
      (next : A → Result IncomeError Entitlements)
      → ((a : A) → Allots total (next a))
      → Allots total (r >>= next)
  after-Allots total (ok a) next k = k a
  after-Allots total (err e) next k = tt
