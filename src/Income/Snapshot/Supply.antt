-- ===== src/Income/Snapshot/Supply.antt =====
-- server/internal/income/snapshot.go: the replay of the token's transfers.
use rwa_platform_evm.Common.{
  ℕ, ◌+◌, ◌-◌, ◌≤◌, String, List, [], ◌∷◌, Option, none, some, if◌then◌else◌, ◌==◌, nat_eq, ltb,
  ◌≡◌, refl, ◌∙◌, ap, arith, Bool-cases, inl, inr, sum_by, subst,
}
use rwa_platform_evm.Common.Dict.{lookup, insert}
use rwa_platform_evm.Common.Int.{pos, negate, ◌+ℤ◌}
use rwa_platform_evm.Common.Result.{Result, ok, err, ◌>>=◌}
use rwa_platform_evm.Models.Transaction.{Address}
use rwa_platform_evm.Models.ChainEvent.{ChainEvent}
use rwa_platform_evm.Income.Snapshot.{
  Transfer, Ledger, Replay, IncomeError, incomplete_history, balance_of, debit, credit, move,
  parse_transfer, replay,
}

abbrev pub held : Ledger → ℕ
held m = sum_by (λ e. e.1) m

held-insert : (a : Address) (v : ℕ) (m : Ledger) → held (insert a v m) + balance_of a m ≡ held m + v
unfolding insert lookup
held-insert a v [] = omega arith
held-insert a v ((b, n) ∷ m) = ground (arith, held-insert a v m)

-- The supply is what all accounts hold.
abbrev pub Conserved : Replay → Type 0
Conserved s = s.supply ≡ pos (held s.balances)

abbrev pub Ends : Result IncomeError Replay → Type 0
Ends (ok s) = Conserved s
Ends (err e) = Unit

balance-found : (a : Address) (m : Ledger) (b : ℕ) → lookup a m ≡ some b → balance_of a m ≡ b
balance-found a m b e = ground arith

-- After a debit the supply is ahead by the value.
abbrev Ahead : ℕ → Result IncomeError Replay → Type 0
Ahead v (ok d) = d.supply ≡ pos (held d.balances + v)
Ahead v (err e) = Unit

sender-Ahead :
    (a : Address) (v : ℕ) (s : Replay) (o : Option ℕ)
    → lookup a s.balances ≡ o
    → Conserved s
    → Ahead v (elim o [
      | none ↦ err incomplete_history
      | some b ↦
          if ltb b v
          then err incomplete_history
          else ok (record s { balances = insert a (b - v) s.balances })
    ])
sender-Ahead a v s none e c = tt
sender-Ahead a v s (some b) e c = elim (Bool-cases (ltb b v)) [
  | inl y ↦ rw y tt
  | inr x ↦
      let sum = held-insert a (b - v) s.balances in
      let old = balance-found a s.balances b e in
      let enough : v ≤ b = ground arith in rw x (c ∙ ap pos (omega (arith, sum, old, enough)))
]

debit-Ahead : (a : Address) (v : ℕ) (s : Replay) → Conserved s → Ahead v (debit a v s)
unfolding debit
debit-Ahead a v s c = elim (Bool-cases (a == 0)) [
  | inl y ↦ rw y (ap (λ x. x +ℤ pos v) c)
  | inr x ↦ rw x (sender-Ahead a v s (lookup a s.balances) refl c)
]

back : (h v : ℕ) → (pos (h + v) +ℤ negate (pos v)) ≡ pos h
back h v = ground arith

credit-Conserved :
    (a : Address) (v : ℕ) (d : Replay)
    → d.supply ≡ pos (held d.balances + v)
    → Conserved (credit a v d)
unfolding credit
credit-Conserved a v d h = elim (Bool-cases (a == 0)) [
  | inl y ↦ rw y (ap (λ x. x +ℤ negate (pos v)) h ∙ back (held d.balances) v)
  | inr x ↦
      let sum = held-insert a (balance_of a d.balances + v) d.balances in
      rw x (h ∙ ap pos (omega (arith, sum)))
]

credited-Ends :
    (a : Address) (v : ℕ) (r : Result IncomeError Replay)
    → Ahead v r
    → Ends (r >>= λ d. ok (credit a v d))
credited-Ends a v (ok d) h = credit-Conserved a v d h
credited-Ends a v (err e) h = tt

move-Ends : (t : Transfer) (s : Replay) → Conserved s → Ends (move t s)
unfolding move
move-Ends t s c = elim (Bool-cases (t.value == 0)) [
  | inl y ↦ rw y c
  | inr x ↦
      rw x (credited-Ends t.to t.value (debit t.from t.value s) (debit-Ahead t.from t.value s c))
]

moved-Ends :
    (next : Replay → Result IncomeError Replay) (r : Result IncomeError Replay)
    → ((s : Replay) → Conserved s → Ends (next s))
    → Ends r
    → Ends (r >>= next)
moved-Ends next (err e) k h = tt
moved-Ends next (ok s) k h = k s h

round-Ends :
    (next : Replay → Result IncomeError Replay) (s : Replay) (r : Result IncomeError Transfer)
    → ((s : Replay) → Conserved s → Ends (next s))
    → Conserved s
    → Ends (r >>= (λ t. move t s) >>= next)
round-Ends next s (err e) k c = tt
round-Ends next s (ok t) k c = moved-Ends next (move t s) k (move-Ends t s c)

module _ (address_of : String → Option Address) where
  replay-Ends : (es : List ChainEvent) (s : Replay) → Conserved s → Ends (replay address_of es s)
  unfolding replay
  replay-Ends [] s c = c
  replay-Ends (e ∷ es) s c =
      round-Ends (replay address_of es) s (parse_transfer address_of e) (λ s. replay-Ends es s) c

  -- However the transfers go, if the replay ends then the supply that it counts from mints and burns is
  -- the sum of the balances that it leaves.
  pub replay-conserves :
      (es : List ChainEvent) (out : Replay)
      → replay address_of es (record { balances = []; supply = pos 0 }) ≡ ok out
      → out.supply ≡ pos (held out.balances)
  replay-conserves es out e =
      subst Ends e (replay-Ends es (record { balances = []; supply = pos 0 }) refl)
