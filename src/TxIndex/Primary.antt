-- ===== src/TxIndex/Primary.antt =====
-- server/internal/txindex/txindex.go: which event of a transaction `pickPrimary` takes.
use rwa_platform_evm.Common.{
  ℕ, ◌<◌, true, false, List, [], ◌∷◌, Option, none, some, nat_eq, string_eq, All, In, In-All, ◌≡◌,
  ◌⊎◌, inl, inr, refl, arith, Bool-cases, subst, sym,
}
use rwa_platform_evm.Models.ChainEvent.{ChainEvent, earlier}
use rwa_platform_evm.TxIndex.{Best, is_eligible, rank_by_event, better, pick_from, pick_primary}

-- A higher priority, or the same one and no later.
abbrev pub NotWorse : ChainEvent → ChainEvent → Type 0
NotWorse a x =
    (rank_by_event a.name < rank_by_event x.name)
    ⊎ ((rank_by_event a.name ≡ rank_by_event x.name) × (earlier x a ≡ false))

NotWorse-trans : (a b c : ChainEvent) → NotWorse a b → NotWorse b c → NotWorse a c
NotWorse-trans a b c h k = ground arith

NotWorse-refl : (a : ChainEvent) → NotWorse a a
NotWorse-refl a = ground arith

-- What a loop over `es` from `best` finds.
abbrev Ranked : Best → Type 0
Ranked none = Unit
Ranked (some (b, r)) = r ≡ rank_by_event b.name

abbrev Covers : ChainEvent → Best → Type 0
Covers a none = Unit
Covers a (some (b, r)) = NotWorse a b

abbrev Rejected : ChainEvent → Type 0
Rejected x = is_eligible x ≡ false

abbrev CoversAll : ChainEvent → List ChainEvent → Type 0
CoversAll a es = All (λ x. is_eligible x ≡ true → NotWorse a x) es

abbrev Picks : Best → Best → List ChainEvent → Type 0
Picks none best es = (best ≡ none) × All Rejected es
Picks (some (b, r)) best es =
    ((best ≡ some (b, r)) ⊎ (In b es × (is_eligible b ≡ true))) × Covers b best × CoversAll b es

better-NotWorse :
    (e : ChainEvent) (best : Best)
    → Ranked best
    → better e (rank_by_event e.name) best ≡ true
    → Covers e best
unfolding better
better-NotWorse e none h t = tt
better-NotWorse e (some (b, r)) h t = ground arith

worse-NotWorse :
    (e : ChainEvent) (b : ChainEvent) (r : ℕ)
    → r ≡ rank_by_event b.name
    → better e (rank_by_event e.name) (some (b, r)) ≡ false
    → NotWorse b e
unfolding better
worse-NotWorse e b r h t = ground arith

Covers-trans : (a b : ChainEvent) (best : Best) → NotWorse a b → Covers b best → Covers a best
Covers-trans a b none h k = tt
Covers-trans a b (some (c, r)) h k = NotWorse-trans a b c h k

-- A round that takes the event, one that keeps the best so far, and one that skips the event.
take-Picks :
    (out best : Best) (e : ChainEvent) (es : List ChainEvent)
    → Ranked best
    → is_eligible e ≡ true
    → better e (rank_by_event e.name) best ≡ true
    → Picks out (some (e, rank_by_event e.name)) es
    → Picks out best (e ∷ es)
take-Picks none best e es h l t (p, q) = cc
take-Picks (some (b, r)) best e es h l t (inl p, c, q) =
    let same : e ≡ b = cc in
    (
      inr (inl (sym same), subst (λ x. is_eligible x ≡ true) same l),
      Covers-trans b e best c (better-NotWorse e best h t),
      ((λ _. c), q),
    )
take-Picks (some (b, r)) best e es h l t (inr p, c, q) =
    (inr (inr (p.0), p.1), Covers-trans b e best c (better-NotWorse e best h t), ((λ _. c), q))

best-NotWorse :
    (a e : ChainEvent) (best : Best)
    → Ranked best
    → better e (rank_by_event e.name) best ≡ false
    → Covers a best
    → NotWorse a e
unfolding better
best-NotWorse a e none h t c = cc
best-NotWorse a e (some (b, r)) h t c = NotWorse-trans a b e c (worse-NotWorse e b r h t)

none-better : (e : ChainEvent) (r : ℕ) (best : Best) → best ≡ none → better e r best ≡ true
unfolding better
none-better e r none h = refl
none-better e r (some b) h = cc

leave-Picks :
    (out best : Best) (e : ChainEvent) (es : List ChainEvent)
    → Ranked best
    → better e (rank_by_event e.name) best ≡ false
    → Picks out best es
    → Picks out best (e ∷ es)
leave-Picks none best e es h t (p, q) =
    let other = none-better e (rank_by_event e.name) best p in cc
leave-Picks (some (b, r)) best e es h t (inl p, c, q) =
    (inl p, c, ((λ _. best-NotWorse b e best h t c), q))
leave-Picks (some (b, r)) best e es h t (inr p, c, q) =
    (inr (inr (p.0), p.1), c, ((λ _. best-NotWorse b e best h t c), q))

skip-Picks :
    (out best : Best) (e : ChainEvent) (es : List ChainEvent)
    → is_eligible e ≡ false
    → Picks out best es
    → Picks out best (e ∷ es)
skip-Picks none best e es x (p, q) = (p, (x, q))
skip-Picks (some (b, r)) best e es x (inl p, c, q) = (inl p, c, ((λ t. cc), q))
skip-Picks (some (b, r)) best e es x (inr p, c, q) = (inr (inr (p.0), p.1), c, ((λ t. cc), q))

self-Covers : (b : ChainEvent) (r : ℕ) → Covers b (some (b, r))
self-Covers b r = NotWorse-refl b

pick_from-Picks :
    (best : Best) (es : List ChainEvent) → Ranked best → Picks (pick_from best es) best es
unfolding pick_from
pick_from-Picks none [] h = (refl, tt)
pick_from-Picks (some (b, r)) [] h = (inl refl, self-Covers b r, tt)
pick_from-Picks best (e ∷ es) h = elim (Bool-cases (is_eligible e)) [
  | inr x ↦ rw x (skip-Picks (pick_from best es) best e es x (pick_from-Picks best es h))
  | inl l ↦ elim (Bool-cases (better e (rank_by_event e.name) best)) [
    | inl t ↦
        rw (l, t)
          (take-Picks (pick_from (some (e, rank_by_event e.name)) es) best e es h l t
            (pick_from-Picks (some (e, rank_by_event e.name)) es refl))
    | inr t ↦ rw (l, t) (leave-Picks (pick_from best es) best e es h t (pick_from-Picks best es h))
  ]
]

-- The primary event among `live`, or that none is eligible.
abbrev pub IsPrimary : List ChainEvent → Option ChainEvent → Type 0
IsPrimary live none = (x : ChainEvent) → In x live → is_eligible x ≡ false
IsPrimary live (some e) =
    In e live
    × (is_eligible e ≡ true)
    × ((x : ChainEvent) → In x live → is_eligible x ≡ true → NotWorse e x)

Picks-IsPrimary :
    (live : List ChainEvent) (out : Best)
    → Picks out none live
    → IsPrimary live (elim out [ none ↦ none | some b ↦ some (b.0) ])
Picks-IsPrimary live none (p, q) = λ x i. In-All Rejected live x q i
Picks-IsPrimary live (some (b, r)) (inl p, c, q) = cc
Picks-IsPrimary live (some (b, r)) (inr p, c, q) =
    (p.0, p.1, λ x i. In-All (λ y. is_eligible y ≡ true → NotWorse b y) live x q i)

-- `pickPrimary` takes an eligible event of the transaction that no other eligible one outranks, and
-- that no one of the same rank precedes in the order of block and log index; it takes none only if no
-- event is eligible. The rank is the place in the table of kinds, and behind all of them for a name
-- that is not in it.
pub pick_primary-IsPrimary : (live : List ChainEvent) → IsPrimary live (pick_primary live)
unfolding pick_primary
pick_primary-IsPrimary live =
    Picks-IsPrimary live (pick_from none live) (pick_from-Picks none live tt)
