-- ===== src/TxIndex/Groups.antt =====
-- server/internal/txindex/txindex.go: the events by transaction hash, and what makes a hash live.
use rwa_platform_evm.Common.{
  true, false, not, ◌&&◌, List, [], ◌∷◌, ◌++◌, Option, none, some, ◌==◌, nat_eq, ◌≡◌, ◌⊎◌, refl,
  arith, Bool-cases, inl, inr, sym, In, In-keep, nat_beq_iff, subst,
}
use rwa_platform_evm.Common.Dict.{lookup, insert}
use rwa_platform_evm.Models.Transaction.{Hash}
use rwa_platform_evm.Models.ChainEvent.{ChainEvent}
use rwa_platform_evm.TxIndex.{
  Groups, group_of, group_by_hash, is_live, is_primary, pick_primary, live_of, is_eligible,
}
use rwa_platform_evm.TxIndex.Primary.{IsPrimary, pick_primary-IsPrimary}

-- Events of one hash, from a list of events.
abbrev From : List ChainEvent → Hash → List ChainEvent → Type 0
From all hash evs = (e : ChainEvent) → In e evs → (e.tx_hash ≡ hash) × In e all

abbrev Grouped : List ChainEvent → Groups → Type 0
Grouped all [] = Unit
Grouped all ((hash, evs) ∷ groups) = From all hash evs × Grouped all groups

lookup-From :
    (all : List ChainEvent) (hash : Hash) (groups : Groups)
    → Grouped all groups
    → From all hash (group_of (lookup hash groups))
unfolding lookup group_of
lookup-From all hash [] g = λ e i. absurd i
lookup-From all hash ((h, evs) ∷ groups) (f, g) = elim (Bool-cases (h == hash)) [
  | inl y ↦ rw y (subst (λ k. From all k evs) ((nat_beq_iff h hash).0 y) f)
  | inr x ↦ rw x (lookup-From all hash groups g)
]

insert-Grouped :
    (all : List ChainEvent) (hash : Hash) (evs : List ChainEvent) (groups : Groups)
    → From all hash evs
    → Grouped all groups
    → Grouped all (insert hash evs groups)
unfolding insert
insert-Grouped all hash evs [] f g = (f, tt)
insert-Grouped all hash evs ((h, old) ∷ groups) f (f', g) = elim (Bool-cases (h == hash)) [
  | inl y ↦ rw y (f, g)
  | inr x ↦ rw x (f', insert-Grouped all hash evs groups f g)
]

In-append : (e x : ChainEvent) (evs : List ChainEvent) → In e (evs ++ (x ∷ [])) → In e evs ⊎ (e ≡ x)
In-append e x [] i = ground arith
In-append e x (y ∷ evs) i = ground (arith, In-append e x evs)

append-From :
    (all : List ChainEvent) (x : ChainEvent) (evs : List ChainEvent)
    → In x all
    → From all x.tx_hash evs
    → From all x.tx_hash (evs ++ (x ∷ []))
append-From all x evs i f e j = elim (In-append e x evs j) [
  | inl k ↦ f e k
  | inr same ↦ subst (λ v. (v.tx_hash ≡ x.tx_hash) × In v all) (sym same) (refl, i)
]

group_by_hash-Grouped :
    (all : List ChainEvent) (groups : Groups) (es : List ChainEvent)
    → ((e : ChainEvent) → In e es → In e all)
    → Grouped all groups
    → Grouped all (group_by_hash groups es)
unfolding group_by_hash
group_by_hash-Grouped all groups [] s g = g
group_by_hash-Grouped all groups (e ∷ es) s g =
    group_by_hash-Grouped all
      (insert e.tx_hash (group_of (lookup e.tx_hash groups) ++ (e ∷ [])) groups) es
      (λ x i. s x (inr i))
      (insert-Grouped all e.tx_hash _ groups
        (append-From all e (group_of (lookup e.tx_hash groups)) (s e (inl refl))
          (lookup-From all e.tx_hash groups g))
        g)

-- An event that keeps a transaction's record alive.
abbrev pub IsWitness : List ChainEvent → Hash → ChainEvent → Type 0
IsWitness all hash e =
    In e all × (e.tx_hash ≡ hash) × (e.is_removed ≡ false) × (is_eligible e ≡ true)

primary-IsWitness :
    (all : List ChainEvent) (hash : Hash) (evs : List ChainEvent) (p : Option ChainEvent)
    → From all hash evs
    → IsPrimary (live_of evs) p
    → is_primary p ≡ true
    → (e : ChainEvent) × IsWitness all hash e
unfolding is_primary
primary-IsWitness all hash evs none f i t = cc
primary-IsWitness all hash evs (some e) f (here, l, best) t =
    let (within, alive) = In-keep (λ x. not x.is_removed) evs e here in
    (e, ((f e within).1, (f e within).0, ground arith, l))

is_live-IsWitness :
    (all : List ChainEvent) (hash : Hash) (groups : Groups)
    → Grouped all groups
    → is_live hash groups ≡ true
    → (e : ChainEvent) × IsWitness all hash e
unfolding is_live
is_live-IsWitness all hash [] g t = cc
is_live-IsWitness all hash ((h, evs) ∷ groups) (f, g) t =
    elim (Bool-cases (h == hash && is_primary (pick_primary (live_of evs)))) [
      | inl y ↦
          let same : h ≡ hash = ground (arith, nat_beq_iff h hash) in
          let p : is_primary (pick_primary (live_of evs)) ≡ true = ground arith in
          primary-IsWitness all hash evs (pick_primary (live_of evs))
            (subst (λ k. From all k evs) same f) (pick_primary-IsPrimary (live_of evs)) p
      | inr x ↦ is_live-IsWitness all hash groups g (ground arith)
    ]

pub grouped-IsWitness :
    (hash : Hash) (es : List ChainEvent)
    → is_live hash (group_by_hash [] es) ≡ true
    → (e : ChainEvent) × IsWitness es hash e
grouped-IsWitness hash es t =
    is_live-IsWitness es hash (group_by_hash [] es) (group_by_hash-Grouped es [] es (λ e i. i) tt) t
