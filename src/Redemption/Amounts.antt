-- ===== src/Redemption/Amounts.antt =====
-- server/internal/redemption/projector.go: where the amount of a derived request comes from.
use rwa_platform_evm.Common.{
  ℕ, String, List, [], ◌∷◌, Option, none, some, ◌==◌, string_eq, sort, In-sort, In, inl, inr,
  Bool-cases, refl,
}
use rwa_platform_evm.Common.Dict.{lookup, insert}
use rwa_platform_evm.Models.ChainEvent.{ChainEvent, in_order, text_field}
use rwa_platform_evm.Models.Redemption.{RedemptionRequest, RedemptionStatus, pending, funded}
use rwa_platform_evm.Redemption.{
  Kind, request, fund, complete, reject, cancel, ignored, kind_of, advance, apply_kind, requested,
  States, store_change, id_of, apply_event, apply_events, build_states,
}

-- A property of amounts that the events have.
module _ (P : String → Type 0) where
  abbrev pub Amount : Option RedemptionRequest → Type 0
  Amount none = Unit
  Amount (some r) = P r.rwa_amount

  abbrev pub Amounts : States → Type 0
  Amounts [] = Unit
  Amounts ((id, r) ∷ m) = P r.rwa_amount × Amounts m

  advance-Amount :
      (now : ℕ) (e : ChainEvent) (k : Kind) (s : RedemptionStatus) (r : RedemptionRequest)
      → P r.rwa_amount
      → Amount (advance now e k s r)
  unfolding advance
  advance-Amount now e fund pending r h = h
  advance-Amount now e complete funded r h = h
  advance-Amount now e reject pending r h = h
  advance-Amount now e cancel pending r h = h
  advance-Amount now e _ _ r h = tt

  apply_kind-Amount :
      (timeout now : ℕ) (key : String) (e : ChainEvent) (k : Kind) (o : Option RedemptionRequest)
      → P (text_field "rwaAmount" e)
      → Amount o
      → Amount (apply_kind timeout now key e k o)
  unfolding apply_kind requested
  apply_kind-Amount timeout now key e request o p h = p
  apply_kind-Amount timeout now key e fund none p h = tt
  apply_kind-Amount timeout now key e complete none p h = tt
  apply_kind-Amount timeout now key e reject none p h = tt
  apply_kind-Amount timeout now key e cancel none p h = tt
  apply_kind-Amount timeout now key e ignored none p h = tt
  apply_kind-Amount timeout now key e fund (some r) p h = advance-Amount now e fund r.status r h
  apply_kind-Amount timeout now key e complete (some r) p h =
      advance-Amount now e complete r.status r h
  apply_kind-Amount timeout now key e reject (some r) p h = advance-Amount now e reject r.status r h
  apply_kind-Amount timeout now key e cancel (some r) p h = advance-Amount now e cancel r.status r h
  apply_kind-Amount timeout now key e ignored (some r) p h =
      advance-Amount now e ignored r.status r h

  lookup-Amount : (key : String) (m : States) → Amounts m → Amount (lookup key m)
  unfolding lookup
  lookup-Amount key [] h = tt
  lookup-Amount key ((id, r) ∷ m) (p, h) = elim (Bool-cases (id == key)) [
    | inl y ↦ rw y p
    | inr x ↦ rw x (lookup-Amount key m h)
  ]

  insert-Amounts :
      (key : String) (r : RedemptionRequest) (m : States)
      → P r.rwa_amount
      → Amounts m
      → Amounts (insert key r m)
  unfolding insert
  insert-Amounts key r [] p h = (p, tt)
  insert-Amounts key r ((id, old) ∷ m) p (q, h) = elim (Bool-cases (id == key)) [
    | inl y ↦ rw y (p, h)
    | inr x ↦ rw x (q, insert-Amounts key r m p h)
  ]

  store_change-Amounts :
      (key : String) (o : Option RedemptionRequest) (m : States)
      → Amount o
      → Amounts m
      → Amounts (store_change key o m)
  unfolding store_change
  store_change-Amounts key none m p h = h
  store_change-Amounts key (some r) m p h = insert-Amounts key r m p h

  apply_events-Amounts :
      (timeout now : ℕ) (es : List ChainEvent) (m : States)
      → ((e : ChainEvent) → In e es → P (text_field "rwaAmount" e))
      → Amounts m
      → Amounts (apply_events timeout now es m)
  unfolding apply_events apply_event
  apply_events-Amounts timeout now [] m p h = h
  apply_events-Amounts timeout now (e ∷ es) m p h =
      apply_events-Amounts timeout now es (apply_event timeout now e m) (λ x i. p x (inr i))
        (elim (Bool-cases (id_of e == "")) [
          | inl y ↦ rw y h
          | inr x ↦ rw x (
              store_change-Amounts (id_of e) _ m
                (apply_kind-Amount timeout now (id_of e) e (kind_of e.name) (lookup (id_of e) m)
                  (p e (inl refl)) (lookup-Amount (id_of e) m h))
                h)
        ])

  pub build_states-Amounts :
      (timeout now : ℕ) (es : List ChainEvent)
      → ((e : ChainEvent) → In e es → P (text_field "rwaAmount" e))
      → Amounts (build_states timeout now es)
  unfolding build_states
  build_states-Amounts timeout now es p =
      apply_events-Amounts timeout now (sort in_order es) [] (λ e i. p e (In-sort in_order es e i))
        tt
