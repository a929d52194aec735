-- ===== src/Redemption/Projection.antt =====
-- server/internal/redemption: the fields of a derived request, and when it can be claimed.
use rwa_platform_evm.Common.{
  ℕ, ◌+◌, ◌≤◌, ◌%◌, ◌^◌, String, Bool, true, false, List, [], ◌∷◌, Option, none, some,
  if◌then◌else◌, ◌==◌, string_eq, nat_eq, ◌≡◌, ◌≢◌, ◌↔◌, ◌⊎◌, refl, arith, sort, inl, inr,
  Bool-cases, sym, subst,
}
use rwa_platform_evm.Common.Dict.{lookup, lookup-insert}
use rwa_platform_evm.Models.Transaction.{Hash}
use rwa_platform_evm.Models.ChainEvent.{ChainEvent, in_order}
use rwa_platform_evm.Models.Redemption.{
  RedemptionStatus, RedemptionRequest, pending, funded, completed,
}
use rwa_platform_evm.Redemption.{
  Kind, request, fund, complete, reject, cancel, ignored, kind_of, advance, apply_kind, requested,
  States, store_change, id_of, apply_event, apply_events, build_states, confirmations, claimable,
}

-- Which of the funding and the claim are known in a status.
abbrev pub Shape : RedemptionStatus → Option Hash → Option Hash → Type 0
Shape funded f c = ((h : Hash) × (f ≡ some h)) × (c ≡ none)
Shape completed f c = ((h : Hash) × (f ≡ some h)) × ((h : Hash) × (c ≡ some h))
Shape _ f c = (f ≡ none) × (c ≡ none)

abbrev pub IsConsistent : ℕ → Option RedemptionRequest → Type 0
IsConsistent timeout none = Unit
IsConsistent timeout (some r) =
    Shape r.status r.fund_tx_hash r.claim_tx_hash
    × (r.timeout_at ≡ (r.created_at + timeout) % 2 ^ 64)
    × ((h : Hash) × (r.request_tx_hash ≡ some h))

advance-IsConsistent :
    (timeout now : ℕ) (e : ChainEvent) (k : Kind) (s : RedemptionStatus) (r : RedemptionRequest)
    → Shape s r.fund_tx_hash r.claim_tx_hash
    → (r.timeout_at ≡ (r.created_at + timeout) % 2 ^ 64)
      × ((h : Hash) × (r.request_tx_hash ≡ some h))
    → IsConsistent timeout (advance now e k s r)
unfolding advance
advance-IsConsistent timeout now e fund pending r (a, b) t = (((e.tx_hash, refl), b), t.0, t.1)
advance-IsConsistent timeout now e complete funded r (a, b) t = ((a, (e.tx_hash, refl)), t.0, t.1)
advance-IsConsistent timeout now e reject pending r (a, b) t = ((a, b), t.0, t.1)
advance-IsConsistent timeout now e cancel pending r (a, b) t = ((a, b), t.0, t.1)
advance-IsConsistent timeout now e _ _ r h t = tt

apply_kind-IsConsistent :
    (timeout now : ℕ) (key : String) (e : ChainEvent) (k : Kind) (o : Option RedemptionRequest)
    → IsConsistent timeout o
    → IsConsistent timeout (apply_kind timeout now key e k o)
unfolding apply_kind requested
apply_kind-IsConsistent timeout now key e request o h = ((refl, refl), refl, (e.tx_hash, refl))
apply_kind-IsConsistent timeout now key e fund none h = tt
apply_kind-IsConsistent timeout now key e complete none h = tt
apply_kind-IsConsistent timeout now key e reject none h = tt
apply_kind-IsConsistent timeout now key e cancel none h = tt
apply_kind-IsConsistent timeout now key e ignored none h = tt
apply_kind-IsConsistent timeout now key e fund (some r) (s, t, u) =
    advance-IsConsistent timeout now e fund r.status r s (t, u)
apply_kind-IsConsistent timeout now key e complete (some r) (s, t, u) =
    advance-IsConsistent timeout now e complete r.status r s (t, u)
apply_kind-IsConsistent timeout now key e reject (some r) (s, t, u) =
    advance-IsConsistent timeout now e reject r.status r s (t, u)
apply_kind-IsConsistent timeout now key e cancel (some r) (s, t, u) =
    advance-IsConsistent timeout now e cancel r.status r s (t, u)
apply_kind-IsConsistent timeout now key e ignored (some r) (s, t, u) =
    advance-IsConsistent timeout now e ignored r.status r s (t, u)

abbrev AllConsistent : ℕ → States → Type 0
AllConsistent timeout m = (id : String) → IsConsistent timeout (lookup id m)

if-IsConsistent :
    (timeout : ℕ) (b : Bool) (o p : Option RedemptionRequest)
    → IsConsistent timeout o
    → IsConsistent timeout p
    → IsConsistent timeout (if b then o else p)
if-IsConsistent timeout true o p h k = h
if-IsConsistent timeout false o p h k = k

store_change-AllConsistent :
    (timeout : ℕ) (key : String) (o : Option RedemptionRequest) (m : States)
    → IsConsistent timeout o
    → AllConsistent timeout m
    → AllConsistent timeout (store_change key o m)
unfolding store_change
store_change-AllConsistent timeout key none m h a id = a id
store_change-AllConsistent timeout key (some r) m h a id =
    subst (IsConsistent timeout) (sym (lookup-insert key id r m))
      (if-IsConsistent timeout (key == id) (some r) (lookup id m) h (a id))

apply_events-AllConsistent :
    (timeout now : ℕ) (es : List ChainEvent) (m : States)
    → AllConsistent timeout m
    → AllConsistent timeout (apply_events timeout now es m)
unfolding apply_events apply_event
apply_events-AllConsistent timeout now [] m a = a
apply_events-AllConsistent timeout now (e ∷ es) m a =
    apply_events-AllConsistent timeout now es (apply_event timeout now e m)
      (elim (Bool-cases (id_of e == "")) [
        | inl y ↦ rw y a
        | inr x ↦ rw x (
            store_change-AllConsistent timeout (id_of e) _ m
              (apply_kind-IsConsistent timeout now (id_of e) e (kind_of e.name) (lookup (id_of e) m)
                (a (id_of e)))
              a)
      ])

-- Each derived request is consistent: the hash of its funding is known exactly if it is funded or
-- completed, the hash of its claim exactly if it is completed, and its timeout is its creation plus the
-- configured time, as an `int64`.
pub build_states-IsConsistent :
    (timeout now : ℕ) (es : List ChainEvent) (id : String)
    → IsConsistent timeout (lookup id (build_states timeout now es))
unfolding build_states lookup
build_states-IsConsistent timeout now es =
    apply_events-AllConsistent timeout now (sort in_order es) [] (λ id. tt)

-- A request is claimable exactly if it is funded and enough blocks follow the one it was funded in,
-- which is to be known unless none have to.
pub claimable-decides :
    (r : RedemptionRequest) (current finality : ℕ)
    → (claimable r current finality ≡ true) ↔ (
        (r.status ≡ funded)
        × ((finality ≡ 0) ⊎ ((r.funded_at_block ≢ 0) × (r.funded_at_block + finality ≤ current))))
unfolding claimable confirmations
claimable-decides r current finality = ground arith
