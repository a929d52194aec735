-- ===== src/Redemption/Rebuild.antt =====
-- server/internal/redemption/projector.go: what `Reconcile` leaves in the read model.
use text.Mathlib.TextEquality.{eq_iff}
use rwa_platform_evm.Common.{
  ℕ, String, not, List, [], ◌∷◌, Option, none, some, ◌==◌, string_eq, nat_eq, nat_beq_iff, ◌≡◌, ◌≢◌,
  refl, arith, sort, inl, inr, Bool-cases, ◌∙◌, ap, beq_refl,
}
use rwa_platform_evm.Common.Dict.{
  lookup, insert, lookup-insert, IsMap, insert-IsMap, unless, lookup-delete_if,
}
use rwa_platform_evm.Common.Rows.{AreRows, lookup-key_of, insert-AreRows}
use rwa_platform_evm.Models.Transaction.{Address}
use rwa_platform_evm.Models.ChainEvent.{ChainEvent, in_order}
use rwa_platform_evm.Models.Redemption.{RedemptionRequest, RedemptionStatus}
use rwa_platform_evm.Store.Chain.{EventStore}
use rwa_platform_evm.Redemption.{
  States, Kind, request, fund, complete, reject, cancel, ignored, advance, apply_kind, requested,
  store_change, id_of, kind_of, apply_event, apply_events, build_states, upsert, upsert_all,
  delete_stale_generation, reconcile, list_by_names, event_names,
}

abbrev pub request_id : RedemptionRequest → String
request_id r = r.id

abbrev pub stamped : ℕ → Option RedemptionRequest → Option RedemptionRequest
stamped gen none = none
stamped gen (some r) = some (record r { generation = gen })

-- No row of the read model has the generation.
abbrev pub IsFresh : ℕ → States → Type 0
IsFresh gen m = (id : String) (r : RedemptionRequest) → lookup id m ≡ some r → r.generation ≢ gen

or_old : Option RedemptionRequest → Option RedemptionRequest → Option RedemptionRequest
or_old none o = o
or_old (some r) o = some r

lookup-upsert_all :
    (gen : ℕ) (id : String) (s m : States)
    → AreRows request_id s
    → lookup id (upsert_all gen s m) ≡ or_old (stamped gen (lookup id s)) (lookup id m)
unfolding upsert_all upsert lookup or_old
lookup-upsert_all gen id [] m k = refl
lookup-upsert_all gen id ((j, r) ∷ s) m (own, fresh, k) = ground (
  arith,
  lookup-upsert_all gen id s (upsert (record r { generation = gen }) m) k,
  lookup-insert r.id id (record r { generation = gen }) m,
  eq_iff j id,
  eq_iff r.id id,
)

upsert_all-IsMap : (gen : ℕ) (s m : States) → IsMap m → IsMap (upsert_all gen s m)
unfolding upsert_all upsert
upsert_all-IsMap gen [] m h = h
upsert_all-IsMap gen ((j, r) ∷ s) m h =
    upsert_all-IsMap gen s (insert r.id (record r { generation = gen }) m)
      (insert-IsMap r.id (record r { generation = gen }) m h)

-- A change keeps the ID.
abbrev Owned : String → Option RedemptionRequest → Type 0
Owned key none = Unit
Owned key (some r) = r.id ≡ key

advance-Owned :
    (now : ℕ) (key : String) (e : ChainEvent) (k : Kind) (s : RedemptionStatus)
    (r : RedemptionRequest)
    → r.id ≡ key
    → Owned key (advance now e k s r)
unfolding advance
advance-Owned now key e k s r h = ground arith

apply_kind-Owned :
    (timeout now : ℕ) (key : String) (e : ChainEvent) (k : Kind) (o : Option RedemptionRequest)
    → Owned key o
    → Owned key (apply_kind timeout now key e k o)
unfolding apply_kind requested advance
apply_kind-Owned timeout now key e request o h = refl
apply_kind-Owned timeout now key e fund none h = tt
apply_kind-Owned timeout now key e complete none h = tt
apply_kind-Owned timeout now key e reject none h = tt
apply_kind-Owned timeout now key e cancel none h = tt
apply_kind-Owned timeout now key e ignored none h = tt
apply_kind-Owned timeout now key e fund (some r) h = advance-Owned now key e fund r.status r h
apply_kind-Owned timeout now key e complete (some r) h =
    advance-Owned now key e complete r.status r h
apply_kind-Owned timeout now key e reject (some r) h = advance-Owned now key e reject r.status r h
apply_kind-Owned timeout now key e cancel (some r) h = advance-Owned now key e cancel r.status r h
apply_kind-Owned timeout now key e ignored (some r) h = advance-Owned now key e ignored r.status r h

store_change-AreRows :
    (key : String) (o : Option RedemptionRequest) (m : States)
    → Owned key o
    → AreRows request_id m
    → AreRows request_id (store_change key o m)
unfolding store_change
store_change-AreRows key none m own h = h
store_change-AreRows key (some r) m own h = insert-AreRows request_id m key r own h

lookup-Owned :
    (key : String) (m : States) (o : Option RedemptionRequest)
    → AreRows request_id m
    → lookup key m ≡ o
    → Owned key o
lookup-Owned key m none h e = tt
lookup-Owned key m (some r) h e = lookup-key_of request_id m key r h e

apply_event-AreRows :
    (timeout now : ℕ) (e : ChainEvent) (m : States)
    → AreRows request_id m
    → AreRows request_id (apply_event timeout now e m)
unfolding apply_event
apply_event-AreRows timeout now e m h = elim (Bool-cases (id_of e == "")) [
  | inl y ↦ rw y h
  | inr x ↦ rw x (
      store_change-AreRows (id_of e) _ m
        (apply_kind-Owned timeout now (id_of e) e (kind_of e.name) (lookup (id_of e) m)
          (lookup-Owned (id_of e) m (lookup (id_of e) m) h refl))
        h)
]

apply_events-AreRows :
    (timeout now : ℕ) (es : List ChainEvent) (m : States)
    → AreRows request_id m
    → AreRows request_id (apply_events timeout now es m)
unfolding apply_events
apply_events-AreRows timeout now [] m h = h
apply_events-AreRows timeout now (e ∷ es) m h =
    apply_events-AreRows timeout now es (apply_event timeout now e m)
      (apply_event-AreRows timeout now e m h)

build_states-AreRows :
    (timeout now : ℕ) (es : List ChainEvent) → AreRows request_id (build_states timeout now es)
unfolding build_states
build_states-AreRows timeout now es = apply_events-AreRows timeout now (sort in_order es) [] tt

-- After the deletion of the rows with another generation.
kept_row :
    (gen : ℕ) (id : String) (o old : Option RedemptionRequest)
    → ((r : RedemptionRequest) → old ≡ some r → r.generation ≢ gen)
    → unless (λ _ r. not (r.generation == gen)) id (or_old (stamped gen o) old) ≡ stamped gen o
unfolding or_old
kept_row gen id none none f = refl
kept_row gen id none (some r) f = ground (arith, nat_beq_iff r.generation gen, f r refl)
kept_row gen id (some r) old f = ground (arith, beq_refl gen)

-- `Reconcile` makes the read model what the stored events say, whatever it held before: under each ID
-- stands the state that `BuildStates` derives from the events of the five kinds, stamped with this
-- rebuild's generation, and nothing where it derives none. The read model is a map, and no row in it
-- has that generation yet.
pub reconcile-Rebuilds :
    (chain : ℕ) (escrow : Address) (timeout now gen : ℕ) (events : EventStore) (m : States)
    → IsMap m
    → IsFresh gen m
    → (id : String)
    → lookup id (reconcile chain escrow timeout now gen events m)
      ≡ stamped gen
          (lookup id (build_states timeout now (list_by_names chain escrow event_names events)))
unfolding reconcile delete_stale_generation
reconcile-Rebuilds chain escrow timeout now gen events m h f id =
    let s = build_states timeout now (list_by_names chain escrow event_names events) in
    lookup-delete_if _ id (upsert_all gen s m) (upsert_all-IsMap gen s m h)
    ∙ ap (unless (λ _ r. not (r.generation == gen)) id) (
        lookup-upsert_all gen id s m
          (build_states-AreRows timeout now (list_by_names chain escrow event_names events)))
    ∙ kept_row gen id (lookup id s) (lookup id m) (f id)
