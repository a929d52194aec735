-- ===== src/Redemption/Lifecycle.antt =====
-- server/internal/redemption/projector.go: `BuildStates` as the lives of many requests.
use rwa_platform_evm.Common.{
  ℕ, String, false, List, [], ◌∷◌, Option, none, some, if◌then◌else◌, ◌==◌, string_eq, nat_eq, ◌≡◌,
  ◌≢◌, refl, arith, sort, inl, inr, Bool-cases, ◌∙◌, ap,
}
use mathlib.Core.List.{Permᴰ}
use text.Mathlib.TextEquality.{eq_iff}
use rwa_platform_evm.Common.Dict.{lookup, lookup-insert}
use rwa_platform_evm.Models.ChainEvent.{ChainEvent, in_order}
use rwa_platform_evm.Models.Redemption.{RedemptionStatus, RedemptionRequest}
use rwa_platform_evm.Redemption.Lives.{lived, life, life_kind, names_of, kind_of-life}
use rwa_platform_evm.Redemption.Places.{IsInOrder, sort-IsInOrder, perm-sort}
use rwa_platform_evm.Redemption.{
  Kind, request, fund, complete, reject, cancel, ignored, kind_of, advance, apply_kind, requested,
  States, store_change, id_of, apply_event, apply_events, build_states,
}

abbrev pub status_of : Option RedemptionRequest → Option RedemptionStatus
status_of none = none
status_of (some r) = some r.status

abbrev or_keep : Option RedemptionRequest → Option RedemptionRequest → Option RedemptionRequest
or_keep none o = o
or_keep (some r) o = some r

advance-life :
    (now : ℕ) (e : ChainEvent) (k : Kind) (s : RedemptionStatus) (r : RedemptionRequest)
    → k ≢ request
    → r.status ≡ s
    → status_of (or_keep (advance now e k s r) (some r)) ≡ life_kind (some s) k
unfolding advance life_kind
advance-life now e k s r n h = ground arith

apply_kind-life :
    (timeout now : ℕ) (id : String) (e : ChainEvent) (k : Kind) (o : Option RedemptionRequest)
    → status_of (or_keep (apply_kind timeout now id e k o) o) ≡ life_kind (status_of o) k
unfolding apply_kind life_kind requested
apply_kind-life timeout now id e request o = refl
apply_kind-life timeout now id e fund none = refl
apply_kind-life timeout now id e complete none = refl
apply_kind-life timeout now id e reject none = refl
apply_kind-life timeout now id e cancel none = refl
apply_kind-life timeout now id e ignored none = refl
apply_kind-life timeout now id e fund (some r) = advance-life now e fund r.status r (λ x. cc) refl
apply_kind-life timeout now id e complete (some r) =
    advance-life now e complete r.status r (λ x. cc) refl
apply_kind-life timeout now id e reject (some r) =
    advance-life now e reject r.status r (λ x. cc) refl
apply_kind-life timeout now id e cancel (some r) =
    advance-life now e cancel r.status r (λ x. cc) refl
apply_kind-life timeout now id e ignored (some r) =
    advance-life now e ignored r.status r (λ x. cc) refl

-- What a change leaves under each ID.
lookup-store_change :
    (id key : String) (o : Option RedemptionRequest) (m : States)
    → lookup id (store_change key o m)
      ≡ (if key == id then or_keep o (lookup id m) else lookup id m)
unfolding store_change
lookup-store_change id key none m = ground arith
lookup-store_change id key (some r) m = lookup-insert key id r m

-- A round under a given key, for the status under `id`.
round-life :
    (timeout now : ℕ) (id key : String) (e : ChainEvent) (k : Kind) (m : States)
    → id ≢ ""
    → status_of (
        lookup id (
          if key == ""
          then m
          else store_change key (apply_kind timeout now key e k (lookup key m)) m))
      ≡ (if key == id then life_kind (status_of (lookup id m)) k else status_of (lookup id m))
round-life timeout now id key e k m d = elim (Bool-cases (key == id)) [
  | inl y ↦
      let same : key ≡ id = (eq_iff key id).0 y in
      let ne : (key == "") ≡ false = ground (arith, eq_iff key "") in
      rw
        (
          ne,
          lookup-store_change id key (apply_kind timeout now key e k (lookup key m)) m,
          y,
          ap (λ x. lookup x m) same,
        )
        (apply_kind-life timeout now key e k (lookup id m))
  | inr x ↦ ground (
    arith,
    eq_iff key "",
    eq_iff key id,
    lookup-store_change id key (apply_kind timeout now key e k (lookup key m)) m,
  )
]

apply_event-life :
    (timeout now : ℕ) (id : String) (e : ChainEvent) (m : States)
    → id ≢ ""
    → status_of (lookup id (apply_event timeout now e m))
      ≡ (if id_of e == id then life (status_of (lookup id m)) e.name else status_of (lookup id m))
unfolding apply_event
apply_event-life timeout now id e m d =
    round-life timeout now id (id_of e) e (kind_of e.name) m d
    ∙ ap (λ s. if id_of e == id then s else status_of (lookup id m))
        (kind_of-life e.name (status_of (lookup id m)))

apply_events-life :
    (timeout now : ℕ) (id : String) (es : List ChainEvent) (m : States)
    → id ≢ ""
    → status_of (lookup id (apply_events timeout now es m))
      ≡ lived (status_of (lookup id m)) (names_of id es)
unfolding apply_events lived
apply_events-life timeout now id [] m d = refl
apply_events-life timeout now id (e ∷ es) m d =
    apply_events-life timeout now id es (apply_event timeout now e m) d
    ∙ ap (λ o. lived o (names_of id es)) (apply_event-life timeout now id e m d)
    ∙ ground arith

-- Nothing is stored under the empty ID.
apply_event-unnamed :
    (timeout now : ℕ) (e : ChainEvent) (m : States)
    → lookup "" (apply_event timeout now e m) ≡ lookup "" m
unfolding apply_event
apply_event-unnamed timeout now e m = ground (
  arith,
  lookup-store_change "" (id_of e)
      (apply_kind timeout now (id_of e) e (kind_of e.name) (lookup (id_of e) m)) m,
)

apply_events-unnamed :
    (timeout now : ℕ) (es : List ChainEvent) (m : States)
    → lookup "" (apply_events timeout now es m) ≡ lookup "" m
unfolding apply_events
apply_events-unnamed timeout now [] m = refl
apply_events-unnamed timeout now (e ∷ es) m =
    apply_events-unnamed timeout now es (apply_event timeout now e m)
    ∙ apply_event-unnamed timeout now e m

-- The status that the events in order give an ID.
abbrev pub Derives : List ChainEvent → String → Option RedemptionRequest → Type 0
Derives es id o = status_of o ≡ (if id == "" then none else lived none (names_of id es))

-- `BuildStates` runs every request's life by itself: the status that it derives for an ID is what the
-- events of that ID alone, in an order by block and log index, make of a request that does not exist
-- yet. The empty ID has none.
pub build_states-Refines :
    (timeout now : ℕ) (es : List ChainEvent) (id : String)
    → (sorted : List ChainEvent) × Permᴰ es sorted
      × IsInOrder sorted
      × Derives sorted id (lookup id (build_states timeout now es))
unfolding build_states lookup
build_states-Refines timeout now es id = (
  sort in_order es,
  perm-sort es,
  sort-IsInOrder es,
  elim (Bool-cases (id == "")) [
    | inl y ↦
        let same : id ≡ "" = (eq_iff id "").0 y in
        rw y (
          ap (λ i. status_of (lookup i (apply_events timeout now (sort in_order es) []))) same
          ∙ ap status_of (apply_events-unnamed timeout now (sort in_order es) []))
    | inr n ↦ rw n (
        apply_events-life timeout now id (sort in_order es) []
          (λ e. ground (arith, eq_iff id "", e)))
  ],
)
