-- ===== src/Indexer/Scan/Stored.antt =====
-- server/internal/indexer/indexer.go: the events and block hashes that a chunk stores.
use rwa_platform_evm.Common.{
  true, false, List, [], ◌∷◌, Option, none, some, String, if◌then◌else◌, ◌==◌, nat_eq, ◌≡◌, ◌≢◌,
  refl, Bool-cases, Option-cases, ◌⊎◌, inl, inr, In, sym, subst, ap, ◌∙◌,
}
use rwa_platform_evm.Common.Dict.{lookup, lookup-insert}
use rwa_platform_evm.Common.Result.{Result, ok, err}
use rwa_platform_evm.Models.ChainEvent.{ChainEvent, EventKey, key_eq, key_beq_iff, event_key, Value}
use rwa_platform_evm.Store.Chain.{ChainStore, EventStore, exists, create_event, create_events}
use rwa_platform_evm.Indexer.State.{Config, World, M, and_then, Log, IndexError}
use rwa_platform_evm.Indexer.Scan.{
  prepare_events, prepare_log, handle_decode_failure, add_event, build_event, log_key,
}
use rwa_platform_evm.Indexer.Scan.Ranges.{Yields, and_then-Yields}

-- What a log decodes to.
abbrev pub Decoded : Type 0
Decoded = String × List (String × Value)

-- The event of one of the logs, which is not removed and decodes, under its key.
abbrev pub IsOf : Config → List Log → EventKey → ChainEvent → Type 0
IsOf c logs k e =
    (l : Log) × (d : Decoded) × In l logs
    × (c.decode l ≡ some d)
    × (k ≡ log_key c l)
    × (e ≡ build_event c l d.0 d.1)

abbrev pub HasEvent : EventStore → EventKey → Type 0
HasEvent m k = (e : ChainEvent) × (lookup k m ≡ some e)

abbrev pub IsPrepared : Config → EventStore → List Log → List ChainEvent → Type 0
IsPrepared c m ls es =
    ((e : ChainEvent) → In e es → IsOf c ls (event_key e) e × (exists (event_key e) m ≡ false))
    × ((l : Log) (d : Decoded)
        → In l ls
        → c.decode l ≡ some d
        → (exists (log_key c l) m ≡ true)
          ⊎ ((e : ChainEvent) × In e es × (event_key e ≡ log_key c l)))

IsPrepared-skip :
    (c : Config) (m : EventStore) (l : Log) (ls : List Log) (es : List ChainEvent)
    → ((d : Decoded) → c.decode l ≡ some d → exists (log_key c l) m ≡ true)
    → IsPrepared c m ls es
    → IsPrepared c m (l ∷ ls) es
IsPrepared-skip c m l ls es known (a, b) = (
  λ e i. let ((x, d, j, q, r, t), n) = a e i in ((x, d, inr j, q, r, t), n),
  λ x d i q. elim i [
    | inl same ↦ inl (
        subst (λ y. exists (log_key c y) m ≡ true) (sym same)
          (known d (subst (λ y. c.decode y ≡ some d) same q)))
    | inr j ↦ b x d j q
  ],
)

IsPrepared-add :
    (c : Config) (m : EventStore) (l : Log) (ls : List Log) (es : List ChainEvent) (d : Decoded)
    → c.decode l ≡ some d
    → exists (log_key c l) m ≡ false
    → IsPrepared c m ls es
    → IsPrepared c m (l ∷ ls) (build_event c l d.0 d.1 ∷ es)
IsPrepared-add c m l ls es d q fresh (a, b) = (
  λ e i. elim i [
    | inl same ↦
        subst (λ x. IsOf c (l ∷ ls) (event_key x) x × (exists (event_key x) m ≡ false)) (sym same)
          ((l, d, inl refl, q, refl, refl), fresh)
    | inr j ↦ let ((x, d', k, r, t, u), n) = a e j in ((x, d', inr k, r, t, u), n)
  ],
  λ x d' i r. elim i [
    | inl same ↦ inr (build_event c l d.0 d.1, inl refl, ap (log_key c) (sym same))
    | inr j ↦ elim (b x d' j r) [ inl old ↦ inl old | inr (e, k, p) ↦ inr (e, inr k, p) ]
  ],
)

module _ (c : Config) (s : ChainStore) where
  abbrev pub Prepares : List Log → Result IndexError (List ChainEvent) × World → Type 0
  Prepares ls r = Yields (λ es v. (v.store ≡ s) × IsPrepared c s.events ls es) (λ v. v.store ≡ s) r

  Prepares-skip :
      (l : Log) (ls : List Log) (r : Result IndexError (List ChainEvent) × World)
      → ((d : Decoded) → c.decode l ≡ some d → exists (log_key c l) s.events ≡ true)
      → Prepares ls r
      → Prepares (l ∷ ls) r
  Prepares-skip l ls (ok es, v) known (e, p) = (e, IsPrepared-skip c s.events l ls es known p)
  Prepares-skip l ls (err x, v) known e = e

  queued :
      (l : Log) (ls : List Log) (w : World) (rest : M (List ChainEvent))
      → w.store ≡ s
      → c.decode l ≡ none
      → ((v : World) → v.store ≡ s → Prepares ls (rest v))
      → Prepares (l ∷ ls) (and_then (handle_decode_failure c l w) (λ _. rest))
  unfolding handle_decode_failure
  queued l ls w rest e q k = elim (Bool-cases c.has_dead_letters) [
    | inl y ↦ rw y (Prepares-skip l ls _ (λ d p. cc) (k _ e))
    | inr x ↦ rw x e
  ]

  prepare_log-Prepares :
      (l : Log) (ls : List Log) (w : World) (rest : M (List ChainEvent)) (o : Option Decoded)
      → w.store ≡ s
      → c.decode l ≡ o
      → exists (log_key c l) s.events ≡ false
      → ((v : World) → v.store ≡ s → Prepares ls (rest v))
      → Prepares (l ∷ ls) (prepare_log c l rest o w)
  unfolding prepare_log add_event
  prepare_log-Prepares l ls w rest none e q x k = queued l ls w rest e q k
  prepare_log-Prepares l ls w rest (some d) e q x k =
      and_then-Yields (λ es v. (v.store ≡ s) × IsPrepared c s.events ls es)
        (λ es v. (v.store ≡ s) × IsPrepared c s.events (l ∷ ls) es) (λ v. v.store ≡ s) (rest w) _
        (k w e) (λ es v p. (p.0, IsPrepared-add c s.events l ls es d q x p.1))

  pub prepare_events-Prepares :
      (ls : List Log) (w : World) → w.store ≡ s → Prepares ls (prepare_events c ls w)
  unfolding prepare_events
  prepare_events-Prepares [] w e = (e, (λ x i. absurd i, λ l d i q. absurd i))
  prepare_events-Prepares (l ∷ ls) w e =
      let same = ap (λ (t : ChainStore). exists (log_key c l) t.events) e in
      elim (Bool-cases (exists (log_key c l) w.store.events)) [
        | inl y ↦ rw y (Prepares-skip l ls _ (λ d p. sym same ∙ y) (prepare_events-Prepares ls w e))
        | inr x ↦ rw x (
            prepare_log-Prepares l ls w (prepare_events c ls) (c.decode l) e refl (sym same ∙ x)
              (prepare_events-Prepares ls))
      ]

lookup-create :
    (k : EventKey) (e : ChainEvent) (m : EventStore)
    → lookup k (create_event e m) ≡ (if event_key e == k then some e else lookup k m)
unfolding create_event
lookup-create k e m = lookup-insert (event_key e) k e m

-- An event found afterwards was there before, or is one of those stored.
lookup-create_events :
    (es : List ChainEvent) (m : EventStore) (k : EventKey) (e : ChainEvent)
    → lookup k (create_events es m) ≡ some e
    → (lookup k m ≡ some e) ⊎ (In e es × (k ≡ event_key e))
unfolding create_events
lookup-create_events [] m k e h = inl h
lookup-create_events (x ∷ es) m k e h = elim (lookup-create_events es (create_event x m) k e h) [
  | inr (i, q) ↦ inr (inr i, q)
  | inl found ↦ elim (Bool-cases (event_key x == k)) [
    | inl y ↦
        let same : some x ≡ some e =
          sym (ap (λ b. if b then some x else lookup k m) y) ∙ sym (lookup-create k x m) ∙ found in
        let is : x ≡ e = cc in
        inr (inl (sym is), sym ((key_beq_iff (event_key x) k).0 y) ∙ ap event_key is)
    | inr n ↦
        inl (sym (ap (λ b. if b then some x else lookup k m) n) ∙ sym (lookup-create k x m) ∙ found)
  ]
]

-- A key that none of the events has keeps what it had.
create_events-other :
    (es : List ChainEvent) (m : EventStore) (k : EventKey)
    → ((e : ChainEvent) → In e es → event_key e ≢ k)
    → lookup k (create_events es m) ≡ lookup k m
unfolding create_events
create_events-other [] m k h = refl
create_events-other (x ∷ es) m k h =
    create_events-other es (create_event x m) k (λ e i. h e (inr i))
    ∙ lookup-create k x m
    ∙ (elim (Bool-cases (event_key x == k)) [
      | inl y ↦ absurd (h x (inl refl) ((key_beq_iff (event_key x) k).0 y))
      | inr n ↦ ap (λ b. if b then some x else lookup k m) n
    ])

create_events-keeps :
    (es : List ChainEvent) (m : EventStore) (k : EventKey)
    → HasEvent m k
    → HasEvent (create_events es m) k
unfolding create_events
create_events-keeps [] m k h = h
create_events-keeps (x ∷ es) m k (e, h) =
    create_events-keeps es (create_event x m) k (elim (Bool-cases (event_key x == k)) [
      | inl y ↦ (x, lookup-create k x m ∙ ap (λ b. if b then some x else lookup k m) y)
      | inr n ↦ (e, lookup-create k x m ∙ ap (λ b. if b then some x else lookup k m) n ∙ h)
    ])

create_events-stored :
    (es : List ChainEvent) (m : EventStore) (e : ChainEvent)
    → In e es
    → HasEvent (create_events es m) (event_key e)
unfolding create_events
create_events-stored [] m e i = absurd i
create_events-stored (x ∷ es) m e (inr i) = create_events-stored es (create_event x m) e i
create_events-stored (x ∷ es) m e (inl q) =
    create_events-keeps es (create_event x m) (event_key e) (
      x,
      lookup-create (event_key e) x m
          ∙ ap (λ b. if b then some x else lookup (event_key e) m)
              ((key_beq_iff (event_key x) (event_key e)).1 (ap event_key (sym q))),
    )

exists-HasEvent : (k : EventKey) (m : EventStore) → exists k m ≡ true → HasEvent m k
unfolding exists
exists-HasEvent k m h = elim (Option-cases (lookup k m)) [
  | inl q ↦ cc (rw (q, exists) at h)
  | inr (e, q) ↦ (e, q)
]

-- The events of a chunk's logs: what was stored stays as it is, whatever is added is the event of a
-- log, and each log that decodes has an event under its key afterwards.
abbrev pub HasEventsOf : Config → List Log → EventStore → EventStore → Type 0
HasEventsOf c logs m m' =
    ((k : EventKey) (e : ChainEvent) → lookup k m ≡ some e → lookup k m' ≡ some e)
    × ((k : EventKey) (e : ChainEvent)
        → lookup k m' ≡ some e
        → (lookup k m ≡ some e) ⊎ IsOf c logs k e)
    × ((l : Log) (d : Decoded) → In l logs → c.decode l ≡ some d → HasEvent m' (log_key c l))

exists-some :
    (k : EventKey) (m : EventStore) (e : ChainEvent) → lookup k m ≡ some e → exists k m ≡ true
unfolding exists
exists-some k m e h = rw (h, exists) refl

pub IsPrepared-HasEventsOf :
    (c : Config) (m : EventStore) (logs : List Log) (es : List ChainEvent)
    → IsPrepared c m logs es
    → HasEventsOf c logs m (create_events es m)
IsPrepared-HasEventsOf c m logs es (a, b) = (
  λ k e h.
      create_events-other es m k (λ x i q.
        let fresh = (a x i).1 in
        let old = exists-some k m e h in let same = ap (λ y. exists y m) q in cc)
      ∙ h,
  λ k e h. elim (lookup-create_events es m k e h) [
    | inl old ↦ inl old
    | inr (i, q) ↦ let of_log = (a e i).0 in inr (subst (λ y. IsOf c logs y e) (sym q) of_log)
  ],
  λ l d i q. elim (b l d i q) [
    | inl old ↦ create_events-keeps es m (log_key c l) (exists-HasEvent (log_key c l) m old)
    | inr (e, j, k) ↦ subst (HasEvent (create_events es m)) k (create_events-stored es m e j)
  ],
)
