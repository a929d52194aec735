-- ===== src/Indexer/Retry/Reaches.antt =====
-- server/internal/indexer/indexer.go: the ends of a retry whose block is known.
use rwa_platform_evm.Common.{
  String, Bool, true, false, List, Option, none, some, if◌then◌else◌, ◌==◌, nat_eq, ◌≡◌, ◌≢◌, ◌⊎◌,
  inl, inr, refl, sym, ◌∙◌, ap, subst, arith, Bool-cases, Option-cases,
}
use rwa_platform_evm.Common.Dict.{
  lookup, insert, lookup-insert, lookup-insert_self, lookup-insert_other,
}
use rwa_platform_evm.Common.Result.{Result, ok, err}
use rwa_platform_evm.Models.Transaction.{Hash}
use rwa_platform_evm.Models.ChainEvent.{ChainEvent, Value, EventKey, event_key, key_eq}
use rwa_platform_evm.Models.DeadLetter.{Log, DeadLetterId, DeadLetterEntry, dead_letter_eq}
use rwa_platform_evm.Store.Chain.{ChainStore, EventStore, exists, create_event}
use rwa_platform_evm.Store.DeadLetters.{DeadLetterStore, record_entry, recorded, resolve}
use rwa_platform_evm.Indexer.State.{Config, World, IndexError}
use rwa_platform_evm.Indexer.DeadLetters.{dead_letter_id, dead_letter_of, record_dead_letter}
use rwa_platform_evm.Indexer.Scan.{log_key, build_event}
use rwa_platform_evm.Indexer.Retry.{
  stored_queue, resolve_entry, dismissal_of, dismiss, create_unless, ingest,
}

abbrev pub IsHandled : DeadLetterId → World → Type 0
IsHandled id v =
    (e : DeadLetterEntry) × (lookup id v.dead_letters ≡ some e) × (e.is_resolved ≡ true)

-- The log waits for another retry.
abbrev pub IsWaiting : DeadLetterId → Log → World → Type 0
IsWaiting id l v =
    (e : DeadLetterEntry) × (lookup id v.dead_letters ≡ some e)
    × (e.source_data ≡ some l)
    × (e.is_resolved ≡ false)

-- The event is stored under its key, and the events under all other keys are as before.
abbrev pub IsIngested : EventKey → World → World → Type 0
IsIngested key w v =
    ((x : ChainEvent) × (lookup key v.store.events ≡ some x))
    × ((k : EventKey) → key ≢ k → lookup k v.store.events ≡ lookup k w.store.events)

-- Under the canonical hash of the log's block.
abbrev pub Ends : Config → DeadLetterId → World → Log → Hash → World → Type 0
Ends c id w l h v =
    ((h ≢ l.block_hash) × (v.store ≡ w.store) × IsHandled id v)
    ⊎ (((h ≡ l.block_hash)
          × (c.decode l ≡ none)
          × (v.store ≡ w.store)
          × IsWaiting (dead_letter_id c l) l v)
        ⊎ ((h ≡ l.block_hash)
            × (c.decode l ≢ none)
            × IsIngested (log_key c l) w v
            × IsHandled id v))

abbrev pub Settles : Config → DeadLetterId → World → Result IndexError (Unit {0}) × World → Type 0
Settles c id w (err e, v) = (v.store ≡ w.store) × (v.dead_letters ≡ w.dead_letters)
Settles c id w (ok u, v) =
    (entry : DeadLetterEntry) × (l : Log) × (h : Hash) × (lookup id w.dead_letters ≡ some entry)
    × (entry.source_data ≡ some l)
    × ((c.source w.calls).header_by_number l.block_number ≡ some h)
    × Ends c id w l h v

-- A call that ends well in a world with the property.
abbrev pub Reaches : (World → Type 0) → Result IndexError (Unit {0}) × World → Type 0
Reaches P (err e, v) = ⊥
Reaches P (ok u, v) = P v

pub resolve-found :
    (id : DeadLetterId) (e : DeadLetterEntry) (m : DeadLetterStore)
    → lookup id m ≡ some e
    → resolve id m ≡ ok (insert id (record e { is_resolved = true }) m)
unfolding resolve
resolve-found id e m h = ground arith

pub resolve_entry-Reaches :
    (P : World → Type 0) (id : DeadLetterId) (e : DeadLetterEntry) (w : World)
    → lookup id w.dead_letters ≡ some e
    → P (record w { dead_letters = insert id (record e { is_resolved = true }) w.dead_letters })
    → Reaches P (resolve_entry id w)
unfolding resolve_entry stored_queue
resolve_entry-Reaches P id e w h p =
    subst (λ r. Reaches P (stored_queue r w)) (sym (resolve-found id e w.dead_letters h)) p

pub now-IsHandled :
    (id : DeadLetterId) (e : DeadLetterEntry) (w : World)
    → IsHandled id
        (record w { dead_letters = insert id (record e { is_resolved = true }) w.dead_letters })
now-IsHandled id e w = (
  record e { is_resolved = true },
  lookup-insert_self id (record e { is_resolved = true }) w.dead_letters,
  refl,
)

-- An entry stays there when another one is recorded.
pub record_entry-keeps :
    (id : DeadLetterId) (x e : DeadLetterEntry) (m : DeadLetterStore)
    → lookup id m ≡ some e
    → (y : DeadLetterEntry) × (lookup id (record_entry x m) ≡ some y)
unfolding record_entry
record_entry-keeps id x e m h = elim (Bool-cases (x.id == id)) [
  | inl y ↦ (
    recorded x (lookup x.id m),
    lookup-insert x.id id (recorded x (lookup x.id m)) m
        ∙ ap (λ b. if b then some (recorded x (lookup x.id m)) else lookup id m) y,
  )
  | inr n ↦ (
    e,
    lookup-insert x.id id (recorded x (lookup x.id m)) m
        ∙ ap (λ b. if b then some (recorded x (lookup x.id m)) else lookup id m) n
        ∙ h,
  )
]

pub dismiss-Reaches :
    (c : Config) (id : DeadLetterId) (e : DeadLetterEntry) (l : Log) (h : Hash) (w v : World)
    → lookup id v.dead_letters ≡ some e
    → v.store ≡ w.store
    → h ≢ l.block_hash
    → Reaches (Ends c id w l h) (dismiss id e v)
unfolding dismiss
dismiss-Reaches c id e l h w v found same d =
    let (y, at) = record_entry-keeps id (dismissal_of e) e v.dead_letters found in
    let next = record v { dead_letters = record_entry (dismissal_of e) v.dead_letters } in
    resolve_entry-Reaches (Ends c id w l h) id y next at (inl (d, same, now-IsHandled id y next))

abbrev pub Put : ChainEvent → EventStore → EventStore → Type 0
Put x m n =
    ((y : ChainEvent) × (lookup (event_key x) n ≡ some y))
    × ((k : EventKey) → event_key x ≢ k → lookup k n ≡ lookup k m)

pub exists-found :
    (k : EventKey) (m : EventStore) (b : Bool)
    → exists k m ≡ b
    → b ≡ true
    → (y : ChainEvent) × (lookup k m ≡ some y)
unfolding exists
exists-found k m b e t = elim (Option-cases (lookup k m)) [
  | inl n ↦ let clash : false ≡ true = ground arith in cc
  | inr found ↦ found
]

pub create_unless-Put :
    (x : ChainEvent) (m : EventStore) (b : Bool)
    → exists (event_key x) m ≡ b
    → Put x m (create_unless b x m)
unfolding create_event
create_unless-Put x m true e = (exists-found (event_key x) m true e refl, (λ k d. refl))
create_unless-Put x m false e =
    ((x, lookup-insert_self (event_key x) x m), (λ k d. lookup-insert_other (event_key x) k x m d))

pub waiting-recorded :
    (c : Config) (l : Log) (w : World) (o : Option DeadLetterEntry)
    → ((recorded (dead_letter_of c l) o).source_data ≡ some l)
      × ((recorded (dead_letter_of c l) o).is_resolved ≡ false)
waiting-recorded c l w none = (refl, refl)
waiting-recorded c l w (some old) = (refl, refl)

pub ingest-Reaches :
    (c : Config) (id : DeadLetterId) (e : DeadLetterEntry) (l : Log) (h : Hash) (w v : World)
    (o : Option (String × List (String × Value)))
    → lookup id v.dead_letters ≡ some e
    → v.store ≡ w.store
    → h ≡ l.block_hash
    → c.decode l ≡ o
    → Reaches (Ends c id w l h) (ingest c id l o v)
unfolding ingest record_dead_letter record_entry
ingest-Reaches c id e l h w v none found same at d =
    let key = dead_letter_id c l in
    let x = recorded (dead_letter_of c l) (lookup key v.dead_letters) in
    let (kept, waiting) = waiting-recorded c l v (lookup key v.dead_letters) in
    inr (inl (at, d, same, (x, lookup-insert_self key x v.dead_letters, kept, waiting)))
ingest-Reaches c id e l h w v (some (name, fields)) found same at d =
    let x = build_event c l name fields in
    let m = create_unless (exists (log_key c l) v.store.events) x v.store.events in
    let next = record v { store = record v.store { events = m } } in
    let (here, others) =
      create_unless-Put x v.store.events (exists (event_key x) v.store.events) refl in
    resolve_entry-Reaches (Ends c id w l h) id e next found (
      inr (
        inr (
          at,
          (λ none_there. cc),
          (here, (λ k far. others k far ∙ ap (λ (s : ChainStore). lookup k s.events) same)),
          now-IsHandled id e next,
        )))
