-- ===== src/Store/NonceLeases/Fencing.antt =====
-- server/internal/dal/memory/nonce_lease.go: one holder at a time, and tokens that fence off the
-- holders before it.
use rwa_platform_evm.Common.{
  ℕ, String, ◌+◌, ◌^◌, ◌≤◌, ◌<◌, true, false, List, [], ◌∷◌, Option, none, some, lt→ltb, ◌==◌,
  string_eq, nat_eq, ◌≡◌, ◌≢◌, refl, inl, inr, ◌∙◌, ap, sym, length, arith, Bool-cases,
}
use rwa_platform_evm.Common.Dict.{lookup, insert, lookup-insert, lookup-insert_self}
use rwa_platform_evm.Common.Result.{err}
use text.Mathlib.TextEquality.{eq_iff}
use rwa_platform_evm.Store.Transactions.{fencing_token_mismatch}
use rwa_platform_evm.Store.NonceLeases.{
  NonceLease, LeaseStore, acquire, renew, release, granted_lease, next_token, is_live, held_by,
  expire_at,
}

-- The calls that any replica may make, with its clock.
pub data LeaseCall : Type 0 where
  acquires : (key holder : String) (ttl now : ℕ) → LeaseCall
  renews : (key holder : String) (token ttl now : ℕ) → LeaseCall
  releases : (key holder : String) (token now : ℕ) → LeaseCall

unfoldable pub after_call : LeaseStore → LeaseCall → LeaseStore
after_call m (acquires key holder ttl now) = (acquire key holder ttl now m).1
after_call m (renews key holder token ttl now) = (renew key holder token ttl now m).1
after_call m (releases key holder token now) = (release key holder token now m).1

unfoldable pub after_calls : LeaseStore → List LeaseCall → LeaseStore
after_calls m [] = m
after_calls m (c ∷ cs) = after_calls (after_call m c) cs

abbrev token_of : Option NonceLease → ℕ
token_of none = 0
token_of (some l) = l.token

-- The last token that was granted for a key; 0 if none was.
abbrev pub last_token : String → LeaseStore → ℕ
last_token key m = token_of (lookup key m)

last_token-expire :
    (key k : String) (at now : ℕ) (o : Option NonceLease) (m : LeaseStore)
    → lookup k m ≡ o
    → last_token key (expire_at at now k o m) ≡ last_token key m
last_token-expire key k at now none m h = refl
last_token-expire key k at now (some l) m h = elim (Bool-cases (k == key)) [
  | inl hit ↦
      let same : k ≡ key = (eq_iff k key).0 hit in
      rw (lookup-insert k key (record l { expires_at = at; updated_at = now }) m, hit)
        (ap token_of (sym h ∙ ap (λ i. lookup i m) same))
  | inr miss ↦
      rw (lookup-insert k key (record l { expires_at = at; updated_at = now }) m, miss) refl
]

-- A call grants one token more, or none.
last_token-call :
    (key : String) (m : LeaseStore) (c : LeaseCall)
    → last_token key m + 1 < 2 ^ 64
    → (last_token key m ≤ last_token key (after_call m c))
      × (last_token key (after_call m c) ≤ last_token key m + 1)
unfolding after_call acquire renew release
last_token-call key m (acquires k h ttl now) b =
    ground (arith, lookup-insert k key (granted_lease k h ttl now (lookup k m)) m, eq_iff k key)
last_token-call key m (renews k h token ttl now) b =
    ground (arith, last_token-expire key k (now + ttl) now (lookup k m) m refl)
last_token-call key m (releases k h token now) b =
    ground (arith, last_token-expire key k now now (lookup k m) m refl)

last_token-calls :
    (key : String) (cs : List LeaseCall) (m : LeaseStore)
    → last_token key m + length cs < 2 ^ 64
    → (last_token key m ≤ last_token key (after_calls m cs))
      × (last_token key (after_calls m cs) ≤ last_token key m + length cs)
unfolding after_calls
last_token-calls key [] m b = omega arith
last_token-calls key (c ∷ cs) m b =
    let one = last_token-call key m c (omega arith) in
    omega (arith, one, last_token-calls key cs (after_call m c) (omega (arith, one)))

-- A grant is made only where no lease is live, and stores the next token.
acquire-granted :
    (key holder : String) (ttl now token : ℕ) (m : LeaseStore)
    → (acquire key holder ttl now m).0 ≡ some token
    → (token ≡ next_token (lookup key m))
      × ((acquire key holder ttl now m).1
          ≡ insert key (granted_lease key holder ttl now (lookup key m)) m)
unfolding acquire
acquire-granted key holder ttl now token m h = ground arith

granted_lem :
    (key holder : String) (ttl now token : ℕ) (m : LeaseStore)
    → last_token key m + 1 < 2 ^ 64
    → (acquire key holder ttl now m).0 ≡ some token
    → (token ≡ last_token key m + 1) × (last_token key (acquire key holder ttl now m).1 ≡ token)
granted_lem key holder ttl now token m b h =
    let (is, stored) = acquire-granted key holder ttl now token m h in
    (
      ground (arith, is),
      rw (stored, lookup-insert_self key (granted_lease key holder ttl now (lookup key m)) m)
          (sym is),
    )

held_by-token :
    (key holder : String) (token : ℕ) (m : LeaseStore)
    → held_by (lookup key m) holder token ≡ true
    → token ≡ last_token key m
held_by-token key holder token m h = ground arith

-- While a granted lease is live nobody is granted another one, and a refused call changes nothing.
pub acquire-exclusive :
    (key holder other : String) (ttl ttl' now now' token : ℕ) (m : LeaseStore)
    → (acquire key holder ttl now m).0 ≡ some token
    → now' < now + ttl
    → let m' = (acquire key holder ttl now m).1 in acquire key other ttl' now' m' ≡ (none, m')
unfolding acquire
acquire-exclusive key holder other ttl ttl' now now' token m h b =
    let stored = (acquire-granted key holder ttl now token m h).1 in
    let found = lookup-insert_self key (granted_lease key holder ttl now (lookup key m)) m in
    rw stored (live_refused (rw found (lt→ltb now' (now + ttl) b)))
  where
    live_refused :
        {n : LeaseStore}
        → is_live (lookup key n) now' ≡ true
        → acquire key other ttl' now' n ≡ (none, n)
    live_refused live = rw (live, acquire) refl

-- Once a lease was granted anew, the holder before can neither renew nor release, whatever was called
-- in between and since: its calls are refused and change nothing. The tokens of the key stay below the
-- 2^64 at which they wrap.
pub superseded :
    (key first second : String) (ttl ttl' ttl'' now now' now'' old new : ℕ) (m : LeaseStore)
    → (between since : List LeaseCall)
    → last_token key m + length between + length since + 2 < 2 ^ 64
    → (acquire key first ttl now m).0 ≡ some old
    → let m1 = after_calls (acquire key first ttl now m).1 between in
      let m2 = after_calls (acquire key second ttl' now' m1).1 since in
      (acquire key second ttl' now' m1).0 ≡ some new
      → (renew key first old ttl'' now'' m2 ≡ (false, m2))
        × (release key first old now'' m2 ≡ (err fencing_token_mismatch, m2))
unfolding renew release
superseded key first second ttl ttl' ttl'' now now' now'' old new m between since b h h' =
    let m0 = (acquire key first ttl now m).1 in
    let m1 = after_calls m0 between in
    let m2 = (acquire key second ttl' now' m1).1 in
    let m3 = after_calls m2 since in
    let start = granted_lem key first ttl now old m (omega arith) h in
    let middle = last_token-calls key between m0 (omega (arith, start)) in
    let again = granted_lem key second ttl' now' new m1 (omega (arith, start, middle)) h' in
    let end = last_token-calls key since m2 (omega (arith, start, middle, again)) in
    let other : old ≢ last_token key m3 = omega (arith, start, middle, again, end) in
    refused m3 other
  where
    not_held : (n : LeaseStore) → old ≢ last_token key n → held_by (lookup key n) first old ≡ false
    not_held n ne = elim (Bool-cases (held_by (lookup key n) first old)) [
      | inl held ↦ absurd (ne (held_by-token key first old n held))
      | inr lost ↦ lost
    ]

    refused :
        (n : LeaseStore)
        → old ≢ last_token key n
        → (renew key first old ttl'' now'' n ≡ (false, n))
          × (release key first old now'' n ≡ (err fencing_token_mismatch, n))
    refused n ne = (rw (not_held n ne, renew) refl, rw (not_held n ne, release) refl)
