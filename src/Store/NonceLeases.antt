-- ===== src/Store/NonceLeases.antt =====
-- server/internal/dal/memory/nonce_lease.go and models/nonce_lease.go. The clock is an argument of
-- each call. A token is a `uint64` that wraps.
pub mod Fencing
use rwa_platform_evm.Common.{
  ℕ, String, ◌+◌, ◌%◌, ◌^◌, Bool, true, false, ◌&&◌, List, Option, none, some, if◌then◌else◌, ltb,
  ◌==◌, string_eq, nat_eq,
}
use rwa_platform_evm.Common.Dict.{lookup, insert}
use rwa_platform_evm.Common.Result.{Result, ok, err}
use rwa_platform_evm.Store.Transactions.{RepoError, fencing_token_mismatch}

pub record NonceLease : Type 0 where
  pub key : String
  pub holder_id : String
  pub token : ℕ
  pub expires_at : ℕ
  pub updated_at : ℕ

abbrev pub LeaseStore : Type 0
LeaseStore = List (String × NonceLease)

abbrev pub next_token : Option NonceLease → ℕ
next_token none = 1
next_token (some l) = (l.token + 1) % 2 ^ 64

abbrev pub is_live : Option NonceLease → ℕ → Bool
is_live none now = false
is_live (some l) now = ltb now l.expires_at

abbrev pub granted_lease : String → String → ℕ → ℕ → Option NonceLease → NonceLease
granted_lease key holder ttl now existing = record {
  key = key;
  holder_id = holder;
  token = next_token existing;
  expires_at = now + ttl;
  updated_at = now;
}

-- The token if the lease was granted.
unfoldable pub acquire : String → String → ℕ → ℕ → LeaseStore → Option ℕ × LeaseStore
acquire key holder ttl now m =
    let existing = lookup key m in
    if is_live existing now
    then (none, m)
    else (some (next_token existing), insert key (granted_lease key holder ttl now existing) m)

abbrev pub held_by : Option NonceLease → String → ℕ → Bool
held_by none holder token = false
held_by (some l) holder token = l.holder_id == holder && l.token == token

abbrev pub expire_at : ℕ → ℕ → String → Option NonceLease → LeaseStore → LeaseStore
expire_at at now key none m = m
expire_at at now key (some l) m = insert key (record l { expires_at = at; updated_at = now }) m

unfoldable pub renew : String → String → ℕ → ℕ → ℕ → LeaseStore → Bool × LeaseStore
renew key holder token ttl now m =
    let existing = lookup key m in
    if held_by existing holder token
    then (true, expire_at (now + ttl) now key existing m)
    else (false, m)

unfoldable pub release :
    String → String → ℕ → ℕ → LeaseStore → Result RepoError (Unit {0}) × LeaseStore
release key holder token now m =
    let existing = lookup key m in
    if held_by existing holder token
    then (ok tt, expire_at now now key existing m)
    else (err fencing_token_mismatch, m)
