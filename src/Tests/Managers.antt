-- ===== src/Tests/Managers.antt =====
-- server/internal/blockchain/txmanager.go and the repositories: concrete runs.
use text.Mathlib.TextEquality.{eq_iff}
use rwa_platform_evm.Common.{
  ℕ, String, [], ◌∷◌, ◌+◌, ◌*◌, ◌-◌, ◌^◌, ◌<◌, ◌≤◌, none, some, ◌≡◌, ◌≢◌, refl, true, false, ◌⊎◌,
  inl, In, arith, sort-In, sort, ◌∙◌, sym, nat_eq, string_eq,
}
use rwa_platform_evm.Common.Int.{pos, negsuc}
use rwa_platform_evm.Common.Dict.{lookup, insert}
use rwa_platform_evm.Common.Result.{Result, ok, err}
use rwa_platform_evm.Models.Transaction.{
  TxStatus-discrete, Transaction, pending, needs_intervention, broadcast_unknown,
}
use rwa_platform_evm.Store.NonceLeases.{acquire, renew, release}
use rwa_platform_evm.Store.NonceLeases.Fencing.{
  last_token, superseded, acquire-exclusive, after_calls,
}
use rwa_platform_evm.Store.Transactions
use rwa_platform_evm.Store.Transactions.Keyed.{IsKeyed}
use rwa_platform_evm.Store.Transactions.{submitted_before, fencing_token_mismatch}
use rwa_platform_evm.TxManager.Fees.{
  ceil_percent, bump_fee_field, build_tx, build_bumped_tx, UnsignedTx, legacy_tx, Call, uint64_mod,
}
use rwa_platform_evm.TxManager.Fees.Bumps.{bump_fee_field-outbids, ceil_percent-IsCeiling, Outbid}
use rwa_platform_evm.TxManager.Fees.Caps.{
  build_tx-Serves, build_bumped_tx-Outbids, Serves, Outbids, HasNoNegative,
}
use rwa_platform_evm.TxManager.State.{TxError}
use rwa_platform_evm.TxManager.Guards.{
  is_stuck, is_unresolved, is_retryable_status, allocate_nonce, needs_intervention_tx,
}
use rwa_platform_evm.TxManager.Guards.Nonces.{
  allocate_nonce-IsLeast, needs_intervention_tx-decides, IsBlocking, Holds, Taken,
}
use rwa_platform_evm.TxManager.Submit.{submit}
use rwa_platform_evm.TxManager.Submit.Durable.{submit-Careful, Careful}
use rwa_platform_evm.TxManager.Submit.Refusals.{submit-blocked, submit-repeat, Untouched}
use rwa_platform_evm.TxManager.Replace.{replace, store_and_replace}
use rwa_platform_evm.TxManager.Replace.Fenced.{store_and_replace-Fenced, Fenced}
use rwa_platform_evm.TxManager.Replace.Durable.{replace-Careful}
use rwa_platform_evm.TxManager.Refresh.{refresh_one, refresh_statuses}
use rwa_platform_evm.TxManager.Refresh.Receipts.{refresh_one-Justified, Leaves, Justified}
use rwa_platform_evm.TxManager.Refresh.Kept.{Good}
use rwa_platform_evm.TxManager.Refresh.Records.{refresh_statuses-Keeps}
use rwa_platform_evm.Tests.Samples.{
  sample_tx, sample_signed, sample_codec, sample_codec-CodecLaws, sample_env, sample_signer,
  sample_request, sample_policy, record_with, empty_world, world_with,
}

submit-Careful_example : Careful sample_codec [] (submit sample_env sample_request empty_world)
submit-Careful_example =
    submit-Careful sample_env sample_request empty_world sample_codec-CodecLaws (λ _. refl)

ids_differ : ◌≢◌ {A = String} "b" "a"
ids_differ = ground (arith, eq_iff "b" "a")

same_id : (old t : Transaction) → some old ≡ some t → t.id ≡ old.id
same_id old t h = cc

loaded_there : Transactions.get "a" (world_with pending).txs ≡ ok (record_with pending)
unfolding Transactions.get lookup
loaded_there = refl

ok_some :
    {t old : Transaction}
    → Path (Result Transactions.RepoError Transaction) (ok old) (ok t)
    → some old ≡ some t
ok_some h = cc

fresh_there : (t : Transaction) → Transactions.get "a" (world_with pending).txs ≡ ok t → "b" ≢ t.id
fresh_there t h e =
    ids_differ (e ∙ same_id (record_with pending) t (ok_some (sym loaded_there ∙ h)))

replace-Careful_example :
    Careful sample_codec [] (replace sample_env "a" (some sample_signer) 20 (world_with pending))
replace-Careful_example =
    replace-Careful sample_env "a" (some sample_signer) 20 (world_with pending)
      sample_codec-CodecLaws (λ _. refl) fresh_there

abbrev replacement : Transaction
replacement = record (record_with broadcast_unknown) {
  id = "b";
  idempotency_key = "";
  replaces = "a";
  replacement_count = 1;
}

store_and_replace-Fenced_example :
    Fenced sample_env (record_with pending) replacement sample_signed (world_with pending) (
      store_and_replace sample_env
        (record_with pending)
        replacement
        sample_signed
        (world_with pending))
store_and_replace-Fenced_example =
    store_and_replace-Fenced sample_env (record_with pending) replacement sample_signed
      (world_with pending) ids_differ

stuck_listed :
    In (record_with needs_intervention) (Transactions.list (world_with needs_intervention).txs)
unfolding Transactions.list
stuck_listed =
    sort-In submitted_before (record_with needs_intervention ∷ []) (record_with needs_intervention)
      (inl refl)

is_stuck_there : is_stuck 7 (record_with needs_intervention) ≡ true
unfolding TxStatus-discrete mathlib.Core.Bool.decide
is_stuck_there = refl

submit-blocked_example :
    Untouched
      (world_with needs_intervention)
      (submit sample_env sample_request (world_with needs_intervention))
    × ((e : TxError) × ((submit sample_env sample_request (world_with needs_intervention)).0
          ≡ err e))
submit-blocked_example =
    submit-blocked sample_env sample_request (world_with needs_intervention) sample_signer 7
      (record_with needs_intervention) refl refl stuck_listed (inl is_stuck_there)

repeats : is_retryable_status (record_with pending) ≡ false
unfolding is_retryable_status TxStatus-discrete mathlib.Core.Bool.decide
repeats = refl

found_there :
    Transactions.get_by_idempotency_key "k" (world_with pending).txs ≡ ok (record_with pending)
unfolding Transactions.get_by_idempotency_key
found_there = refl

submit-repeat_example :
    Untouched (world_with pending) (submit sample_env sample_request (world_with pending))
    × (((submit sample_env sample_request (world_with pending)).0 ≡ ok (record_with pending))
        ⊎ ((e : TxError) × ((submit sample_env sample_request (world_with pending)).0 ≡ err e)))
submit-repeat_example =
    submit-repeat sample_env sample_request (world_with pending) sample_signer 7
      (record_with pending) refl refl refl found_there repeats

abbrev sample_call : Call
sample_call = record { to = 77; input = []; value = 1; nonce = 5 }

ceil_percent-IsCeiling_example :
    (n : ℕ) × (ceil_percent (pos 15) 10 ≡ pos n)
    × (15 * (100 + 10) ≤ 100 * n)
    × (100 * n < 15 * (100 + 10) + 100)
ceil_percent-IsCeiling_example = ceil_percent-IsCeiling 15 10 (ground arith)

bump_fee_field-outbids_example : Outbid 30 20 5 (bump_fee_field (some (pos 30)) (pos 20) 5)
bump_fee_field-outbids_example = bump_fee_field-outbids 30 20 5 (ground arith)

-- With the largest `int64` the factor is negative, and so is the fee where there is no original.
wrapped_bump : bump_fee_field none (pos 100) (2 ^ 63 - 1) ≡ negsuc (2 ^ 63 - 100)
unfolding bump_fee_field
wrapped_bump = refl

built : build_tx sample_policy (sample_env.client.fees 7 sample_call) sample_call ≡ ok sample_tx
unfolding build_tx
built = refl

build_tx-Serves_example : Serves sample_policy sample_call sample_tx × HasNoNegative sample_tx
build_tx-Serves_example =
    build_tx-Serves sample_policy (sample_env.client.fees 7 sample_call) sample_call sample_tx built

abbrev bumped_tx : UnsignedTx
bumped_tx = legacy_tx 5 (pos 36) 21000 77 1 []

rebuilt :
    build_bumped_tx sample_policy
      (sample_env.client.fees 7 sample_call)
      sample_call
      20
      (some sample_tx)
    ≡ ok bumped_tx
unfolding build_bumped_tx
rebuilt = refl

build_bumped_tx-Outbids_example :
    Serves sample_policy sample_call bumped_tx × Outbids (some sample_tx) bumped_tx
build_bumped_tx-Outbids_example =
    build_bumped_tx-Outbids sample_policy (sample_env.client.fees 7 sample_call) sample_call 20
      (some sample_tx) bumped_tx rebuilt

allocated : allocate_nonce sample_env.client 7 (world_with pending).txs ≡ ok 5
unfolding allocate_nonce Transactions.list sort TxStatus-discrete mathlib.Core.Bool.decide
allocated = refl

stored_there : lookup "a" (world_with pending).txs ≡ some (record_with pending)
unfolding lookup
stored_there = refl

refresh_one-Justified_example :
    Leaves
      (record_with pending)
      (Justified sample_env 100 12 (record_with pending))
      (refresh_one sample_env 100 12 (record_with pending) (world_with pending))
refresh_one-Justified_example =
    refresh_one-Justified sample_env 100 12 (record_with pending) (world_with pending) stored_there

IsKeyed-there : IsKeyed (world_with pending).txs
unfolding lookup
IsKeyed-there = (refl, refl, tt)

refresh_statuses-Keeps_example :
    Good (world_with pending).txs (refresh_statuses sample_env 12 (world_with pending))
refresh_statuses-Keeps_example =
    refresh_statuses-Keeps sample_env 12 (world_with pending) IsKeyed-there

granted_there : (acquire "k" "first" 30 100 []).0 ≡ some 1
unfolding acquire lookup
granted_there = refl

acquire-exclusive_example :
    acquire "k" "second" 50 110 (acquire "k" "first" 30 100 []).1
    ≡ (none, (acquire "k" "first" 30 100 []).1)
acquire-exclusive_example =
    acquire-exclusive "k" "first" "second" 30 50 100 110 1 [] granted_there (ground arith)

abbrev LeastAt : ℕ → Type 0
LeastAt n =
    ((5 ≤ n)
      × (4 ≤ n)
      × ((t : Transaction)
          → In t (Transactions.list (world_with pending).txs)
          → Holds 7 t
          → t.nonce + 1 < uint64_mod
          → t.nonce < n))
    × ((n ≡ 5) ⊎ (n ≡ 4) ⊎ Taken 7 n (Transactions.list (world_with pending).txs))

allocate_nonce-IsLeast_example : LeastAt 5
allocate_nonce-IsLeast_example =
    allocate_nonce-IsLeast sample_env.client 7 (world_with pending).txs 5 5 4 refl refl allocated

needs_intervention_tx-decides_example :
    ((t : Transaction)
      → needs_intervention_tx 7 (world_with needs_intervention).txs ≡ some t
      → In t (Transactions.list (world_with needs_intervention).txs) × IsBlocking 7 t)
    × ((t : Transaction)
        → needs_intervention_tx 7 (world_with needs_intervention).txs ≡ none
        → In t (Transactions.list (world_with needs_intervention).txs)
        → (is_stuck 7 t ≡ false) × (is_unresolved 7 t ≡ false))
needs_intervention_tx-decides_example =
    needs_intervention_tx-decides 7 (world_with needs_intervention).txs

granted_again : (acquire "k" "second" 50 130 (acquire "k" "first" 30 100 []).1).0 ≡ some 2
unfolding acquire lookup insert
granted_again = refl

few_tokens : last_token "k" [] + 0 + 0 + 2 < 2 ^ 64
unfolding lookup
few_tokens = ground arith

superseded_example :
    let m2 = (acquire "k" "second" 50 130 (acquire "k" "first" 30 100 []).1).1 in
    (renew "k" "first" 1 30 140 m2 ≡ (false, m2))
    × (release "k" "first" 1 140 m2 ≡ (err fencing_token_mismatch, m2))
unfolding after_calls acquire
superseded_example =
    superseded "k" "first" "second" 30 50 30 100 130 140 1 2 [] [] [] few_tokens granted_there
      granted_again
