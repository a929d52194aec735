-- ===== src/TxManager/Replace.antt =====
-- server/internal/blockchain/txmanager.go: `Replace`.
pub mod Fenced
pub mod Durable
use rwa_platform_evm.Common.Int.{pos, int_ltb, int64_of}
use rwa_platform_evm.Common.{
  ℕ, String, Bool, true, false, List, [], ◌+◌, ◌&&◌, Option, none, some, if◌then◌else◌, ◌==◌, not,
  ltb, nat_eq,
}
use rwa_platform_evm.Common.Result.{Result, ok, err, map_err, or_fail}
use rwa_platform_evm.Models.Transaction.{
  Address, Transaction, pending, failed, replaced, broadcast_unknown, needs_intervention,
}
use rwa_platform_evm.Store.Transactions
use rwa_platform_evm.Store.Transactions.{RepoError, TransactionStore, has_status}
use rwa_platform_evm.TxManager.Fees.{UnsignedTx, Call, build_bumped_tx}
use rwa_platform_evm.TxManager.State.{
  SignedTx, SendError, Codec, Signer, TxError, no_signer, signer_failed, sign_failed,
  outcome_unknown, rejected, fees, store, bad_bump, bad_status, wrong_signer, attempts_exhausted,
  concurrently_modified,
}
use rwa_platform_evm.TxManager.Monad.{
  World, Env, M, ◌>>=◌, ◌>>◌, return, throw, lift, create_tx, update_tx, try_update_tx, send,
  and_then,
}
use rwa_platform_evm.TxManager.Prepare.{prepare_replacement}
use rwa_platform_evm.TxManager.Guards.{
  is_ambiguous_broadcast, encode_signed_tx, decode_signed_tx, renew_nonce_lease, with_lease,
}
use rwa_platform_evm.TxManager.Refresh.{marked}

abbrev pub replacement_record : Env → ℕ → Transaction → SignedTx × String → Transaction
replacement_record env token old (signed, raw) = record {
  id = env.fresh_id;
  idempotency_key = "";
  kind = old.kind;
  chain_id = env.manager.policy.chain_id;
  sender = old.sender;
  to = old.to;
  input = old.input;
  value = old.value;
  nonce = old.nonce;
  tx_hash = env.codec.hash signed;
  signed_raw_tx = raw;
  status = broadcast_unknown;
  block_number = 0;
  block_hash = 0;
  replaced_by = "";
  replaces = old.id;
  replacement_count = old.replacement_count + 1;
  fencing_token = token;
  allow_reorg_retry = false;
  version = 0;
  attempts = [];
  submitted_at = env.now;
  updated_at = env.now;
}

-- The original, linked to what replaces it.
abbrev pub displaced : Env → Transaction → Transaction → Transaction
displaced env old new = record old { status = replaced; replaced_by = new.id; updated_at = env.now }

-- The original as a rejected send restores it: the count is kept.
abbrev pub restored : Env → Transaction → Transaction → Transaction
restored env old new = record old {
  status = pending;
  replaced_by = "";
  replacement_count = new.replacement_count;
  updated_at = env.now;
}

-- A conditional write whose outcome the source ignores.
try_update_conditional : Transaction → ℕ → World → World
try_update_conditional tx expected w = elim (Transactions.update_conditional tx expected w.txs) [
  | ok (_, m) ↦ record w { txs = m }
  | err e ↦ w
]

settle_replacement : Env → Transaction → Transaction → Option SendError → M Transaction
unfolding try_update_conditional
settle_replacement env old new none w =
    let sent = marked env pending new in (update_tx sent >> return sent) w
settle_replacement env old new (some e) w =
    if is_ambiguous_broadcast e then (err outcome_unknown, w) else (
      err rejected,
      try_update_conditional (restored env old new) (old.version + 1)
          (try_update_tx (marked env failed new) w),
    )

-- The link to the original is written only if nobody changed the original since it was read.
linked_then_sent :
    Env
    → Transaction
    → Transaction
    → SignedTx
    → Result RepoError (Bool × TransactionStore)
    → M Transaction
unfolding settle_replacement
linked_then_sent env old new signed (err e) w = (err (store e), w)
linked_then_sent env old new signed (ok (false, m)) w =
    (err concurrently_modified, try_update_tx (marked env failed new) w)
linked_then_sent env old new signed (ok (true, m)) w =
    (send env.client signed >>= settle_replacement env old new) (record w { txs = m })

-- Store the replacement, link the original to it, and send.
unfoldable pub store_and_replace : Env → Transaction → Transaction → SignedTx → M Transaction
unfolding linked_then_sent
store_and_replace env old new signed = create_tx new >>= λ _ w.
    linked_then_sent env old new signed
      (Transactions.update_conditional (displaced env old new) old.version w.txs) w

others_meanwhile : Env → M (Unit {0})
others_meanwhile env w = (ok tt, env.others w)

abbrev pub is_exhausted : Env → Transaction → Bool
is_exhausted env old =
    ltb 0 env.manager.max_replacement_attempts
    && ltb env.manager.max_replacement_attempts (old.replacement_count + 1)

mark_needs_intervention : Env → Transaction → M Transaction
mark_needs_intervention env old =
    update_tx (marked env needs_intervention old) >>= λ _ w. (err attempts_exhausted, w)

unfoldable pub replace_old : Env → Signer → Address → ℕ → ℕ → Transaction → M Transaction
unfolding mark_needs_intervention others_meanwhile
replace_old env signer from token percent old =
    if not (has_status pending old)
    then throw bad_status
    else if not (from == old.sender)
    then throw wrong_signer
    else if is_exhausted env old
    then mark_needs_intervention env old
    else (lift (prepare_replacement env signer from percent old) >>= λ made.
        others_meanwhile env
        >> renew_nonce_lease env from token
        >> store_and_replace env old (replacement_record env token old made) made.0)

replace_leased : Env → Signer → String → ℕ → Address → ℕ → M Transaction
unfolding replace_old
replace_leased env signer id percent from token w = elim (Transactions.get id w.txs) [
  | ok old ↦ replace_old env signer from token percent old w
  | err e ↦ (err (store e), w)
]

replace_from : Env → Signer → String → ℕ → Option Address → M Transaction
unfolding replace_leased
replace_from env signer id percent none w = (err signer_failed, w)
replace_from env signer id percent (some from) w =
    with_lease env from (replace_leased env signer id percent from) w

-- The percentage is the 64 bits of an `int64`, which has to be positive.
unfoldable pub replace : Env → String → Option Signer → ℕ → M Transaction
unfolding replace_from
replace env id none percent w = (err no_signer, w)
replace env id (some signer) percent w =
    if int_ltb (pos 0) (int64_of percent)
    then replace_from env signer id percent signer.address w
    else (err bad_bump, w)
