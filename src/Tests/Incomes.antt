-- ===== src/Tests/Incomes.antt =====
-- server/internal/income: concrete runs.
use rwa_platform_evm.Common.{
  ℕ, ◌+◌, ◌*◌, String, List, [], ◌∷◌, Option, some, ◌≡◌, refl, false, In, sort,
}
use rwa_platform_evm.Common.Dict.{lookup, insert, delete_if}
use rwa_platform_evm.Redemption.{build_states}
use rwa_platform_evm.Common.Int.{pos, set_string}
use rwa_platform_evm.Common.Result.{ok}
use rwa_platform_evm.Models.Transaction.{Address}
use rwa_platform_evm.Models.ChainEvent.{ChainEvent, text}
use rwa_platform_evm.Income.Merkle.{Leaf, build_tree}
use rwa_platform_evm.Income.Merkle.Outcomes.{Outcome, build_tree-Outcome}
use rwa_platform_evm.Income.Snapshot.{
  Entitlement, Entitlements, EntitlementInput, Replay, replay, compute_entitlements, is_house,
}
use rwa_platform_evm.Income.Snapshot.Supply.{held, replay-conserves}
use rwa_platform_evm.Income.Snapshot.Shares.{IsFair}
use rwa_platform_evm.Income.Snapshot.Allotment.{compute_entitlements-Allots}

-- A function in the place of Keccak-256.
abbrev sum_hash : List ℕ → ℕ
sum_hash [] = 0
sum_hash (x ∷ xs) = x + 3 * sum_hash xs

abbrev sample_leaves : List Leaf
sample_leaves =
    record { account = 5; amount = some (pos 40) }
    ∷ record { account = 6; amount = some (pos 7) }
    ∷ record { account = 8; amount = some (pos 1) }
    ∷ []

build_tree-Outcome_example : Outcome sum_hash sample_leaves (build_tree sum_hash sample_leaves)
build_tree-Outcome_example = build_tree-Outcome sum_hash sample_leaves

-- Addresses by one text each.
abbrev sample_address : String → Option Address
sample_address s = some (elim (set_string s) [ some (pos n) ↦ n | _ ↦ 0 ])

abbrev moved : String → String → String → ℕ → ChainEvent
moved from to value block = record {
  chain_id = 1;
  address = 70;
  tx_hash = block;
  log_index = 0;
  block_number = block;
  block_hash = 500;
  name = "Transfer";
  fields = ("from", text from) ∷ ("to", text to) ∷ ("value", text value) ∷ [];
  is_removed = false;
  indexed_at = 900;
}

abbrev sample_transfers : List ChainEvent
sample_transfers = moved "0" "5" "40" 1 ∷ moved "5" "6" "10" 2 ∷ moved "6" "0" "4" 3 ∷ []

abbrev sample_replay : Replay
sample_replay = record { balances = (5, 30) ∷ (6, 6) ∷ []; supply = pos 36 }

sample_replayed :
    replay sample_address sample_transfers (record { balances = []; supply = pos 0 })
    ≡ ok sample_replay
unfolding replay set_string lookup insert
sample_replayed = refl

replay-conserves_example : pos 36 ≡ pos (held ((5, 30) ∷ (6, 6) ∷ []))
replay-conserves_example =
    replay-conserves sample_address sample_transfers sample_replay sample_replayed

abbrev sample_input : EntitlementInput
sample_input = record {
  vault = 1;
  escrow = 2;
  record_block = 9;
  total = pos 100;
  transfers = sample_transfers;
  redemption_events = [];
  redemption_timeout = 50;
  minted = [];
  burned = [];
  check_supply = false;
}

abbrev sample_out : Entitlements
sample_out = record {
  eligible_supply = pos 36;
  distributed = pos 99;
  entries =
      record { account = 5; balance = pos 30; amount = pos 83 }
      ∷ record { account = 6; balance = pos 6; amount = pos 16 }
      ∷ [];
}

sample_computed : compute_entitlements sample_address sample_input 900 ≡ ok sample_out
unfolding compute_entitlements sort lookup insert set_string delete_if build_states
sample_computed = refl

compute_entitlements-Allots_example :
    IsFair 100 sample_out
    × ((e : Entitlement) → In e sample_out.entries → is_house sample_input e.account ≡ false)
compute_entitlements-Allots_example =
    compute_entitlements-Allots sample_address sample_input 900 100 sample_out refl
      (λ e i. absurd i) sample_computed
