-- ===== src/Tests/Logs.antt =====
-- The log of transfers and the state roots (pkg/core/state) on concrete values.
use neovm.Prelude.{ℕ, ◌≡◌, refl, true, false, some, List, [], ◌∷◌, All, replicate, arith}
use neovm.Prelude.Int.{pos, negsuc}
use neovm.State.Coins.{UnspentCoin}
use neovm.State.Records.{Transfer, IsTransfer, decode_transfer}
use neovm.State.Roots.{MptRootState}
use neovm.State.TransferLog.{for_each, visit, Callback, continues}
use neovm.State.TransferLog.Order.{raw_of, for_each-visit}
use neovm.State.TransferLog.Transfers.{transfer_size, IsTransfer-Sized}

abbrev transfer_at : ℕ → Transfer
transfer_at height = record {
  tx = replicate 32 0;
  block = height;
  timestamp = 9;
  amount = negsuc 4;
  is_governing = true;
  is_sent = false;
}

abbrev two_transfers : List Transfer
two_transfers = transfer_at 2 ∷ transfer_at 1 ∷ []

abbrev two_transfers-Are : All IsTransfer two_transfers
two_transfers-Are = (
  (refl, omega arith, omega arith, omega arith),
  ((refl, omega arith, omega arith, omega arith), tt),
)

-- A callback that keeps the heights it sees and stops at the third.
abbrev heights : Callback (List ℕ) Transfer
heights tr [] = some (continues true, tr.block ∷ [])
heights tr (h ∷ []) = some (continues true, tr.block ∷ h ∷ [])
heights tr (h ∷ g ∷ hs) = some (continues false, tr.block ∷ h ∷ g ∷ hs)

for_each-visit_example :
    for_each decode_transfer heights transfer_size
      (some (raw_of IsTransfer-Sized two_transfers two_transfers-Are))
      []
    ≡ visit decode_transfer heights two_transfers []
for_each-visit_example = for_each-visit IsTransfer-Sized heights two_transfers two_transfers-Are []

abbrev signed_root : MptRootState
signed_root = record {
  root = record {
    base = record { version = 0; index = 12; prev_hash = replicate 32 1; root = replicate 32 2 };
    witness = some (record { invocation_script = 1 ∷ []; verification_script = 2 ∷ [] });
  };
  flag = 1;
}

-- A coin with one output, spent at height 8.
abbrev spent : UnspentCoin
spent = record {
  height = 7;
  states =
      record {
        output = record {
          asset_id = replicate 32 0;
          amount = pos 3;
          script_hash = replicate 20 0;
          position = 0;
        };
        spend_height = 8;
        coin = 2;
      }
      ∷ [];
}
