-- ===== src/Tests/Balances.antt =====
-- The list of unclaimed balances (pkg/core/state/unclaimed.go) on concrete balances.
use neovm.Prelude.{
  ℕ, ◌≡◌, refl, Bool, true, some, List, [], ◌∷◌, ◌++◌, replicate, put_le, arith, All,
}
use neovm.Prelude.Int.{pos}
use neovm.State.Records.{UnclaimedBalance, IsUnclaimedBalance}
use neovm.State.Unclaimed.{remove, remove_from}
use neovm.State.Unclaimed.Bytes.{raw_of}
use neovm.State.Unclaimed.Removal.{Removed, remove-Removed}

abbrev claim_of : ℕ → UnclaimedBalance
claim_of n = record { tx = replicate 32 n; index = 1; start = 4; end = 90; value = pos n }

abbrev three_claims : List UnclaimedBalance
three_claims = claim_of 3 ∷ claim_of 4 ∷ claim_of 5 ∷ []

three_claims-valid : All IsUnclaimedBalance three_claims
three_claims-valid = (
  (refl, omega arith, omega arith, omega arith, omega arith),
  (
    (refl, omega arith, omega arith, omega arith, omega arith),
    ((refl, omega arith, omega arith, omega arith, omega arith), tt),
  ),
)

remove-Removed_example :
    (found : Bool) × (left : List UnclaimedBalance) × (remove
        (replicate 32 3)
        1
        (raw_of three_claims)
      ≡ some (found, raw_of left))
    × Removed (replicate 32 3 ++ put_le 2 1) three_claims found left
remove-Removed_example = remove-Removed (replicate 32 3) 1 three_claims three_claims-valid

-- The last balance takes the place of the first.
first_removed :
    remove (replicate 32 3) 1 (raw_of three_claims)
    ≡ some (true, raw_of (claim_of 5 ∷ claim_of 4 ∷ []))
unfolding remove remove_from put_le
first_removed = refl
