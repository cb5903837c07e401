-- ===== src/Tests/Amounts.antt =====
-- Amounts as text (pkg/util/fixed8.go).
use neovm.Prelude.{◌≡◌, refl, some, [], ◌∷◌, arith, take}
use neovm.Prelude.Int.{pos, negsuc, wrap64, of_u64, to_u64, neg_ℤ, ◌+ℤ◌, ◌-ℤ◌}
use neovm.Util.Fixed8.{string, unsigned_string, fraction, fixed8_from_string, fixed_n_from_string}
use neovm.Util.Fixed8.RoundTrip.{string-read}

-- -0.5
half-string : string (negsuc 49999999) ≡ 0x2d ∷ 0x30 ∷ 0x2e ∷ 0x35 ∷ []
unfolding string unsigned_string fraction wrap64 of_u64 to_u64 neg_ℤ
half-string = refl

-- The least amount has two signs.
least-string : take 3 (string (negsuc 9223372036854775807)) ≡ 0x2d ∷ 0x2d ∷ 0x39 ∷ []
unfolding string unsigned_string fraction wrap64 of_u64 to_u64 neg_ℤ
least-string = refl

string-read_example : fixed8_from_string (string (negsuc 49999999)) ≡ some (pos 50000000)
string-read_example = string-read (negsuc 49999999) (omega arith)

-- "1.-5"
signed_fraction : fixed8_from_string (0x31 ∷ 0x2e ∷ 0x2d ∷ 0x35 ∷ []) ≡ some (pos 95000000)
unfolding fixed8_from_string fixed_n_from_string wrap64 of_u64 to_u64 ◌+ℤ◌ ◌-ℤ◌ neg_ℤ
signed_fraction = refl
