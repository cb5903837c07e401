-- ===== src/Util/Fixed8/Digits.antt =====
-- The digits of a number (strconv, as pkg/util/fixed8.go uses it).
use neovm.Prelude.{
  ℕ, zero, suc, ◌+◌, ◌-◌, ◌*◌, ◌/◌, ◌%◌, ◌<◌, ◌≤◌, ◌≡◌, refl, ap, ◌&&◌, Option, none, some, List,
  [], ◌∷◌, ◌++◌, length, ltb, leb, arith, All, All-append, Bool-cases, inl, inr, length-append,
}
use neovm.Util.Fixed8.{digit, digits, parse_digits}

abbrev pub IsDigit : ℕ → Type 0
IsDigit b = (0x30 ≤ b) × (b ≤ 0x39)

abbrev pub then_digit : Option ℕ → ℕ → Option ℕ
then_digit none d = none
then_digit (some v) d = some (v * 10 + d)

parse_digits-snoc :
    (acc : ℕ) (xs : List ℕ) (d : ℕ)
    → d < 10
    → parse_digits acc (xs ++ (digit d ∷ [])) ≡ then_digit (parse_digits acc xs) d
parse_digits-snoc acc [] d h = ground arith
parse_digits-snoc acc (x ∷ xs) d h = elim (Bool-cases (leb 0x30 x && leb x 0x39)) [
  | inl p ↦ rw p (parse_digits-snoc (acc * 10 + (x - 0x30)) xs d h)
  | inr p ↦ rw p
]

pub parse_digits-digits : (fuel n : ℕ) → n < fuel → parse_digits 0 (digits fuel n) ≡ some n
parse_digits-digits zero n h = absurd (omega arith)
parse_digits-digits (suc fuel) n h = elim (Bool-cases (ltb n 10)) [
  | inl p ↦ rw p (ground arith)
  | inr p ↦
      rw
        (
          p,
          parse_digits-snoc 0 (digits fuel (n / 10)) (n % 10) (omega arith),
          parse_digits-digits fuel (n / 10) (ground arith),
        )
        (ap some (omega arith))
]

pub digits-IsDigit : (fuel n : ℕ) → All IsDigit (digits fuel n)
digits-IsDigit zero n = tt
digits-IsDigit (suc fuel) n = elim (Bool-cases (ltb n 10)) [
  | inl p ↦ rw p ((omega arith, ground arith), tt)
  | inr p ↦ rw p (
      All-append IsDigit (digits fuel (n / 10)) (digit (n % 10) ∷ []) (digits-IsDigit fuel (n / 10))
        ((omega arith, omega arith), tt))
]

-- n has at most k digits.
abbrev pub Within : ℕ → ℕ → Type 0
Within zero n = n < 1
Within (suc k) n = Within k (n / 10)

pub length-digits : (k fuel n : ℕ) → Within (suc k) n → length (digits fuel n) ≤ suc k
length-digits k zero n h = omega arith
length-digits zero (suc fuel) n h = elim (Bool-cases (ltb n 10)) [
  | inl p ↦ rw p (omega arith)
  | inr p ↦ absurd (ground arith)
]
length-digits (suc k) (suc fuel) n h = elim (Bool-cases (ltb n 10)) [
  | inl p ↦ rw p (omega arith)
  | inr p ↦
      let less = length-digits k fuel (n / 10) h in
      rw (p, length-append (digits fuel (n / 10)) (digit (n % 10) ∷ [])) (omega arith)
]

snoc-cons : (xs : List ℕ) (d : ℕ) → (b : ℕ) × (bs : List ℕ) × (xs ++ (d ∷ []) ≡ b ∷ bs)
snoc-cons [] d = (d, [], refl)
snoc-cons (x ∷ xs) d = (x, xs ++ (d ∷ []), refl)

pub digits-cons : (fuel n : ℕ) → (b : ℕ) × (bs : List ℕ) × (digits (suc fuel) n ≡ b ∷ bs)
digits-cons fuel n = elim (Bool-cases (ltb n 10)) [
  | inl p ↦ (digit n, [], rw p)
  | inr p ↦ let (b, bs, q) = snoc-cons (digits fuel (n / 10)) (digit (n % 10)) in (b, bs, rw (p, q))
]
