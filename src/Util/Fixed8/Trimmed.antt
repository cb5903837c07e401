-- ===== src/Util/Fixed8/Trimmed.antt =====
-- The fraction of an amount (pkg/util/fixed8.go): zeros before its digits, none behind them.
use neovm.Prelude.{
  ℕ, zero, suc, ◌+◌, ◌-◌, ◌*◌, ◌^◌, ◌<◌, ◌≤◌, ◌≡◌, refl, ap, ◌∙◌, true, false, ◌&&◌, some, List, [],
  ◌∷◌, ◌++◌, replicate, ltb, leb, ◌==◌, arith, All, Bool-cases, inl, inr,
}
use neovm.Prelude.Int.{pos, wrap64, of_u64, to_u64}
use neovm.Util.Fixed8.{parse_digits, parse_int, trim_cons, trim_right, scale}
use neovm.Util.Fixed8.Digits.{IsDigit}

-- n times ten, k times.
abbrev pub tens : ℕ → ℕ → ℕ
tens zero n = n
tens (suc k) n = tens k (n * 10)

pub le-tens : (k n : ℕ) → n ≤ tens k n
le-tens zero n = omega arith
le-tens (suc k) n = let more = le-tens k (n * 10) in omega arith

trim_cons-zeros :
    (x : ℕ) (ys : List ℕ) (j : ℕ)
    → (i : ℕ) × (x ∷ ys ++ replicate j 0x30 ≡ trim_cons x ys ++ replicate i 0x30)
trim_cons-zeros x (y ∷ ys) j = (j, refl)
trim_cons-zeros x [] j = elim (Bool-cases (x == 0x30)) [
  | inl p ↦ let q : x ≡ 0x30 = ground arith in (suc j, rw p (ap (λ z. z ∷ replicate j 0x30) q))
  | inr p ↦ (j, rw p refl)
]

-- What is cut off is zeros.
pub trim_right-zeros : (xs : List ℕ) → (j : ℕ) × (xs ≡ trim_right xs ++ replicate j 0x30)
trim_right-zeros [] = (0, refl)
trim_right-zeros (x ∷ xs) =
    let (j, p) = trim_right-zeros xs in
    let (i, q) = trim_cons-zeros x (trim_right xs) j in (i, ap (λ ys. x ∷ ys) p ∙ q)

All-trim_cons : (x : ℕ) (ys : List ℕ) → IsDigit x → All IsDigit ys → All IsDigit (trim_cons x ys)
All-trim_cons x (y ∷ ys) h a = (h, a)
All-trim_cons x [] h a = elim (Bool-cases (x == 0x30)) [ inl p ↦ rw p tt | inr p ↦ rw p (h, tt) ]

pub trim_right-IsDigit : (xs : List ℕ) → All IsDigit xs → All IsDigit (trim_right xs)
trim_right-IsDigit [] a = tt
trim_right-IsDigit (x ∷ xs) (h, a) = All-trim_cons x (trim_right xs) h (trim_right-IsDigit xs a)

parse_digits-zeros : (k acc : ℕ) → parse_digits acc (replicate k 0x30) ≡ some (tens k acc)
parse_digits-zeros zero acc = refl
parse_digits-zeros (suc k) acc =
    let same : acc * 10 + 0 ≡ acc * 10 = omega arith in
    ap (λ a. parse_digits a (replicate k 0x30)) same ∙ parse_digits-zeros k (acc * 10)

-- Digits make a number, which zeros behind them multiply.
pub parse_digits-total :
    (acc : ℕ) (xs : List ℕ)
    → All IsDigit xs
    → (v : ℕ) × (parse_digits acc xs ≡ some v)
      × ((k : ℕ) → parse_digits acc (xs ++ replicate k 0x30) ≡ some (tens k v))
parse_digits-total acc [] a = (acc, refl, λ k. parse_digits-zeros k acc)
parse_digits-total acc (x ∷ xs) ((lo, hi), a) =
    let (v, p, q) = parse_digits-total (acc * 10 + (x - 0x30)) xs a in
    let is : leb 0x30 x && leb x 0x39 ≡ true = ground arith in (v, rw is p, λ k. rw is (q k))

pub parse_digits-lead :
    (k : ℕ) (xs : List ℕ) → parse_digits 0 (replicate k 0x30 ++ xs) ≡ parse_digits 0 xs
parse_digits-lead zero xs = refl
parse_digits-lead (suc k) xs = parse_digits-lead k xs

wrap64-pos : (n : ℕ) → n < 2 ^ 63 → wrap64 (pos n) ≡ pos n
unfolding wrap64 of_u64 to_u64
wrap64-pos n h = ground arith

pub scale-tens : (k n : ℕ) → tens k n < 2 ^ 63 → scale k (pos n) ≡ pos (tens k n)
scale-tens zero n h = refl
scale-tens (suc k) n h =
    let low = le-tens k (n * 10) in
    ap (scale k) (wrap64-pos (n * 10) (omega arith)) ∙ scale-tens k (n * 10) h

-- A text of digits is read as their number.
pub parse_int-digits :
    (b : ℕ) (bs : List ℕ) (v : ℕ)
    → IsDigit b
    → parse_digits 0 (b ∷ bs) ≡ some v
    → v < 2 ^ 63
    → parse_int (b ∷ bs) ≡ some (pos v)
parse_int-digits b bs v (lo, hi) p h =
    let one : b == 0x2d ≡ false = ground arith in
    let two : b == 0x2b ≡ false = ground arith in
    let low : ltb v (2 ^ 63) ≡ true = ground arith in rw (one, two, p, low)
