-- ===== src/Util/Fixed8/RoundTrip.antt =====
-- What reading the text of an amount gives (pkg/util/fixed8.go).
use neovm.Prelude.{
  ℕ, zero, suc, ◌+◌, ◌-◌, ◌*◌, ◌/◌, ◌%◌, ◌^◌, ◌<◌, ◌≡◌, refl, ap, sym, subst, ◌∙◌, true, false,
  none, some, List, [], ◌∷◌, ◌++◌, length, replicate, ltb, leb, ◌==◌, if◌then◌else◌, arith, All,
  All-append, Bool-cases, inl, inr, length-append, length-replicate, append-nil,
}
use mathlib.Core.Option.{some-injective}
use neovm.Prelude.Int.{ℤ, pos, negsuc, neg_ℤ, wrap64, of_u64, to_u64, abs_ℕ, leb_ℤ, ◌+ℤ◌, ◌-ℤ◌}
use neovm.Util.Fixed8.{
  decimals, format, fraction, unsigned_string, string, parse_digits, parse_int, parse_uint,
  negative, trim_right, times, scale, joined, split_dot, fixed_n_from_string, fixed8_from_string,
}
use neovm.Util.Fixed8.Digits.{
  IsDigit, parse_digits-digits, digits-IsDigit, Within, length-digits, digits-cons,
}
use neovm.Util.Fixed8.Trimmed.{
  tens, le-tens, trim_right-zeros, trim_right-IsDigit, parse_digits-total, parse_digits-lead,
  scale-tens, parse_int-digits,
}

tens-zero : (k : ℕ) → tens k 0 ≡ 0
tens-zero zero = refl
tens-zero (suc k) = tens-zero k

tens-positive : (k u v : ℕ) → v ≡ tens k u → 0 < v → 0 < u
tens-positive k zero v p h = let none_left = tens-zero k in absurd (omega arith)
tens-positive k (suc u) v p h = omega arith

zeros-IsDigit : (k : ℕ) → All IsDigit (replicate k 0x30)
zeros-IsDigit zero = tt
zeros-IsDigit (suc k) = ((omega arith, omega arith), zeros-IsDigit k)

parse_int-positive :
    (xs : List ℕ) (u : ℕ)
    → All IsDigit xs
    → parse_digits 0 xs ≡ some u
    → 0 < u
    → u < 2 ^ 63
    → parse_int xs ≡ some (pos u)
parse_int-positive [] u a p h k = let q : 0 ≡ u = some-injective 0 u p in absurd (omega arith)
parse_int-positive (x ∷ xs) u (d, a) p h k = parse_int-digits x xs u d p k

-- The text behind the dot.
abbrev frac : ℕ → List ℕ
frac v = replicate (8 - length (format v)) 0x30 ++ trim_right (format v)

frac-read :
    (v : ℕ)
    → 0 < v
    → v < decimals
    → (u : ℕ) × (parse_int (frac v) ≡ some (pos u))
      × (u < decimals)
      × (scale (8 - length (frac v)) (pos u) ≡ pos v)
frac-read v h lt =
    let str = format v in
    let (j, cut) = trim_right-zeros str in
    let t = trim_right str in
    let fine = trim_right-IsDigit str (digits-IsDigit (suc v) v) in
    let (u, p, q) = parse_digits-total 0 t fine in
    let whole : some v ≡ some (tens j u) =
      sym (parse_digits-digits (suc v) v (omega arith)) ∙ ap (parse_digits 0) cut ∙ q j in
    let same : v ≡ tens j u = some-injective v (tens j u) whole in
    let small : Within 8 v = omega arith in
    let short = length-digits 7 (suc v) v small in
    let count : length str ≡ length t + j =
      ap length cut
      ∙ length-append t (replicate j 0x30)
      ∙ ap (λ n. length t + n) (length-replicate j 0x30) in
    let long : length (frac v) ≡ 8 - length str + length t =
      length-append (replicate (8 - length str) 0x30) t
      ∙ ap (λ n. n + length t) (length-replicate (8 - length str) 0x30) in
    let left : 8 - length (frac v) ≡ j = omega arith in
    let below = le-tens j u in
    let some_digit : 0 < u = tens-positive j u v same h in
    (
      u,
      parse_int-positive (frac v) u
          (All-append IsDigit (replicate (8 - length str) 0x30) t (zeros-IsDigit (8 - length str))
            fine)
          (parse_digits-lead (8 - length str) t ∙ p) some_digit (omega arith),
      omega arith,
      ap (λ k. scale k (pos u)) left ∙ scale-tens j u (omega arith) ∙ ap pos (sym same),
    )

abbrev IsPlain : List ℕ → Type 0
IsPlain = All (λ b. b == 0x2e ≡ false)

split_dot-append : (xs ys : List ℕ) → IsPlain xs → split_dot (xs ++ 0x2e ∷ ys) ≡ (xs, some ys)
split_dot-append [] ys a = refl
split_dot-append (x ∷ xs) ys (h, a) = rw (h, split_dot-append xs ys a)

split_dot-plain : (xs : List ℕ) → IsPlain xs → split_dot xs ≡ (xs, none)
split_dot-plain [] a = refl
split_dot-plain (x ∷ xs) (h, a) = rw (h, split_dot-plain xs a)

read-parts :
    (xs : List ℕ) (ip : ℤ) (v : ℕ)
    → IsPlain xs
    → parse_int xs ≡ some ip
    → v < decimals
    → fixed8_from_string (xs ++ fraction v)
      ≡ some (if ltb 0 v then joined ip decimals (pos v) else wrap64 (times ip decimals))
unfolding fixed8_from_string fixed_n_from_string fraction
read-parts xs ip v a p lt = elim (Bool-cases (ltb 0 v)) [
  | inl some_left ↦
      let (u, q, low, up) = frac-read v (ground arith) lt in
      let fits : leb_ℤ (pos decimals) (pos u) ≡ false = ground arith in
      rw (some_left, split_dot-append xs (frac v) a, p, q, fits, up)
  | inr nothing ↦ rw (nothing, append-nil xs, split_dot-plain xs a, p)
]

-- The amount that the text of one is read as: one between -1 and 0 loses its sign.
abbrev pub reread : ℤ → ℤ
reread (pos n) = pos n
reread (negsuc n) = if ltb (suc n) decimals then pos (suc n) else negsuc n

digits-IsPlain : (xs : List ℕ) → All IsDigit xs → IsPlain xs
digits-IsPlain [] a = tt
digits-IsPlain (x ∷ xs) ((lo, hi), a) = (ground arith, digits-IsPlain xs a)

format-IsPlain : (n : ℕ) → IsPlain (format n)
format-IsPlain n = digits-IsPlain (format n) (digits-IsDigit (suc n) n)

parse_int-format : (n : ℕ) → n < 2 ^ 63 → parse_int (format n) ≡ some (pos n)
parse_int-format n h =
    let (b, bs, q) = digits-cons n n in
    let (d, ds) = subst (All IsDigit) q (digits-IsDigit (suc n) n) in
    let p = ap (parse_digits 0) (sym q) ∙ parse_digits-digits (suc n) n (omega arith) in
    ap parse_int q ∙ parse_int-digits b bs n d p h

parse_int-minus : (n : ℕ) → n < 2 ^ 63 → parse_int (0x2d ∷ format n) ≡ some (neg_ℤ (pos n))
parse_int-minus n h =
    let (b, bs, q) = digits-cons n n in
    let p = ap (parse_digits 0) (sym q) ∙ parse_digits-digits (suc n) n (omega arith) in
    let low : leb n (2 ^ 63) ≡ true = ground arith in
    ap (λ xs. negative (parse_uint xs)) q ∙ rw (p, low)

joined-pos :
    (n : ℕ)
    → n < 2 ^ 63
    → (if ltb 0 (n % decimals)
        then joined (pos (n / decimals)) decimals (pos (n % decimals))
        else wrap64 (times (pos (n / decimals)) decimals))
      ≡ pos n
unfolding wrap64 of_u64 to_u64 ◌+ℤ◌
joined-pos n h = ground arith

joined-parts :
    (q v n : ℕ)
    → v < decimals
    → q * decimals + v ≡ suc n
    → suc n < 2 ^ 63
    → (if ltb 0 v
        then joined (neg_ℤ (pos q)) decimals (pos v)
        else wrap64 (times (neg_ℤ (pos q)) decimals))
      ≡ reread (negsuc n)
unfolding wrap64 of_u64 to_u64 ◌+ℤ◌ ◌-ℤ◌ neg_ℤ
joined-parts zero v n lt p h = ground arith
joined-parts (suc k) v n lt p h = ground arith

joined-neg :
    (n : ℕ)
    → suc n < 2 ^ 63
    → (if ltb 0 (suc n % decimals)
        then joined (neg_ℤ (pos (suc n / decimals))) decimals (pos (suc n % decimals))
        else wrap64 (times (neg_ℤ (pos (suc n / decimals))) decimals))
      ≡ reread (negsuc n)
joined-neg n h = joined-parts (suc n / decimals) (suc n % decimals) n (omega arith) (omega arith) h

negated : (n : ℕ) → suc n < 2 ^ 63 → wrap64 (neg_ℤ (negsuc n)) ≡ pos (suc n)
unfolding wrap64 of_u64 to_u64 neg_ℤ
negated n h = ground arith

-- Fixed8FromString reads the text that String writes of an amount other than the least int64
-- without error: it gives the amount, except that one between -1 and 0 comes back without its sign.
pub string-read : (f : ℤ) → abs_ℕ f < 2 ^ 63 → fixed8_from_string (string f) ≡ some (reread f)
unfolding string unsigned_string
string-read (pos n) h =
    read-parts (format (n / decimals)) (pos (n / decimals)) (n % decimals)
      (format-IsPlain (n / decimals)) (parse_int-format (n / decimals) (omega arith)) (omega arith)
    ∙ ap some (joined-pos n (omega arith))
string-read (negsuc n) h = rw (negated n (omega arith)) (
    read-parts (0x2d ∷ format (suc n / decimals)) (neg_ℤ (pos (suc n / decimals)))
      (suc n % decimals) (refl, format-IsPlain (suc n / decimals))
      (parse_int-minus (suc n / decimals) (omega arith)) (omega arith)
    ∙ ap some (joined-neg n (omega arith)))
