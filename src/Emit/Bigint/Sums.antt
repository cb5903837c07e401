-- ===== src/Emit/Bigint/Sums.antt =====
-- The words that `BytesToInt` builds, as sums of bytes.
use neovm.Prelude.{
  ℕ, zero, suc, ◌+◌, ◌-◌, ◌*◌, ◌/◌, ◌%◌, ◌^◌, ◌≤◌, ◌<◌, ◌≡◌, refl, ap, ◌∙◌, List, [], ◌∷◌, ◌++◌,
  length, get_or, take, take-length, All, IsByte, from_le, arith,
}
use native.Mathlib.Nat.{
  pow-suc, pow-zero, mul_assoc, one-le-pow, mul_comm, add-zero, add-suc, mul-one, add_assoc,
  zero-add, zero-mul, suc-add, mod-eq_of_lt,
}
use neovm.Emit.Bigint.{load_word, load_words, to_words, invert_words, set_bits, word_mod}

-- The number that n bytes from `base` on stand for.
unfoldable pub le_sum : List ℕ → ℕ → ℕ → ℕ
le_sum dat base zero = 0
le_sum dat base (suc n) = le_sum dat base n + get_or dat (base + n) 0 * 256 ^ n

get_or-lt : (dat : List ℕ) (i : ℕ) → All IsByte dat → get_or dat i 0 < 256
get_or-lt [] i h = omega arith
get_or-lt (x ∷ xs) zero (h, hs) = h
get_or-lt (x ∷ xs) (suc i) (h, hs) = get_or-lt xs i hs

pow-add : (b m n : ℕ) → b ^ (m + n) ≡ b ^ m * b ^ n
pow-add b m zero = rw (add-zero, pow-zero, mul-one)
pow-add b m (suc n) = rw (add-suc, pow-suc, pow-suc, pow-add b m n, mul_assoc)

pub le_sum-lt : (dat : List ℕ) (base n : ℕ) → All IsByte dat → le_sum dat base n < 256 ^ n
unfolding le_sum
le_sum-lt dat base zero h = omega arith
le_sum-lt dat base (suc n) h =
    grind (arith, pow-suc 256 n, le_sum-lt dat base n h, get_or-lt dat (base + n) h)

le_sum-add :
    (dat : List ℕ) (base m n : ℕ)
    → le_sum dat base (m + n) ≡ le_sum dat base m + 256 ^ m * le_sum dat (base + m) n
unfolding le_sum
le_sum-add dat base m zero = rw (add-zero) (omega arith)
le_sum-add dat base m (suc n) =
    rw (add-suc, le_sum-add dat base m n, pow-add 256 m n, ← add_assoc base m n)
      (omega (arith, mul_assoc (get_or dat (base + m + n) 0) (256 ^ m) (256 ^ n)))

pub pow_mono : (b m n : ℕ) → 0 < b → m ≤ n → b ^ m ≤ b ^ n
pow_mono b m n hb h =
    let e : n ≡ m + (n - m) = omega arith in
    let one : 1 ≤ b ^ (n - m) = one-le-pow (n - m) b hb in
    grind (arith, ap (λ (k : ℕ). b ^ k) e, pow-add b m (n - m))

-- `k` bytes have been shifted in, and `n` are to come.
load_word-eq :
    (dat : List ℕ) (base n k w : ℕ)
    → All IsByte dat
    → w < 256 ^ k
    → n + k ≤ 8
    → load_word dat base n w ≡ w * 256 ^ n + le_sum dat base n
unfolding load_word le_sum
load_word-eq dat base zero k w h hw hk = omega arith
load_word-eq dat base (suc n) k w h hw hk =
    let byte : get_or dat (base + n) 0 < 256 = get_or-lt dat (base + n) h in
    let fits : 256 ^ suc k ≤ 2 ^ 64 = pow_mono 256 (suc k) 8 (omega arith) (omega arith) in
    let shifted : w * 2 ^ 8 % word_mod ≡ w * 256 = mod-eq_of_lt (omega (arith, pow-suc 256 k)) in
    rw shifted (
      load_word-eq dat base n (suc k) (w * 256 + get_or dat (base + n) 0) h
        (omega (arith, pow-suc 256 k)) (omega arith)
      ∙ rw (pow-suc 256 n) (omega (arith, mul_assoc w 256 (256 ^ n), mul_comm (256 ^ n) 256)))

load_word-le_sum :
    (dat : List ℕ) (base n : ℕ)
    → All IsByte dat
    → n ≤ 8
    → load_word dat base n 0 ≡ le_sum dat base n
load_word-le_sum dat base n h hn =
    load_word-eq dat base n 0 0 h (omega arith) (omega arith) ∙ omega arith

le_sum-zero : (dat : List ℕ) (base : ℕ) → le_sum dat base 0 ≡ 0
unfolding le_sum
le_sum-zero dat base = refl

-- Words `i` to `i + n - 1`, followed by others.
set_bits-load_words :
    (dat ws : List ℕ) (i n : ℕ)
    → All IsByte dat
    → set_bits (load_words dat i n ++ ws) ≡ le_sum dat (i * 8) (n * 8) + 256 ^ (n * 8) * set_bits ws
unfolding set_bits load_words
set_bits-load_words dat ws i zero h = omega (arith, le_sum-zero dat (i * 8))
set_bits-load_words dat ws i (suc n) h =
    let more : suc n * 8 ≡ 8 + n * 8 = omega arith in
    let next : suc i * 8 ≡ i * 8 + 8 = omega arith in
    rw (more, le_sum-add dat (i * 8) 8 (n * 8), pow-add 256 8 (n * 8), ← next)
      (omega (
        arith,
        load_word-le_sum dat (i * 8) 8 h (omega arith),
        set_bits-load_words dat ws (suc i) n h,
      ))

set_bits-one : (w : ℕ) → set_bits (w ∷ []) ≡ w
unfolding set_bits
set_bits-one w = omega arith

-- Some whole words and the bytes behind them.
set_bits-words :
    (dat : List ℕ) (lw r : ℕ)
    → All IsByte dat
    → r ≤ 8
    → set_bits (load_words dat 0 lw ++ load_word dat (lw * 8) r 0 ∷ []) ≡ le_sum dat 0 (lw * 8 + r)
set_bits-words dat lw r h hr =
    set_bits-load_words dat _ 0 lw h
    ∙ rw (
      le_sum-add dat 0 (lw * 8) r,
      load_word-le_sum dat (lw * 8) r h hr,
      set_bits-one (le_sum dat (lw * 8) r),
      zero-add (lw * 8),
      zero-mul 8,
    )

-- Inverting the last word keeps the bytes in use.
invert_last :
    (r x : ℕ) → r < 8 → x < 256 ^ r → (word_mod - 1 - x) % 2 ^ (64 - (8 - r) * 8) + x + 1 ≡ 256 ^ r
invert_last zero x h hx = omega arith
invert_last (suc zero) x h hx = omega arith
invert_last (suc (suc zero)) x h hx = omega arith
invert_last (suc (suc (suc zero))) x h hx = omega arith
invert_last (suc (suc (suc (suc zero)))) x h hx = omega arith
invert_last (suc (suc (suc (suc (suc zero))))) x h hx = omega arith
invert_last (suc (suc (suc (suc (suc (suc zero)))))) x h hx = omega arith
invert_last (suc (suc (suc (suc (suc (suc (suc zero))))))) x h hx = omega arith
invert_last (suc (suc (suc (suc (suc (suc (suc (suc r)))))))) x h hx = absurd (omega arith)

abbrev IsWord : ℕ → Type 0
IsWord w = w < word_mod

-- The inverted words and the words add up to all ones.
set_bits-invert_words :
    (ws : List ℕ) (r x : ℕ)
    → All IsWord ws
    → r < 8
    → x < 256 ^ r
    → set_bits (invert_words ((8 - r) * 8) (ws ++ x ∷ [])) + set_bits (ws ++ x ∷ []) + 1
      ≡ word_mod ^ length ws * 256 ^ r
unfolding set_bits invert_words
set_bits-invert_words [] r x h hr hx = omega (arith, invert_last r x hr hx)
set_bits-invert_words (w ∷ []) r x (hw, h) hr hx = omega (arith, invert_last r x hr hx)
set_bits-invert_words (w ∷ v ∷ ws) r x (hw, h) hr hx = omega (
  arith,
  set_bits-invert_words (v ∷ ws) r x h hr hx,
  ap (λ (t : ℕ). t * 256 ^ r) (pow-suc word_mod (length (v ∷ ws))),
  mul_assoc word_mod (word_mod ^ length (v ∷ ws)) (256 ^ r),
)

load_words-IsWord : (dat : List ℕ) (i n : ℕ) → All IsByte dat → All IsWord (load_words dat i n)
unfolding load_words
load_words-IsWord dat i zero h = tt
load_words-IsWord dat i (suc n) h = (
  rw (load_word-le_sum dat (i * 8) 8 h (omega arith)) (le_sum-lt dat (i * 8) 8 h),
  load_words-IsWord dat (suc i) n h,
)

length-load_words : (dat : List ℕ) (i n : ℕ) → length (load_words dat i n) ≡ n
unfolding load_words
length-load_words dat i zero = refl
length-load_words dat i (suc n) = ap suc (length-load_words dat (suc i) n)

word_mod-pow : (n : ℕ) → word_mod ^ n ≡ 256 ^ (n * 8)
word_mod-pow zero = refl
word_mod-pow (suc n) =
    let more : suc n * 8 ≡ n * 8 + 8 = omega arith in
    rw (more, pow-add 256 (n * 8) 8, pow-suc word_mod n, word_mod-pow n)

-- With a negative number the inverted words count down from all ones.
pub set_bits-inverted :
    (dat : List ℕ) (size : ℕ)
    → All IsByte dat
    → set_bits (invert_words ((8 - size % 8) * 8) (to_words dat size)) + le_sum dat 0 size + 1
      ≡ 256 ^ size
unfolding to_words
set_bits-inverted dat size h =
    let lw = size / 8 in
    let r = size - lw * 8 in
    let rest : size % 8 ≡ r = omega arith in
    let whole : lw * 8 + r ≡ size = omega arith in
    let x = load_word dat (lw * 8) r 0 in
    let words : set_bits (load_words dat 0 lw ++ x ∷ []) ≡ le_sum dat 0 size =
      set_bits-words dat lw r h (omega arith) ∙ ap (λ (k : ℕ). le_sum dat 0 k) whole in
    let small : x < 256 ^ r =
      rw (load_word-le_sum dat (lw * 8) r h (omega arith)) (le_sum-lt dat (lw * 8) r h) in
    let inverted =
      set_bits-invert_words (load_words dat 0 lw) r x (load_words-IsWord dat 0 lw h) (omega arith)
        small in
    rw (rest, ← words)
      (inverted ∙ rw (length-load_words dat 0 lw, word_mod-pow lw, ← pow-add 256 (lw * 8) r, whole))

pub set_bits-to_words :
    (dat : List ℕ) (size : ℕ) → All IsByte dat → set_bits (to_words dat size) ≡ le_sum dat 0 size
unfolding to_words
set_bits-to_words dat size h =
    set_bits-words dat (size / 8) (size - size / 8 * 8) h (omega arith)
    ∙ ap (λ (k : ℕ). le_sum dat 0 k) (omega arith)

le_sum-shift : (b : ℕ) (bs : List ℕ) (base n : ℕ) → le_sum (b ∷ bs) (suc base) n ≡ le_sum bs base n
unfolding le_sum
le_sum-shift b bs base zero = refl
le_sum-shift b bs base (suc n) = rw (suc-add base n, le_sum-shift b bs base n)

-- The first bytes of a list.
pub le_sum-take : (n : ℕ) (bs : List ℕ) → n ≤ length bs → le_sum bs 0 n ≡ from_le (take n bs)
unfolding from_le
le_sum-take zero bs h = le_sum-zero bs 0
le_sum-take (suc n) [] h = absurd (omega arith)
le_sum-take (suc n) (b ∷ bs) h =
    let one : suc n ≡ 1 + n = omega arith in
    let first : le_sum (b ∷ bs) 0 1 ≡ b = unfold le_sum in omega arith in
    (ap (λ (k : ℕ). le_sum (b ∷ bs) 0 k) one ∙ le_sum-add (b ∷ bs) 0 1 n)
    ∙ rw (first, le_sum-shift b bs 0 n, le_sum-take n bs (omega arith))

pub le_sum-from_le : (bs : List ℕ) → le_sum bs 0 (length bs) ≡ from_le bs
le_sum-from_le bs = le_sum-take (length bs) bs (omega arith) ∙ rw (take-length bs)
