-- ===== src/State/Unclaimed/Bytes.antt =====
-- The bytes of a list of balances (pkg/core/state/unclaimed.go), and a balance cut out of them.
use neovm.Prelude.{
  ℕ, ◌+◌, ◌-◌, ◌≡◌, refl, sym, ap, ◌∙◌, true, false, some, List, [], ◌∷◌, ◌++◌, length, take, drop,
  ltb, ◌==◌, put_le, arith, All, length-append, length-put_le, take-append_length,
  drop-append_length, append_assoc, append-nil,
}
use mathlib.Core.List.{Perm}
use mathlib.Core.List.Perm
use neovm.Prelude.Int.{to_u64}
use neovm.Io.Writer.{writer, write_bytes, write_u64_le, write_u32_le, write_u16_le}
use neovm.Vm.Context.{slice}
use neovm.Util.Values.{encode_uint256, encode_fixed8}
use neovm.State.Records.{UnclaimedBalance, IsUnclaimedBalance, encode_unclaimed_balance}
use neovm.State.Unclaimed.{unclaimed_balance_size, key_size, cut_at}

-- The bytes of a balance, which begin with those of its key.
abbrev pub key_of : UnclaimedBalance → List ℕ
key_of b = b.tx ++ put_le 2 b.index

abbrev pub rest_of : UnclaimedBalance → List ℕ
rest_of b = put_le 4 b.start ++ (put_le 4 b.end ++ put_le 8 (to_u64 b.value))

abbrev pub bytes_of : UnclaimedBalance → List ℕ
bytes_of b = key_of b ++ rest_of b

abbrev pub raw_of : List UnclaimedBalance → List ℕ
raw_of [] = []
raw_of (b ∷ bs) = bytes_of b ++ raw_of bs

pub encode-bytes_of :
    (b : UnclaimedBalance) → encode_unclaimed_balance b (writer []) ≡ some (tt, writer (bytes_of b))
unfolding encode_unclaimed_balance encode_uint256 encode_fixed8 write_bytes write_u64_le
    write_u32_le write_u16_le
encode-bytes_of b = simp append_assoc

pub length-key_of : (b : UnclaimedBalance) → IsUnclaimedBalance b → length (key_of b) ≡ key_size
length-key_of b (h, _, _, _, _) = simp (length-append, length-put_le, h)

pub length-bytes_of :
    (b : UnclaimedBalance) → IsUnclaimedBalance b → length (bytes_of b) ≡ unclaimed_balance_size
length-bytes_of b (h, _, _, _, _) = simp (length-append, length-put_le, h)

pub raw_of-append : (xs ys : List UnclaimedBalance) → raw_of (xs ++ ys) ≡ raw_of xs ++ raw_of ys
raw_of-append [] ys = refl
raw_of-append (x ∷ xs) ys =
    rw (raw_of-append xs ys) (sym (append_assoc (bytes_of x) (raw_of xs) (raw_of ys)))

-- The first bytes behind some others.
pub slice_at :
    (a b c : List ℕ) (i n : ℕ) → i ≡ length a → n ≡ length b → slice (a ++ (b ++ c)) i (i + n) ≡ b
slice_at a b c i n p q =
    let d : length a + length b - length a ≡ length b = omega arith in
    rw (p, q, d, drop-append_length a (b ++ c), take-append_length b c) refl

-- The last block is cut off, or overwrites another.
cut_at-last :
    (a b : List ℕ) (i : ℕ)
    → i ≡ length a
    → length b ≡ unclaimed_balance_size
    → cut_at i (a ++ b) ≡ some a
cut_at-last a b i p q =
    let all : length (a ++ b) ≡ i + unclaimed_balance_size = omega (arith, length-append a b) in
    let last : i + unclaimed_balance_size - unclaimed_balance_size ≡ i = omega arith in
    let fits : ltb (i + unclaimed_balance_size) (i + unclaimed_balance_size) ≡ false =
      ground arith in
    let same : (i == i) ≡ true = ground arith in
    rw (cut_at, all, last, fits, same, p, take-append_length a b) refl

cut_at-parts :
    (raw x y w : List ℕ) (i last : ℕ)
    → length raw - unclaimed_balance_size ≡ last
    → ltb (length raw) (i + unclaimed_balance_size) ≡ false
    → (i == last) ≡ false
    → take i raw ≡ x
    → drop last raw ≡ y
    → drop (i + unclaimed_balance_size) raw ≡ w
    → cut_at i raw ≡ some (take last (x ++ (y ++ w)))
cut_at-parts raw x y w i last at fits other ex ey ew = rw (cut_at, at, fits, other, ex, ey, ew) refl

take-parts : (a b : List ℕ) (i : ℕ) → i ≡ length a → take i (a ++ b) ≡ a
take-parts a b i p = rw p (take-append_length a b)

drop-parts : (raw a b : List ℕ) (i : ℕ) → raw ≡ a ++ b → i ≡ length a → drop i raw ≡ b
drop-parts raw a b i e p = rw (e, p) (drop-append_length a b)

cut_at-middle :
    (a b z l : List ℕ) (i : ℕ)
    → i ≡ length a
    → length b ≡ unclaimed_balance_size
    → length l ≡ unclaimed_balance_size
    → cut_at i (a ++ (b ++ (z ++ l))) ≡ some (a ++ (l ++ z))
cut_at-middle a b z l i p q r =
    let raw = a ++ (b ++ (z ++ l)) in
    let last = length a + length b + length z in
    let all : length raw ≡ last + unclaimed_balance_size =
      omega (arith, length-append a (b ++ (z ++ l)), length-append b (z ++ l), length-append z l) in
    let front : length (a ++ (b ++ z)) ≡ last =
      omega (arith, length-append a (b ++ z), length-append b z) in
    let kept : length (a ++ (l ++ z)) ≡ last =
      omega (arith, length-append a (l ++ z), length-append l z) in
    let before : length (a ++ b) ≡ i + unclaimed_balance_size = omega (arith, length-append a b) in
    let shape : raw ≡ (a ++ (b ++ z)) ++ l =
      ap (λ s. a ++ s) (sym (append_assoc b z l)) ∙ sym (append_assoc a (b ++ z) l) in
    let result : a ++ (l ++ (z ++ l)) ≡ (a ++ (l ++ z)) ++ l =
      ap (λ s. a ++ s) (sym (append_assoc l z l)) ∙ sym (append_assoc a (l ++ z) l) in
    cut_at-parts raw a l (z ++ l) i last (omega arith) (ground arith) (ground arith)
      (take-parts a (b ++ (z ++ l)) i p) (drop-parts raw (a ++ (b ++ z)) l last shape (sym front))
      (drop-parts raw (a ++ b) (z ++ l) (i + unclaimed_balance_size)
        (sym (append_assoc a b (z ++ l))) (sym before))
    ∙ ap some (ap (take last) result ∙ take-parts (a ++ (l ++ z)) l last (sym kept))

-- What is left behind a balance that was removed: the last of the others takes its place.
abbrev pub init_of : UnclaimedBalance → List UnclaimedBalance → List UnclaimedBalance
init_of x [] = []
init_of x (y ∷ ys) = x ∷ init_of y ys

abbrev pub last_of : UnclaimedBalance → List UnclaimedBalance → UnclaimedBalance
last_of x [] = x
last_of x (y ∷ ys) = last_of y ys

abbrev pub refill : List UnclaimedBalance → List UnclaimedBalance
refill [] = []
refill (x ∷ xs) = last_of x xs ∷ init_of x xs

raw_of-last :
    (x : UnclaimedBalance) (xs : List UnclaimedBalance)
    → raw_of (x ∷ xs) ≡ raw_of (init_of x xs) ++ bytes_of (last_of x xs)
raw_of-last x [] = append-nil (bytes_of x)
raw_of-last x (y ∷ ys) =
    ap (λ s. bytes_of x ++ s) (raw_of-last y ys)
    ∙ sym (append_assoc (bytes_of x) (raw_of (init_of y ys)) (bytes_of (last_of y ys)))

pub refill-perm : (xs : List UnclaimedBalance) → Perm (refill xs) xs
refill-perm [] = Perm.refl []
refill-perm (x ∷ []) = Perm.refl (x ∷ [])
refill-perm (x ∷ y ∷ ys) =
    Perm.trans (Perm.swap x (last_of y ys) (init_of y ys)) (Perm.cons x (refill-perm (y ∷ ys)))

last_of-All {κ} :
    (P : UnclaimedBalance → Type κ) (x : UnclaimedBalance) (xs : List UnclaimedBalance)
    → All P (x ∷ xs)
    → P (last_of x xs)
last_of-All P x [] (h, hs) = h
last_of-All P x (y ∷ ys) (h, hs) = last_of-All P y ys hs

-- The cut in the bytes of balances.
pub cut_at-raw_of :
    (done rest : List UnclaimedBalance) (b : UnclaimedBalance) (i : ℕ)
    → i ≡ length (raw_of done)
    → IsUnclaimedBalance b
    → All IsUnclaimedBalance rest
    → cut_at i (raw_of done ++ (bytes_of b ++ raw_of rest)) ≡ some (raw_of (done ++ refill rest))
cut_at-raw_of done [] b i p h hs =
    ap (λ s. cut_at i (raw_of done ++ s)) (append-nil (bytes_of b))
    ∙ cut_at-last (raw_of done) (bytes_of b) i p (length-bytes_of b h)
    ∙ ap some (ap raw_of (sym (append-nil done)))
cut_at-raw_of done (x ∷ xs) b i p h hs =
    let l = last_of x xs in
    let z = raw_of (init_of x xs) in
    ap (λ s. cut_at i (raw_of done ++ (bytes_of b ++ s))) (raw_of-last x xs)
    ∙ cut_at-middle (raw_of done) (bytes_of b) z (bytes_of l) i p (length-bytes_of b h)
        (length-bytes_of l (last_of-All IsUnclaimedBalance x xs hs))
    ∙ ap some (sym (raw_of-append done (l ∷ init_of x xs)))
