-- ===== src/State/Unclaimed/Removal.antt =====
-- Remove (pkg/core/state/unclaimed.go) on the bytes of balances removes one of them from the list.
use neovm.Prelude.{
  ℕ, zero, suc, ◌+◌, ◌≤◌, ◌<◌, ◌≡◌, refl, sym, ap, subst, ◌∙◌, Bool, true, false, none, some, List,
  [], ◌∷◌, ◌++◌, length, ltb, leb, if◌then◌else◌, same_bytes, put_le, arith, Bool-cases, inl, inr,
  All, length-append, append_assoc, append-nil, All-append,
}
use mathlib.Core.List.{Perm}
use mathlib.Core.List.Perm
use neovm.Vm.Context.{slice}
use neovm.State.Records.{UnclaimedBalance, IsUnclaimedBalance}
use neovm.State.Unclaimed.{unclaimed_balance_size, key_size, put, remove_from, remove}
use neovm.State.Unclaimed.Bytes.{
  key_of, rest_of, bytes_of, raw_of, encode-bytes_of, length-key_of, length-bytes_of, raw_of-append,
  slice_at, refill, refill-perm, cut_at-raw_of,
}

-- What a removal makes of a list: nothing has the key and nothing changes, or one with the key is
-- gone and the others are there, in some order.
pub data Removed (key : List ℕ) (bs : List UnclaimedBalance)
    : Bool → List UnclaimedBalance → Type 0 where
  absent : All (λ b. same_bytes (key_of b) key ≡ false) bs → Removed key bs false bs
  gone :
      (b : UnclaimedBalance) {left : List UnclaimedBalance}
      → same_bytes (key_of b) key ≡ true
      → Perm (b ∷ left) bs
      → Removed key bs true left

perm_front :
    (done : List UnclaimedBalance) (b : UnclaimedBalance) {xs ys : List UnclaimedBalance}
    → Perm xs ys
    → Perm (b ∷ (done ++ xs)) (done ++ b ∷ ys)
perm_front [] b h = Perm.cons b h
perm_front (d ∷ done) b {xs} h =
    Perm.trans (Perm.swap d b (done ++ xs)) (Perm.cons d (perm_front done b h))

-- The loop from the offset of a balance.
module _ (key : List ℕ) where
  abbrev IsOther : UnclaimedBalance → Type 0
  IsOther b = same_bytes (key_of b) key ≡ false

  step_found :
      (done rest : List UnclaimedBalance) (b : UnclaimedBalance) (fuel i : ℕ)
      → i ≡ length (raw_of done)
      → IsUnclaimedBalance b
      → All IsUnclaimedBalance rest
      → remove_from key (suc fuel) i (raw_of done ++ (bytes_of b ++ raw_of rest)) ≡ (
          if same_bytes (key_of b) key
          then some (true, raw_of (done ++ refill rest))
          else remove_from key fuel
              (i + unclaimed_balance_size)
              (raw_of done ++ (bytes_of b ++ raw_of rest)))
  unfolding remove_from
  step_found done rest b fuel i p h hs =
      let raw = raw_of done ++ (bytes_of b ++ raw_of rest) in
      let all : length raw ≡ i + (unclaimed_balance_size + length (raw_of rest)) = omega (
        arith,
        length-append (raw_of done) (bytes_of b ++ raw_of rest),
        length-append (bytes_of b) (raw_of rest),
        length-bytes_of b h,
      ) in
      let more : leb (length raw) i ≡ false = ground arith in
      let fits : ltb (length raw) (i + key_size) ≡ false = ground arith in
      let at : slice raw i (i + key_size) ≡ key_of b =
        ap (λ s. slice (raw_of done ++ s) i (i + key_size))
          (append_assoc (key_of b) (rest_of b) (raw_of rest))
        ∙ slice_at (raw_of done) (key_of b) (rest_of b ++ raw_of rest) i key_size p
            (sym (length-key_of b h)) in
      rw (remove_from, more, fits, at, cut_at-raw_of done rest b i p h hs) refl

  loop-Removed :
      (rest done : List UnclaimedBalance) (fuel i : ℕ)
      → length rest < fuel
      → i ≡ length (raw_of done)
      → All IsOther done
      → All IsUnclaimedBalance done
      → All IsUnclaimedBalance rest
      → (found : Bool) × (left : List UnclaimedBalance) × (remove_from key fuel i
            (raw_of (done ++ rest))
          ≡ some (found, raw_of left))
        × Removed key (done ++ rest) found left
  loop-Removed rest done zero i f p o hd hr = absurd (omega arith)
  loop-Removed [] done (suc fuel) i f p o hd hr =
      let ended : leb (length (raw_of done)) i ≡ true = ground arith in
      (
        false,
        done,
        rw (append-nil done) (unfold remove_from in rw (remove_from, ended) refl),
        rw (append-nil done) (Removed.absent o),
      )
  loop-Removed (b ∷ rest) done (suc fuel) i f p o hd (h, hs) =
      let shape : raw_of (done ++ b ∷ rest) ≡ raw_of done ++ (bytes_of b ++ raw_of rest) =
        raw_of-append done (b ∷ rest) in
      let start = step_found done rest b fuel i p h hs in
      elim (Bool-cases (same_bytes (key_of b) key)) [
        | inl e ↦ (
          true,
          done ++ refill rest,
          rw shape (start ∙ rw e refl),
          Removed.gone b e (perm_front done b (refill-perm rest)),
        )
        | inr e ↦
            let regroup : (done ++ (b ∷ [])) ++ rest ≡ done ++ b ∷ rest =
              append_assoc done (b ∷ []) rest in
            let further : i + unclaimed_balance_size ≡ length (raw_of (done ++ (b ∷ []))) = omega (
              arith,
              p,
              length-bytes_of b h,
              ap length (raw_of-append done (b ∷ [])),
              length-append (raw_of done) (bytes_of b ++ []),
              length-append (bytes_of b) [],
            ) in
            let (found, left, run, removed) =
              loop-Removed rest (done ++ (b ∷ [])) fuel (i + unclaimed_balance_size) (omega arith)
                further (All-append IsOther done (b ∷ []) o (e, tt))
                (All-append IsUnclaimedBalance done (b ∷ []) hd (h, tt)) hs in
            (
              found,
              left,
              rw shape (start ∙ rw e refl)
                  ∙ ap (remove_from key fuel (i + unclaimed_balance_size))
                      (sym shape ∙ ap raw_of (sym regroup))
                  ∙ run,
              subst (λ bs. Removed key bs found left) regroup removed,
            )
      ]

length-raw_of :
    (bs : List UnclaimedBalance) → All IsUnclaimedBalance bs → length bs ≤ length (raw_of bs)
length-raw_of [] h = omega arith
length-raw_of (b ∷ bs) (h, hs) =
    omega (arith, length-raw_of bs hs, length-append (bytes_of b) (raw_of bs), length-bytes_of b h)

-- On the bytes of balances, with their fields in the ranges of their types, Remove ends without a
-- panic and leaves the bytes of balances: all of them, when it returns false and none has the
-- transaction and the index, or all but one that has them, in some order, when it returns true.
pub remove-Removed :
    (tx : List ℕ) (index : ℕ) (bs : List UnclaimedBalance)
    → All IsUnclaimedBalance bs
    → (found : Bool) × (left : List UnclaimedBalance) × (remove tx index (raw_of bs)
        ≡ some (found, raw_of left))
      × Removed (tx ++ put_le 2 index) bs found left
unfolding remove
remove-Removed tx index bs h =
    loop-Removed (tx ++ put_le 2 index) bs [] (suc (length (raw_of bs))) 0
      (omega (arith, length-raw_of bs h)) refl tt tt h

-- Put appends the bytes of a balance, so that it is the last.
put-raw_of :
    (bs : List UnclaimedBalance) (b : UnclaimedBalance)
    → put b (raw_of bs) ≡ some (none, raw_of (bs ++ b ∷ []))
unfolding put
put-raw_of bs b =
    rw (put, encode-bytes_of b, raw_of-append bs (b ∷ []), append-nil (bytes_of b)) refl
