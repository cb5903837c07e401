-- ===== src/State/Unclaimed.antt =====
-- pkg/core/state/unclaimed.go: a list of unclaimed balances as one slice of bytes. A slice has no
-- capacity behind its length.
pub mod Bytes
pub mod Removal
use neovm.Prelude.{
  ℕ, zero, suc, ◌+◌, ◌-◌, ◌/◌, Bool, true, false, Option, none, some, List, [], ◌++◌, length, take,
  drop, ltb, leb, ◌==◌, if◌then◌else◌, same_bytes, put_le,
}
use neovm.Io.Error.{Error}
use neovm.Io.Writer.{BinWriter, writer}
use neovm.Vm.Context.{slice}
use neovm.Util.Values.{uint256_size}
use neovm.State.Records.{UnclaimedBalance, encode_unclaimed_balance}

abbrev pub unclaimed_balance_size : ℕ
unclaimed_balance_size = uint256_size + 2 + 4 + 4 + 8

abbrev pub key_size : ℕ
key_size = uint256_size + 2

-- `Size`
unfoldable pub size : List ℕ → ℕ
size raw = length raw / unclaimed_balance_size

-- `Put`: the error of the writer, or the list with the balance behind the others.
unfoldable pub put : UnclaimedBalance → List ℕ → Option (Option Error × List ℕ)
put b raw = elim (encode_unclaimed_balance b (writer [])) [
  | none ↦ none
  | some (u, w) ↦ elim w.err [ none ↦ some (none, raw ++ w.buf) | some e ↦ some (some e, raw) ]
]

-- The balance at an offset is overwritten by the last, which is cut off.
abbrev pub cut_at : ℕ → List ℕ → Option (List ℕ)
cut_at i raw =
    let last = length raw - unclaimed_balance_size in
    if ltb (length raw) (i + unclaimed_balance_size)
    then none
    else if i == last
    then some (take last raw)
    else some (take last (take i raw ++ (drop last raw ++ drop (i + unclaimed_balance_size) raw)))

-- The loop of `Remove` from an offset, on fuel; `none` is a slice out of range.
unfoldable pub remove_from : List ℕ → ℕ → ℕ → List ℕ → Option (Bool × List ℕ)
remove_from key zero i raw = none
remove_from key (suc fuel) i raw =
    let rest = remove_from key fuel (i + unclaimed_balance_size) raw in
    if leb (length raw) i
    then some (false, raw)
    else if ltb (length raw) (i + key_size)
    then none
    else if same_bytes (slice raw i (i + key_size)) key
    then elim (cut_at i raw) [ none ↦ none | some raw' ↦ some (true, raw') ]
    else rest

-- `Remove`; the list has no more balances than bytes.
unfoldable pub remove : List ℕ → ℕ → List ℕ → Option (Bool × List ℕ)
remove tx index raw = remove_from (tx ++ put_le 2 index) (suc (length raw)) 0 raw
