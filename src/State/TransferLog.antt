-- ===== src/State/TransferLog.antt =====
-- pkg/core/state/nep5.go: the log of transfers, a byte slice with the transfers one behind another.
pub mod Order
pub mod Transfers
pub mod Exact
use neovm.Prelude.{
  ℕ, zero, suc, ◌+◌, ◌-◌, Bool, true, false, Option, none, some, List, [], ◌∷◌, ◌++◌, length, take,
  drop, ltb, leb, ◌==◌, if◌then◌else◌, Proc,
}
use neovm.Io.Error.{Error}
use neovm.Io.Reader.{Read, BinReader, reader}
use neovm.Io.Writer.{Write, BinWriter, new_buf_bin_writer, buf_bytes}

-- The answer of `Append`: an error or the longer log.
abbrev pub appended : List ℕ → Option (Unit {0} × BinWriter) → Option (Option Error × List ℕ)
appended raw none = none
appended raw (some (u, w)) = elim w.err [
  | some e ↦ some (some e, raw)
  | none ↦ some (none, raw ++ (buf_bytes w).0)
]

unfoldable pub append : {T : Type 0} → (T → Write) → T → List ℕ → Option (Option Error × List ℕ)
append enc tr raw = appended raw (enc tr new_buf_bin_writer)

-- What the callback of `ForEach`, or `ForEach` itself, gives: whether to go on, or an error.
pub data Outcome : Type 0 where
  continues : Bool → Outcome
  fails : Error → Outcome

-- A callback is a procedure on the state that it closes over.
abbrev pub Callback : Type 0 → Type 0 → Type 0
Callback S T = T → Proc S Outcome

-- Behind the callback: an error and a stop end the loop, `next` is the rest of it.
abbrev pub after : {S : Type 0} → Proc S Outcome → Option (Outcome × S) → Option (Outcome × S)
after next none = none
after next (some (fails e, s)) = some (fails e, s)
after next (some (continues false, s)) = some (continues false, s)
after next (some (continues true, s)) = next s

module _ {S T : Type 0} (dec : Read T) (f : Callback S T) where
  -- One transfer was decoded, or not.
  abbrev pub visit_read : Proc S Outcome → Option (T × BinReader) → Proc S Outcome
  visit_read next none s = none
  visit_read next (some (tr, r)) s = elim r.err [
    | some e ↦ some (fails e, s)
    | none ↦ after next (f tr s)
  ]

  -- The loop from the end of the log, `i` bytes before which are left. A slice that begins below
  -- zero panics. Each turn takes `size` bytes; the log's length is fuel enough when a transfer has
  -- any.
  unfoldable pub for_each_from : (fuel size : ℕ) → List ℕ → ℕ → Proc S Outcome
  for_each_from zero size raw i s = if i == 0 then some (continues true, s) else none
  for_each_from (suc fuel) size raw i s =
      let next = for_each_from fuel size raw (i - size) in
      if i == 0
      then some (continues true, s)
      else if ltb i size
      then none
      else visit_read next (dec (reader (take size (drop (i - size) raw)))) s

  -- `ForEach`; a nil log is no log at all.
  unfoldable pub for_each : ℕ → Option (List ℕ) → Proc S Outcome
  for_each size none s = some (continues true, s)
  for_each size (some raw) s = for_each_from (length raw) size raw (length raw) s

  -- The callback on one transfer after another.
  unfoldable pub visit : List T → Proc S Outcome
  visit [] s = some (continues true, s)
  visit (t ∷ ts) s = after (visit ts) (f t s)
