-- ===== src/Io/Error.antt =====
-- The error values of the source. `new` is `errors.New`, `errorf` is `fmt.Errorf` with the number
-- that the format shows; the first two are those of Go's package io.
use Prim.Native.Nat.{ℕ}
use Prim.Native.String.{String}

pub data Error : Type 0 where
  eof unexpected_eof : Error
  new : String → Error
  errorf : String → ℕ → Error
