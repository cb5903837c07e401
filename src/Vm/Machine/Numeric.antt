-- ===== src/Vm/Machine/Numeric.antt =====
-- The numeric instructions of `execute` (pkg/vm/vm.go) that make a new number. INVERT, NEGATE and
-- ABS, which change their operand in place, are not among them.
pub mod Bounds
pub mod Division
pub mod Shifts
use neovm.Prelude.{
  ℕ, suc, ◌+◌, ◌-◌, ◌*◌, ◌/◌, ◌%◌, ◌^◌, Bool, true, false, not, ◌||◌, ◌&&◌, Option, none, some,
  List, leb, ltb, ◌==◌, if◌then◌else◌, pure, ◌>>=◌, ◌>>◌, Proc,
}
use neovm.Prelude.Int.{
  ℤ, pos, negsuc, ◌+ℤ◌, ◌-ℤ◌, neg_ℤ, sub_ℕ, abs_ℕ, pos_part, neg_part, ltb_ℤ, leb_ℤ, eqb_ℤ, wrap64,
}
use neovm.Vm.Opcode
use neovm.Vm.Machine.Items.{Item, integer, lift, pop_int, pop_index, push}

abbrev pub max_big_integer_size_bits : ℕ
max_big_integer_size_bits = 32 * 8

-- `checkBigIntSize`: a number of more bits is 2^256 or more, up to its sign.
unfoldable pub check_big_int_size : ℤ → Proc (List Item) (Unit {0})
check_big_int_size a = if leb (2 ^ max_big_integer_size_bits) (abs_ℕ a) then lift none else pure tt

-- An operand that is checked.
unfoldable pub pop_checked : Proc (List Item) ℤ
pop_checked = pop_int >>= λ a. check_big_int_size a >> pure a

-- A result that is checked.
unfoldable pub push_checked : ℤ → Proc (List Item) (Unit {0})
push_checked c = check_big_int_size c >> push (integer c)

-- The sign of a number, and a number with that sign.
abbrev pub is_neg : ℤ → Bool
is_neg (pos n) = false
is_neg (negsuc n) = true

abbrev pub signed : Bool → ℕ → ℤ
signed true n = sub_ℕ 0 n
signed false n = pos n

abbrev pub xor : Bool → Bool → Bool
xor true b = not b
xor false b = b

-- `big.Int` Mul, Quo and Rem: the quotient is cut off towards zero, and the remainder has the sign of
-- the first operand. Both panic on zero.
unfoldable pub mul : ℤ → ℤ → ℤ
mul a b = signed (xor (is_neg a) (is_neg b)) (abs_ℕ a * abs_ℕ b)

unfoldable pub quo : ℤ → ℤ → Option ℤ
quo a b =
    if abs_ℕ b == 0 then none else some (signed (xor (is_neg a) (is_neg b)) (abs_ℕ a / abs_ℕ b))

unfoldable pub rem : ℤ → ℤ → Option ℤ
rem a b = if abs_ℕ b == 0 then none else some (signed (is_neg a) (abs_ℕ a % abs_ℕ b))

-- `big.Int` Lsh, and Rsh, which rounds down.
unfoldable pub lsh : ℤ → ℕ → ℤ
lsh a n = signed (is_neg a) (abs_ℕ a * 2 ^ n)

unfoldable pub rsh : ℤ → ℕ → ℤ
rsh (pos a) n = pos (a / 2 ^ n)
rsh (negsuc a) n = negsuc (a / 2 ^ n)

-- The first operand popped is the second of SUB, DIV and MOD.
unfoldable pub add : Proc (List Item) (Unit {0})
add = do a ← pop_checked; b ← pop_checked; push_checked (a +ℤ b)

unfoldable pub sub : Proc (List Item) (Unit {0})
sub = do b ← pop_checked; a ← pop_checked; push_checked (a -ℤ b)

unfoldable pub div : Proc (List Item) (Unit {0})
div = do b ← pop_checked; a ← pop_checked; c ← lift (quo a b); push (integer c)

unfoldable pub multiply : Proc (List Item) (Unit {0})
multiply = do a ← pop_checked; b ← pop_checked; push_checked (mul a b)

unfoldable pub modulo : Proc (List Item) (Unit {0})
modulo = do b ← pop_checked; a ← pop_checked; c ← lift (rem a b); push (integer c)

-- SHL and SHR; `to_left` says which way a positive count shifts. A count of zero leaves the operand
-- where it is, unchecked.
abbrev pub shifted : Bool → ℤ → ℤ → ℤ
shifted to_left (pos n) a = if to_left then lsh a n else rsh a n
shifted to_left (negsuc n) a = if to_left then rsh a (suc n) else lsh a (suc n)

unfoldable pub shift : Bool → Proc (List Item) (Unit {0})
shift to_left = do
  b ← pop_index
  if abs_ℕ b == 0
      then pure tt
      else if ltb max_big_integer_size_bits (abs_ℕ b)
      then lift none
      else (do a ← pop_checked; push_checked (shifted to_left b a))

unfoldable pub inc : Proc (List Item) (Unit {0})
inc = pop_int >>= λ x. push_checked (x +ℤ pos 1)

unfoldable pub dec : Proc (List Item) (Unit {0})
dec = pop_int >>= λ x. push_checked (x -ℤ pos 1)

unfoldable pub sign : Proc (List Item) (Unit {0})
sign = pop_int >>= λ x.
    push (integer (if is_neg x then negsuc 0 else if abs_ℕ x == 0 then pos 0 else pos 1))

abbrev pub lesser : ℤ → ℤ → ℤ
lesser a b = if ltb_ℤ b a then b else a

abbrev pub greater : ℤ → ℤ → ℤ
greater a b = if ltb_ℤ a b then b else a

-- MIN and MAX.
unfoldable pub choose : (ℤ → ℤ → ℤ) → Proc (List Item) (Unit {0})
choose f = do b ← pop_int; a ← pop_int; push (integer (f a b))

-- The cases of the switch; `none` for other instructions.
unfoldable pub numeric : ℕ → Option (Proc (List Item) (Unit {0}))
numeric op =
    if op == Opcode.add
    then some add
    else if op == Opcode.sub
    then some sub
    else if op == Opcode.div
    then some div
    else if op == Opcode.mul
    then some multiply
    else if op == Opcode.mod_op
    then some modulo
    else if op == Opcode.shl
    then some (shift true)
    else if op == Opcode.shr
    then some (shift false)
    else if op == Opcode.inc
    then some inc
    else if op == Opcode.dec
    then some dec
    else if op == Opcode.sign
    then some sign
    else if op == Opcode.min
    then some (choose lesser)
    else if op == Opcode.max
    then some (choose greater)
    else none
