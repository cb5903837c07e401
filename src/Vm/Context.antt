-- ===== src/Vm/Context.antt =====
-- pkg/vm/context.go: a loaded script and its decoder. The fields that name stacks are numbers of
-- stacks; the instruction pointers are offsets in the script and never negative.
pub mod Bounds
use neovm.Prelude.{
  ℕ, suc, ◌+◌, ◌-◌, ◌*◌, ◌≡◌, Bool, true, false, ◌&&◌, ◌||◌, Option, none, some, List, [], ◌∷◌,
  length, get_or, take, drop, ltb, leb, ◌==◌, if◌then◌else◌, from_le,
}
use neovm.Vm.Opcode

pub record Context : Type 0 where
  pub ip : ℕ
  pub nextip : ℕ
  pub prog : List ℕ
  pub break_points : List ℕ
  -- What `rvcount` counts; no value stands for -1, an unspecified count.
  pub rvcount : Option ℕ
  pub estack : ℕ
  pub astack : ℕ
  pub script_hash : List ℕ
  pub has_dynamic_invoke : Bool

-- MaxItemSize of pkg/vm/vm.go
abbrev pub max_item_size : ℕ
max_item_size = 1024 * 1024

-- An instruction with its parameter, if it takes one, or the code at which the decoder failed.
pub data Fetched : Type 0 where
  instruction : ℕ → Option (List ℕ) → Fetched
  no_inst_param : ℕ → Fetched
  too_big : ℕ → Fetched

-- What the first switch of `Next` finds: nothing to read, so many bytes to read at an offset, or
-- one of its two errors.
pub data Operand : Type 0 where
  absent : Operand
  operand : ℕ → ℕ → Operand
  missing : ℕ → Operand
  oversized : ℕ → Operand

-- `b[i:j]` of a script.
abbrev pub slice : List ℕ → ℕ → ℕ → List ℕ
slice b i j = take (j - i) (drop i b)

-- The length of the parameter is a byte, a 16-bit or a 32-bit word in the script.
unfoldable pub pushdata1_operand : List ℕ → ℕ → Operand
pushdata1_operand prog nextip =
    if leb (length prog) nextip then missing nextip else operand (get_or prog nextip 0) (nextip + 1)

unfoldable pub pushdata2_operand : List ℕ → ℕ → Operand
pushdata2_operand prog nextip =
    if leb (length prog) (nextip + 1)
    then missing nextip
    else operand (from_le (slice prog nextip (nextip + 2))) (nextip + 2)

unfoldable pub pushdata4_operand : List ℕ → ℕ → Operand
pushdata4_operand prog nextip =
    if leb (length prog) (nextip + 3)
    then missing nextip
    else (let n = from_le (slice prog nextip (nextip + 4)) in
        if ltb max_item_size n then oversized nextip else operand n (nextip + 4))

unfoldable pub is_jump : ℕ → Bool
is_jump i =
    i == Opcode.jmp
    || i == Opcode.jmpif
    || i == Opcode.jmpifnot
    || i == Opcode.call
    || i == Opcode.called
    || i == Opcode.calledt

unfoldable pub operand_of : ℕ → List ℕ → ℕ → Operand
unfolding pushdata1_operand pushdata2_operand pushdata4_operand is_jump
operand_of i prog nextip =
    if i == Opcode.pushdata1 || i == Opcode.syscall
    then pushdata1_operand prog nextip
    else if i == Opcode.pushdata2
    then pushdata2_operand prog nextip
    else if i == Opcode.pushdata4
    then pushdata4_operand prog nextip
    else if is_jump i
    then operand 2 nextip
    else if i == Opcode.calli
    then operand 4 nextip
    else if i == Opcode.appcall || i == Opcode.tailcall
    then operand 20 nextip
    else if i == Opcode.calle || i == Opcode.callet
    then operand 22 nextip
    else if leb Opcode.pushbytes1 i && leb i Opcode.pushbytes75
    then operand i nextip
    else absent

-- The end of `Next`: the parameter is copied out of the script if all of it is there.
-- `nextip + n - 1 >= len` is written without the subtraction.
unfoldable pub read_operand : Context → ℕ → Operand → Context × Fetched
read_operand c i absent = (c, instruction i none)
read_operand c i (missing at) = (record c { nextip = at }, no_inst_param i)
read_operand c i (oversized at) = (record c { nextip = at }, too_big i)
read_operand c i (operand n at) =
    if leb (length c.prog + 1) (at + n)
    then (record c { nextip = at }, no_inst_param i)
    else (record c { nextip = at + n }, instruction i (some (slice c.prog at (at + n))))

unfoldable pub next : Context → Context × Fetched
unfolding read_operand
next c =
    let here = record c { ip = c.nextip } in
    if leb (length c.prog) c.nextip
    then (here, instruction Opcode.ret none)
    else (let i = get_or c.prog c.nextip 0 in
        read_operand (record here { nextip = c.nextip + 1 }) i (operand_of i c.prog (c.nextip + 1)))

-- `NewContext`
abbrev pub new_context : List ℕ → Context
new_context b = record {
  ip = 0;
  nextip = 0;
  prog = b;
  break_points = [];
  rvcount = none;
  estack = 0;
  astack = 0;
  script_hash = [];
  has_dynamic_invoke = false;
}

-- `IP`, `LenInstr`, `CurrInstr`: the last reads the script at the current offset and panics behind
-- its end.
unfoldable pub len_instr : Context → ℕ
len_instr c = length c.prog

unfoldable pub curr_instr : Context → Option (ℕ × ℕ)
curr_instr c = if ltb c.ip (length c.prog) then some (c.ip, get_or c.prog c.ip 0) else none

unfoldable pub mem_ip : ℕ → List ℕ → Bool
mem_ip ip [] = false
mem_ip ip (n ∷ ns) = n == ip || mem_ip ip ns

unfoldable pub at_break_point : Context → Bool
at_break_point c = mem_ip c.ip c.break_points
