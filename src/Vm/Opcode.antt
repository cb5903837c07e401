-- ===== src/Vm/Opcode.antt =====
-- pkg/vm/opcode/opcode.go: the instruction codes, bytes. PUSHBYTES1 to PUSHBYTES75 are the codes
-- 0x01 to 0x4b; those of them that the source names elsewhere are listed. The codes are one family,
-- so they stand in a module of their own.
use Prim.Native.Nat.{ℕ}

abbrev pub push0 : ℕ
push0 = 0x00

abbrev pub pushf : ℕ
pushf = 0x00

abbrev pub pushbytes1 : ℕ
pushbytes1 = 0x01

abbrev pub pushbytes2 : ℕ
pushbytes2 = 0x02

abbrev pub pushbytes33 : ℕ
pushbytes33 = 0x21

abbrev pub pushbytes75 : ℕ
pushbytes75 = 0x4B

abbrev pub pushdata1 : ℕ
pushdata1 = 0x4C

abbrev pub pushdata2 : ℕ
pushdata2 = 0x4D

abbrev pub pushdata4 : ℕ
pushdata4 = 0x4E

abbrev pub pushm1 : ℕ
pushm1 = 0x4F

abbrev pub push1 : ℕ
push1 = 0x51

abbrev pub pusht : ℕ
pusht = 0x51

abbrev pub push2 : ℕ
push2 = 0x52

abbrev pub push3 : ℕ
push3 = 0x53

abbrev pub push4 : ℕ
push4 = 0x54

abbrev pub push5 : ℕ
push5 = 0x55

abbrev pub push6 : ℕ
push6 = 0x56

abbrev pub push7 : ℕ
push7 = 0x57

abbrev pub push8 : ℕ
push8 = 0x58

abbrev pub push9 : ℕ
push9 = 0x59

abbrev pub push10 : ℕ
push10 = 0x5A

abbrev pub push11 : ℕ
push11 = 0x5B

abbrev pub push12 : ℕ
push12 = 0x5C

abbrev pub push13 : ℕ
push13 = 0x5D

abbrev pub push14 : ℕ
push14 = 0x5E

abbrev pub push15 : ℕ
push15 = 0x5F

abbrev pub push16 : ℕ
push16 = 0x60

abbrev pub nop : ℕ
nop = 0x61

abbrev pub jmp : ℕ
jmp = 0x62

abbrev pub jmpif : ℕ
jmpif = 0x63

abbrev pub jmpifnot : ℕ
jmpifnot = 0x64

abbrev pub call : ℕ
call = 0x65

abbrev pub ret : ℕ
ret = 0x66

abbrev pub appcall : ℕ
appcall = 0x67

abbrev pub syscall : ℕ
syscall = 0x68

abbrev pub tailcall : ℕ
tailcall = 0x69

abbrev pub dupfromaltstack : ℕ
dupfromaltstack = 0x6A

abbrev pub toaltstack : ℕ
toaltstack = 0x6B

abbrev pub fromaltstack : ℕ
fromaltstack = 0x6C

abbrev pub xdrop : ℕ
xdrop = 0x6D

abbrev pub xswap : ℕ
xswap = 0x72

abbrev pub xtuck : ℕ
xtuck = 0x73

abbrev pub depth : ℕ
depth = 0x74

abbrev pub drop : ℕ
drop = 0x75

abbrev pub dup : ℕ
dup = 0x76

abbrev pub nip : ℕ
nip = 0x77

abbrev pub over : ℕ
over = 0x78

abbrev pub pick : ℕ
pick = 0x79

abbrev pub roll : ℕ
roll = 0x7A

abbrev pub rot : ℕ
rot = 0x7B

abbrev pub swap : ℕ
swap = 0x7C

abbrev pub tuck : ℕ
tuck = 0x7D

abbrev pub cat : ℕ
cat = 0x7E

abbrev pub substr : ℕ
substr = 0x7F

abbrev pub left : ℕ
left = 0x80

abbrev pub right : ℕ
right = 0x81

abbrev pub size : ℕ
size = 0x82

abbrev pub invert : ℕ
invert = 0x83

abbrev pub and : ℕ
and = 0x84

abbrev pub or : ℕ
or = 0x85

abbrev pub xor : ℕ
xor = 0x86

abbrev pub equal : ℕ
equal = 0x87

abbrev pub inc : ℕ
inc = 0x8B

abbrev pub dec : ℕ
dec = 0x8C

abbrev pub sign : ℕ
sign = 0x8D

abbrev pub negate : ℕ
negate = 0x8F

abbrev pub abs : ℕ
abs = 0x90

abbrev pub not : ℕ
not = 0x91

abbrev pub nz : ℕ
nz = 0x92

abbrev pub add : ℕ
add = 0x93

abbrev pub sub : ℕ
sub = 0x94

abbrev pub mul : ℕ
mul = 0x95

abbrev pub div : ℕ
div = 0x96

abbrev pub mod_op : ℕ
mod_op = 0x97

abbrev pub shl : ℕ
shl = 0x98

abbrev pub shr : ℕ
shr = 0x99

abbrev pub booland : ℕ
booland = 0x9A

abbrev pub boolor : ℕ
boolor = 0x9B

abbrev pub numequal : ℕ
numequal = 0x9C

abbrev pub numnotequal : ℕ
numnotequal = 0x9E

abbrev pub lt : ℕ
lt = 0x9F

abbrev pub gt : ℕ
gt = 0xA0

abbrev pub lte : ℕ
lte = 0xA1

abbrev pub gte : ℕ
gte = 0xA2

abbrev pub min : ℕ
min = 0xA3

abbrev pub max : ℕ
max = 0xA4

abbrev pub within : ℕ
within = 0xA5

abbrev pub sha1 : ℕ
sha1 = 0xA7

abbrev pub sha256 : ℕ
sha256 = 0xA8

abbrev pub hash160 : ℕ
hash160 = 0xA9

abbrev pub hash256 : ℕ
hash256 = 0xAA

abbrev pub checksig : ℕ
checksig = 0xAC

abbrev pub verify : ℕ
verify = 0xAD

abbrev pub checkmultisig : ℕ
checkmultisig = 0xAE

abbrev pub arraysize : ℕ
arraysize = 0xC0

abbrev pub pack : ℕ
pack = 0xC1

abbrev pub unpack : ℕ
unpack = 0xC2

abbrev pub pickitem : ℕ
pickitem = 0xC3

abbrev pub setitem : ℕ
setitem = 0xC4

abbrev pub newarray : ℕ
newarray = 0xC5

abbrev pub newstruct : ℕ
newstruct = 0xC6

abbrev pub newmap : ℕ
newmap = 0xC7

abbrev pub append : ℕ
append = 0xC8

abbrev pub reverse : ℕ
reverse = 0xC9

abbrev pub remove : ℕ
remove = 0xCA

abbrev pub haskey : ℕ
haskey = 0xCB

abbrev pub keys : ℕ
keys = 0xCC

abbrev pub values : ℕ
values = 0xCD

abbrev pub calli : ℕ
calli = 0xE0

abbrev pub calle : ℕ
calle = 0xE1

abbrev pub called : ℕ
called = 0xE2

abbrev pub callet : ℕ
callet = 0xE3

abbrev pub calledt : ℕ
calledt = 0xE4

abbrev pub throw : ℕ
throw = 0xF0

abbrev pub throwifnot : ℕ
throwifnot = 0xF1
