-- ===== src/Lib.antt =====
-- A model of neovm: a virtual machine for NEO scripts with the codecs of its blockchain's data.
--
-- The parts and their files (paths from the root of the repository):
-- pkg/io, the binary reader and writer that every codec uses: `Io`. A reader is its remaining
-- input and its sticky error, a writer its buffer and its error; a method is a function of that
-- state, and `none` is a Go panic. `Io.Codec` says what it is for an encoder and a decoder to
-- agree (`Carries`), `Io.Exact` what it is for a decoder to read a number of bytes; the codecs of the
-- other parts are composed in the same way as their code.
-- pkg/vm/emit: `Emit.Bigint` (BytesToInt, IntToBytes) and `Emit.Instructions`, which writes scripts
-- through the writer.
-- pkg/vm: `Vm.Context` (the decoder of instructions), `Vm.Stack` (the stack as a list of values),
-- `Vm.Ring` (the ring of elements in memory that the stack is),
-- `Vm.Push` (the pushes of constants), `Vm.Machine` (items, and the instructions of `execute` that
-- compute, compare, move, splice and jump, each a procedure on the stack in which `none` is a panic),
-- `Vm.Run` (Load, Step, Run and the debugger's
-- steps over these instructions), `Vm.Maps` (MapItem), `Vm.Multisig`
-- (checkMultisigPar with its workers, checkMultisig1 and the cache of keys), `Vm.Contracts` (the
-- checks for single- and multi-signature scripts), `Vm.Opcode`.
-- pkg/util: `Util.Values`, `Util.Fixed8` (amounts as text). pkg/crypto/keys: `Keys.PublicKey`,
-- over a `Curve` that stands for Go's elliptic curve and its modular square root, and
-- `Keys.Sorting`, the order of keys. pkg/smartcontract: `SmartContract`, which writes the script
-- that `Vm.Contracts` checks. pkg/crypto/hash: `Merkle`, the tree of a list of hashes, over
-- SHA-256 as a parameter. pkg/core/transaction: `Transaction.Parts`, `Transaction.Attribute`,
-- `Transaction.Payload` and `Transaction.Body`, where a transaction is decoded part by part and
-- hashed; SHA-256 is a parameter. pkg/core/block: `Block`, over transactions and their Merkle
-- tree. pkg/core/state: `State.Records`, `State.Assets`, `State.Roots`, `State.Coins`,
-- `State.TransferLog` and `State.Unclaimed` (a list of balances as bytes). `Prelude` has the
-- helpers that the parts share, and `Tests` runs on concrete values.
--
-- Numbers of Go are natural numbers with the conversions and wrap-arounds written out, or integers
-- where they are signed. A number on the stack is its value, for no instruction modelled changes
-- one in place, and a collection is its address. The counter of items that Run bounds is the
-- number of items on the stacks and what earlier scripts left in it. The instructions run on
-- stacks as lists; `Vm.Ring` is about the ring of linked elements by itself. The workers of
-- checkMultisigPar are a choice, at each result, of which of the two tasks under way it is of. The
-- loop of Run is on fuel, of which a script without jumps needs one more than its length, and the
-- loop over the results of the workers on fuel, of which the number of keys is enough. The loop
-- over a transfer log runs on fuel, the length of the log, which is enough for transfers of a
-- positive size, and the split of a number into words on fuel, the number, which has fewer words.
-- The loop over the keys of a multi-signature script is on fuel, the length of the script and one.
-- The levels of a Merkle tree are on fuel, of which the number of its leaves is enough. The walk
-- of Peek along a ring is on fuel, one more than the length that the stack keeps, and the digits
-- of a number on fuel, the number and one. Other loops are structural.
--
-- Not modelled: the instructions on collections, INVERT, NEGATE, ABS, AND, OR, XOR, EQUAL, calls of
-- other scripts and contexts, SYSCALL, the hashing instructions, the price of instructions, and the
-- count of the contents of collections, which the ring leaves out too; JSON; addresses; private
-- keys; interop; the command line.
pub mod Prelude
pub mod Io
pub mod Emit
pub mod Vm
pub mod Util
pub mod Keys
pub mod Merkle
pub mod SmartContract
pub mod Transaction
pub mod Block
pub mod State
pub mod Tests
