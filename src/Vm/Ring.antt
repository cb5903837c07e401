-- ===== src/Vm/Ring.antt =====
-- pkg/vm/stack.go as it is written: a stack is a ring of elements linked by pointers, with the
-- stack's own `top` between the last element and the first. A pointer is an address, nil is 0, and
-- the address of a stack is that of its `top`, the first field of it. Each field of the elements is
-- a function of their addresses; the value of a `top`, which nothing reads, is any value. `none` is
-- the panic of an access through nil. The counts of items are left out. The loop of Peek has fuel,
-- one more than the stack's length.
use neovm.Prelude.{
  ℕ, zero, suc, ◌||◌, Option, none, some, ◌==◌, if◌then◌else◌, Proc, pure, ◌>>=◌, ◌>>◌,
}
use neovm.Prelude.Int.{ℤ, pos, negsuc, pos_part, eqb_ℤ, leb_ℤ, ltb_ℤ, ◌+ℤ◌, ◌-ℤ◌}
pub mod Chain
pub mod Heap
pub mod Removal
pub mod Walk
pub mod Refinement
pub mod Insertion
pub mod Moves
pub mod Ordering
pub mod Apart
pub mod Transfer
use neovm.Io.Error.{new}
use neovm.Vm.Stack.{Answer, ok, err}

unfoldable pub put : {B : Type 0} → (ℕ → B) → ℕ → B → ℕ → B
put f a v b = if b == a then v else f b

-- The elements' fields, the lengths of stacks, and the first address that is not in use.
pub record Memory (A : Type 0) : Type 0 where
  pub fresh : ℕ
  pub value : ℕ → A
  pub next : ℕ → ℕ
  pub prev : ℕ → ℕ
  pub stack : ℕ → ℕ
  pub len : ℕ → ℤ

module _ {A : Type 0} where
  -- What an access through a pointer does: it panics at nil.
  abbrev pub through : {B : Type 0} → ℕ → Option (B × Memory A) → Option (B × Memory A)
  through p r = if p == 0 then none else r

  abbrev pub get_value : ℕ → Proc (Memory A) A
  get_value p m = through p (some (m.value p, m))

  abbrev pub get_next : ℕ → Proc (Memory A) ℕ
  get_next p m = through p (some (m.next p, m))

  abbrev pub get_prev : ℕ → Proc (Memory A) ℕ
  get_prev p m = through p (some (m.prev p, m))

  abbrev pub get_stack : ℕ → Proc (Memory A) ℕ
  get_stack p m = through p (some (m.stack p, m))

  abbrev pub get_len : ℕ → Proc (Memory A) ℤ
  get_len s m = through s (some (m.len s, m))

  abbrev pub set_value : ℕ → A → Proc (Memory A) (Unit {0})
  set_value p v m = through p (some (tt, record m { value = put (m.value) p v }))

  abbrev pub set_next : ℕ → ℕ → Proc (Memory A) (Unit {0})
  set_next p q m = through p (some (tt, record m { next = put (m.next) p q }))

  abbrev pub set_prev : ℕ → ℕ → Proc (Memory A) (Unit {0})
  set_prev p q m = through p (some (tt, record m { prev = put (m.prev) p q }))

  abbrev pub set_stack : ℕ → ℕ → Proc (Memory A) (Unit {0})
  set_stack p s m = through p (some (tt, record m { stack = put (m.stack) p s }))

  abbrev pub set_len : ℕ → ℤ → Proc (Memory A) (Unit {0})
  set_len s n m = through s (some (tt, record m { len = put (m.len) s n }))

  -- `NewElement`: the element at an address that nothing uses.
  unfoldable pub new_element : A → Proc (Memory A) ℕ
  new_element v m = some (
    m.fresh,
    record m {
      fresh = suc (m.fresh);
      value = put (m.value) (m.fresh) v;
      next = put (m.next) (m.fresh) 0;
      prev = put (m.prev) (m.fresh) 0;
      stack = put (m.stack) (m.fresh) 0;
    },
  )

  unfoldable pub new_stack : Proc (Memory A) ℕ
  new_stack m = some (
    m.fresh,
    record m {
      fresh = suc (m.fresh);
      next = put (m.next) (m.fresh) (m.fresh);
      prev = put (m.prev) (m.fresh) (m.fresh);
      stack = put (m.stack) (m.fresh) 0;
      len = put (m.len) (m.fresh) (pos 0);
    },
  )

  unfoldable pub clear : ℕ → Proc (Memory A) (Unit {0})
  clear s = do set_next s s; set_prev s s; set_len s (pos 0)

  -- The element that `insert` links: a copy of one that the stack holds already.
  unfoldable pub cleaned : ℕ → ℕ → Proc (Memory A) ℕ
  cleaned s e = do owner ← get_stack e; if owner == s then get_value e >>= new_element else pure e

  unfoldable pub link : ℕ → ℕ → ℕ → Proc (Memory A) ℕ
  link s e at = do
    n ← get_next at
    set_next at e
    set_prev e at
    set_next e n
    set_prev n e
    set_stack e s
    count ← get_len s
    set_len s (count +ℤ pos 1)
    pure e

  abbrev pub insert : ℕ → ℕ → ℕ → Proc (Memory A) ℕ
  insert s e at = cleaned s e >>= λ e'. link s e' at

  -- `Element.Next`
  unfoldable pub next_element : ℕ → Proc (Memory A) ℕ
  next_element e = do
    elem ← get_next e
    owner ← get_stack e
    pure (if owner == 0 then 0 else if elem == owner then 0 else elem)

  unfoldable pub top : ℕ → Proc (Memory A) ℕ
  top s = do count ← get_len s; first ← get_next s; pure (if eqb_ℤ count (pos 0) then 0 else first)

  unfoldable pub peek_loop : ℕ → ℤ → ℕ → ℕ → Proc (Memory A) ℕ
  peek_loop zero n i e = λ m. none
  peek_loop (suc fuel) n i e =
      if e == 0
      then pure 0
      else if eqb_ℤ n (pos i)
      then pure e
      else next_element e >>= peek_loop fuel n (suc i)

  unfoldable pub peek : ℕ → ℤ → Proc (Memory A) ℕ
  peek s n = do count ← get_len s; first ← top s; peek_loop (suc (pos_part count)) n 0 first

  unfoldable pub insert_at : ℕ → ℕ → ℤ → Proc (Memory A) ℕ
  insert_at s e n = do
    before ← peek s (n -ℤ pos 1)
    if before == 0 then pure 0 else insert s e before

  unfoldable pub push : ℕ → ℕ → Proc (Memory A) (Unit {0})
  push s e = do e' ← insert s e s; pure tt

  -- The first two statements of `Remove`, and of the relinking in `Roll`.
  unfoldable pub bypass : ℕ → Proc (Memory A) (Unit {0})
  bypass e = do
    before ← get_prev e
    after ← get_next e
    set_next before after
    after' ← get_next e
    before' ← get_prev e
    set_prev after' before'

  unfoldable pub detach : ℕ → ℕ → Proc (Memory A) ℕ
  detach s e = do
    set_next e 0
    set_prev e 0
    set_stack e 0
    count ← get_len s
    set_len s (count -ℤ pos 1)
    pure e

  unfoldable pub remove : ℕ → ℕ → Proc (Memory A) ℕ
  remove s e = if e == 0 then pure 0 else bypass e >> detach s e

  unfoldable pub pop : ℕ → Proc (Memory A) ℕ
  pop s = top s >>= remove s

  unfoldable pub remove_at : ℕ → ℤ → Proc (Memory A) ℕ
  remove_at s n = peek s n >>= remove s

  -- `Dup`, with the duplication of an item as `copy`.
  unfoldable pub dup : (A → A) → ℕ → ℤ → Proc (Memory A) ℕ
  dup copy s n = do
    e ← peek s n
    if e == 0 then pure 0 else get_value e >>= λ v. new_element (copy v)

  abbrev pub exchange : ℕ → ℤ → ℤ → Proc (Memory A) (Answer (Unit {0}))
  exchange s n1 n2 = do
    a ← peek s n1
    b ← peek s n2
    v ← get_value b
    w ← get_value a
    set_value a v
    set_value b w
    pure (ok tt)

  abbrev swap_within : ℕ → ℤ → ℤ → ℤ → Proc (Memory A) (Answer (Unit {0}))
  swap_within s n1 n2 count =
      if ltb_ℤ n1 (pos 0) || ltb_ℤ n2 (pos 0)
      then pure (err (new "negative index"))
      else if leb_ℤ count n1 || leb_ℤ count n2
      then pure (err (new "too big index"))
      else if eqb_ℤ n1 n2
      then pure (ok tt)
      else exchange s n1 n2

  unfoldable pub swap : ℕ → ℤ → ℤ → Proc (Memory A) (Answer (Unit {0}))
  swap s n1 n2 = get_len s >>= swap_within s n1 n2

  unfoldable pub relink : ℕ → ℕ → ℕ → Proc (Memory A) (Unit {0})
  relink s first e = do bypass e; set_prev first e; set_next e first; set_prev e s; set_next s e

  abbrev raise : ℕ → ℤ → Proc (Memory A) (Answer (Unit {0}))
  raise s n = do first ← peek s (pos 0); e ← peek s n; relink s first e; pure (ok tt)

  abbrev roll_within : ℕ → ℤ → ℤ → Proc (Memory A) (Answer (Unit {0}))
  roll_within s n count =
      if ltb_ℤ n (pos 0)
      then pure (err (new "negative index"))
      else if leb_ℤ count n
      then pure (err (new "too big index"))
      else if eqb_ℤ n (pos 0)
      then pure (ok tt)
      else raise s n

  unfoldable pub roll : ℕ → ℤ → Proc (Memory A) (Answer (Unit {0}))
  roll s n = get_len s >>= roll_within s n

  -- The move of an element between two stacks of a machine.
  unfoldable pub to_stack : ℕ → ℕ → Proc (Memory A) (Unit {0})
  to_stack s t = pop s >>= push t
