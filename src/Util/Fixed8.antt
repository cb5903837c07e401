-- ===== src/Util/Fixed8.antt =====
-- pkg/util/fixed8.go: amounts as decimal text. A text is the list of its bytes, and an amount the
-- int64 that it is. `parse_int` and `format_int` are strconv's ParseInt and FormatInt in base 10,
-- whose errors FixedNFromString turns into its only error, `none`. The digits of a number are
-- written on fuel, the number and one, which has no more digits. The precision is one whose power
-- of ten fits an int64.
pub mod Digits
pub mod Trimmed
pub mod RoundTrip
use neovm.Prelude.{
  ℕ, zero, suc, ◌+◌, ◌-◌, ◌*◌, ◌/◌, ◌%◌, ◌^◌, ◌<◌, Bool, ◌&&◌, Option, none, some, List, [], ◌∷◌,
  ◌++◌, length, replicate, ltb, leb, ◌==◌, if◌then◌else◌,
}
use neovm.Prelude.Int.{ℤ, pos, negsuc, neg_ℤ, ◌+ℤ◌, ◌-ℤ◌, ltb_ℤ, leb_ℤ, wrap64}

abbrev pub precision : ℕ
precision = 8

abbrev pub decimals : ℕ
decimals = 100000000

abbrev pub digit : ℕ → ℕ
digit n = 0x30 + n

abbrev pub digits : ℕ → ℕ → List ℕ
digits zero n = []
digits (suc fuel) n =
    let more = digits fuel (n / 10) in
    if ltb n 10 then digit n ∷ [] else more ++ (digit (n % 10) ∷ [])

abbrev pub format : ℕ → List ℕ
format n = digits (suc n) n

abbrev pub format_int : ℤ → List ℕ
format_int (pos n) = format n
format_int (negsuc n) = 0x2d ∷ format (suc n)

abbrev pub trim_cons : ℕ → List ℕ → List ℕ
trim_cons x [] = if x == 0x30 then [] else x ∷ []
trim_cons x (y ∷ ys) = x ∷ y ∷ ys

-- `strings.TrimRight(str, "0")`
abbrev pub trim_right : List ℕ → List ℕ
trim_right [] = []
trim_right (x ∷ xs) = trim_cons x (trim_right xs)

unfoldable pub fraction : ℕ → List ℕ
fraction v =
    let str = format v in
    if ltb 0 v then 0x2e ∷ replicate (8 - length str) 0x30 ++ trim_right str else []

-- Go's division and remainder of a negative number are not above zero.
unfoldable pub unsigned_string : ℤ → List ℕ
unsigned_string (pos v) = format (v / decimals) ++ fraction (v % decimals)
unsigned_string (negsuc v) = format_int (neg_ℤ (pos (suc v / decimals)))

-- `String`
unfoldable pub string : ℤ → List ℕ
string (pos n) = unsigned_string (pos n)
string (negsuc n) = 0x2d ∷ unsigned_string (wrap64 (neg_ℤ (negsuc n)))

abbrev pub parse_digits : ℕ → List ℕ → Option ℕ
parse_digits acc [] = some acc
parse_digits acc (b ∷ bs) =
    let rest = parse_digits (acc * 10 + (b - 0x30)) bs in
    if leb 0x30 b && leb b 0x39 then rest else none

abbrev pub parse_uint : List ℕ → Option ℕ
parse_uint [] = none
parse_uint (b ∷ bs) = parse_digits 0 (b ∷ bs)

abbrev pub positive : Option ℕ → Option ℤ
positive none = none
positive (some n) = if ltb n (2 ^ 63) then some (pos n) else none

abbrev pub negative : Option ℕ → Option ℤ
negative none = none
negative (some n) = if leb n (2 ^ 63) then some (neg_ℤ (pos n)) else none

abbrev pub parse_int : List ℕ → Option ℤ
parse_int [] = none
parse_int (b ∷ bs) =
    if b == 0x2d
    then negative (parse_uint bs)
    else if b == 0x2b
    then positive (parse_uint bs)
    else positive (parse_uint (b ∷ bs))

-- `strings.SplitN(s, ".", 2)`: the text before the first dot, and the text behind it.
abbrev pub split_dot : List ℕ → List ℕ × Option (List ℕ)
split_dot [] = ([], none)
split_dot (b ∷ bs) = if b == 0x2e then ([], some bs) else (b ∷ (split_dot bs).0, (split_dot bs).1)

abbrev pub times : ℤ → ℕ → ℤ
times (pos n) d = pos (n * d)
times (negsuc n) d = neg_ℤ (pos (suc n * d))

-- The loop that multiplies the fraction by ten.
abbrev pub scale : ℕ → ℤ → ℤ
scale zero fp = fp
scale (suc k) fp = scale k (wrap64 (times fp 10))

abbrev pub joined : ℤ → ℕ → ℤ → ℤ
joined ip d fp =
    if ltb_ℤ ip (pos 0)
    then wrap64 (wrap64 (times ip d) -ℤ fp)
    else wrap64 (wrap64 (times ip d) +ℤ fp)

abbrev pub with_fraction : ℤ → ℕ → List ℕ → Option ℤ → Option ℤ
with_fraction ip n frac none = none
with_fraction ip n frac (some fp) =
    if leb_ℤ (pos (10 ^ n)) fp then none else some (joined ip (10 ^ n) (scale (n - length frac) fp))

abbrev pub from_parts : ℕ → Option ℤ → Option (List ℕ) → Option ℤ
from_parts n none frac = none
from_parts n (some ip) none = some (wrap64 (times ip (10 ^ n)))
from_parts n (some ip) (some frac) = with_fraction ip n frac (parse_int frac)

-- `FixedNFromString`
unfoldable pub fixed_n_from_string : List ℕ → ℕ → Option ℤ
fixed_n_from_string s n = from_parts n (parse_int ((split_dot s).0)) ((split_dot s).1)

-- `Fixed8FromString`
unfoldable pub fixed8_from_string : List ℕ → Option ℤ
fixed8_from_string s = fixed_n_from_string s precision
