-- ===== src/Transaction/Attribute.antt =====
-- pkg/core/transaction/attribute.go. Runs of consecutive usages in the source's
-- case lists (Hash1 to Hash15, Remark to Remark15) are written as ranges.
use neovm.Transaction.AttrUsage
use neovm.Prelude.{
  ℕ, ◌%◌, ◌^◌, ◌<◌, ◌≡◌, refl, sym, ◌∙◌, Bool, true, false, ◌||◌, ◌&&◌, none, List, [], ◌∷◌, length,
  replicate, length-replicate, leb, lt→ltb, ◌==◌, if◌then◌else◌, pure, ◌>>=◌, ◌>>◌, arith,
}
use native.Mathlib.Nat.{mod-eq_of_lt}
use neovm.Io.Error.{errorf}
use neovm.Io.Reader.{Read, make_bytes, read_bytes, read_b, read_var_uint}
use neovm.Io.Reader
use neovm.Io.Writer.{Write, write_bytes, write_b, write_var_bytes}
use neovm.Io.Writer
use neovm.Io.Codec.{Carries, Carries-then, Carries-last, Carries-congr}
use neovm.Io.RoundTrip.{Carries-bytes, Carries-b, Carries-var_uint}

pub record Attribute : Type 0 where
  pub usage : ℕ
  pub content : List ℕ

abbrev pub is_ecdh : ℕ → Bool
is_ecdh u = u == AttrUsage.ecdh02 || u == AttrUsage.ecdh03

abbrev pub is_hash : ℕ → Bool
is_hash u =
    u == AttrUsage.contract_hash
    || u == AttrUsage.vote
    || (leb AttrUsage.hash1 u && leb u AttrUsage.hash15)

abbrev pub is_remark : ℕ → Bool
is_remark u = u == AttrUsage.description || (leb AttrUsage.remark u && leb u AttrUsage.remark15)

-- `attr.Data = make([]byte, datasize); br.ReadBytes(attr.Data)`
abbrev pub read_content : ℕ → ℕ → Read Attribute
read_content usage datasize = do
  buf ← make_bytes datasize
  content ← read_bytes buf
  pure (record { usage = usage; content = content })

-- The switch of `DecodeBinary`.
unfoldable pub decode_content : ℕ → Read Attribute
decode_content usage =
    if is_ecdh usage
    then (read_bytes (replicate 32 0) >>= λ b. pure (record { usage = usage; content = usage ∷ b }))
    else if is_hash usage
    then read_content usage 32
    else if usage == AttrUsage.script
    then read_content usage 20
    else if usage == AttrUsage.description_url
    then (read_b >>= read_content usage)
    else if is_remark usage
    then (read_var_uint >>= read_content usage)
    else (Reader.fail (errorf "failed decoding TX attribute usage" usage)
        >> pure (record { usage = usage; content = [] }))

unfoldable pub decode_attribute : Read Attribute
decode_attribute = do usage ← read_b; decode_content usage

-- `bw.WriteBytes(attr.Data[1:])`: no data at all is out of range.
abbrev pub write_tail : List ℕ → Write
write_tail [] w = none
write_tail (x ∷ xs) w = write_bytes xs w

-- The switch of `EncodeBinary`.
unfoldable pub encode_content : Attribute → Write
encode_content attr =
    if is_ecdh attr.usage
    then write_tail attr.content
    else if is_remark attr.usage
    then write_var_bytes attr.content
    else if attr.usage == AttrUsage.description_url
    then (write_b (length attr.content % 2 ^ 8) >> write_bytes attr.content)
    else if attr.usage == AttrUsage.script || is_hash attr.usage
    then write_bytes attr.content
    else Writer.fail (errorf "failed encoding TX attribute usage" attr.usage)

unfoldable pub encode_attribute : Attribute → Write
encode_attribute attr = write_b attr.usage >> encode_content attr

-- The attributes that have a binary form: the length of the data is that of the usage, and the data
-- of a key begin with the usage.
pub data IsAttribute (a : Attribute) : Type 0 where
  key :
      is_ecdh a.usage ≡ true
      → (rest : List ℕ) → a.content ≡ a.usage ∷ rest
      → length rest ≡ 32
      → IsAttribute a
  digest : is_hash a.usage ≡ true → length a.content ≡ 32 → IsAttribute a
  script_hash : a.usage ≡ AttrUsage.script → length a.content ≡ 20 → IsAttribute a
  url : a.usage ≡ AttrUsage.description_url → length a.content < 2 ^ 8 → IsAttribute a
  note : is_remark a.usage ≡ true → length a.content < 2 ^ 63 → IsAttribute a

-- The data behind the bytes that give their length.
Carries-content :
    (u : ℕ) (b : List ℕ) (n : ℕ)
    → length b ≡ n
    → n < 2 ^ 63
    → Carries (write_bytes b) (read_content u n) (record { usage = u; content = b })
Carries-content u b n h lt =
    Carries-congr
      (Carries-last (λ c. pure (record { usage = u; content = c }))
        (Carries-bytes (replicate n 0) b (length-replicate n 0 ∙ sym h)) λ r. refl)
      (λ out. refl) (λ r. rw (lt→ltb n (2 ^ 63) lt))

-- The usages of hashes are apart from the others, and so are those of the other shapes.
hash-apart :
    (u : ℕ)
    → is_hash u ≡ true
    → (is_ecdh u ≡ false)
      × (is_remark u ≡ false)
      × ((u == AttrUsage.description_url) ≡ false)
      × ((u == AttrUsage.script || is_hash u) ≡ true)
hash-apart u h = (ground arith, ground arith, ground arith, ground arith)

remark-apart :
    (u : ℕ)
    → is_remark u ≡ true
    → (is_ecdh u ≡ false)
      × (is_hash u ≡ false)
      × ((u == AttrUsage.script) ≡ false)
      × ((u == AttrUsage.description_url) ≡ false)
remark-apart u h = (ground arith, ground arith, ground arith, ground arith)

low : (n : ℕ) → n < 2 ^ 8 → n % 2 ^ 8 ≡ n
low n h = mod-eq_of_lt h

Carries-switch :
    (a : Attribute) → IsAttribute a → Carries (encode_content a) (decode_content a.usage) a
unfolding encode_content decode_content write_var_bytes
Carries-switch a (key k rest e h) =
    rw (k, e)
      (Carries-congr
        (Carries-last (λ b. pure (record { usage = a.usage; content = a.usage ∷ b }))
          (Carries-bytes (replicate 32 0) rest (sym h)) λ r. refl)
        (λ out. refl) (λ r. refl))
Carries-switch a (digest d h) =
    let (e, r, u, s) = hash-apart a.usage d in
    rw (e, r, u, s, d) (Carries-content a.usage a.content 32 h (omega arith))
Carries-switch a (script_hash s h) =
    rw s (Carries-content AttrUsage.script a.content 20 h (omega arith))
Carries-switch a (url s h) =
    rw (s, low (length a.content) h)
      (Carries-then (read_content AttrUsage.description_url) (Carries-b (length a.content) h)
        (Carries-content AttrUsage.description_url a.content (length a.content) refl (omega arith)))
Carries-switch a (note n h) =
    let (e, i, s, u) = remark-apart a.usage n in
    rw (e, i, s, u, n)
      (Carries-then (read_content a.usage) (Carries-var_uint (length a.content) (omega arith))
        (Carries-content a.usage a.content (length a.content) refl h))

-- An attribute whose data have the shape that its usage asks for is read back as it was written,
-- for each usage that has a binary form.
pub Carries-attribute :
    (a : Attribute)
    → IsAttribute a
    → a.usage < 2 ^ 8
    → Carries (encode_attribute a) decode_attribute a
unfolding encode_attribute decode_attribute
Carries-attribute a h u = Carries-then _ (Carries-b a.usage u) (Carries-switch a h)
