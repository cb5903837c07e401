-- ===== src/Keys/PublicKey/RoundTrip.antt =====
-- A compressed public key is read back: the parity of Y tells the two roots apart.
use neovm.Prelude.{
  ℕ, zero, suc, ◌+◌, ◌-◌, ◌%◌, ◌^◌, ◌<◌, ◌≡◌, ◌⊎◌, refl, sym, ◌∙◌, Bool, inl, inr, true, false,
  some, List, ◌∷◌, length, reverse, replicate, lt→ltb, lt→not-leb, ◌==◌, if◌then◌else◌, put_le,
  from_le-put_le, length-put_le, length-reverse, append_assoc, ap, arith,
}
use mathlib.Core.List.{reverse-reverse}
use native.Mathlib.Nat.{sub-zero, mod-eq_of_lt, mod_self}
use neovm.Io.Reader.{reader, failed}
use neovm.Io.Writer.{write_bytes, write_b}
use neovm.Io.Codec.{Carries, Carries-then, Carries-last, Carries-congr}
use neovm.Io.RoundTrip.{Carries-bytes, Carries-b}
use neovm.Keys.PublicKey.{
  Curve, PublicKey, infinity, point, coord_len, coordinate, bytes, with_parity, decode_compressed_y,
  decode_compressed, decode_prefixed, decode_public_key, encode_public_key, IsField, IsPoint, IsKey,
}

abbrev pub tag : ℕ → ℕ
tag y = if y % 2 == 0 then 0x02 else 0x03

tag-parity : (y : ℕ) → tag y % 2 ≡ y % 2
tag-parity y = ground arith

pub bytes-point :
    (x y : ℕ)
    → x < 256 ^ coord_len
    → bytes (point x y) ≡ some (tag y ∷ reverse (put_le coord_len x))
unfolding bytes
bytes-point x y h = rw (bytes, coordinate, lt→ltb x (256 ^ coord_len) h)

module _ (curve : Curve) (f : IsField curve) where
  -- The two roots have different parities.
  parity-apart : (y r : ℕ) → r + y ≡ curve.p → (r % 2 == y % 2) ≡ false
  parity-apart y r e = let odd : (r + y) % 2 ≡ 1 = rw e f.odd in ground arith

  negated : (y r : ℕ) → y < curve.p → r + y ≡ curve.p → (curve.p - r % curve.p) % curve.p ≡ y
  negated zero r h e =
      let whole : r ≡ curve.p = omega arith in
      rw (whole, mod_self curve.p, sub-zero) (mod_self curve.p)
  negated (suc y) r h e =
      let part : r % curve.p ≡ r = mod-eq_of_lt (omega arith) in
      let rest : curve.p - r ≡ suc y = omega arith in rw (part, rest) (mod-eq_of_lt h)

  with_parity_root :
      (y r : ℕ) → y < curve.p → (r ≡ y) ⊎ (r + y ≡ curve.p) → with_parity curve (y % 2) r ≡ y
  with_parity_root y r h (inl e) = rw e (ground arith)
  with_parity_root y r h (inr e) = rw (parity-apart y r e) (negated y r h e)

  -- From the X coordinate of a point and the parity of its Y coordinate, the Y coordinate.
  pub decode_compressed_y_lem :
      (x y : ℕ) → IsPoint curve x y → decode_compressed_y curve x (y % 2) ≡ some y
  unfolding decode_compressed_y
  decode_compressed_y_lem x y (hx, hy, e) =
      let (r, found, either) = f.root y _ hy e in
      rw (decode_compressed_y, found) (ap some (with_parity_root y r hy either))

  field-fits : {x : ℕ} → x < curve.p → x < 256 ^ coord_len
  field-fits h = omega (arith, h, f.fits)

  prefixed :
      (b : Bool) (r : List ℕ)
      → decode_prefixed curve (if b then 0x02 else 0x03) (reader r)
        ≡ decode_compressed curve (if b then 0x02 else 0x03) (reader r)
  unfolding failed
  prefixed true r = refl
  prefixed false r = refl

  Carries-compressed :
      (x y : ℕ)
      → IsPoint curve x y
      → Carries
          (write_bytes (reverse (put_le coord_len x)))
          (decode_compressed curve (tag y))
          (point x y)
  unfolding decode_compressed failed
  Carries-compressed x y (hx, hy, e) =
      Carries-last _ (Carries-bytes (replicate 32 0) (reverse (put_le coord_len x)) sized) λ r.
        rw
          (
            reverse-reverse,
            from_le-put_le coord_len x (field-fits hx),
            tag-parity y,
            decode_compressed_y_lem x y (hx, hy, e),
          )
          (rw (
            reverse-reverse,
            from_le-put_le coord_len x (field-fits hx),
            lt→not-leb curve.p x hx,
            lt→not-leb curve.p y hy,
          ))
    where
      sized : 32 ≡ length (reverse (put_le coord_len x))
      sized = sym (length-reverse (put_le coord_len x) ∙ length-put_le coord_len x)

  -- The key of infinity, and every point of the curve with coordinates in the field, is read back
  -- from its compressed form, for a curve whose field is odd and fits 32 bytes and for which
  -- ModSqrt finds one of the two roots of each square.
  pub Carries-public_key :
      (key : PublicKey)
      → IsKey curve key
      → Carries (encode_public_key key) (decode_public_key curve) key
  unfolding decode_public_key encode_public_key failed bytes write_b write_bytes
  Carries-public_key infinity h =
      Carries-last (decode_prefixed curve) (Carries-b 0 (omega arith)) λ r. refl
  Carries-public_key (point x y) h =
      Carries-congr
        (Carries-then {e' = write_bytes (reverse (put_le coord_len x))} (decode_prefixed curve)
          (Carries-b (tag y) (ground arith))
          (Carries-congr (Carries-compressed x y h) (λ out. refl) (λ r. prefixed (y % 2 == 0) r)))
        (λ out. rw (encode_public_key, bytes-point x y (field-fits h.0), append_assoc)) (λ r. refl)
