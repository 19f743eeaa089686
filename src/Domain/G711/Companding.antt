-- ===== src/Domain/G711/Companding.antt =====
-- µ-law companding: round trip, quantisation error, symmetry.
use pipecat_voice_assistant.Prelude.{
  ℕ, zero, suc, ◌+◌, ◌-◌, ◌*◌, ◌/◌, ◌%◌, ◌^◌, ◌≤◌, ◌<◌, ◌≡◌, ◌∙◌, refl, ◌⊎◌, inl, inr, true,
  if◌then◌else◌, ltb, ◌==◌, arith, ==_iff, holds_below, holds_below-lt, not,
}
use pipecat_voice_assistant.Prelude.Int.{ℤ, pos, negsuc, magnitude, is_negative, ◌-ℤ◌}
use pipecat_voice_assistant.Prelude.Word.{not8, ◌<<<◌, ◌>>>◌}
use pipecat_voice_assistant.Prelude.Bits.{bit_or, bit_or_fields}
use pipecat_voice_assistant.Domain.EnergyGate.{IsInt16}
use pipecat_voice_assistant.Domain.G711.{
  bias, clip, find_exponent, biased, from_fields, ulaw_encode, ulaw_decode,
}

-- The segment of a biased magnitude.
record IsSegment (x e : ℕ) : Type 0 where
  at_most : e ≤ 7
  above : x < 2 ^ (e + 8)
  below : (e ≡ 0) ⊎ (2 ^ (e + 7) ≤ x)

find_exponent-IsSegment : (x : ℕ) → x < 2 ^ 15 → IsSegment x (find_exponent x 7)
unfolding find_exponent
find_exponent-IsSegment x h = ground arith

-- What the codec makes of a biased magnitude, in each segment, is off by less than a 32nd.
quantise :
    (e x : ℕ)
    → IsSegment x e
    → bias ≤ x
    → let y = (x / 2 ^ (e + 3) % 16 * 8 + bias) * 2 ^ e in
      (bias ≤ y) × (y ≤ x + x / 32) × (x ≤ y + x / 32)
quantise zero x s h = omega arith
quantise (suc zero) x s h = omega arith
quantise (suc (suc zero)) x s h = omega arith
quantise (suc (suc (suc zero))) x s h = omega arith
quantise (suc (suc (suc (suc zero)))) x s h = omega arith
quantise (suc (suc (suc (suc (suc zero))))) x s h = omega arith
quantise (suc (suc (suc (suc (suc (suc zero)))))) x s h = omega arith
quantise (suc (suc (suc (suc (suc (suc (suc zero))))))) x s h = omega arith
quantise (suc (suc (suc (suc (suc (suc (suc (suc e)))))))) x s h = absurd (omega (arith, s.at_most))

sign_bit : ℤ → ℕ
sign_bit s = if is_negative s then 1 else 0

-- The three fields of the byte do not overlap, so the complement is a difference.
byte_fields :
    (b e m : ℕ)
    → b ≤ 1
    → e ≤ 7
    → m < 16
    → not8 (bit_or (bit_or (b * 0x80) (e <<< 4)) m) ≡ 255 - (b * 0x80 + e * 16 + m)
byte_fields b e m hb he hm =
    rw (bit_or_fields 7 b (e * 16) (omega arith), regroup)
      (rw (bit_or_fields 4 (b * 8 + e) m hm) (omega arith))
  where
    regroup : b * 2 ^ 7 + e * 16 ≡ (b * 8 + e) * 2 ^ 4
    regroup = omega arith

-- The fields are read back from the byte.
fields_of_byte :
    (b e m : ℕ)
    → b ≤ 1
    → e ≤ 7
    → m < 16
    → let v = not8 (255 - (b * 0x80 + e * 16 + m)) in
      (v % 16 ≡ m) × (v / 16 % 8 ≡ e) × (v / 128 % 2 ≡ b)
fields_of_byte b e m hb he hm = omega arith

decode_byte :
    (b e m : ℕ)
    → b ≤ 1
    → e ≤ 7
    → m < 16
    → ulaw_decode (255 - (b * 0x80 + e * 16 + m)) ≡ from_fields b e m
decode_byte b e m hb he hm =
    let f = fields_of_byte b e m hb he hm in unfold ulaw_decode in rw (f.0, f.1, f.2)

encode_byte :
    (s : ℤ)
    → IsInt16 s
    → let e = find_exponent (biased s) 7 in
      ulaw_encode s ≡ 255 - (sign_bit s * 0x80 + e * 16 + biased s >>> (e + 3) % 16)
encode_byte s h = go s (find_exponent-IsSegment (biased s) (ground arith))
  where
    go :
        (s : ℤ)
        → IsSegment (biased s) (find_exponent (biased s) 7)
        → ulaw_encode s
          ≡ 255
            - (sign_bit s * 0x80
                + find_exponent (biased s) 7 * 16
                + biased s >>> (find_exponent (biased s) 7 + 3) % 16)
    go (pos n) g =
        let x = biased (pos n) in
        let e = find_exponent x 7 in
        unfold ulaw_encode sign_bit in
        byte_fields 0 e (x >>> (e + 3) % 16) (omega arith) g.at_most (omega arith)
    go (negsuc n) g =
        let x = biased (negsuc n) in
        let e = find_exponent x 7 in
        unfold ulaw_encode sign_bit in
        byte_fields 1 e (x >>> (e + 3) % 16) (omega arith) g.at_most (omega arith)

from_fields-magnitude :
    (b e m : ℕ)
    → let t = (m * 8 + bias) * 2 ^ e in
      let y = from_fields b e m in
      bias ≤ t → (magnitude y ≡ t - bias) × ((magnitude y ≡ 0) ⊎ (is_negative y ≡ not (b == 0)))
unfolding from_fields ◌-ℤ◌
from_fields-magnitude b e m h = ground arith

sign_bit_lem : (s : ℤ) → (sign_bit s ≤ 1) × (not (sign_bit s == 0) ≡ is_negative s)
unfolding sign_bit
sign_bit_lem s = ground arith

-- The magnitude after clipping.
abbrev pub clipped : ℤ → ℕ
clipped s = if ltb clip (magnitude s) then clip else magnitude s

-- Encoding and decoding an int16 sample keeps its sign (or gives 0), and moves its clipped
-- magnitude by at most a 32nd of the biased magnitude.
pub ulaw_decode-encode_near :
    (s : ℤ)
    → IsInt16 s
    → let y = ulaw_decode (ulaw_encode s) in
      let off = (clipped s + bias) / 32 in
      ((magnitude y ≡ 0) ⊎ (is_negative y ≡ is_negative s))
      × (magnitude y ≤ clipped s + off)
      × (clipped s ≤ magnitude y + off)
ulaw_decode-encode_near s h =
    let x = biased s in
    let e = find_exponent x 7 in
    let m = x / 2 ^ (e + 3) % 16 in
    let segment : IsSegment x e = find_exponent-IsSegment x (ground arith) in
    let q = quantise e x segment (omega arith) in
    let r = from_fields-magnitude (sign_bit s) e m q.0 in
    rw
      (
        encode_byte s h,
        decode_byte (sign_bit s) e m (sign_bit_lem s).0 segment.at_most (omega arith),
      )
      (
        elim r.1 [ inl z ↦ inl z | inr d ↦ inr (d ∙ (sign_bit_lem s).1) ],
        omega (arith, q.1, r.0),
        omega (arith, q.2, r.0),
      )

-- Decoding a byte and encoding the sample gives the byte back, except for the negative zero 0x7F,
-- which comes back as the positive zero 0xFF.
pub ulaw_encode-decode :
    (u : ℕ) → u < 256 → ulaw_encode (ulaw_decode u) ≡ (if u == 0x7f then 0xff else u)
ulaw_encode-decode u h = (==_iff _ _).0 (holds_below-lt 256 _ u table h)
  where
    table :
        holds_below 256 (λ v. ulaw_encode (ulaw_decode v) == (if v == 0x7f then 0xff else v)) ≡ true
    table = unfold holds_below ulaw_encode ulaw_decode find_exponent from_fields ◌-ℤ◌ in refl
