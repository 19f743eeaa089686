-- ===== src/Domain/G711.antt =====
-- The G.711 µ-law codec and the 2x resamplers, firmware/components/pv_domain/include/domain/g711.hpp.
-- An int16_t is an integer, a byte a number below 256, a buffer a list. Arithmetic in the code is
-- on int32_t and stays in range for int16_t input, so only the final casts to uint8_t are kept.
mod Companding
mod Frames
mod Tests
use pipecat_voice_assistant.Prelude.{
  ℕ, zero, suc, ◌+◌, ◌-◌, ◌*◌, ◌/◌, ◌%◌, ◌^◌, Bool, List, [], ◌∷◌, if◌then◌else◌, ltb, ◌==◌,
}
use pipecat_voice_assistant.Prelude.Int.{
  ℤ, pos, negsuc, magnitude, is_negative, negate, tdiv, ◌+ℤ◌, ◌-ℤ◌,
}
use pipecat_voice_assistant.Prelude.Word.{not8, ◌<<<◌, ◌>>>◌}
use pipecat_voice_assistant.Prelude.Bits.{bit_or}

abbrev pub bias : ℕ
bias = 0x84

abbrev pub clip : ℕ
clip = 32635

-- `for (mask = 0x4000; (pcm & mask) == 0 && exponent > 0; --exponent, mask >>= 1)`, from the given
-- exponent, where the mask is `2 ^ (exponent + 7)`.
find_exponent : ℕ → ℕ → ℕ
find_exponent pcm zero = 0
find_exponent pcm (suc e) =
    let rest = find_exponent pcm e in if pcm >>> (suc e + 7) % 2 == 0 then rest else suc e

-- The biased, clipped magnitude.
abbrev biased : ℤ → ℕ
biased pcm16 = (if ltb clip (magnitude pcm16) then clip else magnitude pcm16) + bias

pub ulaw_encode : ℤ → ℕ
ulaw_encode pcm16 =
    let sign = if is_negative pcm16 then 0x80 else 0 in
    let pcm = biased pcm16 in
    let exponent = find_exponent pcm 7 in
    let mantissa = pcm >>> (exponent + 3) % 16 in
    not8 (bit_or (bit_or sign (exponent <<< 4)) mantissa)

-- `t = (mantissa << 3) + 0x84; t <<= exponent;` and the choice by the sign bit.
from_fields : ℕ → ℕ → ℕ → ℤ
unfolding ◌-ℤ◌
from_fields sign exponent mantissa =
    let t = (mantissa <<< 3 + bias) <<< exponent in
    if sign == 0 then pos t -ℤ pos bias else pos bias -ℤ pos t

pub ulaw_decode : ℕ → ℤ
ulaw_decode u = let v = not8 u in from_fields (v / 128 % 2) (v / 16 % 8) (v % 16)

pub downsample_2x : List ℤ → List ℤ
unfolding ◌+ℤ◌
downsample_2x (a ∷ b ∷ r) = tdiv (a +ℤ b) 2 ∷ downsample_2x r
downsample_2x _ = []

pub upsample_2x : List ℤ → List ℤ
unfolding ◌+ℤ◌
upsample_2x [] = []
upsample_2x (a ∷ []) = a ∷ tdiv (a +ℤ a) 2 ∷ []
upsample_2x (a ∷ b ∷ r) = a ∷ tdiv (a +ℤ b) 2 ∷ upsample_2x (b ∷ r)

pub g711_encode_16k : List ℤ → List ℕ
unfolding ◌+ℤ◌
g711_encode_16k (a ∷ b ∷ r) = ulaw_encode (tdiv (a +ℤ b) 2) ∷ g711_encode_16k r
g711_encode_16k _ = []

pub g711_decode_to_16k : List ℕ → List ℤ
unfolding ◌+ℤ◌
g711_decode_to_16k [] = []
g711_decode_to_16k (a ∷ []) = ulaw_decode a ∷ tdiv (ulaw_decode a +ℤ ulaw_decode a) 2 ∷ []
g711_decode_to_16k (a ∷ b ∷ r) =
    ulaw_decode a ∷ tdiv (ulaw_decode a +ℤ ulaw_decode b) 2 ∷ g711_decode_to_16k (b ∷ r)
