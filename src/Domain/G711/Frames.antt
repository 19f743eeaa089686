-- ===== src/Domain/G711/Frames.antt =====
-- The frame helpers against the codec and the resamplers, and the lengths of their results.
use pipecat_voice_assistant.Prelude.{
  ℕ, ◌*◌, ◌/◌, ◌≡◌, refl, ap, List, [], ◌∷◌, map, length, arith, All,
}
use pipecat_voice_assistant.Prelude.Int.{ℤ, tdiv, ◌+ℤ◌}
use pipecat_voice_assistant.Domain.EnergyGate.{IsInt16}
use pipecat_voice_assistant.Domain.G711.{
  ulaw_encode, ulaw_decode, downsample_2x, upsample_2x, g711_encode_16k, g711_decode_to_16k,
}

-- Encoding a frame is downsampling it and companding each sample.
encode-downsample : (pcm : List ℤ) → g711_encode_16k pcm ≡ map ulaw_encode (downsample_2x pcm)
unfolding g711_encode_16k downsample_2x
encode-downsample [] = refl
encode-downsample (a ∷ []) = refl
encode-downsample (a ∷ b ∷ r) = ap (λ t. ulaw_encode (tdiv (a +ℤ b) 2) ∷ t) (encode-downsample r)

decode-upsample : (u : List ℕ) → g711_decode_to_16k u ≡ upsample_2x (map ulaw_decode u)
unfolding g711_decode_to_16k upsample_2x
decode-upsample [] = refl
decode-upsample (a ∷ []) = refl
decode-upsample (a ∷ b ∷ r) =
    ap (λ t. ulaw_decode a ∷ tdiv (ulaw_decode a +ℤ ulaw_decode b) 2 ∷ t) (decode-upsample (b ∷ r))

-- The two frame helpers are the codec composed with the resamplers: encoding downsamples and
-- compands each sample, decoding expands each byte and upsamples.
pub g711_frame_refines :
    (pcm : List ℤ) (u : List ℕ)
    → (g711_encode_16k pcm ≡ map ulaw_encode (downsample_2x pcm))
      × (g711_decode_to_16k u ≡ upsample_2x (map ulaw_decode u))
g711_frame_refines pcm u = (encode-downsample pcm, decode-upsample u)

length-encode : (pcm : List ℤ) → length (g711_encode_16k pcm) ≡ length pcm / 2
unfolding g711_encode_16k
length-encode [] = refl
length-encode (a ∷ []) = refl
length-encode (a ∷ b ∷ r) = omega (arith, length-encode r)

length-decode : (u : List ℕ) → length (g711_decode_to_16k u) ≡ length u * 2
unfolding g711_decode_to_16k
length-decode [] = refl
length-decode (a ∷ []) = refl
length-decode (a ∷ b ∷ r) = omega (arith, length-decode (b ∷ r))

average-IsInt16 : (a b : ℤ) → IsInt16 a → IsInt16 b → IsInt16 (tdiv (a +ℤ b) 2)
unfolding ◌+ℤ◌
average-IsInt16 a b ha hb = ground arith

downsample-IsInt16 : (pcm : List ℤ) → All IsInt16 pcm → All IsInt16 (downsample_2x pcm)
unfolding downsample_2x
downsample-IsInt16 [] h = tt
downsample-IsInt16 (a ∷ []) h = tt
downsample-IsInt16 (a ∷ b ∷ r) h = (average-IsInt16 a b h.0 h.1.0, downsample-IsInt16 r h.1.1)

upsample-IsInt16 : (pcm : List ℤ) → All IsInt16 pcm → All IsInt16 (upsample_2x pcm)
unfolding upsample_2x
upsample-IsInt16 [] h = tt
upsample-IsInt16 (a ∷ []) h = (h.0, (average-IsInt16 a a h.0 h.0, tt))
upsample-IsInt16 (a ∷ b ∷ r) h =
    (h.0, (average-IsInt16 a b h.0 h.1.0, upsample-IsInt16 (b ∷ r) h.1))

-- A frame of n samples encodes to n / 2 bytes and a packet of n bytes decodes to 2 n samples, and
-- resampling in either direction stays within int16.
pub g711_frame_bounds :
    (pcm : List ℤ) (u : List ℕ)
    → All IsInt16 pcm
    → (length (g711_encode_16k pcm) ≡ length pcm / 2)
      × (length (g711_decode_to_16k u) ≡ length u * 2)
      × All IsInt16 (downsample_2x pcm)
      × All IsInt16 (upsample_2x pcm)
g711_frame_bounds pcm u h =
    (length-encode pcm, length-decode u, downsample-IsInt16 pcm h, upsample-IsInt16 pcm h)
