-- ===== src/Domain/G722/Tracking.antt =====
-- The decoder follows the encoder: on the octets that an encoder writes, the adaptive state of the
-- decoder's bands stays the encoder's.
use mathlib.Core.Path.{◌≡◌, refl, ap, sym, ◌∙◌, subst}
use pipecat_voice_assistant.Prelude.{ℕ, ◌*◌, ◌/◌, ◌%◌, ◌^◌, ◌<◌, List, [], ◌∷◌, length, All, arith}
use pipecat_voice_assistant.Prelude.Int.{ℤ}
use pipecat_voice_assistant.Prelude.Word.{u8}
use pipecat_voice_assistant.Prelude.Bits.{bit_or, bit_or_fields}
use pipecat_voice_assistant.Domain.G722.Band.{G722Band, block4}
use pipecat_voice_assistant.Domain.G722.Codec.{
  G722Codec, encoder_low, encoder_high, encode_pair, g722_encode, decoder_low, decoder_high,
  decode_octet, g722_decode,
}
use pipecat_voice_assistant.Domain.G722.Ranges.{
  Within, low_code_lt, high_code_lt, entry-wl-SmallStep, entry-wh-SmallStep, encoder_nb-Within,
  encoder_nb-decoder_nb,
}

-- The encoder's log scale factors are in range, and the decoder's bands are the encoder's.
pub record Follows (enc dec : G722Codec) : Type 0 where
  pub low : enc.band0 ≡ dec.band0
  pub high : enc.band1 ≡ dec.band1
  pub low_range : Within 18432 enc.band0.nb
  pub high_range : Within 22528 enc.band1.nb

block4_keeps : (band : G722Band) (dx : ℤ) → (block4 band dx).nb ≡ band.nb
unfolding block4
block4_keeps band dx = refl

encoder_low-Within : (band : G722Band) (ilow : ℕ) → Within 18432 (encoder_low band ilow).nb
unfolding encoder_low
encoder_low-Within band ilow =
    rw (block4_keeps (record band { nb = _; det = _ }) _) (encoder_nb-Within 18432 band.nb _)

encoder_high-Within : (band : G722Band) (ihigh : ℕ) → Within 22528 (encoder_high band ihigh).nb
unfolding encoder_high
encoder_high-Within band ihigh =
    rw (block4_keeps (record band { nb = _; det = _ }) _) (encoder_nb-Within 22528 band.nb _)

encoder_low-decoder_low :
    (band : G722Band) (ilow : ℕ)
    → Within 18432 band.nb
    → encoder_low band ilow ≡ decoder_low band (ilow / 4)
unfolding encoder_low decoder_low
encoder_low-decoder_low band ilow h =
    rw (encoder_nb-decoder_nb 18432 band.nb _ (omega arith) h (entry-wl-SmallStep _)) refl

encoder_high-decoder_high :
    (band : G722Band) (ihigh : ℕ)
    → Within 22528 band.nb
    → encoder_high band ihigh ≡ decoder_high band ihigh
unfolding encoder_high decoder_high
encoder_high-decoder_high band ihigh h =
    rw (encoder_nb-decoder_nb 22528 band.nb _ (omega arith) h (entry-wh-SmallStep _)) refl

-- The two codes of an octet are read back.
fields_of_octet :
    (ilow ihigh : ℕ)
    → ilow < 64
    → ihigh < 4
    → let code = u8 (bit_or (ihigh * 2 ^ 6) ilow) in
      (code % 64 ≡ ilow) × (code / 64 % 4 ≡ ihigh) × (code < 256)
fields_of_octet ilow ihigh hl hh =
    rw (bit_or_fields 6 ihigh ilow hl) (omega arith, omega arith, omega arith)

-- What an octet does to the decoder's bands, by its two codes.
decoded :
    (dec : G722Codec) (code ilow ihigh : ℕ)
    → code % 64 ≡ ilow
    → code / 64 % 4 ≡ ihigh
    → ((decode_octet dec code).0.band0 ≡ decoder_low dec.band0 (ilow / 4))
      × ((decode_octet dec code).0.band1 ≡ decoder_high dec.band1 ihigh)
unfolding decode_octet
decoded dec code ilow ihigh hl hh =
    (ap (λ t. decoder_low dec.band0 (t / 4)) hl, ap (decoder_high dec.band1) hh)

-- What a sample pair does to the encoder's bands, and the octet.
encoded :
    (enc : G722Codec) (first second : ℤ)
    → (ilow : ℕ) × (ihigh : ℕ) × (ilow < 64)
      × (ihigh < 4)
      × ((encode_pair enc first second).0.band0 ≡ encoder_low enc.band0 ilow)
      × ((encode_pair enc first second).0.band1 ≡ encoder_high enc.band1 ihigh)
      × ((encode_pair enc first second).1 ≡ u8 (bit_or (ihigh * 2 ^ 6) ilow))
unfolding encode_pair
encoded enc first second =
    (_, _, low_code_lt enc.band0 _, high_code_lt enc.band1 _, refl, refl, refl)

step-Follows :
    (enc dec : G722Codec) (first second : ℤ)
    → Follows enc dec
    → let (enc', octet) = encode_pair enc first second in
      Follows enc' (decode_octet dec octet).0 × (octet < 256)
step-Follows enc dec first second f =
    let (ilow, ihigh, hl, hh, e0, e1, eo) = encoded enc first second in
    let (fl, fh, fb) = fields_of_octet ilow ihigh hl hh in
    let octet = (encode_pair enc first second).1 in
    let (d0, d1) =
      decoded dec octet ilow ihigh (ap (λ t. t % 64) eo ∙ fl) (ap (λ t. t / 64 % 4) eo ∙ fh) in
    (
      record {
        low =
            e0
            ∙ encoder_low-decoder_low enc.band0 ilow f.low_range
            ∙ ap (λ b. decoder_low b (ilow / 4)) f.low
            ∙ sym d0;
        high =
            e1
            ∙ encoder_high-decoder_high enc.band1 ihigh f.high_range
            ∙ ap (λ b. decoder_high b ihigh) f.high
            ∙ sym d1;
        low_range = subst (λ b. Within 18432 (b.nb)) (sym e0) (encoder_low-Within enc.band0 ilow);
        high_range =
            subst (λ b. Within 22528 (b.nb)) (sym e1) (encoder_high-Within enc.band1 ihigh);
      },
      subst (λ o. o < 256) (sym eo) fb,
    )

abbrev pub IsOctet : ℕ → Type 0
IsOctet o = o < 256

-- From states in which the decoder follows the encoder, the decoder that reads the encoder's octets
-- follows it again at the end: its two adaptive bands are the encoder's. There is an octet for each
-- pair of samples, each is below 256, and the decoder returns a pair of samples for each.
pub g722_decode-g722_encode-Follows :
    (enc dec : G722Codec) (samples : List ℤ)
    → Follows enc dec
    → let (enc', octets) = g722_encode enc samples in
      let (dec', decoded) = g722_decode dec octets in
      Follows enc' dec'
      × All IsOctet octets
      × (length octets ≡ length samples / 2)
      × (length decoded ≡ 2 * length octets)
unfolding g722_encode g722_decode
g722_decode-g722_encode-Follows enc dec [] f = (f, tt, omega arith, omega arith)
g722_decode-g722_encode-Follows enc dec (a ∷ []) f = (f, tt, omega arith, omega arith)
g722_decode-g722_encode-Follows enc dec (a ∷ b ∷ samples) f =
    let (f', small) = step-Follows enc dec a b f in
    let (enc', octet) = encode_pair enc a b in
    let (last, octets, le, ld) =
      g722_decode-g722_encode-Follows enc' (decode_octet dec octet).0 samples f' in
    (last, (small, octets), omega (arith, le), omega (arith, ld))
