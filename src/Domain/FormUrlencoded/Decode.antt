-- ===== src/Domain/FormUrlencoded/Decode.antt =====
-- Decoding undoes every encoding that the format allows.
use pipecat_voice_assistant.Prelude.{
  ℕ, ◌+◌, ◌*◌, ◌<◌, ◌≡◌, refl, ap, ◌∙◌, ◌≢◌, [], ◌∷◌, some, if◌then◌else◌, ◌==◌, Bytes, arith,
}
use pipecat_voice_assistant.Prelude.Word.{◌<<<◌}
use pipecat_voice_assistant.Prelude.Bits.{bit_or, bit_or_fields}
use pipecat_voice_assistant.Domain.FormUrlencoded.{hex_value, escaped, url_decode}

-- `Encodes s t`: t is an encoding of s. A space may be a plus or an escape, and any byte may be
-- escaped, with digits of either case; a plus and a percent sign must be.
pub data Encodes : Bytes → Bytes → Type 0 where
  done : Encodes [] []
  plain : {s t : Bytes} (c : ℕ) → c ≢ b'+' → c ≢ b'%' → Encodes s t → Encodes (c ∷ s) (c ∷ t)
  space : {s t : Bytes} → Encodes s t → Encodes (b' ' ∷ s) (b'+' ∷ t)
  escape :
      {s t : Bytes} (h l hi lo : ℕ)
      → hex_value h ≡ some hi
      → hex_value l ≡ some lo
      → Encodes s t
      → Encodes ((hi * 16 + lo) ∷ s) (b'%' ∷ h ∷ l ∷ t)

hex_value-lt : (c : ℕ) {v : ℕ} → hex_value c ≡ some v → v < 16
unfolding hex_value
hex_value-lt c h = ground arith

url_decode-cons :
    (c : ℕ) (t : Bytes)
    → c ≢ b'%'
    → url_decode (c ∷ t) ≡ (if c == b'+' then b' ' else c) ∷ url_decode t
unfolding url_decode
url_decode-cons c [] h = refl
url_decode-cons c (d ∷ []) h = refl
url_decode-cons c (d ∷ e ∷ t) h = ground arith

url_decode-escape :
    (h l hi lo : ℕ) (t : Bytes)
    → hex_value h ≡ some hi
    → hex_value l ≡ some lo
    → url_decode (b'%' ∷ h ∷ l ∷ t) ≡ bit_or (hi <<< 4) lo ∷ url_decode t
unfolding url_decode escaped
url_decode-escape h l hi lo t eh el = rw (eh, el)

-- Decoding any encoding of a byte string gives the byte string back.
pub url_decode-Encodes : {s t : Bytes} → Encodes s t → url_decode t ≡ s
url_decode-Encodes done = unfold url_decode in refl
url_decode-Encodes (plain {s} {t} c np nc d) =
    url_decode-cons c t nc ∙ ground (arith, url_decode-Encodes d)
url_decode-Encodes (space {s} {t} d) =
    url_decode-cons b'+' t (omega arith) ∙ ap (λ r. b' ' ∷ r) (url_decode-Encodes d)
url_decode-Encodes (escape {s} {t} h l hi lo eh el d) =
    url_decode-escape h l hi lo t eh el
    ∙ ground (arith, bit_or_fields 4 hi lo (hex_value-lt l el), url_decode-Encodes d)
