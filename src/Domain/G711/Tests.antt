-- ===== src/Domain/G711/Tests.antt =====
-- The theorems on the µ-law codec at concrete samples.
use pipecat_voice_assistant.Prelude.{◌+◌, ◌/◌, ◌≤◌, ◌≡◌, refl, ◌⊎◌, List, [], ◌∷◌, arith}
use pipecat_voice_assistant.Prelude.Int.{ℤ, pos, negsuc, magnitude, is_negative, ◌-ℤ◌}
use pipecat_voice_assistant.Domain.G711.{bias, find_exponent, from_fields, ulaw_encode, ulaw_decode}
use pipecat_voice_assistant.Domain.G711.Companding.{ulaw_decode-encode_near}

-- The reference values of the codec: silence, both ends, and a middle sample.
reference_bytes :
    (ulaw_encode (pos 0) ≡ 0xff)
    × (ulaw_encode (pos 32767) ≡ 0x80)
    × (ulaw_encode (negsuc 32767) ≡ 0x00)
    × (ulaw_decode 0x00 ≡ negsuc 32123)
unfolding ulaw_encode ulaw_decode find_exponent from_fields ◌-ℤ◌
reference_bytes = (refl, refl, refl, refl)

ulaw_decode-encode_near_example :
    let y = ulaw_decode (ulaw_encode (negsuc 999)) in
    ((magnitude y ≡ 0) ⊎ (is_negative y ≡ is_negative (negsuc 999)))
    × (magnitude y ≤ 1000 + (1000 + bias) / 32)
    × (1000 ≤ magnitude y + (1000 + bias) / 32)
ulaw_decode-encode_near_example = ulaw_decode-encode_near (negsuc 999) (omega arith)

abbrev four : List ℤ
four = pos 100 ∷ pos 300 ∷ negsuc 7 ∷ negsuc 9 ∷ []
