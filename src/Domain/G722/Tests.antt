-- ===== src/Domain/G722/Tests.antt =====
-- Runs of the G.722 codec, and the theorems applied to them.
use pipecat_voice_assistant.Prelude.{◌≡◌, refl, List, [], ◌∷◌, Bytes, ◌*◌, ◌/◌, length, All, arith}
use pipecat_voice_assistant.Prelude.Int.{ℤ, pos, negsuc, ◌+ℤ◌, ◌-ℤ◌, ◌*ℤ◌}
use pipecat_voice_assistant.Domain.G722.Tables.{saturate16, sat_add16, sat_sub16, circ_dot12}
use pipecat_voice_assistant.Domain.G722.Band.{
  scale15, upzero, uppol2, uppol1, leaked, clamp, block4, encoder_nb, scale_det,
}
use pipecat_voice_assistant.Domain.G722.Codec.{
  g722_init, quantl_from, low_entry, high_entry, low_code, high_code, low_difference,
  high_difference, encoder_low, encoder_high, encode_pair, g722_encode, g722_decode,
}
use pipecat_voice_assistant.Domain.G722.Tracking.{Follows, IsOctet, g722_decode-g722_encode-Follows}

abbrev speech : List ℤ
speech = pos 0 ∷ pos 5000 ∷ pos 9000 ∷ negsuc 3000 ∷ negsuc 20000 ∷ pos 700 ∷ []

unfoldable encoded : Bytes
unfolding g722_encode encode_pair low_code high_code low_entry high_entry encoder_low encoder_high
    low_difference high_difference quantl_from encoder_nb leaked clamp scale_det block4 scale15
    upzero uppol2 uppol1 saturate16 sat_add16 sat_sub16 circ_dot12 ◌+ℤ◌ ◌-ℤ◌ ◌*ℤ◌
encoded = (g722_encode g722_init speech).1

speech_encoded : encoded ≡ 250 ∷ 140 ∷ 32 ∷ []
unfolding encoded
speech_encoded = refl

init-Follows : Follows g722_init g722_init
init-Follows = record {
  low = refl;
  high = refl;
  low_range = ground arith;
  high_range = ground arith;
}

g722_decode-g722_encode-Follows_example :
    let (enc, octets) = g722_encode g722_init speech in
    let (dec, decoded) = g722_decode g722_init octets in
    Follows enc dec
    × All IsOctet octets
    × (length octets ≡ length speech / 2)
    × (length decoded ≡ 2 * length octets)
g722_decode-g722_encode-Follows_example =
    g722_decode-g722_encode-Follows g722_init g722_init speech init-Follows
