-- ===== src/Domain/G722/Codec.antt =====
-- The encoder and the decoder of src/g722.cpp, with the state `G722Codec` of
-- include/domain/g722.hpp: the two filter histories, the place in them, and the two bands.
use pipecat_voice_assistant.Prelude.{
  ℕ, zero, suc, ◌+◌, ◌*◌, ◌/◌, ◌%◌, ◌^◌, Bytes, List, [], ◌∷◌, if◌then◌else◌, leb, get_or, set,
  replicate,
}
use pipecat_voice_assistant.Prelude.Int.{
  ℤ, pos, negsuc, ◌+ℤ◌, ◌-ℤ◌, ◌*ℤ◌, ltb_ℤ, is_negative, shr_ℤ,
}
use pipecat_voice_assistant.Prelude.Word.{u8}
use pipecat_voice_assistant.Prelude.Bits.{bit_or}
use pipecat_voice_assistant.Domain.G722.Tables.{
  to_int16, saturate16, saturate15, sat_sub16, circ_dot12, entry, qmf_coeffs_fwd, qmf_coeffs_rev,
  qm2, qm4, qm6, q6, iln, ilp, ihn, ihp, wl, rl42, wh, rh2,
}
use pipecat_voice_assistant.Domain.G722.Band.{
  G722Band, block4, encoder_nb, decoder_nb, scale_det, scale15,
}

pub record G722Codec : Type 0 where
  pub x : List ℤ
  pub y : List ℤ
  pub ptr : ℕ
  pub band0 : G722Band
  pub band1 : G722Band

abbrev pub band_init : ℤ → G722Band
band_init det = record {
  nb = pos 0;
  det = det;
  s = pos 0;
  sz = pos 0;
  r = pos 0;
  p0 = pos 0;
  p1 = pos 0;
  a0 = pos 0;
  a1 = pos 0;
  b = replicate 6 (pos 0);
  d = replicate 7 (pos 0);
}

abbrev pub g722_init : G722Codec
g722_init = record {
  x = replicate 12 (pos 0);
  y = replicate 12 (pos 0);
  ptr = 0;
  band0 = band_init (pos 32);
  band1 = band_init (pos 8);
}

-- `if (++s.ptr >= 12) s.ptr = 0;`
abbrev pub next_ptr : ℕ → ℕ
next_ptr i = if leb 12 (i + 1) then 0 else i + 1

-- `(el >= 0) ? el : ~el`.
abbrev ones_magnitude : ℤ → ℤ
ones_magnitude (pos n) = pos n
ones_magnitude (negsuc n) = pos n

-- The QUANTL loop from index `i`, with `k` indices left before 30.
unfoldable pub quantl_from : ℕ → ℕ → ℤ → ℤ → ℕ
quantl_from zero i det wd = i
quantl_from (suc k) i det wd =
    let later = quantl_from k (suc i) det wd in
    if ltb_ℤ wd (shr_ℤ (entry q6 i *ℤ det) 12) then i else later

unfoldable pub low_entry : ℤ → ℕ → ℕ
low_entry el i = if is_negative el then get_or iln i 0 else get_or ilp i 0

-- SUBTRA and QUANTL: the six-bit code of the low band.
unfoldable pub low_code : G722Band → ℤ → ℕ
low_code band xlow =
    let el = sat_sub16 xlow band.s in
    let i = quantl_from 29 1 band.det (ones_magnitude el) in low_entry el i

unfoldable pub high_entry : ℤ → ℕ → ℕ
high_entry eh mih = if is_negative eh then get_or ihn mih 0 else get_or ihp mih 0

-- SUBTRA and QUANTH: the two-bit code of the high band.
unfoldable pub high_code : G722Band → ℤ → ℕ
high_code band xhigh =
    let eh = sat_sub16 xhigh band.s in
    let below = ltb_ℤ (ones_magnitude eh) (shr_ℤ (pos 564 *ℤ band.det) 12) in
    let mih = if below then 1 else 2 in high_entry eh mih

-- INVQAL: the quantised difference of the low band.
unfoldable pub low_difference : G722Band → ℕ → ℤ
low_difference band ril = to_int16 (scale15 band.det (entry qm4 ril))

unfoldable pub high_difference : G722Band → ℕ → ℤ
high_difference band ihigh = to_int16 (scale15 band.det (entry qm2 ihigh))

-- The encoder's LOGSCL, SCALEL and predictor update.
unfoldable pub encoder_low : G722Band → ℕ → G722Band
encoder_low band ilow =
    let ril = ilow / 4 in
    let nb = encoder_nb 18432 band.nb (entry wl (get_or rl42 ril 0)) in
    block4 (record band { nb = nb; det = scale_det 8 nb }) (low_difference band ril)

unfoldable pub encoder_high : G722Band → ℕ → G722Band
encoder_high band ihigh =
    let nb = encoder_nb 22528 band.nb (entry wh (get_or rh2 ihigh 0)) in
    block4 (record band { nb = nb; det = scale_det 10 nb }) (high_difference band ihigh)

-- One turn of the encoder's loop: a sample pair in, an octet out.
unfoldable pub encode_pair : G722Codec → ℤ → ℤ → G722Codec × ℕ
encode_pair c first second =
    let x = set c.x c.ptr first in
    let y = set c.y c.ptr second in
    let ptr = next_ptr c.ptr in
    let sumodd = circ_dot12 x qmf_coeffs_fwd ptr in
    let sumeven = circ_dot12 y qmf_coeffs_rev ptr in
    let ilow = low_code c.band0 (to_int16 (shr_ℤ (sumeven +ℤ sumodd) 14)) in
    let ihigh = high_code c.band1 (to_int16 (shr_ℤ (sumeven -ℤ sumodd) 14)) in
    (
      record {
        x = x;
        y = y;
        ptr = ptr;
        band0 = encoder_low c.band0 ilow;
        band1 = encoder_high c.band1 ihigh;
      },
      u8 (bit_or (ihigh * 2 ^ 6) ilow),
    )

-- A sample without its pair at the end is left out.
unfoldable pub g722_encode : G722Codec → List ℤ → G722Codec × Bytes
g722_encode c [] = (c, [])
g722_encode c (first ∷ []) = (c, [])
g722_encode c (first ∷ second ∷ amp) =
    let (c', octet) = encode_pair c first second in
    let (last, out) = g722_encode c' amp in (last, octet ∷ out)

unfoldable pub decoder_low : G722Band → ℕ → G722Band
decoder_low band wd1 =
    let nb = decoder_nb 18432 band.nb (entry wl (get_or rl42 wd1 0)) in
    block4 (record band { nb = nb; det = scale_det 8 nb }) (low_difference band wd1)

unfoldable pub decoder_high : G722Band → ℕ → G722Band
decoder_high band ihigh =
    let nb = decoder_nb 22528 band.nb (entry wh (get_or rh2 ihigh 0)) in
    block4 (record band { nb = nb; det = scale_det 10 nb }) (high_difference band ihigh)

-- One turn of the decoder's loop: an octet in, a sample pair out.
unfoldable pub decode_octet : G722Codec → ℕ → G722Codec × ℤ × ℤ
decode_octet c code =
    let wd1 = code % 64 in
    let ihigh = code / 64 % 4 in
    let rlow = saturate15 (c.band0.s +ℤ scale15 c.band0.det (entry qm6 wd1)) in
    let rhigh = saturate15 (high_difference c.band1 ihigh +ℤ c.band1.s) in
    let x = set c.x c.ptr (to_int16 (rlow +ℤ rhigh)) in
    let y = set c.y c.ptr (to_int16 (rlow -ℤ rhigh)) in
    let ptr = next_ptr c.ptr in
    (
      record {
        x = x;
        y = y;
        ptr = ptr;
        band0 = decoder_low c.band0 (wd1 / 4);
        band1 = decoder_high c.band1 ihigh;
      },
      saturate16 (shr_ℤ (circ_dot12 y qmf_coeffs_rev ptr) 11),
      saturate16 (shr_ℤ (circ_dot12 x qmf_coeffs_fwd ptr) 11),
    )

unfoldable pub g722_decode : G722Codec → Bytes → G722Codec × List ℤ
g722_decode c [] = (c, [])
g722_decode c (code ∷ rest) =
    let (c', first, second) = decode_octet c code in
    let (last, out) = g722_decode c' rest in (last, first ∷ second ∷ out)
