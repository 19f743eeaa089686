-- ===== src/Domain/G722/Band.antt =====
-- One band of the codec: the state of `G722Band`, the predictor update `block4`, and the scale
-- adaptation that the encoder and the decoder each write out.
use pipecat_voice_assistant.Prelude.{
  ℕ, zero, suc, ◌-◌, ◌*◌, ◌/◌, ◌%◌, ◌^◌, Bool, not, List, if◌then◌else◌, ltb, get_or, set,
}
use pipecat_voice_assistant.Prelude.Int.{
  ℤ, pos, negate, magnitude, pos_part, ◌+ℤ◌, ◌-ℤ◌, ◌*ℤ◌, ltb_ℤ, is_negative, shr_ℤ,
}
use pipecat_voice_assistant.Domain.G722.Tables.{
  to_int16, saturate16, sat_add16, sat_sub16, entry, ilb,
}

pub record G722Band : Type 0 where
  pub nb : ℤ
  pub det : ℤ
  pub s : ℤ
  pub sz : ℤ
  pub r : ℤ
  pub p0 : ℤ
  pub p1 : ℤ
  pub a0 : ℤ
  pub a1 : ℤ
  pub b : List ℤ
  pub d : List ℤ

-- `(x ^ y) & 0x8000` of two int16 values: their signs differ.
abbrev signs_differ : ℤ → ℤ → Bool
signs_differ x y = if is_negative x then not (is_negative y) else is_negative y

abbrev opposite : ℤ → ℤ
opposite x = pos 0 -ℤ x

-- `((int32_t)x * factor) >> 15`.
unfoldable pub scale15 : ℤ → ℤ → ℤ
unfolding ◌*ℤ◌
scale15 x factor = shr_ℤ (x *ℤ factor) 15

-- The loop over the six zeros, from index `i - 1` down.
unfoldable pub upzero : ℕ → ℤ → ℤ → List ℤ → List ℤ → ℤ → List ℤ × List ℤ × ℤ
unfolding scale15
upzero zero dx wd1 b d sz = (b, d, sz)
upzero (suc i) dx wd1 b d sz =
    let wd2 = if signs_differ (entry d (suc i)) dx then opposite wd1 else wd1 in
    let bi = sat_add16 wd2 (to_int16 (scale15 (entry b i) (pos 32640))) in
    let tap = sat_add16 (entry d i) (entry d i) in
    upzero i dx wd1 (set b i bi) (set d (suc i) (entry d i)) (sz +ℤ scale15 bi tap)

-- UPPOL2: the new `a[1]`.
unfoldable pub uppol2 : G722Band → ℤ → ℤ
unfolding scale15
uppol2 band p =
    let wd1 = saturate16 (band.a0 *ℤ pos 4) in
    let wd32 = if signs_differ p band.p0 then wd1 else opposite wd1 in
    let capped = if ltb_ℤ (pos 32767) wd32 then pos 32767 else wd32 in
    let leak = if signs_differ p band.p1 then negate 128 else pos 128 in
    let wd3 = to_int16 (leak +ℤ shr_ℤ capped 7 +ℤ scale15 band.a1 (pos 32512)) in
    if ltb 12288 (magnitude wd3) then (if is_negative wd3 then negate 12288 else pos 12288) else wd3

-- UPPOL1: the new `a[0]`.
unfoldable pub uppol1 : G722Band → ℤ → ℤ → ℤ
unfolding scale15
uppol1 band p a1 =
    let wd1 = if signs_differ p band.p0 then negate 192 else pos 192 in
    let a0 = sat_add16 wd1 (to_int16 (scale15 band.a0 (pos 32640))) in
    let wd3 = sat_sub16 (pos 15360) a1 in
    if ltb_ℤ wd3 (pos (magnitude a0)) then (if is_negative a0 then opposite wd3 else wd3) else a0

unfoldable pub block4 : G722Band → ℤ → G722Band
unfolding scale15 upzero uppol2 uppol1 saturate16 sat_add16 sat_sub16 ◌+ℤ◌ ◌-ℤ◌ ◌*ℤ◌
block4 band dx =
    let r = sat_add16 band.s dx in
    let p = sat_add16 band.sz dx in
    let ap1 = uppol2 band p in
    let ap0 = uppol1 band p ap1 in
    let wd1 = to_int16 (scale15 ap0 (sat_add16 r r)) in
    let wd2 = to_int16 (scale15 ap1 (sat_add16 band.r band.r)) in
    let sp = sat_add16 wd1 wd2 in
    let step = if ltb 0 (magnitude dx) then pos 128 else pos 0 in
    let (b, d, sum) = upzero 6 dx step band.b (set band.d 0 dx) (pos 0) in
    let sz = saturate16 sum in
    record band {
      r = r;
      a1 = ap1;
      a0 = ap0;
      p1 = band.p0;
      p0 = p;
      b = b;
      d = d;
      sz = sz;
      s = sat_add16 sp sz;
    }

-- `(nb * 127) >> 7`.
unfoldable pub leaked : ℤ → ℤ
unfolding ◌*ℤ◌
leaked nb = shr_ℤ (nb *ℤ pos 127) 7

-- `if (x < 0) x = 0; else if (x > limit) x = limit;`
unfoldable pub clamp : ℕ → ℤ → ℤ
clamp limit x = if is_negative x then pos 0 else if ltb_ℤ (pos limit) x then pos limit else x

-- LOGSCL and LOGSCH as the encoder writes them: the sum is cast to int16 before it is limited.
unfoldable pub encoder_nb : ℕ → ℤ → ℤ → ℤ
unfolding leaked clamp ◌+ℤ◌
encoder_nb limit nb w = clamp limit (to_int16 (leaked nb +ℤ w))

-- The same in the decoder: the sum is limited as an int and cast afterwards.
unfoldable pub decoder_nb : ℕ → ℤ → ℤ → ℤ
unfolding leaked clamp ◌+ℤ◌
decoder_nb limit nb w = to_int16 (clamp limit (leaked nb +ℤ w))

-- SCALEL (base 8) and SCALEH (base 10). `nb` is not negative here.
unfoldable pub scale_det : ℕ → ℤ → ℤ
scale_det base nb =
    let n = pos_part nb in
    let wd1 = n / 2 ^ 6 % 32 in
    let shift = n / 2 ^ 11 in
    let wd3 =
      if ltb base shift
      then get_or ilb wd1 0 * 2 ^ (shift - base)
      else get_or ilb wd1 0 / 2 ^ (base - shift) in
    to_int16 (pos (wd3 * 4))
