-- ===== src/Domain/G722/Tables.antt =====
-- The saturation helpers and the reference tables of src/g722.cpp. An int16_t or int32_t is an
-- integer; a table read is by index, and 0 outside the table.
use pipecat_voice_assistant.Prelude.{
  ℕ, ◌-◌, ◌%◌, ◌^◌, List, [], ◌∷◌, ◌++◌, if◌then◌else◌, get_or, map, take, drop,
}
use pipecat_voice_assistant.Prelude.Int.{ℤ, pos, negsuc, negate, ◌+ℤ◌, ◌-ℤ◌, ◌*ℤ◌, ltb_ℤ}
use pipecat_voice_assistant.Prelude.Word.{signed16}

-- `static_cast<int16_t>(x)`, which wraps.
abbrev pub to_int16 : ℤ → ℤ
to_int16 (pos n) = signed16 (n % 2 ^ 16)
to_int16 (negsuc n) = signed16 (2 ^ 16 - 1 - n % 2 ^ 16)

unfoldable pub saturate16 : ℤ → ℤ
saturate16 amp =
    if ltb_ℤ (pos 32767) amp
    then pos 32767
    else if ltb_ℤ amp (negate 32768)
    then negate 32768
    else amp

unfoldable pub saturate15 : ℤ → ℤ
saturate15 amp =
    if ltb_ℤ (pos 16383) amp
    then pos 16383
    else if ltb_ℤ amp (negate 16384)
    then negate 16384
    else amp

unfoldable pub sat_add16 : ℤ → ℤ → ℤ
unfolding saturate16 ◌+ℤ◌
sat_add16 a b = saturate16 (a +ℤ b)

unfoldable pub sat_sub16 : ℤ → ℤ → ℤ
unfolding saturate16 ◌-ℤ◌
sat_sub16 a b = saturate16 (a -ℤ b)

dot : List ℤ → List ℤ → ℤ
dot (x ∷ xs) (c ∷ cs) = x *ℤ c +ℤ dot xs cs
dot _ _ = pos 0

-- The two loops read the history from `pos` to its end and then from its start.
unfoldable pub circ_dot12 : List ℤ → List ℤ → ℕ → ℤ
unfolding dot ◌+ℤ◌ ◌*ℤ◌
circ_dot12 x coeffs at = dot (drop at x ++ take at x) coeffs

-- A table entry.
abbrev pub entry : List ℤ → ℕ → ℤ
entry table i = get_or table i (pos 0)

-- A table is written with its negative entries behind `neg`.
abbrev neg : ℕ → ℤ
neg = negate

abbrev plus : List ℕ → List ℤ
plus = map pos

abbrev pub qmf_coeffs_fwd : List ℤ
qmf_coeffs_fwd =
    pos 3
    ∷ neg 11
    ∷ pos 12
    ∷ pos 32
    ∷ neg 210
    ∷ pos 951
    ∷ pos 3876
    ∷ neg 805
    ∷ pos 362
    ∷ neg 156
    ∷ pos 53
    ∷ neg 11
    ∷ []

abbrev pub qmf_coeffs_rev : List ℤ
qmf_coeffs_rev =
    neg 11
    ∷ pos 53
    ∷ neg 156
    ∷ pos 362
    ∷ neg 805
    ∷ pos 3876
    ∷ pos 951
    ∷ neg 210
    ∷ pos 32
    ∷ pos 12
    ∷ neg 11
    ∷ pos 3
    ∷ []

abbrev pub qm2 : List ℤ
qm2 = neg 7408 ∷ neg 1616 ∷ pos 7408 ∷ pos 1616 ∷ []

abbrev pub qm4 : List ℤ
qm4 =
    pos 0
    ∷ neg 20456
    ∷ neg 12896
    ∷ neg 8968
    ∷ neg 6288
    ∷ neg 4240
    ∷ neg 2584
    ∷ neg 1200
    ∷ pos 20456
    ∷ pos 12896
    ∷ pos 8968
    ∷ pos 6288
    ∷ pos 4240
    ∷ pos 2584
    ∷ pos 1200
    ∷ pos 0
    ∷ []

abbrev pub qm6 : List ℤ
qm6 =
    neg 136
    ∷ neg 136
    ∷ neg 136
    ∷ neg 136
    ∷ neg 24808
    ∷ neg 21904
    ∷ neg 19008
    ∷ neg 16704
    ∷ neg 14984
    ∷ neg 13512
    ∷ neg 12280
    ∷ neg 11192
    ∷ neg 10232
    ∷ neg 9360
    ∷ neg 8576
    ∷ neg 7856
    ∷ neg 7192
    ∷ neg 6576
    ∷ neg 6000
    ∷ neg 5456
    ∷ neg 4944
    ∷ neg 4464
    ∷ neg 4008
    ∷ neg 3576
    ∷ neg 3168
    ∷ neg 2776
    ∷ neg 2400
    ∷ neg 2032
    ∷ neg 1688
    ∷ neg 1360
    ∷ neg 1040
    ∷ neg 728
    ∷ pos 24808
    ∷ pos 21904
    ∷ pos 19008
    ∷ pos 16704
    ∷ pos 14984
    ∷ pos 13512
    ∷ pos 12280
    ∷ pos 11192
    ∷ pos 10232
    ∷ pos 9360
    ∷ pos 8576
    ∷ pos 7856
    ∷ pos 7192
    ∷ pos 6576
    ∷ pos 6000
    ∷ pos 5456
    ∷ pos 4944
    ∷ pos 4464
    ∷ pos 4008
    ∷ pos 3576
    ∷ pos 3168
    ∷ pos 2776
    ∷ pos 2400
    ∷ pos 2032
    ∷ pos 1688
    ∷ pos 1360
    ∷ pos 1040
    ∷ pos 728
    ∷ pos 432
    ∷ pos 136
    ∷ neg 432
    ∷ neg 136
    ∷ []

abbrev pub q6 : List ℤ
q6 = plus (
    0 ∷ 35 ∷ 72 ∷ 110 ∷ 150 ∷ 190 ∷ 233 ∷ 276 ∷ 323 ∷ 370 ∷ 422 ∷ 473 ∷ 530 ∷ 587 ∷ 650 ∷ 714 ∷ 786
    ∷ 858 ∷ 940 ∷ 1023 ∷ 1121 ∷ 1219 ∷ 1339 ∷ 1458 ∷ 1612 ∷ 1765 ∷ 1980 ∷ 2195 ∷ 2557 ∷ 2919 ∷ 0 ∷ 0
    ∷ [])

abbrev pub ilb : List ℕ
ilb =
    2048 ∷ 2093 ∷ 2139 ∷ 2186 ∷ 2233 ∷ 2282 ∷ 2332 ∷ 2383 ∷ 2435 ∷ 2489 ∷ 2543 ∷ 2599 ∷ 2656 ∷ 2714
    ∷ 2774 ∷ 2834 ∷ 2896 ∷ 2960 ∷ 3025 ∷ 3091 ∷ 3158 ∷ 3228 ∷ 3298 ∷ 3371 ∷ 3444 ∷ 3520 ∷ 3597
    ∷ 3676 ∷ 3756 ∷ 3838 ∷ 3922 ∷ 4008 ∷ []

abbrev pub iln : List ℕ
iln =
    0 ∷ 63 ∷ 62 ∷ 31 ∷ 30 ∷ 29 ∷ 28 ∷ 27 ∷ 26 ∷ 25 ∷ 24 ∷ 23 ∷ 22 ∷ 21 ∷ 20 ∷ 19 ∷ 18 ∷ 17 ∷ 16 ∷ 15
    ∷ 14 ∷ 13 ∷ 12 ∷ 11 ∷ 10 ∷ 9 ∷ 8 ∷ 7 ∷ 6 ∷ 5 ∷ 4 ∷ 0 ∷ []

abbrev pub ilp : List ℕ
ilp =
    0 ∷ 61 ∷ 60 ∷ 59 ∷ 58 ∷ 57 ∷ 56 ∷ 55 ∷ 54 ∷ 53 ∷ 52 ∷ 51 ∷ 50 ∷ 49 ∷ 48 ∷ 47 ∷ 46 ∷ 45 ∷ 44 ∷ 43
    ∷ 42 ∷ 41 ∷ 40 ∷ 39 ∷ 38 ∷ 37 ∷ 36 ∷ 35 ∷ 34 ∷ 33 ∷ 32 ∷ 0 ∷ []

abbrev pub ihn : List ℕ
ihn = 0 ∷ 1 ∷ 0 ∷ []

abbrev pub ihp : List ℕ
ihp = 0 ∷ 3 ∷ 2 ∷ []

abbrev pub wl : List ℤ
wl = neg 60 ∷ neg 30 ∷ pos 58 ∷ pos 172 ∷ pos 334 ∷ pos 538 ∷ pos 1198 ∷ pos 3042 ∷ []

abbrev pub rl42 : List ℕ
rl42 = 0 ∷ 7 ∷ 6 ∷ 5 ∷ 4 ∷ 3 ∷ 2 ∷ 1 ∷ 7 ∷ 6 ∷ 5 ∷ 4 ∷ 3 ∷ 2 ∷ 1 ∷ 0 ∷ []

abbrev pub wh : List ℤ
wh = pos 0 ∷ neg 214 ∷ pos 798 ∷ []

abbrev pub rh2 : List ℕ
rh2 = 2 ∷ 1 ∷ 2 ∷ 1 ∷ []
