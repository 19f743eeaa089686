-- ===== src/App/Session/Wav.antt =====
-- The WAV container of the wake snapshot, `makeWav` of session.cpp, read back field by field.
use pipecat_voice_assistant.Prelude.{
  ℕ, zero, suc, ◌+◌, ◌-◌, ◌*◌, ◌/◌, ◌%◌, ◌^◌, ◌<◌, ◌≡◌, refl, ap, ◌∙◌, List, [], ◌∷◌, ◌++◌, Bytes,
  codes, length, get_or, take, drop, All, arith,
}
use pipecat_voice_assistant.Prelude.Int.{ℤ, pos, negsuc}
use pipecat_voice_assistant.Prelude.Word.{u32, signed16}

-- The lambdas u32 and u16, and the bytes of an int16_t in memory.
abbrev pub le32 : ℕ → Bytes
le32 v = v % 256 ∷ v / 2 ^ 8 % 256 ∷ v / 2 ^ 16 % 256 ∷ v / 2 ^ 24 % 256 ∷ []

abbrev pub le16 : ℕ → Bytes
le16 v = v % 256 ∷ v / 2 ^ 8 % 256 ∷ []

abbrev pub pattern16 : ℤ → ℕ
pattern16 (pos n) = n % 2 ^ 16
pattern16 (negsuc n) = 2 ^ 16 - 1 - n % 2 ^ 16

unfoldable pub sample_bytes : List ℤ → Bytes
sample_bytes [] = []
sample_bytes (s ∷ r) = pattern16 s % 256 ∷ pattern16 s / 256 ∷ sample_bytes r

unfoldable pub make_wav : List ℤ → ℕ → Bytes
make_wav pcm sr =
    let data_bytes = u32 (length pcm * 2) in
    codes "RIFF"
    ++ (le32 (u32 (36 + data_bytes))
        ++ (codes "WAVE"
            ++ (codes "fmt "
                ++ (le32 16
                    ++ (le16 1
                        ++ (le16 1
                            ++ (le32 sr
                                ++ (le32 (u32 (sr * 2))
                                    ++ (le16 2
                                        ++ (le16 16
                                            ++ (codes "data"
                                                ++ (le32 data_bytes
                                                    ++ take data_bytes
                                                        (sample_bytes pcm)))))))))))))

-- A value of int16_t.
abbrev pub IsSample : ℤ → Type 0
IsSample (pos n) = n < 2 ^ 15
IsSample (negsuc n) = n < 2 ^ 15

-- A reader of the fields.
abbrev pub u32_at : Bytes → ℕ → ℕ
u32_at w i =
    get_or w i 0
    + 2 ^ 8 * get_or w (i + 1) 0
    + 2 ^ 16 * get_or w (i + 2) 0
    + 2 ^ 24 * get_or w (i + 3) 0

abbrev pub u16_at : Bytes → ℕ → ℕ
u16_at w i = get_or w i 0 + 256 * get_or w (i + 1) 0

abbrev pub samples_of : Bytes → List ℤ
samples_of [] = []
samples_of (lo ∷ []) = []
samples_of (lo ∷ hi ∷ r) = signed16 (lo + 256 * hi) ∷ samples_of r

-- A WAV of 16-bit mono PCM at this rate, its sizes right, with these samples.
pub record IsWav (w : Bytes) (sr : ℕ) (pcm : List ℤ) : Type 0 where
  pub riff : take 4 w ≡ codes "RIFF"
  pub riff_size : u32_at w 4 + 8 ≡ length w
  pub wave : take 8 (drop 8 w) ≡ codes "WAVEfmt "
  pub format_size : u32_at w 16 ≡ 16
  pub format : u16_at w 20 ≡ 1
  pub channels : u16_at w 22 ≡ 1
  pub rate : u32_at w 24 ≡ sr
  pub byte_rate : u32_at w 28 ≡ sr * 2
  pub block : u16_at w 32 ≡ 2
  pub bits : u16_at w 34 ≡ 16
  pub chunk : take 4 (drop 36 w) ≡ codes "data"
  pub size : u32_at w 40 ≡ length pcm * 2
  pub samples : samples_of (drop 44 w) ≡ pcm

length-sample_bytes : (pcm : List ℤ) → length (sample_bytes pcm) ≡ length pcm * 2
unfolding sample_bytes
length-sample_bytes [] = refl
length-sample_bytes (s ∷ r) = omega (arith, length-sample_bytes r)

take-exact : (n : ℕ) (s : Bytes) → n ≡ length s → take n s ≡ s
take-exact zero [] h = refl
take-exact zero (c ∷ r) h = absurd (omega arith)
take-exact (suc n) [] h = refl
take-exact (suc n) (c ∷ r) h = ap (λ t. c ∷ t) (take-exact n r (omega arith))

signed16-pattern16 :
    (s : ℤ) → IsSample s → signed16 (pattern16 s % 256 + 256 * (pattern16 s / 256)) ≡ s
signed16-pattern16 (pos n) h = ground arith
signed16-pattern16 (negsuc n) h = ground arith

samples_of-sample_bytes : (pcm : List ℤ) → All IsSample pcm → samples_of (sample_bytes pcm) ≡ pcm
unfolding sample_bytes
samples_of-sample_bytes [] h = refl
samples_of-sample_bytes (s ∷ r) (hs, hr) =
    ground (arith, signed16-pattern16 s hs, samples_of-sample_bytes r hr)

-- The snapshot's container is a WAV of its samples at its rate, if the sizes fit 32 bits.
pub make_wav-IsWav :
    (pcm : List ℤ) (sr : ℕ)
    → All IsSample pcm
    → 36 + length pcm * 2 < 2 ^ 32
    → sr * 2 < 2 ^ 32
    → IsWav (make_wav pcm sr) sr pcm
unfolding make_wav
make_wav-IsWav pcm sr h small rate =
    let sized = length-sample_bytes pcm in
    let whole : take (u32 (length pcm * 2)) (sample_bytes pcm) ≡ sample_bytes pcm =
      take-exact (u32 (length pcm * 2)) (sample_bytes pcm) (omega (arith, sized)) in
    record {
      riff = refl;
      riff_size = omega (arith, sized, ap length whole);
      wave = refl;
      format_size = refl;
      format = refl;
      channels = refl;
      rate = omega arith;
      byte_rate = omega arith;
      block = refl;
      bits = refl;
      chunk = refl;
      size = omega arith;
      samples = ap samples_of whole ∙ samples_of-sample_bytes pcm h;
    }
