-- ===== src/Domain/G722/Ranges.antt =====
-- How large the codes, the adaptation steps and the log scale factors of the codec get.
use pipecat_voice_assistant.Prelude.{ℕ, zero, suc, ◌≤◌, ◌<◌, ◌≡◌, List, [], ◌∷◌, get_or, arith, All}
use pipecat_voice_assistant.Prelude.Int.{ℤ, pos, negsuc, pos_part, neg_part, ◌+ℤ◌, ◌*ℤ◌}
use pipecat_voice_assistant.Domain.G722.Tables.{entry, iln, ilp, ihn, ihp, wl, wh}
use pipecat_voice_assistant.Domain.G722.Band.{G722Band, leaked, clamp, encoder_nb, decoder_nb}
use pipecat_voice_assistant.Domain.G722.Codec.{low_entry, high_entry, low_code, high_code}

-- What holds of every entry of a table and of the default holds of every lookup.
module _ {ℓ κ} {A : Type ℓ} (P : A → Type κ) where
  pub get_or-All : (xs : List A) (i : ℕ) (d : A) → All P xs → P d → P (get_or xs i d)
  get_or-All [] i d h pd = pd
  get_or-All (x ∷ xs) zero d h pd = h.0
  get_or-All (x ∷ xs) (suc i) d h pd = get_or-All xs i d h.1 pd

abbrev Below64 : ℕ → Type 0
Below64 n = n < 64

abbrev Below4 : ℕ → Type 0
Below4 n = n < 4

-- A step of the log scale factor, with room for the leaked factor below 32768.
abbrev pub SmallStep : ℤ → Type 0
SmallStep w = (pos_part w ≤ 3042) × (neg_part w ≤ 3042)

wl-SmallStep : All SmallStep wl
wl-SmallStep = ground arith

wh-SmallStep : All SmallStep wh
wh-SmallStep = ground arith

pub entry-wl-SmallStep : (i : ℕ) → SmallStep (entry wl i)
entry-wl-SmallStep i = get_or-All SmallStep wl i (pos 0) wl-SmallStep (ground arith)

pub entry-wh-SmallStep : (i : ℕ) → SmallStep (entry wh i)
entry-wh-SmallStep i = get_or-All SmallStep wh i (pos 0) wh-SmallStep (ground arith)

iln-Below64 : (i : ℕ) → get_or iln i 0 < 64
iln-Below64 i = get_or-All Below64 iln i 0 (ground arith) (ground arith)

ilp-Below64 : (i : ℕ) → get_or ilp i 0 < 64
ilp-Below64 i = get_or-All Below64 ilp i 0 (ground arith) (ground arith)

ihn-Below4 : (i : ℕ) → get_or ihn i 0 < 4
ihn-Below4 i = get_or-All Below4 ihn i 0 (ground arith) (ground arith)

ihp-Below4 : (i : ℕ) → get_or ihp i 0 < 4
ihp-Below4 i = get_or-All Below4 ihp i 0 (ground arith) (ground arith)

low_entry_lt : (el : ℤ) (i : ℕ) → low_entry el i < 64
unfolding low_entry
low_entry_lt el i = ground (arith, iln-Below64 i, ilp-Below64 i)

high_entry_lt : (eh : ℤ) (mih : ℕ) → high_entry eh mih < 4
unfolding high_entry
high_entry_lt eh mih = ground (arith, ihn-Below4 mih, ihp-Below4 mih)

pub low_code_lt : (band : G722Band) (xlow : ℤ) → low_code band xlow < 64
unfolding low_code
low_code_lt band xlow = low_entry_lt _ _

pub high_code_lt : (band : G722Band) (xhigh : ℤ) → high_code band xhigh < 4
unfolding high_code
high_code_lt band xhigh = high_entry_lt _ _

-- `pos n` with `n` at most `limit`.
abbrev pub Within : ℕ → ℤ → Type 0
Within limit nb = (neg_part nb ≡ 0) × (pos_part nb ≤ limit)

pub encoder_nb-Within : (limit : ℕ) (nb w : ℤ) → Within limit (encoder_nb limit nb w)
unfolding encoder_nb clamp
encoder_nb-Within limit nb w = ground arith

-- The cast before the limit and the cast after it give the same factor.
pub encoder_nb-decoder_nb :
    (limit : ℕ) (nb w : ℤ)
    → limit ≤ 22528
    → Within limit nb
    → SmallStep w
    → encoder_nb limit nb w ≡ decoder_nb limit nb w
unfolding encoder_nb decoder_nb clamp leaked ◌+ℤ◌ ◌*ℤ◌
encoder_nb-decoder_nb limit (pos n) (pos m) small h s = ground arith
encoder_nb-decoder_nb limit (pos n) (negsuc m) small h s = ground arith
encoder_nb-decoder_nb limit (negsuc n) w small h s = absurd (ground arith)
