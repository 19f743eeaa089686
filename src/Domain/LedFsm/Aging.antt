-- ===== src/Domain/LedFsm/Aging.antt =====
-- What the passing of time alone does to the ring.
use pipecat_voice_assistant.Prelude.{ℕ, ◌^◌, ◌≤◌, ◌<◌, ◌≡◌, false, Option, some, arith}
use pipecat_voice_assistant.Prelude.Int.{pos, ◌-ℤ◌, ◌≤ℤ◌, ltb_ℤ}
use pipecat_voice_assistant.Domain.LedFsm.{
  LedState, off, listening, talking, thinking, Ms, LedInputs, since, resolve_led_state,
}

-- How far a conversation has gone quiet.
abbrev pub quiet : Option LedState → ℕ
quiet (some talking) = 1
quiet (some thinking) = 2
quiet (some listening) = 3
quiet (some off) = 3
quiet _ = 0

since_grows :
    (hold : ℕ) (last now later : Ms)
    → hold < 2 ^ 62
    → now ≤ℤ later
    → ltb_ℤ (since now last) (pos hold) ≡ false
    → ltb_ℤ (since later last) (pos hold) ≡ false
unfolding since ◌-ℤ◌
since_grows hold last now later b h s = ground arith

-- With no new audio, no new speech and no change of the flags, a later tick never shows an earlier
-- stage: the ring goes from Speaking over Talking and Thinking to Listening, or from Speaking to
-- Off, and does not come back.
pub quiet-resolve_mono :
    (i : LedInputs) (later : Ms)
    → i.now ≤ℤ later
    → quiet (resolve_led_state i) ≤ quiet (resolve_led_state (record i { now = later }))
unfolding resolve_led_state
quiet-resolve_mono i later h = ground (
  arith,
  since_grows 2500 i.last_inbound_audio i.now later,
  since_grows 1500 i.last_mic_active i.now later,
  since_grows 16500 i.last_mic_active i.now later,
)
