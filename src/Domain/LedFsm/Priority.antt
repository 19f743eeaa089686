-- ===== src/Domain/LedFsm/Priority.antt =====
-- The priority order of the header comment of led_fsm.hpp as a relation between inputs and states,
-- with the holds of the header's constants; unlike there, Thinking does not ask that no answer was
-- heard since the microphone was last active.
use pipecat_voice_assistant.Prelude.{
  ℕ, ◌^◌, ◌+◌, ◌≤◌, ◌<◌, ◌≡◌, ◌⊎◌, inl, inr, ◌↔◌, ◌≢◌, true, false, Option, none, some, arith,
  Bool-cases,
}
use pipecat_voice_assistant.Prelude.Int.{pos, pos_part, neg_part, ◌-ℤ◌, ltb_ℤ}
use pipecat_voice_assistant.Domain.LedFsm.{
  LedState, off, listening, talking, thinking, speaking, muted, Ms, LedInputs, since,
  resolve_led_state,
}

-- The event at `last` has happened and is less than `hold` milliseconds old.
abbrev pub Within : ℕ → Ms → Ms → Type 0
Within hold last now =
    (last ≢ pos 0) × (pos_part now + neg_part last < neg_part now + pos_part last + hold)

abbrev pub Stale : ℕ → Ms → Ms → Type 0
Stale hold last now =
    (last ≡ pos 0) ⊎ (neg_part now + pos_part last + hold ≤ pos_part now + neg_part last)

pub data Shows (i : LedInputs) : Option LedState → Type 0 where
  nothing : i.connected ≡ false → Shows i none
  mute : i.connected ≡ true → i.muted ≡ true → Shows i (some muted)
  speak :
      i.connected ≡ true
      → i.muted ≡ false
      → Within 2500 i.last_inbound_audio i.now
      → Shows i (some speaking)
  dark :
      i.connected ≡ true
      → i.muted ≡ false
      → Stale 2500 i.last_inbound_audio i.now
      → i.conversation_active ≡ false
      → Shows i (some off)
  talk :
      i.connected ≡ true
      → i.muted ≡ false
      → Stale 2500 i.last_inbound_audio i.now
      → i.conversation_active ≡ true
      → Within 1500 i.last_mic_active i.now
      → Shows i (some talking)
  think :
      i.connected ≡ true
      → i.muted ≡ false
      → Stale 2500 i.last_inbound_audio i.now
      → i.conversation_active ≡ true
      → Stale 1500 i.last_mic_active i.now
      → Within 16500 i.last_mic_active i.now
      → Shows i (some thinking)
  listen :
      i.connected ≡ true
      → i.muted ≡ false
      → Stale 2500 i.last_inbound_audio i.now
      → i.conversation_active ≡ true
      → Stale 16500 i.last_mic_active i.now
      → Shows i (some listening)

-- The test of the code is the test of the relation, for holds below the largest time.
since-Within :
    (hold : ℕ) (last now : Ms)
    → hold < 2 ^ 62
    → ltb_ℤ (since now last) (pos hold) ≡ true
    → Within hold last now
unfolding since ◌-ℤ◌
since-Within hold last now b h = ground arith

since-Stale :
    (hold : ℕ) (last now : Ms)
    → hold < 2 ^ 62
    → ltb_ℤ (since now last) (pos hold) ≡ false
    → Stale hold last now
unfolding since ◌-ℤ◌
since-Stale hold last now b h = ground arith

Within-since :
    (hold : ℕ) (last now : Ms) → Within hold last now → ltb_ℤ (since now last) (pos hold) ≡ true
unfolding since ◌-ℤ◌
Within-since hold last now h = ground arith

Stale-since :
    (hold : ℕ) (last now : Ms)
    → hold < 2 ^ 62
    → Stale hold last now
    → ltb_ℤ (since now last) (pos hold) ≡ false
unfolding since ◌-ℤ◌
Stale-since hold last now b h = ground arith

Within-or_Stale :
    (hold : ℕ) (last now : Ms) → hold < 2 ^ 62 → Within hold last now ⊎ Stale hold last now
Within-or_Stale hold last now b = elim (Bool-cases (ltb_ℤ (since now last) (pos hold))) [
  | inl h ↦ inl (since-Within hold last now b h)
  | inr h ↦ inr (since-Stale hold last now b h)
]

resolve-Shows : (i : LedInputs) {o : Option LedState} → Shows i o → resolve_led_state i ≡ o
unfolding resolve_led_state
resolve-Shows i (nothing c) = ground arith
resolve-Shows i (mute c m) = ground arith
resolve-Shows i (speak c m s) = ground (arith, Within-since 2500 i.last_inbound_audio i.now)
resolve-Shows i (dark c m s a) = ground (arith, Stale-since 2500 i.last_inbound_audio i.now)
resolve-Shows i (talk c m s a t) =
    ground (
      arith,
      Stale-since 2500 i.last_inbound_audio i.now,
      Within-since 1500 i.last_mic_active i.now,
    )
resolve-Shows i (think c m s a t k) = ground (
  arith,
  Stale-since 2500 i.last_inbound_audio i.now,
  Stale-since 1500 i.last_mic_active i.now,
  Within-since 16500 i.last_mic_active i.now,
)
resolve-Shows i (listen c m s a k) = ground (
  arith,
  Stale-since 2500 i.last_inbound_audio i.now,
  Stale-since 1500 i.last_mic_active i.now,
  Stale-since 16500 i.last_mic_active i.now,
)

shown : (i : LedInputs) {o : Option LedState} → Shows i o → Shows i (resolve_led_state i)
shown i d = rw (resolve-Shows i d) d

Shows-resolve : (i : LedInputs) → Shows i (resolve_led_state i)
Shows-resolve i = elim (Bool-cases i.connected) [
  | inr c ↦ shown i (nothing c)
  | inl c ↦ elim (Bool-cases i.muted) [
    | inl m ↦ shown i (mute c m)
    | inr m ↦ elim (Within-or_Stale 2500 i.last_inbound_audio i.now (omega arith)) [
      | inl s ↦ shown i (speak c m s)
      | inr s ↦ elim (Bool-cases i.conversation_active) [
        | inr a ↦ shown i (dark c m s a)
        | inl a ↦ elim (Within-or_Stale 1500 i.last_mic_active i.now (omega arith)) [
          | inl t ↦ shown i (talk c m s a t)
          | inr t ↦ elim (Within-or_Stale 16500 i.last_mic_active i.now (omega arith)) [
            | inl k ↦ shown i (think c m s a t k)
            | inr k ↦ shown i (listen c m s a k)
          ]
        ]
      ]
    ]
  ]
]

-- The ring shows a state (or declines to set one) exactly when the priority order says so: nothing
-- unless connected, then muted; speaking within 2.5 s of inbound audio; off outside a conversation;
-- talking within 1.5 s of the last microphone activity and thinking within 16.5 s of it, whether or
-- not an answer was heard since; else listening.
pub resolve_priority : (i : LedInputs) (o : Option LedState) → (resolve_led_state i ≡ o) ↔ Shows i o
resolve_priority i o = (λ e. rw (← e) (Shows-resolve i), resolve-Shows i)
