-- ===== src/App/Ui/Holds.antt =====
-- Who owns the LED ring, firmware/components/pv_app/src/ui.cpp: the hold of a wake flash, and the
-- override of the LED test page.
use pipecat_voice_assistant.Prelude.{
  ◌*◌, ◌≡◌, refl, ◌∙◌, ap, true, false, not, ◌&&◌, List, [], ◌∷◌, ◌++◌, ◌==◌, arith,
}
use pipecat_voice_assistant.Prelude.Int.{ℤ, pos, ◌+ℤ◌, ltb_ℤ}
use pipecat_voice_assistant.Domain.LedFsm.{LedState}
use pipecat_voice_assistant.App.Ui.{
  Ui, commands, led_index, wake_ack_hold_ms, is_zero, apply_state, override_active, set_led_unowned,
  set_led, set_leds,
}

-- Each call asks for another state than the wake flash, before `until`.
abbrev pub Before : ℤ → List (LedState × ℤ) → Type 0
Before until [] = Unit
Before until ((s, now) ∷ calls) =
    ((led_index s == 7) ≡ false) × (ltb_ℤ now until ≡ true) × Before until calls

held :
    (ui : Ui) (s : LedState) (now : ℤ)
    → ui.override_until_us ≡ pos 0
    → (led_index s == 7) ≡ false
    → ltb_ℤ now ui.hold_until_us ≡ true
    → set_led ui s now ≡ ui
unfolding set_led set_led_unowned override_active
held ui s now none other early = rw none (rw other (rw early refl))

held_run :
    (ui : Ui) (calls : List (LedState × ℤ))
    → ui.override_until_us ≡ pos 0
    → Before ui.hold_until_us calls
    → set_leds ui calls ≡ ui
unfolding set_leds
held_run ui [] none h = refl
held_run ui ((s, now) ∷ calls) none (other, early, rest) =
    ap (λ u. set_leds u calls) (held ui s now none other early) ∙ held_run ui calls none rest

-- After a wake flash is applied at a time when no override is set, any run of requests for other
-- states in the next 1200 ms leaves the ring and the arbiter as they are.
pub wake_ack_held :
    (ui : Ui) (now : ℤ) (calls : List (LedState × ℤ))
    → ui.override_until_us ≡ pos 0
    → Before (now +ℤ pos (wake_ack_hold_ms * 1000)) calls
    → set_leds (apply_state ui LedState.wake_ack now) calls ≡ apply_state ui LedState.wake_ack now
unfolding apply_state
wake_ack_held ui now calls none h = held_run (apply_state ui LedState.wake_ack now) calls none h

-- While an override is set and not over, `setLed` changes nothing, for any state. The first call
-- once it is over clears it, and unless a wake flash holds the ring that call shows its state even
-- if it is the state that was last shown.
pub override_owns :
    (ui : Ui) (s : LedState) (now : ℤ)
    → is_zero ui.override_until_us ≡ false
    → (ltb_ℤ now ui.override_until_us ≡ true → set_led ui s now ≡ ui)
      × (ltb_ℤ now ui.override_until_us ≡ false
          → ((set_led ui s now).override_until_us ≡ pos 0)
            × ((not (led_index s == 7) && ltb_ℤ now ui.hold_until_us) ≡ false
                → ((set_led ui s now).ring ≡ ui.ring ++ commands s)
                  × ((set_led ui s now).last_pushed ≡ s)))
unfolding set_led set_led_unowned override_active apply_state
override_owns ui s now set =
    (λ early. ground arith, λ over. (ground arith, λ free. (ground arith, ground arith)))
