-- ===== src/App/Session/Control.antt =====
-- How the microphone loop of firmware/components/pv_app/src/session.cpp opens, extends and ends a
-- turn, and which frame it encodes.
use pipecat_voice_assistant.Prelude.{
  ℕ, ◌≡◌, refl, sym, ◌∙◌, ap, ap₂, Bool, true, not, ◌&&◌, ◌||◌, Option, none, some, List, Bytes,
  if◌then◌else◌, if_elim, ltb, leb, arith,
}
use pipecat_voice_assistant.Prelude.Int.{ℤ}
use pipecat_voice_assistant.Domain.EnergyGate.{rms_i16}
use pipecat_voice_assistant.Domain.G722.Codec.{G722Codec, g722_init, g722_encode}
use pipecat_voice_assistant.App.DropRing.{DropRing}
use pipecat_voice_assistant.App.Session.{
  Platform, Session, deadline_after, await_response_ms, mic_active_rms_threshold,
}
use pipecat_voice_assistant.App.Session.Capture.{
  CaptureInput, CaptureLocals, zero_pcm, bot_speaking, note_mic, snapshot_into, snapshot_wake,
  heard_frame, arm_turn, on_wake, expire, uplink_frame, encode_frame, capture_frame,
}

module _ (pl : Platform) where
  -- The user is heard: loud enough, and not while the bot speaks.
  abbrev pub user_heard : CaptureInput → Session → Bool
  user_heard i s =
      not (bot_speaking pl i.now s) && leb mic_active_rms_threshold (rms_i16 i.mono_wake)

  -- The turn is on before its deadline is looked at.
  abbrev pub turn_on : CaptureInput → Session → Bool
  turn_on i s = s.conversation_active || i.detected

  -- The deadline that the iteration looks at: a wake word restarts the time for an answer, and so
  -- does the user's speech in a turn that the bot has not answered yet.
  abbrev pub deadline : CaptureInput → Session → ℕ
  deadline i s =
      if i.detected || (user_heard i s && s.conversation_active && not s.bot_replied)
      then deadline_after pl i.now await_response_ms
      else s.turn_deadline

  -- The encoder that takes the frame: a new one at the start of a turn.
  abbrev pub encoder : CaptureInput → Session → G722Codec
  encoder i s = if i.detected && not s.conversation_active then g722_init else s.g722_enc

  -- What the first part of an iteration amounts to.
  record Controls (i : CaptureInput) (s s' : Session) : Type 0 where
    active : s'.conversation_active ≡ turn_on i s
    until : s'.turn_deadline ≡ deadline i s
    enc : s'.g722_enc ≡ encoder i s

  snapshot_into_keeps :
      (s : Session) (ring : Option (DropRing ℤ)) (pcm : Option (List ℤ))
      → let s' = snapshot_into pl s ring pcm in
        (s'.conversation_active ≡ s.conversation_active)
        × (s'.turn_deadline ≡ s.turn_deadline)
        × (s'.g722_enc ≡ s.g722_enc)
  unfolding snapshot_into
  snapshot_into_keeps s none none = (refl, refl, refl)
  snapshot_into_keeps s none (some _) = (refl, refl, refl)
  snapshot_into_keeps s (some _) none = (refl, refl, refl)
  snapshot_into_keeps s (some _) (some _) = (refl, refl, refl)

  noted :
      (i : CaptureInput) (s : Session)
      → let s' = note_mic pl i s in
        (s'.conversation_active ≡ s.conversation_active)
        × (s'.g722_enc ≡ s.g722_enc)
        × (s'.turn_deadline ≡ (
            if user_heard i s && s.conversation_active && not s.bot_replied
            then deadline_after pl i.now await_response_ms
            else s.turn_deadline))
  unfolding note_mic
  noted i s = ground arith

  woken-Controls :
      (i : CaptureInput) (c : CaptureLocals) (s : Session)
      → Controls i s (on_wake pl i c (note_mic pl i s)).1
  unfolding on_wake snapshot_wake arm_turn
  woken-Controls i c s =
      let n = noted i s in
      let heard = note_mic pl i s in
      let k = snapshot_into_keeps heard c.cap_ring heard.wake_pcm in ground arith

  expired :
      (now : ℕ) (s : Session)
      → let s' = expire pl now s in
        (s'.conversation_active ≡ s.conversation_active && not (ltb s.turn_deadline now))
        × (s'.turn_deadline ≡ s.turn_deadline)
        × (s'.g722_enc ≡ s.g722_enc)
  unfolding expire
  expired now s = ground arith

  abbrev packet_of : Bool → G722Codec → List ℤ → Option Bytes
  packet_of on enc frame = if on then some (g722_encode enc frame).1 else none

  framed :
      (i : CaptureInput) (speaking : Bool)
      → uplink_frame pl i speaking ≡ (if speaking || i.muted then zero_pcm else i.mono_uplink)
  unfolding uplink_frame
  framed i speaking = ground arith

  encoded :
      (i : CaptureInput) (speaking : Bool) (c : CaptureLocals) (s : Session)
      → let frame = if speaking || i.muted then zero_pcm else i.mono_uplink in
        let (c', s', packet) =
          if s.conversation_active then encode_frame pl i speaking c s else (c, s, none) in
        (s'.conversation_active ≡ s.conversation_active)
        × (s'.turn_deadline ≡ s.turn_deadline)
        × (packet ≡ packet_of s.conversation_active s.g722_enc frame)
  unfolding encode_frame
  encoded i speaking c s =
      let frame = if speaking || i.muted then zero_pcm else i.mono_uplink in
      if_elim
        (λ (t : CaptureLocals × Session × Option Bytes).
          (t.1.conversation_active ≡ s.conversation_active)
          × (t.1.turn_deadline ≡ s.turn_deadline)
          × (t.2 ≡ packet_of s.conversation_active s.g722_enc frame))
        s.conversation_active
        (λ h. (
          refl,
          refl,
          ap (packet_of true s.g722_enc) (framed i speaking)
              ∙ ap (λ b. packet_of b s.g722_enc frame) (sym h),
        ))
        (λ h. (refl, refl, ap (λ b. packet_of b s.g722_enc frame) (sym h)))

  -- One iteration up to the send section decides the turn: it is on afterwards exactly when it was on
  -- or the wake word was heard, and the deadline is not over; the deadline is the one described
  -- above. In a turn that is on it hands a packet to the send section, and otherwise none. The packet
  -- is the encoding of the microphone's frame, or of silence while the bot speaks or the button
  -- mutes, by an encoder that starts anew with the turn.
  pub capture_frame_turn :
      (i : CaptureInput) (c : CaptureLocals) (s : Session)
      → let (c', s', packet) = capture_frame pl i c s in
        let on = turn_on i s && not (ltb (deadline i s) i.now) in
        let frame = if bot_speaking pl i.now s || i.muted then zero_pcm else i.mono_uplink in
        (s'.conversation_active ≡ on)
        × (s'.turn_deadline ≡ deadline i s)
        × (packet ≡ (if on then some (g722_encode (encoder i s) frame).1 else none))
  unfolding capture_frame
  capture_frame_turn i c s =
      let k = woken-Controls i (heard_frame pl i c) s in
      let (c', woken) = on_wake pl i (heard_frame pl i c) (note_mic pl i s) in
      let live = expire pl i.now woken in
      let (on, until, enc) = expired i.now woken in
      let (a, d, p) = encoded i (bot_speaking pl i.now s) c' live in
      let on' = on ∙ ap₂ (λ x t. x && not (ltb t i.now)) k.active k.until in
      (
        a ∙ on',
        d ∙ until ∙ k.until,
        p
            ∙ ap₂
                (λ b e.
                  packet_of b e
                    (if bot_speaking pl i.now s || i.muted then zero_pcm else i.mono_uplink))
                on' (enc ∙ k.enc),
      )
