-- ===== src/App/Session/Frames/Tests.antt =====
-- The audio of a short packet, of a chirp and of a wake snapshot, and the theorem on an iteration
-- of the playback loop applied to it.
use pipecat_voice_assistant.Prelude.{
  ◌≡◌, refl, true, false, none, some, List, [], ◌∷◌, replicate, drop, arith,
}
use pipecat_voice_assistant.Prelude.Int.{ℤ, pos, negsuc}
use pipecat_voice_assistant.App.Session.{Session, Chirp}
use pipecat_voice_assistant.App.Session.Tests.{idle_session}
use pipecat_voice_assistant.App.Session.Wav.{make_wav, sample_bytes}
use pipecat_voice_assistant.App.Session.Playback.{PlaybackInput, playback_step}
use pipecat_voice_assistant.App.Session.Frames.{Plays, playback_step-Plays}

abbrev input : PlaybackInput
input = record {
  chirp_buf = true;
  synth_chirp = λ c. replicate 700 (pos 9);
  received = pos 1 ∷ negsuc 1 ∷ [];
  left = [];
  now = 1000;
  us = pos 1000000;
  ticks_to_ms = λ t. t;
  muted = false;
}

abbrev session : Session
session = record idle_session {
  chirp_pending = some Chirp.wake;
  playback_buf = some (pos 1 ∷ negsuc 1 ∷ []);
}

playback_step-Plays_example :
    Plays input session.chirp_pending input.received (playback_step input session).0
    × ((playback_step input session).1.chirp_pending ≡ none)
playback_step-Plays_example = playback_step-Plays input session (omega arith)

abbrev pcm : List ℤ
pcm = pos 1 ∷ negsuc 0 ∷ pos 258 ∷ []

last_bytes : drop 44 (make_wav pcm 16000) ≡ 1 ∷ 0 ∷ 255 ∷ 255 ∷ 2 ∷ 1 ∷ []
unfolding make_wav sample_bytes
last_bytes = refl
