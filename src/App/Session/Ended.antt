-- ===== src/App/Session/Ended.antt =====
-- What the main loop of firmware/components/pv_app/src/session.cpp does after a turn.
use pipecat_voice_assistant.Prelude.{◌≡◌, refl, false, List, [], ◌∷◌, arith}
use pipecat_voice_assistant.App.Session.{Platform, Session}
use pipecat_voice_assistant.App.Session.Main.{MainInput, MainLocals, main_step}
use pipecat_voice_assistant.App.Session.Turn.{Gone, HoldsPeer, ended_step-Gone}
use pipecat_voice_assistant.App.Session.Attempts.{attempt, attempts}

module _ (pl : Platform) where
  -- The session after a run of iterations.
  abbrev pub session_after : List MainInput → MainLocals → Session → Session
  session_after [] m s = s
  session_after (i ∷ run) m s = let (m', s') = main_step pl i m s in session_after run m' s'

  idle_attempt : (s : Session) → s.conversation_active ≡ false → attempt pl s ≡ 0
  idle_attempt s off = ground arith

  stays_Gone :
      (run : List MainInput) (m : MainLocals) (s : Session)
      → Gone pl s
      → Gone pl (session_after run m s) × (attempts pl run m s ≡ 0)
  unfolding attempts
  stays_Gone [] m s gone = (gone, refl)
  stays_Gone (i ∷ run) m s (no_peer, down, off) =
      let (m', s') = main_step pl i m s in
      let (gone, none_built) =
        stays_Gone run m' s' (ended_step-Gone pl i m s (λ e. absurd cc) off) in
      (gone, omega (arith, idle_attempt s off, none_built))

  -- Once the turn has ended, and until the microphone loop starts another, any run of iterations of
  -- the main loop, whatever libpeer does in them, builds no connection, and from its first iteration
  -- on there is neither a peer nor a connection. The state it starts in may be any in which the
  -- session counts as connected only while it holds a peer.
  pub ended_turn-disconnects :
      (i : MainInput) (run : List MainInput) (m : MainLocals) (s : Session)
      → HoldsPeer pl s
      → s.conversation_active ≡ false
      → Gone pl (session_after (i ∷ run) m s) × (attempts pl (i ∷ run) m s ≡ 0)
  unfolding attempts
  ended_turn-disconnects i run m s holds off =
      let (m', s') = main_step pl i m s in
      let (gone, none_built) = stays_Gone run m' s' (ended_step-Gone pl i m s holds off) in
      (gone, omega (arith, idle_attempt s off, none_built))
