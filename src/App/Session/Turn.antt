-- ===== src/App/Session/Turn.antt =====
-- How an iteration of the main loop of firmware/components/pv_app/src/session.cpp ends a turn, and
-- what libpeer's callbacks leave alone.
use mathlib.Core.Path.{subst}
use pipecat_voice_assistant.Prelude.{
  ℕ, ◌≡◌, refl, sym, ◌∙◌, ap, Bool, true, false, Option, none, some, List, [], ◌∷◌, Bytes, if_elim,
  arith,
}
use pipecat_voice_assistant.Prelude.Int.{ℤ}
use pipecat_voice_assistant.App.Session.{
  Platform, Session, Peer, is_some, PeerPhase, on_phase, on_peer_state, heard_bot, play_packet,
  play_into, on_inbound_audio, peer_phase,
}
use pipecat_voice_assistant.App.Session.Main.{
  MainInput, MainLocals, PeerEvent, state_change, inbound_audio, on_peer_event, deliver, hand_over,
  hand_over_parked, apply_answer, peer_tick, tear_down, fresh_turn, by_case, manage, main_step,
}

-- What libpeer's callbacks leave alone.
pub record SameTurn (s s' : Session) : Type 0 where
  pub active : s'.conversation_active ≡ s.conversation_active
  pub peer : is_some s'.peer ≡ is_some s.peer

SameTurn-refl : (s : Session) → SameTurn s s
SameTurn-refl s = record { active = refl; peer = refl }

SameTurn-trans : (s t u : Session) → SameTurn s t → SameTurn t u → SameTurn s u
SameTurn-trans s t u p q = record { active = q.active ∙ p.active; peer = q.peer ∙ p.peer }

module _ (pl : Platform) where
  on_phase-SameTurn :
      (p : PeerPhase) (now : ℕ) (us : ℤ) (s : Session) → SameTurn s (on_phase pl p now us s)
  unfolding on_phase
  on_phase-SameTurn p now us s = ground arith

  heard_bot-SameTurn : (peak now : ℕ) (s : Session) → SameTurn s (heard_bot pl peak now s)
  unfolding heard_bot
  heard_bot-SameTurn peak now s = ground arith

  play_into-SameTurn :
      (payload : Bytes) (now : ℕ) (s : Session) (buf : Option (List ℤ))
      → SameTurn s (play_into pl payload now s buf)
  unfolding play_into play_packet
  play_into-SameTurn payload now s none = SameTurn-refl s
  play_into-SameTurn payload now s (some buffered) =
      SameTurn-trans s _ _ (record { active = refl; peer = refl }) (heard_bot-SameTurn _ now _)

  on_inbound_audio-SameTurn :
      (payload : Bytes) (now : ℕ) (s : Session) → SameTurn s (on_inbound_audio pl payload now s)
  unfolding on_inbound_audio
  on_inbound_audio-SameTurn [] now s = SameTurn-refl s
  on_inbound_audio-SameTurn (b ∷ payload) now s =
      play_into-SameTurn (b ∷ payload) now s s.playback_buf

  deliver-SameTurn : (events : List PeerEvent) (s : Session) → SameTurn s (deliver pl events s)
  unfolding deliver on_peer_event on_peer_state
  deliver-SameTurn [] s = SameTurn-refl s
  deliver-SameTurn (state_change p now us ∷ events) s =
      let first = on_phase-SameTurn (peer_phase p) now us (record s { last_peer_state = some p }) in
      SameTurn-trans s _ _ (record { active = first.active; peer = first.peer })
        (deliver-SameTurn events _)
  deliver-SameTurn (inbound_audio payload now ∷ events) s =
      SameTurn-trans s _ _ (on_inbound_audio-SameTurn payload now s) (deliver-SameTurn events _)

  hand_over-SameTurn :
      (s : Session) (p : Peer) (o : Option Bytes)
      → is_some s.peer ≡ true
      → SameTurn s (hand_over pl s p o)
  unfolding hand_over
  hand_over-SameTurn s p none h = SameTurn-refl s
  hand_over-SameTurn s p (some sdp) h = record { active = refl; peer = sym h }

  apply_answer-SameTurn : (s : Session) → SameTurn s (apply_answer pl s)
  unfolding apply_answer hand_over_parked
  apply_answer-SameTurn s = parked s.peer refl
    where
      parked : (o : Option Peer) → s.peer ≡ o → SameTurn s (hand_over_parked pl s o)
      parked none h = SameTurn-refl s
      parked (some p) h = hand_over-SameTurn s p p.pending_answer (ap is_some h)

  pub peer_tick-SameTurn :
      (events : List PeerEvent) (s : Session) → SameTurn s (peer_tick pl events s)
  unfolding peer_tick
  peer_tick-SameTurn events s =
      if_elim (SameTurn s) (is_some s.peer)
        (λ _.
          SameTurn-trans s (deliver pl events s) _ (deliver-SameTurn events s)
            (apply_answer-SameTurn (deliver pl events s)))
        (λ _. SameTurn-refl s)

  -- A tick without a peer does nothing.
  pub idle_tick :
      (events : List PeerEvent) (s : Session) → is_some s.peer ≡ false → peer_tick pl events s ≡ s
  unfolding peer_tick
  idle_tick events s h = ground arith

  -- What ends up of the session when the turn is over.
  abbrev pub Gone : Session → Type 0
  Gone s = (is_some s.peer ≡ false) × (s.connected ≡ false) × (s.conversation_active ≡ false)

  -- The session counts as connected only while it holds a peer.
  abbrev pub HoldsPeer : Session → Type 0
  HoldsPeer s = s.connected ≡ true → is_some s.peer ≡ true

  by_case-Gone :
      (have : Bool) (i : MainInput) (m : MainLocals) (s : Session)
      → is_some s.peer ≡ have
      → HoldsPeer s
      → s.conversation_active ≡ false
      → Gone (by_case pl false have i m s).1
  unfolding by_case tear_down
  by_case-Gone true i m s e k off = (refl, refl, off)
  by_case-Gone false i m s e k off = (e, ground arith, off)

  -- An iteration that finds the turn ended leaves no peer and no connection, whatever libpeer does.
  pub ended_step-Gone :
      (i : MainInput) (m : MainLocals) (s : Session)
      → HoldsPeer s
      → s.conversation_active ≡ false
      → Gone (main_step pl i m s).1
  unfolding main_step manage
  ended_step-Gone i m s k off =
      let s' = (by_case pl false (is_some s.peer) i (fresh_turn pl false m) s).1 in
      let gone = by_case-Gone (is_some s.peer) i (fresh_turn pl false m) s refl k off in
      subst
        (λ b.
          Gone (peer_tick pl i.events (by_case pl b (is_some s.peer) i (fresh_turn pl b m) s).1))
        (sym off) (subst Gone (sym (idle_tick i.events s' gone.0)) gone)
