-- ===== src/App/Session/Lifecycle.antt =====
-- What an iteration of the main loop keeps: a session counts as connected only while it holds a peer,
-- the lifecycle machine is not moved, and the reconnects of a turn stay within their budget.
use pipecat_voice_assistant.Prelude.{
  ℕ, ◌≤◌, ◌≡◌, refl, Bool, true, false, Option, none, some, List, [], ◌∷◌, Bytes, if◌then◌else◌,
  Bool-cases, inl, inr, arith,
}
use pipecat_voice_assistant.Prelude.Int.{ℤ}
use pipecat_voice_assistant.Domain.SessionFsm.{SessionState, on_event, switch_state}
use pipecat_voice_assistant.App.Session.{
  Platform, Session, Peer, is_some, PeerPhase, on_phase, on_peer_state, heard_bot, play_packet,
  play_into, publish_answer, on_inbound_audio, on_local_sdp, max_reconnects_per_turn, peer_phase,
}
use pipecat_voice_assistant.App.Session.Main.{
  MainInput, MainLocals, PeerEvent, state_change, inbound_audio, BringUp, on_peer_event, deliver,
  hand_over, hand_over_parked, apply_answer, peer_tick, offer_to, build_and_offer, bring_up_session,
  tear_down, connection_lost, watch_session, fresh_turn, by_case, manage, main_step,
}

pub record IsSound (s : Session) : Type 0 where
  pub holds_peer : s.connected ≡ true → is_some s.peer ≡ true
  pub idle : s.fsm ≡ SessionState.idle

-- The same with a peer at hand, which the callbacks of a tick have.
record IsLive (s : Session) : Type 0 where
  has_peer : is_some s.peer ≡ true
  idle : s.fsm ≡ SessionState.idle

-- The same before the connection is up.
record IsWaiting (s : Session) : Type 0 where
  not_connected : s.connected ≡ false
  idle : s.fsm ≡ SessionState.idle

-- Without a peer the session does not count as connected.
unconnected : (s : Session) → IsSound s → is_some s.peer ≡ false → s.connected ≡ false
unconnected s k h = let e = k.holds_peer in ground arith

live-IsSound : (s : Session) → IsLive s → IsSound s
live-IsSound s l = record { holds_peer = λ _. l.has_peer; idle = l.idle }

module _ (pl : Platform) where
  on_phase-IsLive :
      (p : PeerPhase) (now : ℕ) (us : ℤ) (s : Session) → IsLive s → IsLive (on_phase pl p now us s)
  unfolding on_phase on_event switch_state
  on_phase-IsLive p now us s l = let h = l.has_peer in let k = l.idle in ground arith

  heard_bot-IsLive : (peak now : ℕ) (s : Session) → IsLive s → IsLive (heard_bot pl peak now s)
  unfolding heard_bot
  heard_bot-IsLive peak now s l = let h = l.has_peer in let k = l.idle in ground arith

  play_into-IsLive :
      (payload : Bytes) (now : ℕ) (s : Session) (buf : Option (List ℤ))
      → IsLive s
      → IsLive (play_into pl payload now s buf)
  unfolding play_into play_packet
  play_into-IsLive payload now s none l = l
  play_into-IsLive payload now s (some buffered) l =
      heard_bot-IsLive _ now _ (record { has_peer = l.has_peer; idle = l.idle })

  on_inbound_audio-IsLive :
      (payload : Bytes) (now : ℕ) (s : Session)
      → IsLive s
      → IsLive (on_inbound_audio pl payload now s)
  unfolding on_inbound_audio
  on_inbound_audio-IsLive [] now s l = l
  on_inbound_audio-IsLive (b ∷ payload) now s l =
      play_into-IsLive (b ∷ payload) now s s.playback_buf l

  deliver-IsLive : (events : List PeerEvent) (s : Session) → IsLive s → IsLive (deliver pl events s)
  unfolding deliver on_peer_event on_peer_state
  deliver-IsLive [] s l = l
  deliver-IsLive (state_change p now us ∷ events) s l =
      deliver-IsLive events _
        (on_phase-IsLive (peer_phase p) now us _ (record { has_peer = l.has_peer; idle = l.idle }))
  deliver-IsLive (inbound_audio payload now ∷ events) s l =
      deliver-IsLive events _ (on_inbound_audio-IsLive payload now s l)

  apply_answer-IsLive : (s : Session) → IsLive s → IsLive (apply_answer pl s)
  unfolding apply_answer hand_over_parked hand_over
  apply_answer-IsLive s l = parked s.peer
    where
      handed : (p : Peer) (o : Option Bytes) → IsLive (hand_over pl s p o)
      handed p none = l
      handed p (some sdp) = record { has_peer = refl; idle = l.idle }

      parked : (o : Option Peer) → IsLive (hand_over_parked pl s o)
      parked none = l
      parked (some p) = handed p p.pending_answer

  peer_tick-IsSound :
      (events : List PeerEvent) (s : Session) → IsSound s → IsSound (peer_tick pl events s)
  unfolding peer_tick
  peer_tick-IsSound events s k = elim (Bool-cases (is_some s.peer)) [
    | inl h ↦ rw h (
        live-IsSound _ (
          apply_answer-IsLive _ (deliver-IsLive events s (record { has_peer = h; idle = k.idle }))))
    | inr h ↦ rw h k
  ]

  publish_answer-IsWaiting :
      (sdp : Bytes) (s : Session) (p : Option Peer)
      → IsWaiting s
      → IsWaiting (publish_answer sdp s p)
  unfolding publish_answer
  publish_answer-IsWaiting sdp s none w = record { not_connected = w.not_connected; idle = w.idle }
  publish_answer-IsWaiting sdp s (some p) w = record {
    not_connected = w.not_connected;
    idle = w.idle;
  }

  fired-IsWaiting :
      (fired : Bool) (answer : Option Bytes) (s : Session)
      → IsWaiting s
      → IsWaiting (if fired then on_local_sdp answer s else s)
  unfolding on_local_sdp
  fired-IsWaiting false answer s w = w
  fired-IsWaiting true none s w = record { not_connected = w.not_connected; idle = w.idle }
  fired-IsWaiting true (some sdp) s w = publish_answer-IsWaiting sdp s s.peer w

  build_and_offer-IsWaiting :
      (b : BringUp) (s : Session) → IsWaiting s → IsWaiting (build_and_offer b s).0
  unfolding build_and_offer offer_to
  build_and_offer-IsWaiting b s w = elim (Bool-cases b.created) [
    | inl h ↦ rw h (
        fired-IsWaiting b.sdp_fired b.answer _
          (record { not_connected = w.not_connected; idle = w.idle }))
    | inr h ↦ rw h (record { not_connected = w.not_connected; idle = w.idle })
  ]

  bring_up-IsSound :
      (i : MainInput) (m : MainLocals) (s : Session)
      → IsSound s
      → is_some s.peer ≡ false
      → IsSound (bring_up_session pl i m s).1
  unfolding bring_up_session
  bring_up-IsSound i m s k h =
      let start : IsWaiting (record s { peer_dead = false }) = record {
        not_connected = unconnected s k h;
        idle = k.idle;
      } in
      let w = build_and_offer-IsWaiting i.bring_up _ start in
      let (s', built) = build_and_offer i.bring_up (record s { peer_dead = false }) in
      let e = w.not_connected in let f = w.idle in ground arith

  connection_lost-IsSound :
      (i : MainInput) (m : MainLocals) (s : Session)
      → IsSound s
      → m.reconnects ≤ max_reconnects_per_turn
      → IsSound (connection_lost pl i m s).1
        × ((connection_lost pl i m s).0.reconnects ≤ max_reconnects_per_turn)
  unfolding connection_lost
  connection_lost-IsSound i m s k h = let e = k.holds_peer in let f = k.idle in ground arith

  watch_session-IsSound :
      (i : MainInput) (m : MainLocals) (s : Session)
      → IsSound s
      → m.reconnects ≤ max_reconnects_per_turn
      → IsSound (watch_session pl i m s).1
        × ((watch_session pl i m s).0.reconnects ≤ max_reconnects_per_turn)
  unfolding watch_session
  watch_session-IsSound i m s k h =
      let lost = connection_lost-IsSound i m s k h in
      let e = k.holds_peer in let f = k.idle in ground arith

  tear_down-IsSound : (i : MainInput) (s : Session) → IsSound s → IsSound (tear_down pl i s)
  unfolding tear_down
  tear_down-IsSound i s k = let f = k.idle in ground arith

  fresh_turn-reconnects :
      (want : Bool) (m : MainLocals)
      → m.reconnects ≤ max_reconnects_per_turn
      → (fresh_turn pl want m).reconnects ≤ max_reconnects_per_turn
  unfolding fresh_turn
  fresh_turn-reconnects want m h = ground arith

  by_case-IsSound :
      (want have : Bool) (i : MainInput) (m : MainLocals) (s : Session)
      → is_some s.peer ≡ have
      → IsSound s
      → m.reconnects ≤ max_reconnects_per_turn
      → IsSound (by_case pl want have i m s).1
        × ((by_case pl want have i m s).0.reconnects ≤ max_reconnects_per_turn)
  unfolding by_case
  by_case-IsSound true false i m s e k h =
      (bring_up-IsSound i m s k e, unfold bring_up_session in h)
  by_case-IsSound false true i m s e k h = (tear_down-IsSound i s k, h)
  by_case-IsSound true true i m s e k h = watch_session-IsSound i m s k h
  by_case-IsSound false false i m s e k h = (k, h)

  pub main_step-IsSound :
      (i : MainInput) (m : MainLocals) (s : Session)
      → IsSound s
      → m.reconnects ≤ max_reconnects_per_turn
      → IsSound (main_step pl i m s).1
        × ((main_step pl i m s).0.reconnects ≤ max_reconnects_per_turn)
  unfolding main_step manage
  main_step-IsSound i m s k h =
      let (k', h') =
        by_case-IsSound s.conversation_active (is_some s.peer) i
          (fresh_turn pl s.conversation_active m) s refl k
          (fresh_turn-reconnects s.conversation_active m h) in
      (peer_tick-IsSound i.events _ k', h')
