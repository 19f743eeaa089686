-- ===== src/App/Session/Main.antt =====
-- The main loop of firmware/components/pv_app/src/session.cpp: `buildAndOffer` and one iteration of
-- `mainLoopTask`, which ends in `Peer::tick` of pv_transport/src/peer.cpp. What libpeer and the
-- signaling server do in an iteration is its input: whether a peer is created, whether the offer
-- callback runs and what the server answers, and the callbacks that the tick delivers.
use pipecat_voice_assistant.Prelude.{
  ℕ, ◌+◌, Bool, true, false, not, ◌&&◌, ◌||◌, Option, none, some, List, [], ◌∷◌, Bytes,
  if◌then◌else◌, ltb,
}
use pipecat_voice_assistant.Prelude.Int.{ℤ}
use pipecat_voice_assistant.Prelude.Word.{sub32}
use pipecat_voice_assistant.Domain.LedFsm.{LedState}
use pipecat_voice_assistant.Domain.G722.Codec.{g722_init}
use pipecat_voice_assistant.App.Ui.{set_led}
use pipecat_voice_assistant.App.Session.{
  PeerState, PeerIceServer, Peer, Platform, Session, is_some, on_peer_state, on_inbound_audio,
  on_local_sdp, connect_timeout_ms, media_dead_ms, max_reconnects_per_turn,
}

pub data PeerEvent : Type 0 where
  state_change : PeerState → ℕ → ℤ → PeerEvent
  inbound_audio : Bytes → ℕ → PeerEvent

-- What a call of `buildAndOffer` meets. `sdp_fired` says that `createOffer` runs the callback, and
-- `answer` is the server's reply to it; `offer` says that the offer is not null.
pub record BringUp : Type 0 where
  pub fetched_ice : List PeerIceServer
  pub created : Bool
  pub sdp_fired : Bool
  pub answer : Option Bytes
  pub offer : Bool

pub record MainInput : Type 0 where
  pub now : ℕ
  pub us : ℤ
  pub bring_up : BringUp
  pub events : List PeerEvent

-- The locals of `mainLoopTask`.
pub record MainLocals : Type 0 where
  pub connect_started : ℕ
  pub prev_want : Bool
  pub reconnects : ℕ

abbrev pub main_init : MainLocals
main_init = record { connect_started = 0; prev_want = false; reconnects = 0 }

abbrev refreshed : List PeerIceServer → List PeerIceServer → List PeerIceServer
refreshed fetched [] = fetched
refreshed fetched (i ∷ ice) = i ∷ ice

-- `buildAndOffer` from the point where the peer is made.
unfoldable pub offer_to : BringUp → Session → Session × Bool
offer_to b s =
    let s' = record s {
      peer =
          some
            (record { ice = s.ice; pending_answer = none; remote_description = none; sent = [] });
      g722_dec = g722_init;
    } in
    (if b.sdp_fired then on_local_sdp b.answer s' else s', b.offer)

unfoldable pub build_and_offer : BringUp → Session → Session × Bool
build_and_offer b s =
    let s' = record s { ice = refreshed b.fetched_ice s.ice; peer = none } in
    if b.created then offer_to b s' else (s', false)

module _ (pl : Platform) where
  unfoldable pub on_peer_event : PeerEvent → Session → Session
  on_peer_event (state_change p now us) s = on_peer_state pl p now us s
  on_peer_event (inbound_audio payload now) s = on_inbound_audio pl payload now s

  -- `peer_connection_loop`: the callbacks it runs, in order.
  unfoldable pub deliver : List PeerEvent → Session → Session
  deliver [] s = s
  deliver (e ∷ events) s = deliver events (on_peer_event e s)

  unfoldable pub hand_over : Session → Peer → Option Bytes → Session
  hand_over s p none = s
  hand_over s p (some sdp) = record s {
    peer = some (record p { pending_answer = none; remote_description = some sdp });
  }

  unfoldable pub hand_over_parked : Session → Option Peer → Session
  hand_over_parked s none = s
  hand_over_parked s (some p) = hand_over s p p.pending_answer

  -- The parked answer is handed to libpeer.
  unfoldable pub apply_answer : Session → Session
  apply_answer s = hand_over_parked s s.peer

  -- `if (peer_) peer_->tick();`
  unfoldable pub peer_tick : List PeerEvent → Session → Session
  peer_tick events s = if is_some s.peer then apply_answer (deliver events s) else s

  -- `want && !have`.
  unfoldable pub bring_up_session : MainInput → MainLocals → Session → MainLocals × Session
  bring_up_session i m s =
      let (s', built) = build_and_offer i.bring_up (record s { peer_dead = false }) in
      (
        record m { connect_started = i.now },
        if built then s' else record s' { conversation_active = false; peer = none },
      )

  -- `!want && have`.
  unfoldable pub tear_down : MainInput → Session → Session
  tear_down i s = record s { connected = false; peer = none; ui = set_led s.ui LedState.off i.us }

  unfoldable pub media_dead : ℕ → Session → Bool
  media_dead now s =
      s.connected && ltb (pl.pd_ms_to_ticks media_dead_ms) (sub32 now s.last_rx_pkt_tick)

  unfoldable pub connect_stalled : ℕ → MainLocals → Session → Bool
  connect_stalled now m s =
      not s.connected && ltb (pl.pd_ms_to_ticks connect_timeout_ms) (sub32 now m.connect_started)

  -- A lost connection: another attempt, or the end of the turn.
  unfoldable pub connection_lost : MainInput → MainLocals → Session → MainLocals × Session
  connection_lost i m s =
      if ltb m.reconnects max_reconnects_per_turn
      then (
        record m { reconnects = m.reconnects + 1 },
        record s { ui = set_led s.ui LedState.negotiating i.us; connected = false; peer = none },
      )
      else (m, record s { conversation_active = false })

  -- `want && have`.
  unfoldable pub watch_session : MainInput → MainLocals → Session → MainLocals × Session
  watch_session i m s =
      if s.peer_dead || media_dead i.now s
      then connection_lost i m s
      else if connect_stalled i.now m s
      then (m, record s { conversation_active = false })
      else (m, s)

  -- The budget of reconnects starts anew with a fresh turn.
  unfoldable pub fresh_turn : Bool → MainLocals → MainLocals
  fresh_turn want m = record m {
    reconnects = if want && not m.prev_want then 0 else m.reconnects;
    prev_want = want;
  }

  -- The three branches on `want` and `have`.
  unfoldable pub by_case : Bool → Bool → MainInput → MainLocals → Session → MainLocals × Session
  by_case true false i m s = bring_up_session i m s
  by_case false true i m s = (m, tear_down i s)
  by_case true true i m s = watch_session i m s
  by_case false false i m s = (m, s)

  unfoldable pub manage : MainInput → MainLocals → Session → MainLocals × Session
  manage i m s =
      by_case s.conversation_active (is_some s.peer) i (fresh_turn s.conversation_active m) s

  -- One iteration of the loop.
  unfoldable pub main_step : MainInput → MainLocals → Session → MainLocals × Session
  main_step i m s = let (m', s') = manage i m s in (m', peer_tick i.events s')
