-- ===== src/Domain/SessionFsm/Diagram.antt =====
-- The transition diagram in the header comment of session_fsm.hpp as a relation, and what holds
-- of runs of the machine.
use pipecat_voice_assistant.Prelude.{
  ◌≡◌, refl, ap, ◌⊎◌, inl, inr, ◌≢◌, List, [], ◌∷◌, ◌++◌, Bool, true, false, arith,
}
use pipecat_voice_assistant.Domain.SessionFsm.{
  SessionState, idle, connecting, negotiating, live, reconnecting, SessionEvent, wifi_up, wifi_down,
  signaling_started, peer_live, peer_lost, retry_tick, session_up, on_event, run,
}

-- An arrow of the diagram, with the event on it.
pub data Edge : SessionState → SessionEvent → SessionState → Type 0 where
  up : Edge idle wifi_up connecting
  offer : Edge connecting signaling_started negotiating
  complete : Edge negotiating peer_live live
  lost : {s : SessionState} → session_up s ≡ true → Edge s peer_lost reconnecting
  retry : Edge reconnecting retry_tick connecting
  down : {s : SessionState} → Edge s wifi_down idle

on_event-Edge : (s : SessionState) (e : SessionEvent) → Edge s e (on_event s e) ⊎ (on_event s e ≡ s)
unfolding on_event
on_event-Edge s e = grind (arith, up, offer, complete, lost, retry, down)

Edge-on_event : {s t : SessionState} {e : SessionEvent} → Edge s e t → on_event s e ≡ t
unfolding on_event
Edge-on_event up = refl
Edge-on_event offer = refl
Edge-on_event complete = refl
Edge-on_event (lost h) = ground arith
Edge-on_event retry = refl
Edge-on_event down = refl

-- The machine is the diagram: an event follows an arrow of the diagram or leaves the state as it
-- is, and every arrow of the diagram is followed.
pub on_event_diagram :
    (s : SessionState) (e : SessionEvent)
    → (Edge s e (on_event s e) ⊎ (on_event s e ≡ s))
      × ((t : SessionState) → Edge s e t → on_event s e ≡ t)
on_event_diagram s e = (on_event-Edge s e, λ t. Edge-on_event)

is_live : SessionState → Bool
is_live live = true
is_live _ = false

enters_live :
    (s : SessionState) (e : SessionEvent)
    → (is_live s ≡ true) ⊎ (is_live (on_event s e) ≡ false) ⊎ ((s ≡ negotiating) × (e ≡ peer_live))
unfolding on_event is_live
enters_live s e = ground arith

not_live : (s : SessionState) → s ≢ live → is_live s ≡ false
unfolding is_live
not_live s h = ground arith

live_split :
    (s : SessionState) (es : List SessionEvent)
    → is_live s ≡ false
    → run s es ≡ live
    → (before : List SessionEvent) × (after : List SessionEvent) × (es
        ≡ before ++ peer_live ∷ after)
      × (run s before ≡ negotiating)
unfolding run is_live
live_split s [] h r = absurd (cc)
live_split s (e ∷ es) h r = elim (enters_live s e) [
  | inl l ↦ absurd (cc)
  | inr (inl n) ↦
      let (a, b, q, g) = live_split (on_event s e) es n r in (e ∷ a, b, ap (λ t. e ∷ t) q, g)
  | inr (inr p) ↦ ([], es, ap (λ t. t ∷ es) p.1, p.0)
]

-- A session that is not live becomes live only by a PeerLive event that reaches it while it is
-- negotiating.
pub live_needs_peer_live :
    (s : SessionState) (es : List SessionEvent)
    → s ≢ live
    → run s es ≡ live
    → (before : List SessionEvent) × (after : List SessionEvent) × (es
        ≡ before ++ peer_live ∷ after)
      × (run s before ≡ negotiating)
live_needs_peer_live s es h r = live_split s es (not_live s h) r

abbrev pub recovery : SessionState → List SessionEvent
recovery idle = wifi_up ∷ signaling_started ∷ peer_live ∷ []
recovery connecting = signaling_started ∷ peer_live ∷ []
recovery negotiating = peer_live ∷ []
recovery live = []
recovery reconnecting = retry_tick ∷ signaling_started ∷ peer_live ∷ []

-- No state is a dead end: a drop or a network loss in any state is followed by a run back to live,
-- by a retry where a peer was lost and from the start where the network was.
pub run_recovers :
    (s : SessionState)
    → (run s (recovery s) ≡ live)
      × (run s (wifi_down ∷ recovery idle) ≡ live)
      × (session_up s ≡ true → run s (peer_lost ∷ recovery reconnecting) ≡ live)
unfolding run on_event
run_recovers s = ground arith
