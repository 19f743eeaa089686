-- ===== src/App/Session/Safety.antt =====
-- What holds of the session however its two loops interleave.
use pipecat_voice_assistant.Prelude.{
  ℕ, ◌≤◌, ◌≡◌, refl, sym, ◌∙◌, ap, true, Option, none, some, List, Bytes, if_elim, arith,
}
use pipecat_voice_assistant.Prelude.Int.{ℤ}
use pipecat_voice_assistant.Domain.SessionFsm.{SessionState}
use pipecat_voice_assistant.App.DropRing.{DropRing}
use pipecat_voice_assistant.App.Session.{Platform, Session, Peer, is_some, max_reconnects_per_turn}
use pipecat_voice_assistant.App.Session.Main.{MainLocals}
use pipecat_voice_assistant.App.Session.Capture.{
  CaptureInput, CaptureLocals, note_mic, snapshot_into, snapshot_wake, heard_frame, arm_turn,
  on_wake, expire, encode_frame, capture_frame, send_to, send_section,
}
use pipecat_voice_assistant.App.Session.Steps.{
  System, IsInitial, Step, main_iteration, microphone_frame, microphone_send, Reachable, start,
  next,
}
use pipecat_voice_assistant.App.Session.Lifecycle.{IsSound, main_step-IsSound}

module _ (pl : Platform) where
  -- The microphone loop leaves the connection and the lifecycle machine alone.
  record SameLink (s s' : Session) : Type 0 where
    connected : s'.connected ≡ s.connected
    peer : is_some s'.peer ≡ is_some s.peer
    fsm : s'.fsm ≡ s.fsm

  note_mic-SameLink : (i : CaptureInput) (s : Session) → SameLink s (note_mic pl i s)
  unfolding note_mic
  note_mic-SameLink i s = ground arith

  snapshot_into-SameLink :
      (s : Session) (ring : Option (DropRing ℤ)) (pcm : Option (List ℤ))
      → SameLink s (snapshot_into pl s ring pcm)
  unfolding snapshot_into
  snapshot_into-SameLink s none none = ground arith
  snapshot_into-SameLink s none (some _) = ground arith
  snapshot_into-SameLink s (some _) none = ground arith
  snapshot_into-SameLink s (some _) (some _) = ground arith

  arm_turn-SameLink :
      (i : CaptureInput) (c : CaptureLocals) (s : Session) → SameLink s (arm_turn pl i c s).1
  unfolding arm_turn
  arm_turn-SameLink i c s = ground arith

  expire-SameLink : (now : ℕ) (s : Session) → SameLink s (expire pl now s)
  unfolding expire
  expire-SameLink now s = ground arith

  SameLink-refl : (s : Session) → SameLink s s
  SameLink-refl s = record { connected = refl; peer = refl; fsm = refl }

  SameLink-trans : (s t u : Session) → SameLink s t → SameLink t u → SameLink s u
  SameLink-trans s t u p q = record {
    connected = q.connected ∙ p.connected;
    peer = q.peer ∙ p.peer;
    fsm = q.fsm ∙ p.fsm;
  }

  on_wake-SameLink :
      (i : CaptureInput) (c : CaptureLocals) (s : Session) → SameLink s (on_wake pl i c s).1
  unfolding on_wake snapshot_wake
  on_wake-SameLink i c s =
      if_elim (λ (t : CaptureLocals × Session). SameLink s t.1) i.detected
        (λ _.
          SameLink-trans s (snapshot_wake pl c s) _ (snapshot_into-SameLink s c.cap_ring s.wake_pcm)
            (arm_turn-SameLink i c (snapshot_wake pl c s)))
        (λ _. SameLink-refl s)

  capture_frame-SameLink :
      (i : CaptureInput) (c : CaptureLocals) (s : Session) → SameLink s (capture_frame pl i c s).1
  unfolding capture_frame encode_frame
  capture_frame-SameLink i c s =
      let heard = note_mic pl i s in
      let (c', woken) = on_wake pl i (heard_frame pl i c) heard in
      let live = expire pl i.now woken in
      let same : SameLink s live = SameLink-trans s heard live (note_mic-SameLink i s) (
        SameLink-trans heard woken live (on_wake-SameLink i (heard_frame pl i c) heard)
          (expire-SameLink i.now woken)) in
      if_elim (λ (t : CaptureLocals × Session × Option Bytes). SameLink s t.1)
        live.conversation_active
        (λ _. record { connected = same.connected; peer = same.peer; fsm = same.fsm }) (λ _. same)

  send_to-SameLink :
      (wire : Bytes) (c : CaptureLocals) (s : Session) (p : Option Peer)
      (r : Option (DropRing Bytes))
      → s.peer ≡ p
      → SameLink s (send_to wire c s p r).1
  unfolding send_to
  send_to-SameLink wire c s none r e = SameLink-refl s
  send_to-SameLink wire c s (some p) none e = record {
    connected = refl;
    peer = ap is_some (sym e);
    fsm = refl;
  }
  send_to-SameLink wire c s (some p) (some r) e = record {
    connected = refl;
    peer = ap is_some (sym e);
    fsm = refl;
  }

  send_section-SameLink :
      (wire : Bytes) (c : CaptureLocals) (s : Session) → SameLink s (send_section wire c s).1
  unfolding send_section
  send_section-SameLink wire c s =
      if_elim (λ (t : CaptureLocals × Session). SameLink s t.1) s.connected
        (λ _. send_to-SameLink wire c s s.peer c.ring refl) (λ _. SameLink-refl s)

  SameLink-IsSound : (s t : Session) → SameLink s t → IsSound s → IsSound t
  SameLink-IsSound s t l k = record {
    holds_peer = λ h. l.peer ∙ k.holds_peer (sym l.connected ∙ h);
    idle = l.fsm ∙ k.idle;
  }

  abbrev IsSafe : System → Type 0
  IsSafe y = IsSound y.session × (y.main.reconnects ≤ max_reconnects_per_turn)

  Step-IsSafe : (y z : System) → Step pl y z → IsSafe y → IsSafe z
  Step-IsSafe y _ (main_iteration _ i) k = main_step-IsSound pl i y.main y.session k.0 k.1
  Step-IsSafe y _ (microphone_frame _ i e) k =
      (SameLink-IsSound y.session _ (capture_frame-SameLink i y.capture y.session) k.0, k.1)
  Step-IsSafe y _ (microphone_send _ wire e) k =
      (SameLink-IsSound y.session _ (send_section-SameLink wire y.capture y.session) k.0, k.1)

  initial-IsSafe : (y : System) → IsInitial y → IsSafe y
  initial-IsSafe y h =
      let off = h.not_connected in
      let m = ap (λ (t : MainLocals). t.reconnects) h.main_start in
      (record { holds_peer = λ e. ground arith; idle = h.idle_fsm }, ground arith)

  Reachable-IsSafe : (y : System) → Reachable pl y → IsSafe y
  Reachable-IsSafe y (start _ h) = initial-IsSafe y h
  Reachable-IsSafe z (next y _ h step) = Step-IsSafe y z step (Reachable-IsSafe y h)

  -- However the iterations of the main loop and of the microphone loop interleave, with whatever
  -- callbacks and inputs: the session counts as connected only while it holds a peer, a turn has
  -- used at most three reconnects, and the lifecycle machine is in the state it started in.
  pub Reachable-safety :
      (y : System)
      → Reachable pl y
      → (y.session.connected ≡ true → is_some y.session.peer ≡ true)
        × (y.main.reconnects ≤ max_reconnects_per_turn)
        × (y.session.fsm ≡ SessionState.idle)
  Reachable-safety y h = let (k, n) = Reachable-IsSafe y h in (k.holds_peer, n, k.idle)
