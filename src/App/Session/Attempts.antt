-- ===== src/App/Session/Attempts.antt =====
-- How many connections the main loop of firmware/components/pv_app/src/session.cpp builds in a turn.
use pipecat_voice_assistant.Prelude.{
  ℕ, ◌+◌, ◌-◌, ◌≤◌, ◌<◌, ◌≡◌, refl, sym, ◌∙◌, Bool, true, false, not, ◌&&◌, Option, none, some,
  List, [], ◌∷◌, Bytes, if◌then◌else◌, if_elim, arith,
}
use pipecat_voice_assistant.App.Session.{
  Platform, Session, Peer, is_some, publish_answer, on_local_sdp, max_reconnects_per_turn,
}
use pipecat_voice_assistant.App.Session.Main.{
  MainInput, MainLocals, BringUp, peer_tick, offer_to, build_and_offer, bring_up_session, tear_down,
  connection_lost, watch_session, fresh_turn, by_case, manage, main_step,
}
use pipecat_voice_assistant.App.Session.Turn.{peer_tick-SameTurn}

module _ (pl : Platform) where
  -- After a bring-up there is a peer, or the turn is over.
  abbrev HasPeerIfActive : Session → Type 0
  HasPeerIfActive s = s.conversation_active ≡ true → is_some s.peer ≡ true

  publish_answer-HasPeer :
      (sdp : Bytes) (s : Session) (p : Option Peer)
      → s.peer ≡ p
      → HasPeerIfActive (publish_answer sdp s p)
  unfolding publish_answer
  publish_answer-HasPeer sdp s none e = λ h. absurd cc
  publish_answer-HasPeer sdp s (some p) e = λ h. refl

  fired-HasPeer :
      (fired : Bool) (answer : Option Bytes) (s : Session)
      → is_some s.peer ≡ true
      → HasPeerIfActive (if fired then on_local_sdp answer s else s)
  unfolding on_local_sdp
  fired-HasPeer false answer s h = λ _. h
  fired-HasPeer true none s h = λ e. absurd cc
  fired-HasPeer true (some sdp) s h = publish_answer-HasPeer sdp s s.peer refl

  build_and_offer-HasPeer :
      (b : BringUp) (s : Session)
      → (build_and_offer b s).1 ≡ true
      → HasPeerIfActive (build_and_offer b s).0
  unfolding build_and_offer offer_to
  build_and_offer-HasPeer b s =
      if_elim (λ (t : Session × Bool). t.1 ≡ true → HasPeerIfActive t.0) b.created
        (λ _ _. fired-HasPeer b.sdp_fired b.answer _ refl) (λ _ e. absurd cc)

  bring_up-HasPeer :
      (i : MainInput) (m : MainLocals) (s : Session) → HasPeerIfActive (bring_up_session pl i m s).1
  unfolding bring_up_session
  bring_up-HasPeer i m s =
      let s0 = record s { peer_dead = false } in
      if_elim HasPeerIfActive (build_and_offer i.bring_up s0).1
        (λ h. build_and_offer-HasPeer i.bring_up s0 h) (λ _ e. absurd cc)

  abbrev left_of : Bool → Bool → ℕ → ℕ
  left_of active have used =
      if active then (max_reconnects_per_turn - used) + (if have then 0 else 1) else 0

  -- How many connections may still be built in the turn that is on.
  attempts_left : MainLocals → Session → ℕ
  attempts_left m s =
      left_of s.conversation_active (is_some s.peer)
        (fresh_turn pl s.conversation_active m).reconnects

  -- An iteration builds a connection when a turn is on and there is no peer.
  abbrev pub attempt : Session → ℕ
  attempt s = if s.conversation_active && not (is_some s.peer) then 1 else 0

  -- The connections that a run of iterations builds.
  unfoldable pub attempts : List MainInput → MainLocals → Session → ℕ
  attempts [] m s = 0
  attempts (i ∷ rest) m s = let (m', s') = main_step pl i m s in attempt s + attempts rest m' s'

  -- What the branches do to the counts, before the next iteration looks at them.
  record Spends (want have : Bool) (m m' : MainLocals) (s' : Session) : Type 0 where
    no_new_turn : s'.conversation_active ≡ true → want ≡ true
    known : m'.prev_want ≡ m.prev_want
    spent :
        s'.conversation_active ≡ true
        → (is_some s'.peer ≡ true → m'.reconnects ≡ m.reconnects)
          × (is_some s'.peer ≡ false
              → (have ≡ true)
                × (m'.reconnects ≡ m.reconnects + 1)
                × (m.reconnects < max_reconnects_per_turn))

  by_case-Spends :
      (want have : Bool) (i : MainInput) (m : MainLocals) (s : Session)
      → s.conversation_active ≡ want
      → is_some s.peer ≡ have
      → let (m', s') = by_case pl want have i m s in Spends want have m m' s'
  unfolding by_case
  by_case-Spends true false i m s w h =
      let p = bring_up-HasPeer i m s in
      let e : (bring_up_session pl i m s).0.reconnects ≡ m.reconnects =
        unfold bring_up_session in refl in
      record {
        no_new_turn = λ _. refl;
        known = unfold bring_up_session in refl;
        spent = λ a. (λ _. e, λ n. absurd (ground arith));
      }
  by_case-Spends false true i m s w h = unfold tear_down in ground arith
  by_case-Spends false false i m s w h = ground arith
  by_case-Spends true true i m s w h = unfold watch_session connection_lost in ground arith

  spend :
      (a h a' h' : Bool) (u u' : ℕ)
      → (a' ≡ true → a ≡ true)
      → (a' ≡ true
          → (h' ≡ true → u' ≡ u)
            × (h' ≡ false → (h ≡ true) × (u' ≡ u + 1) × (u < max_reconnects_per_turn)))
      → (if a && not h then 1 else 0) + left_of a' h' u' ≤ left_of a h u
  spend a h false h' u u' raised spent = ground arith
  spend a h true true u u' raised spent =
      let x = raised refl in let y = (spent refl).0 refl in ground arith
  spend a h true false u u' raised spent =
      let x = raised refl in let (y, z, w) = (spent refl).1 refl in ground arith

  kept_turn :
      (want : Bool) (m : MainLocals)
      → m.prev_want ≡ true
      → (fresh_turn pl want m).reconnects ≡ m.reconnects
  unfolding fresh_turn
  kept_turn want m h = ground arith

  prev_want-fresh_turn : (want : Bool) (m : MainLocals) → (fresh_turn pl want m).prev_want ≡ want
  unfolding fresh_turn
  prev_want-fresh_turn want m = refl

  iteration_spends :
      (i : MainInput) (m : MainLocals) (s : Session)
      → let (m', s') = main_step pl i m s in attempt s + attempts_left m' s' ≤ attempts_left m s
  unfolding main_step manage attempts_left
  iteration_spends i m s =
      let m0 = fresh_turn pl s.conversation_active m in
      let sp = by_case-Spends s.conversation_active (is_some s.peer) i m0 s refl refl in
      let (m1, s1) = by_case pl s.conversation_active (is_some s.peer) i m0 s in
      let same = peer_tick-SameTurn pl i.events s1 in
      let s2 = peer_tick pl i.events s1 in
      let reconnects : s2.conversation_active ≡ true
          → (fresh_turn pl s2.conversation_active m1).reconnects ≡ m1.reconnects =
        λ e. kept_turn s2.conversation_active m1 (
          sp.known
          ∙ prev_want-fresh_turn s.conversation_active m
          ∙ sp.no_new_turn (sym same.active ∙ e)) in
      spend s.conversation_active (is_some s.peer) s2.conversation_active (is_some s2.peer)
        m0.reconnects _ (λ e. sp.no_new_turn (sym same.active ∙ e))
        (λ e.
          let (kept, rebuilt) = sp.spent (sym same.active ∙ e) in
          (
            λ h. reconnects e ∙ kept (sym same.peer ∙ h),
            λ h. let (x, y, z) = rebuilt (sym same.peer ∙ h) in (x, reconnects e ∙ y, z),
          ))

  run_spends :
      (run : List MainInput) (m : MainLocals) (s : Session) → attempts run m s ≤ attempts_left m s
  unfolding attempts
  run_spends [] m s = omega arith
  run_spends (i ∷ run) m s =
      let (m', s') = main_step pl i m s in
      omega (arith, run_spends run m' s', iteration_spends i m s)

  -- From any state of its variables, a run of iterations of the main loop builds at most four
  -- connections: a turn that is on gets its first connection and up to three reconnects. (Only the
  -- microphone loop starts a turn.)
  pub attempts_bounded :
      (run : List MainInput) (m : MainLocals) (s : Session)
      → attempts run m s ≤ max_reconnects_per_turn + 1
  unfolding attempts_left
  attempts_bounded run m s = ground (arith, run_spends run m s)
