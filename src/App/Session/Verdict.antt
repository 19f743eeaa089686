-- ===== src/App/Session/Verdict.antt =====
-- How the main loop of firmware/components/pv_app/src/session.cpp watches a live turn, with the
-- conditions and limits written out.
use mathlib.Core.Path.{subst}
use pipecat_voice_assistant.Prelude.{
  ℕ, ◌+◌, ◌≤◌, ◌<◌, ◌≡◌, ◌↔◌, refl, sym, ◌∙◌, ap, ap₂, Bool, true, false, ◌||◌, ◌⊎◌, if◌then◌else◌,
  arith,
}
use pipecat_voice_assistant.Prelude.Word.{sub32}
use pipecat_voice_assistant.App.Session.{Platform, Session, is_some}
use pipecat_voice_assistant.App.Session.Main.{
  MainInput, MainLocals, peer_tick, media_dead, connect_stalled, connection_lost, watch_session,
  fresh_turn, by_case, manage, main_step,
}
use pipecat_voice_assistant.App.Session.Turn.{peer_tick-SameTurn, idle_tick}

module _ (pl : Platform) where
  -- Libpeer flagged the connection, or it is up and no packet came for more than five seconds.
  abbrev pub Lost : ℕ → Session → Type 0
  Lost now s =
      (s.peer_dead ≡ true)
      ⊎ ((s.connected ≡ true) × (pl.pd_ms_to_ticks 5000 < sub32 now s.last_rx_pkt_tick))

  -- The connection is not up more than twelve seconds after it was begun.
  abbrev pub Stalled : ℕ → MainLocals → Session → Type 0
  Stalled now m s = (s.connected ≡ false) × (pl.pd_ms_to_ticks 12000 < sub32 now m.connect_started)

  -- The reconnects that the turn has had; a turn that is new to the loop has had none.
  abbrev pub used : MainLocals → ℕ
  used m = if m.prev_want then m.reconnects else 0

  abbrev lost_flag : ℕ → Session → Bool
  lost_flag now s = s.peer_dead || media_dead pl now s

  lost_flag_iff : (now : ℕ) (s : Session) → (lost_flag now s ≡ true) ↔ Lost now s
  unfolding media_dead
  lost_flag_iff now s = (λ h. ground arith, λ h. ground arith)

  connect_stalled_iff :
      (now : ℕ) (m : MainLocals) (s : Session)
      → (connect_stalled pl now m s ≡ true) ↔ Stalled now m s
  unfolding connect_stalled
  connect_stalled_iff now m s = (λ h. ground arith, λ h. ground arith)

  refuted : {P : Type 0} (b : Bool) → (b ≡ true → P) → (P → ⊥) → b ≡ false
  refuted true holds fails = absurd (fails (holds refl))
  refuted false holds fails = refl

  -- What the loop makes of a live turn, from the clock, the locals and the session before.
  abbrev pub Verdict : ℕ → MainLocals → Session → MainLocals × Session → Type 0
  Verdict now m s (m', s') =
      (Lost now s
        → used m < 3
        → (is_some s'.peer ≡ false)
          × (s'.connected ≡ false)
          × (s'.conversation_active ≡ true)
          × (m'.reconnects ≡ used m + 1))
      × (Lost now s → 3 ≤ used m → s'.conversation_active ≡ false)
      × ((Lost now s → ⊥) → Stalled now m s → s'.conversation_active ≡ false)
      × ((Lost now s → ⊥)
          → (Stalled now m s → ⊥)
          → (is_some s'.peer ≡ true) × (s'.conversation_active ≡ true) × (m'.reconnects ≡ used m))

  watch_session-Verdict :
      (i : MainInput) (m : MainLocals) (s : Session)
      → s.conversation_active ≡ true
      → is_some s.peer ≡ true
      → Verdict i.now m s (watch_session pl i (fresh_turn pl true m) s)
  unfolding watch_session connection_lost fresh_turn
  watch_session-Verdict i m s want have =
      let lost_iff = lost_flag_iff i.now s in
      let stalled_iff = connect_stalled_iff i.now (fresh_turn pl true m) s in
      (
        λ lost left. let f = lost_iff.1 lost in ground arith,
        λ lost spent. let f = lost_iff.1 lost in ground arith,
        λ fine stalled.
            let f = refuted (lost_flag i.now s) lost_iff.0 fine in
            let g = stalled_iff.1 stalled in ground arith,
        λ fine going.
            let f = refuted (lost_flag i.now s) lost_iff.0 fine in
            let g =
              refuted (connect_stalled pl i.now (fresh_turn pl true m) s) stalled_iff.0 going in
            ground arith,
      )

  peer_tick-Verdict :
      (i : MainInput) (m : MainLocals) (s : Session) (m1 : MainLocals) (s1 : Session)
      → Verdict i.now m s (m1, s1)
      → Verdict i.now m s (m1, peer_tick pl i.events s1)
  peer_tick-Verdict i m s m1 s1 (rebuilds, gives_up, times_out, goes_on) =
      let same = peer_tick-SameTurn pl i.events s1 in
      (
        λ lost left.
            let (no_peer, down, on, count) = rebuilds lost left in
            (
              same.peer ∙ no_peer,
              ap (λ (t : Session). t.connected) (idle_tick pl i.events s1 no_peer) ∙ down,
              same.active ∙ on,
              count,
            ),
        λ lost spent. same.active ∙ gives_up lost spent,
        λ fine stalled. same.active ∙ times_out fine stalled,
        λ fine going.
            let (peer, on, count) = goes_on fine going in
            (same.peer ∙ peer, same.active ∙ on, count),
      )

  -- An iteration of the main loop that finds a turn on and a peer held decides as follows, whatever
  -- libpeer does in it. A lost connection (flagged by libpeer, or up without a packet for more than
  -- five seconds) is given up for another one if the turn has had fewer than three reconnects: no
  -- peer is left, the turn stays on and the count goes up; after three the turn ends. If it is not
  -- lost, a connection that is not up more than twelve seconds after it was begun ends the turn, and
  -- otherwise the turn, the peer and the count stay.
  pub main_step-Verdict :
      (i : MainInput) (m : MainLocals) (s : Session)
      → s.conversation_active ≡ true
      → is_some s.peer ≡ true
      → Verdict i.now m s (main_step pl i m s)
  unfolding main_step manage by_case
  main_step-Verdict i m s want have =
      let watched = watch_session pl i (fresh_turn pl true m) s in
      let settled =
        peer_tick-Verdict i m s watched.0 watched.1 (watch_session-Verdict i m s want have) in
      subst
        (λ (b : Bool × Bool).
          let (m', s') = by_case pl b.0 b.1 i (fresh_turn pl b.0 m) s in
          Verdict i.now m s (m', peer_tick pl i.events s'))
        (ap₂ (λ a b. (a, b)) (sym want) (sym have)) settled
