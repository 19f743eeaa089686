-- ===== src/Hal/WifiSta/Attempts.antt =====
-- When `connect` reports a connection, and how often it tries.
use pipecat_voice_assistant.Prelude.{
  ℕ, suc, ◌+◌, ◌≤◌, ◌<◌, ◌≡◌, ◌↔◌, refl, Bool, true, false, ◌||◌, inl, inr, Option, none, some,
  List, [], ◌∷◌, ltb, Bytes, le_or_lt, if_elim, ltb→lt, take, arith,
}
use pipecat_voice_assistant.Hal.NvsKv.{c_str}
use pipecat_voice_assistant.Hal.WifiSta.{
  WifiEvent, sta_start, sta_disconnected, got_ip, WifiSta, WifiLib, connected_result, event_handler,
  wait_bits, StaConfig, sta_config, cleared, connect, max_connect_tries,
}

abbrev pub one_more : Option ℕ → Option ℕ
one_more none = none
one_more (some k) = some (suc k)

-- The count of disconnections before the first address, if one arrives.
abbrev pub disconnects_before_ip : List WifiEvent → Option ℕ
disconnects_before_ip [] = none
disconnects_before_ip (sta_start ∷ r) = disconnects_before_ip r
disconnects_before_ip (sta_disconnected ∷ r) = one_more (disconnects_before_ip r)
disconnects_before_ip (got_ip ∷ r) = some 0

-- After so many disconnections an address comes before the fifth.
abbrev pub in_time : ℕ → Option ℕ → Bool
in_time tries none = false
in_time tries (some k) = ltb (tries + k) 5

in_time-one_more : (tries : ℕ) (o : Option ℕ) → in_time tries (one_more o) ≡ in_time (tries + 1) o
in_time-one_more tries none = refl
in_time-one_more tries (some k) = ground arith

in_time-late : (tries : ℕ) (o : Option ℕ) → max_connect_tries ≤ tries → in_time tries o ≡ false
in_time-late tries none h = refl
in_time-late tries (some k) h = ground arith

wait_bits-settled :
    (w : WifiSta) (events : List WifiEvent)
    → (w.connected || w.failed) ≡ true
    → wait_bits w events ≡ w
unfolding wait_bits
wait_bits-settled w [] h = refl
wait_bits-settled w (e ∷ r) h = ground arith

wait_bits-connected :
    (w : WifiSta) (events : List WifiEvent)
    → w.connected ≡ false
    → w.failed ≡ false
    → w.tries < max_connect_tries
    → (wait_bits w events).connected ≡ in_time w.tries (disconnects_before_ip events)
unfolding wait_bits event_handler
wait_bits-connected w [] hc hf ht = hc
wait_bits-connected w (sta_start ∷ r) hc hf ht =
    ground (arith, wait_bits-connected (record w { connects = w.connects + 1 }) r hc hf ht)
wait_bits-connected w (sta_disconnected ∷ r) hc hf ht =
    let again : WifiSta = record w { tries = w.tries + 1; connects = w.connects + 1 } in
    let given_up : WifiSta = record w { tries = w.tries + 1; failed = true } in
    elim (le_or_lt max_connect_tries (w.tries + 1)) [
      | inl h ↦ ground (
        arith,
        in_time-one_more w.tries (disconnects_before_ip r),
        in_time-late (w.tries + 1) (disconnects_before_ip r) h,
        wait_bits-settled given_up r (ground arith),
      )
      | inr h ↦ ground (
        arith,
        in_time-one_more w.tries (disconnects_before_ip r),
        wait_bits-connected again r hc hf h,
      )
    ]
wait_bits-connected w (got_ip ∷ r) hc hf ht =
    ground (arith, wait_bits-settled (record w { tries = 0; connected = true }) r refl)

-- Every step of the bring-up succeeds for this configuration, and an address arrives in time.
abbrev pub Joins : WifiLib → StaConfig → Type 0
Joins lib cfg =
    (lib.init_stack ≡ true)
    × (lib.wifi_init ≡ true)
    × (lib.set_mode ≡ true)
    × (lib.set_config cfg ≡ true)
    × (lib.wifi_start ≡ true)
    × (in_time 0 (disconnects_before_ip (lib.events cfg)) ≡ true)

-- The connection succeeds exactly when the network stack and the driver initialise, the mode and the
-- configuration are set and the station starts, and an address arrives within the wait before the
-- fifth disconnection; the configuration has the first 31 bytes of the network's name and the first
-- 63 of the password, each up to a NUL.
pub connect-connected_iff :
    (lib : WifiLib) (w : WifiSta) (ssid psk : Bytes)
    → (connect lib w ssid psk ≡ connected_result)
      ↔ Joins lib (record { ssid = take 31 (c_str ssid); password = take 63 (c_str psk) })
unfolding connect sta_config
connect-connected_iff lib w ssid psk =
    let cfg : StaConfig = record { ssid = take 31 (c_str ssid); password = take 63 (c_str psk) } in
    let settled = wait_bits-connected (cleared w) (lib.events cfg) refl refl (omega arith) in
    (λ e. ground (arith, settled), λ h. ground (arith, settled))

-- How often a wait calls esp_wifi_connect: once for each start of the station, and at most four
-- times for disconnections.
pub starts : List WifiEvent → ℕ
starts [] = 0
starts (sta_start ∷ r) = suc (starts r)
starts (sta_disconnected ∷ r) = starts r
starts (got_ip ∷ r) = starts r

wait_bits-connects :
    (w : WifiSta) (events : List WifiEvent)
    → w.tries < max_connect_tries
    → (wait_bits w events).connects + w.tries < w.connects + starts events + max_connect_tries
unfolding wait_bits event_handler starts
wait_bits-connects w [] ht = omega arith
wait_bits-connects w (sta_start ∷ r) ht =
    let again : WifiSta = record w { connects = w.connects + 1 } in
    if_elim
      (λ (t : WifiSta). t.connects + w.tries < w.connects + suc (starts r) + max_connect_tries)
      (w.connected || w.failed) (λ _. omega arith)
      (λ _. omega (arith, wait_bits-connects again r ht))
wait_bits-connects w (sta_disconnected ∷ r) ht =
    let again : WifiSta = record w { tries = w.tries + 1; connects = w.connects + 1 } in
    let given_up : WifiSta = record w { tries = w.tries + 1; failed = true } in
    let Few : WifiSta → Type 0 =
      λ t. t.connects + w.tries < w.connects + starts r + max_connect_tries in
    if_elim Few (w.connected || w.failed) (λ _. omega arith)
      (λ _.
        if_elim (λ (t : WifiSta). Few (wait_bits t r)) (ltb (w.tries + 1) max_connect_tries)
          (λ h.
            omega (arith, wait_bits-connects again r (ltb→lt (w.tries + 1) max_connect_tries h)))
          (λ _. rw (wait_bits-settled given_up r (ground arith)) (omega arith)))
wait_bits-connects w (got_ip ∷ r) ht =
    ground (arith, wait_bits-settled (record w { tries = 0; connected = true }) r refl)

-- From cleared globals, the events of a wait make the driver connect once for each start of the
-- station and at most four times more.
pub connects_bounded :
    (w : WifiSta) (events : List WifiEvent)
    → (wait_bits (cleared w) events).connects ≤ w.connects + starts events + 4
connects_bounded w events = omega (arith, wait_bits-connects (cleared w) events (omega arith))
