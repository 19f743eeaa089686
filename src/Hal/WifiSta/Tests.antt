-- ===== src/Hal/WifiSta/Tests.antt =====
-- A network that answers on the third try, one that never does, and the theorems applied to them.
use pipecat_voice_assistant.Prelude.{
  ◌≡◌, ◌↔◌, refl, true, false, List, [], ◌∷◌, codes, length, replicate,
}
use pipecat_voice_assistant.Hal.NvsKv.{c_str}
use pipecat_voice_assistant.Hal.WifiSta.{
  WifiEvent, sta_start, sta_disconnected, got_ip, WifiSta, WifiLib, connect, connected_result,
  auth_failed, event_handler, wait_bits, sta_config,
}
use pipecat_voice_assistant.Hal.WifiSta.Attempts.{Joins, connect-connected_iff}

abbrev fresh : WifiSta
fresh = record { tries = 0; connected = false; failed = false; connects = 0 }

abbrev third_try : List WifiEvent
third_try = sta_start ∷ sta_disconnected ∷ sta_disconnected ∷ got_ip ∷ []

abbrev refused : List WifiEvent
refused = sta_start ∷ replicate 6 sta_disconnected

abbrev network : List WifiEvent → WifiLib
network events = record {
  init_stack = true;
  wifi_init = true;
  set_mode = true;
  set_config = λ c. true;
  wifi_start = true;
  events = λ c. events;
}

third_try_connects :
    connect (network third_try) fresh (codes "home") (codes "secret") ≡ connected_result
unfolding connect wait_bits event_handler
third_try_connects = refl

refused_fails : connect (network refused) fresh (codes "home") (codes "wrong") ≡ auth_failed
unfolding connect wait_bits event_handler
refused_fails = refl

refused_connects : (wait_bits fresh refused).connects ≡ 5
unfolding wait_bits event_handler
refused_connects = refl

-- A network name of 32 bytes, which 802.11 allows, is cut to 31.
cut_ssid : length (sta_config (replicate 32 b'a') (codes "secret")).ssid ≡ 31
unfolding sta_config c_str
cut_ssid = refl

connect-connected_iff_example :
    (connect (network third_try) fresh (codes "home") (codes "secret") ≡ connected_result)
    ↔ Joins (network third_try) (record { ssid = codes "home"; password = codes "secret" })
unfolding c_str
connect-connected_iff_example =
    connect-connected_iff (network third_try) fresh (codes "home") (codes "secret")
