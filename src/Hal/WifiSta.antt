-- ===== src/Hal/WifiSta.antt =====
-- The Wi-Fi client, wifi_sta.cpp: the event handler over its two globals and the event group, and
-- `connect`. The steps of ESP-IDF's driver are the record `WifiLib`: whether each call of the
-- bring-up succeeds, and the events that arrive for a configuration before the 30 s wait is over.
mod Attempts
mod Tests
use pipecat_voice_assistant.Prelude.{
  ℕ, suc, ◌+◌, Bool, true, false, not, ◌&&◌, ◌||◌, List, [], ◌∷◌, if◌then◌else◌, ltb, Bytes, take,
}
use pipecat_voice_assistant.Hal.NvsKv.{c_str}

pub data WifiEvent : Type 0 where
  sta_start sta_disconnected got_ip : WifiEvent

-- `g_tries`, the two bits of `g_events`, and how often esp_wifi_connect was called.
pub record WifiSta : Type 0 where
  pub tries : ℕ
  pub connected : Bool
  pub failed : Bool
  pub connects : ℕ

pub data ConnectResult : Type 0 where
  connected_result auth_failed init_failed : ConnectResult

abbrev pub max_connect_tries : ℕ
max_connect_tries = 5

-- `cfg.sta.ssid` and `cfg.sta.password`, whose sizes are 32 and 64, up to the terminator.
pub record StaConfig : Type 0 where
  pub ssid : Bytes
  pub password : Bytes

unfoldable pub event_handler : WifiSta → WifiEvent → WifiSta
event_handler w sta_start = record w { connects = w.connects + 1 }
event_handler w sta_disconnected =
    let w' = record w { tries = w.tries + 1 } in
    if ltb w'.tries max_connect_tries
    then record w' { connects = w.connects + 1 }
    else record w' { failed = true }
event_handler w got_ip = record w { tries = 0; connected = true }

-- xEventGroupWaitBits on either bit: the events are handled until one is set or time is over.
unfoldable pub wait_bits : WifiSta → List WifiEvent → WifiSta
wait_bits w [] = w
wait_bits w (e ∷ r) =
    let later = wait_bits (event_handler w e) r in if w.connected || w.failed then w else later

unfoldable pub sta_config : Bytes → Bytes → StaConfig
sta_config ssid psk = record { ssid = take 31 (c_str ssid); password = take 63 (c_str psk) }

-- `g_tries = 0` and xEventGroupClearBits.
abbrev pub cleared : WifiSta → WifiSta
cleared w = record w { tries = 0; connected = false; failed = false }

pub record WifiLib : Type 0 where
  pub init_stack : Bool
  pub wifi_init : Bool
  pub set_mode : Bool
  pub set_config : StaConfig → Bool
  pub wifi_start : Bool
  pub events : StaConfig → List WifiEvent

module _ (lib : WifiLib) where
  open lib use {init_stack, wifi_init, set_mode, set_config, wifi_start, events}

  abbrev pub brought_up : StaConfig → Bool
  brought_up cfg = init_stack && wifi_init && set_mode && set_config cfg && wifi_start

  unfoldable pub connect : WifiSta → Bytes → Bytes → ConnectResult
  unfolding sta_config
  connect w ssid psk =
      let cfg = sta_config ssid psk in
      let w' = wait_bits (cleared w) (events cfg) in
      if not (brought_up cfg)
      then init_failed
      else if w'.connected
      then connected_result
      else auth_failed
