-- ===== src/Boot.antt =====
-- The firmware's entry, firmware/main/main.cpp: which mode a boot ends in and what it leaves in the
-- settings store. `BootLib` has what one boot meets: the Wi-Fi driver with its network, and whether
-- the portal and the peripherals come up. What follows in `decideAndRun` once these are up composes
-- the session and the web console, whose components are modelled apart.
pub mod Stored
mod SavedPage
mod Provisioning
pub mod Tests
use pipecat_voice_assistant.Prelude.{
  Bool, true, false, not, ◌&&◌, ◌||◌, Option, none, some, List, [], ◌∷◌, if◌then◌else◌, Bytes,
  codes,
}
use pipecat_voice_assistant.Hal.NvsKv.{
  NvsLib, EspErr, esp_ok, esp_err_nvs_no_free_pages, esp_err_nvs_new_version_found, esp_err_other,
  init_partition, get_str, set_str, erase, commit,
}
use pipecat_voice_assistant.Hal.WifiSta.{
  WifiSta, WifiLib, ConnectResult, connected_result, auth_failed, init_failed, connect,
}
use pipecat_voice_assistant.Hal.SoftapPortal.{WifiCredentials}

abbrev pub nvs_namespace : Bytes
nvs_namespace = codes "pipecat-cfg"

abbrev pub nvs_key_ssid : Bytes
nvs_key_ssid = codes "wifi_ssid"

abbrev pub nvs_key_psk : Bytes
nvs_key_psk = codes "wifi_psk"

abbrev pub nvs_key_backend : Bytes
nvs_key_backend = codes "backend_url"

abbrev pub nvs_key_hostname : Bytes
nvs_key_hostname = codes "hostname"

abbrev pub default_hostname : Bytes
default_hostname = codes "pipecat-voice"

abbrev pub is_empty : Bytes → Bool
is_empty [] = true
is_empty (c ∷ r) = false

pub record BootLib : Type 0 where
  pub wifi : WifiLib
  pub portal_starts : Bool
  pub i2c_bus : Bool
  pub ring : Bool
  pub audio : Bool
  pub button : Bool

-- The locals of decideAndRun.
pub record Config : Type 0 where
  pub ssid : Bytes
  pub psk : Bytes
  pub backend : Bytes
  pub hostname : Bytes

-- How a boot goes on: it restarts, waits in the portal, or runs the session.
pub data Boot (Flash : Type 0) : Type 0 where
  restarts : Flash → Boot Flash
  provisions : Flash → Boot Flash
  runs : Flash → Config → Boot Flash

-- `hostname = …` and `psk = …` where the store has a value.
abbrev pub stored_or : Bytes → Option Bytes → Bytes
stored_or default none = default
stored_or default (some v) = v

abbrev pub nonempty_or : Bytes → Option Bytes → Bytes
nonempty_or default none = default
nonempty_or default (some v) = if is_empty v then default else v

-- The test of ssid and backend, and the values that are moved out.
unfoldable pub credentials_of : Option Bytes → Option Bytes → Option Bytes → Bytes → Config
credentials_of none b p hostname = record { ssid = []; psk = []; backend = []; hostname = hostname }
credentials_of (some s) none p hostname = record {
  ssid = [];
  psk = [];
  backend = [];
  hostname = hostname;
}
credentials_of (some s) (some b) p hostname =
    if not (is_empty s) && not (is_empty b)
    then record { ssid = s; psk = stored_or [] p; backend = b; hostname = hostname }
    else record { ssid = []; psk = []; backend = []; hostname = hostname }

module _ (lib : NvsLib) where
  open lib use {Flash, nvs_open, restart}

  unfoldable pub load_config : Flash → Config
  load_config flash =
      let get = get_str lib flash nvs_namespace in
      if nvs_open flash nvs_namespace
      then (credentials_of (get nvs_key_ssid) (get nvs_key_backend) (get nvs_key_psk)
          (nonempty_or default_hostname (get nvs_key_hostname)))
      else record { ssid = []; psk = []; backend = []; hostname = default_hostname }

  -- The callback of setOnCredentials, and whether it restarts.
  unfoldable pub on_credentials : Flash → WifiCredentials → Flash × Bool
  on_credentials flash c =
      let f1 = (set_str lib flash nvs_namespace nvs_key_ssid c.ssid).0 in
      let f2 = (set_str lib f1 nvs_namespace nvs_key_psk c.psk).0 in
      let f3 = (set_str lib f2 nvs_namespace nvs_key_backend c.backend_url).0 in
      if nvs_open flash nvs_namespace then (restart (commit lib f3).0, true) else (flash, false)

  -- What a failed connection and a long press of the button both do.
  unfoldable pub wipe_and_restart : Flash → Flash
  wipe_and_restart flash =
      let f1 = (erase lib flash nvs_namespace nvs_key_ssid).0 in
      let f2 = (erase lib f1 nvs_namespace nvs_key_psk).0 in
      if nvs_open flash nvs_namespace then restart (commit lib f2).0 else restart flash

  unfoldable pub run_provisioning : BootLib → Flash → Boot Flash
  run_provisioning b flash = if b.portal_starts then provisions flash else restarts (restart flash)

  -- From the connection to the peripherals.
  unfoldable pub bring_up : BootLib → Flash → Config → ConnectResult → Boot Flash
  bring_up b flash c init_failed = restarts (wipe_and_restart flash)
  bring_up b flash c auth_failed = restarts (wipe_and_restart flash)
  bring_up b flash c connected_result =
      if not b.i2c_bus
      then restarts (restart flash)
      else if not b.ring || not b.audio || not b.button
      then restarts (restart flash)
      else runs flash c

  unfoldable pub connect_and_run : BootLib → WifiSta → Flash → Config → Boot Flash
  connect_and_run b w flash c = bring_up b flash c (connect b.wifi w c.ssid c.psk)

  unfoldable pub after_init : BootLib → WifiSta → Flash → EspErr → Boot Flash
  after_init b w flash esp_ok =
      let c = load_config flash in
      if is_empty c.ssid || is_empty c.backend
      then run_provisioning b flash
      else connect_and_run b w flash c
  after_init b w flash esp_err_nvs_no_free_pages = restarts (restart flash)
  after_init b w flash esp_err_nvs_new_version_found = restarts (restart flash)
  after_init b w flash esp_err_other = restarts (restart flash)

  unfoldable pub decide_and_run : BootLib → WifiSta → Flash → Boot Flash
  decide_and_run b w flash =
      let (flash', err) = init_partition lib flash in after_init b w flash' err
