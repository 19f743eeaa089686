-- ===== src/App/WebServer/Console.antt =====
-- The handlers of web_server.cpp that set the LED and the host name. A request is what ESP-IDF's
-- parsers and `atoi` make of its query; a handler is only reached once `start` has set the context.
use pipecat_voice_assistant.Prelude.{
  ℕ, ◌-◌, Bool, true, false, not, ◌&&◌, ◌||◌, Option, none, some, [], ◌∷◌, Bytes, if◌then◌else◌,
  ltb, leb, ◌==◌, length, codes,
}
use pipecat_voice_assistant.Prelude.Int.{ℤ, pos, ltb_ℤ, magnitude}
use pipecat_voice_assistant.Domain.LedFsm.{LedState}
use pipecat_voice_assistant.App.Ui.{
  Ui, Effect, effect_off, breath, rainbow, solid, doa, override_effect, override_state, resume_auto,
}
use pipecat_voice_assistant.Hal.NvsKv.{NvsLib, c_str, set_str, commit}
use pipecat_voice_assistant.Boot.{nvs_namespace, nvs_key_hostname}

pub record Query : Type 0 where
  -- httpd_req_get_url_query_str into a buffer of that size.
  pub url_query_str : ℕ → Option Bytes
  -- httpd_query_key_value of a query and a key into a buffer of that size.
  pub query_key_value : Bytes → Bytes → ℕ → Option Bytes
  pub atoi : Bytes → ℤ

abbrev pub hold_ms : ℤ
hold_ms = pos 60000

unfoldable pub clampi : ℤ → ℤ → ℤ → ℤ
clampi x lo hi = if ltb_ℤ x lo then lo else if ltb_ℤ hi x then hi else x

abbrev pub value_in : Query → Option Bytes → Bytes → ℕ → Option Bytes
value_in req none key size = none
value_in req (some q) key size = req.query_key_value q key size

abbrev pub number_or : Query → Option Bytes → ℤ → ℤ
number_or req none default = default
number_or req (some v) default = req.atoi v

unfoldable pub query_int : Query → Bytes → ℤ → ℤ
query_int req key default = number_or req (value_in req (req.url_query_str 160) key 16) default

-- The loop of valid_hostname from index i on.
unfoldable pub valid_from : ℕ → ℕ → Bytes → Bool
valid_from n i [] = true
valid_from n i (c ∷ r) =
    let ok = (leb b'a' c && leb c b'z') || (leb b'0' c && leb c b'9') || (c == b'-') in
    let rest = valid_from n (ℕ.suc i) r in
    if not ok then false else if (c == b'-') && ((i == 0) || (i == n - 1)) then false else rest

unfoldable pub valid_hostname : Bytes → Bool
valid_hostname s = let n = length s in if ltb n 1 || ltb 32 n then false else valid_from n 0 s

-- `static_cast<hal::Effect>` and `static_cast<domain::LedState>`.
abbrev pub to_effect : ℕ → Effect
to_effect e =
    if e == 0
    then effect_off
    else if e == 1
    then breath
    else if e == 2
    then rainbow
    else if e == 3
    then solid
    else doa

abbrev pub to_led_state : ℕ → LedState
to_led_state s =
    if s == 0
    then LedState.off
    else if s == 1
    then LedState.provisioning
    else if s == 2
    then LedState.connecting
    else if s == 3
    then LedState.negotiating
    else if s == 4
    then LedState.listening
    else if s == 5
    then LedState.talking
    else if s == 6
    then LedState.thinking
    else if s == 7
    then LedState.wake_ack
    else if s == 8
    then LedState.speaking
    else if s == 9
    then LedState.muted
    else LedState.error

unfoldable pub handle_effect : Query → Ui → ℤ → Ui
handle_effect req ui now =
    let e = clampi (query_int req (codes "e") (pos 3)) (pos 0) (pos 4) in
    let r = clampi (query_int req (codes "r") (pos 0)) (pos 0) (pos 255) in
    let g = clampi (query_int req (codes "g") (pos 0)) (pos 0) (pos 255) in
    let b = clampi (query_int req (codes "b") (pos 0)) (pos 0) (pos 255) in
    let br = clampi (query_int req (codes "br") (pos 96)) (pos 0) (pos 255) in
    let sp = clampi (query_int req (codes "sp") (pos 64)) (pos 0) (pos 255) in
    override_effect ui (to_effect (magnitude e))
      (record { r = magnitude r; g = magnitude g; b = magnitude b }) (magnitude br) (magnitude sp)
      hold_ms now

unfoldable pub handle_state : Query → Ui → ℤ → Ui
handle_state req ui now =
    let s = clampi (query_int req (codes "s") (pos 0)) (pos 0) (pos 10) in
    override_state ui (to_led_state (magnitude s)) hold_ms now

unfoldable pub handle_resume : Ui → Ui
handle_resume ui = resume_auto ui

-- What handleHostname touches: the name that mDNS answers to, and the store.
pub record Named (Flash : Type 0) : Type 0 where
  pub mdns_hostname : Bytes
  pub flash : Flash

pub data HostnameResponse : Type 0 where
  hostname_ok bad_hostname : HostnameResponse

-- `mdns_set` is whether mdns_hostname_set of a name succeeds; Mdns::setHostname ignores it.
module _ (lib : NvsLib) (mdns_set : Bytes → Bool) where
  open lib use {Flash, nvs_open}

  -- From Mdns::setHostname on.
  unfoldable pub set_hostname : Named Flash → Bytes → Named Flash
  set_hostname d name = record {
    mdns_hostname = if mdns_set (c_str name) then c_str name else d.mdns_hostname;
    flash =
        if nvs_open d.flash nvs_namespace
        then (commit lib (set_str lib d.flash nvs_namespace nvs_key_hostname name).0).0
        else d.flash;
  }

  unfoldable pub answer_hostname : Named Flash → Option Bytes → Named Flash × HostnameResponse
  answer_hostname d none = (d, bad_hostname)
  answer_hostname d (some name) =
      if valid_hostname name then (set_hostname d name, hostname_ok) else (d, bad_hostname)

  unfoldable pub handle_hostname : Query → Named Flash → Named Flash × HostnameResponse
  handle_hostname req d = answer_hostname d (value_in req (req.url_query_str 96) (codes "name") 40)
