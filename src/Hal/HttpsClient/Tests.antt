-- ===== src/Hal/HttpsClient/Tests.antt =====
-- A response of two chunks under a small cap, and the theorem applied to it.
use pipecat_voice_assistant.Prelude.{◌≤◌, ◌≡◌, refl, List, [], ◌∷◌, codes, length}
use pipecat_voice_assistant.Hal.HttpsClient.{
  HttpEvent, on_connected, on_data, event_cb, event_cbs, find_scheme_end, until_delimiter,
  host_from_url,
}
use pipecat_voice_assistant.Hal.HttpsClient.Capped.{arrived, event_cbs-capped}

abbrev events : List HttpEvent
events = on_connected ∷ on_data (codes "abc") ∷ on_data (codes "defg") ∷ on_data (codes "h") ∷ []

-- A chunk over the cap leaves a gap: the smaller one behind it is appended.
gap : event_cbs 5 [] events ≡ codes "abch"
unfolding event_cbs event_cb
gap = refl

host : host_from_url (codes "https://bot.example:8443/api") ≡ codes "bot.example"
unfolding host_from_url find_scheme_end until_delimiter
host = refl

event_cbs-capped_example :
    (length (event_cbs 8 [] events) ≤ 8)
    × (length (arrived events) ≤ 8 → event_cbs 8 [] events ≡ arrived events)
event_cbs-capped_example = event_cbs-capped 8 events
