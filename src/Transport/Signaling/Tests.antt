-- ===== src/Transport/Signaling/Tests.antt =====
-- A JSON of members and items, a backend that answers, and the theorems applied to them.
use pipecat_voice_assistant.Prelude.{
  ◌≡◌, ◌↔◌, refl, true, Option, none, some, List, [], ◌∷◌, Bytes, if◌then◌else◌, codes, list_eq,
}
use pipecat_voice_assistant.Prelude.Int.{pos}
use pipecat_voice_assistant.Hal.NvsKv.{c_str}
use pipecat_voice_assistant.Hal.HttpsClient.{
  HttpLib, on_connected, on_data, event_cb, event_cbs, request,
}
use pipecat_voice_assistant.Transport.Signaling.{
  JsonLib, Signaling, offer_fields, take_offer, read_offer, read_response, post_offer, send_offer,
  ice_server, ice_servers, read_servers, read_servers_response, fetch_ice_servers,
}
use pipecat_voice_assistant.Transport.Signaling.Answers.{IsAnswer, send_offer-IsAnswer}
use pipecat_voice_assistant.Transport.Signaling.Servers.{
  Picked, offered, ice_request, fetch_ice_servers-Picked,
}

data Json : Type 0 where
  text : Bytes → Json
  item : Bytes → Json
  servers : Json

-- The answer to an offer has the two members; a server has its URL and nothing else.
abbrev member : Option Json → Bytes → Option Json
member none key = none
member (some (text s)) key = none
member (some (item url)) key = if list_eq key (codes "urls") then some (text url) else none
member (some servers) key =
    if list_eq key (codes "iceServers")
    then some servers
    else if list_eq key (codes "sdp")
    then some (text (codes "v=0"))
    else if list_eq key (codes "pc_id")
    then some (text (codes "pc-1"))
    else none

abbrev string_of : Option Json → Option Bytes
string_of none = none
string_of (some (text s)) = some s
string_of (some (item url)) = none
string_of (some servers) = none

abbrev items : Option Json → Option (List (Option Json))
items none = none
items (some (text s)) = none
items (some (item url)) = none
items (some servers) =
    some (some (item (codes "stun:a")) ∷ some (item []) ∷ some (item (codes "turn:b")) ∷ [])

abbrev json : JsonLib
json = record {
  Json = Json;
  parse = λ s. some servers;
  get_object_item = member;
  string_value = string_of;
  array_items = items;
  print_strings = λ members. some (codes "offer");
}

abbrev backend : HttpLib
backend = record {
  init = λ req. true;
  perform = λ req. (on_connected ∷ on_data (codes "json") ∷ [], true, pos 200);
}

abbrev client : Signaling
client = record {
  offer_url = codes "http://b/api/offer";
  ice_url = codes "http://b/ice-servers";
  pc_id = [];
}

accepted :
    (send_offer json backend 8192 client (codes "v=0")).1
    ≡ some (record { remote_sdp = codes "v=0"; pc_id = codes "pc-1" })
unfolding send_offer post_offer read_response read_offer offer_fields take_offer request event_cbs
    event_cb c_str
accepted = refl

two_servers :
    fetch_ice_servers json backend client
    ≡ record { url = codes "stun:a"; username = []; credential = [] }
      ∷ record { url = codes "turn:b"; username = []; credential = [] }
      ∷ []
unfolding fetch_ice_servers read_servers_response read_servers ice_servers ice_server request
    event_cbs event_cb c_str
two_servers = refl

send_offer-IsAnswer_example :
    ((send_offer json backend 8192 client (codes "v=0")).1
      ≡ some (record { remote_sdp = codes "v=0"; pc_id = codes "pc-1" }))
    ↔ IsAnswer json backend 8192 client
        (codes "v=0")
        (record { remote_sdp = codes "v=0"; pc_id = codes "pc-1" })
        (send_offer json backend 8192 client (codes "v=0")).0
send_offer-IsAnswer_example =
    send_offer-IsAnswer json backend 8192 client (codes "v=0")
      (record { remote_sdp = codes "v=0"; pc_id = codes "pc-1" })

fetch_ice_servers-Picked_example :
    Picked json
      (offered json backend (ice_request json client))
      (fetch_ice_servers json backend client)
fetch_ice_servers-Picked_example = fetch_ice_servers-Picked json backend client
