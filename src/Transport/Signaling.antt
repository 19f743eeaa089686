-- ===== src/Transport/Signaling.antt =====
-- The signaling client, firmware/components/pv_transport/src/signaling.cpp. cJSON is the record
-- `JsonLib`; a null pointer among its values is `none`, for which its accessors answer `none`.
mod Urls
mod Answers
mod Servers
mod Tests
use pipecat_voice_assistant.Prelude.{
  ℕ, ◌+◌, ◌/◌, Bool, true, false, not, ◌&&◌, ◌||◌, Option, none, some, List, [], ◌∷◌, ◌++◌, Bytes,
  if◌then◌else◌, ◌==◌, codes,
}
use pipecat_voice_assistant.Prelude.Int.{ℤ, pos, negsuc}
use pipecat_voice_assistant.Hal.NvsKv.{c_str}
use pipecat_voice_assistant.Hal.HttpsClient.{
  HttpLib, HttpRequest, HttpResponse, HttpMethod, http_get, http_post, request,
}

pub record JsonLib : Type 1 where
  pub Json : Type 0
  pub parse : Bytes → Option Json
  -- cJSON_GetObjectItem.
  pub get_object_item : Option Json → Bytes → Option Json
  -- valuestring, where cJSON_IsString.
  pub string_value : Option Json → Option Bytes
  -- The items, where cJSON_IsArray.
  pub array_items : Option Json → Option (List (Option Json))
  -- cJSON_PrintUnformatted of an object of strings.
  pub print_strings : List (Bytes × Bytes) → Option Bytes

pub record Signaling : Type 0 where
  pub offer_url : Bytes
  pub ice_url : Bytes
  pub pc_id : Bytes

pub record OfferResponse : Type 0 where
  pub remote_sdp : Bytes
  pub pc_id : Bytes

pub record IceServer : Type 0 where
  pub url : Bytes
  pub username : Bytes
  pub credential : Bytes

abbrev pub is_slash : ℕ → Bool
is_slash c = c == b'/'

-- The loop over the path's front.
unfoldable pub trim_front : Bytes → Bytes
trim_front [] = []
trim_front (c ∷ r) = let rest = trim_front r in if is_slash c then rest else c ∷ r

abbrev pub trim_onto : ℕ → Bytes → Bytes
trim_onto c [] = if is_slash c then [] else c ∷ []
trim_onto c (d ∷ r) = c ∷ d ∷ r

-- The loop over the base's back.
unfoldable pub trim_back : Bytes → Bytes
trim_back [] = []
trim_back (c ∷ r) = trim_onto c (trim_back r)

unfoldable pub join_url : Bytes → Bytes → Bytes
join_url base path = trim_back base ++ (b'/' ∷ trim_front path)

unfoldable pub signaling_init : Bytes → Signaling
signaling_init base_url = record {
  offer_url = join_url base_url (codes "/api/offer");
  ice_url = join_url base_url (codes "/ice-servers");
  pc_id = [];
}

abbrev pub is_empty : Bytes → Bool
is_empty [] = true
is_empty (c ∷ r) = false

-- `status / 100 == 2`, with C's division.
abbrev pub is_success : ℤ → Bool
is_success (pos n) = n / 100 == 2
is_success (negsuc n) = false

-- Both members of the response as strings, or empty strings.
unfoldable pub offer_fields : Option Bytes → Option Bytes → Option OfferResponse
offer_fields none pc_id = none
offer_fields (some sdp) none = none
offer_fields (some sdp) (some pc_id) = some (record { remote_sdp = sdp; pc_id = pc_id })

unfoldable pub take_offer : Signaling → Option OfferResponse → Signaling × Option OfferResponse
take_offer s none = (s, none)
take_offer s (some out) = (
  record s { pc_id = out.pc_id },
  if is_empty out.pc_id || is_empty out.remote_sdp then none else some out,
)

abbrev pub empty_response : HttpResponse
empty_response = record { status = pos 0; body = [] }

abbrev pub text_of : Option Bytes → Bytes
text_of none = []
text_of (some v) = v

module _ (json : JsonLib) where
  open json use {Json, parse, get_object_item, string_value, array_items, print_strings}

  unfoldable pub read_offer : Signaling → Option Json → Signaling × Option OfferResponse
  read_offer s none = (s, none)
  read_offer s (some root) = take_offer s (
      offer_fields (string_value (get_object_item (some root) (codes "sdp")))
        (string_value (get_object_item (some root) (codes "pc_id"))))

  unfoldable pub read_response : Signaling → Bool × HttpResponse → Signaling × Option OfferResponse
  read_response s (ok, resp) =
      if not ok
      then (s, none)
      else if not (is_success resp.status)
      then (s, none)
      else read_offer s (parse (c_str resp.body))

  unfoldable pub post_offer :
      HttpLib → ℕ → Signaling → Option Bytes → Signaling × Option OfferResponse
  post_offer http cap s none = (s, none)
  post_offer http cap s (some body) = read_response s (
      request http cap empty_response (record {
        url = s.offer_url;
        method = http_post;
        body = body;
        content_type = codes "application/json";
      }))

  unfoldable pub send_offer : HttpLib → ℕ → Signaling → Bytes → Signaling × Option OfferResponse
  send_offer http cap s local_sdp =
      post_offer http cap s
        (print_strings ((codes "type", codes "offer") ∷ (codes "sdp", c_str local_sdp) ∷ []))

  unfoldable pub ice_server : Option Json → IceServer
  ice_server item = record {
    url = text_of (string_value (get_object_item item (codes "urls")));
    username = text_of (string_value (get_object_item item (codes "username")));
    credential = text_of (string_value (get_object_item item (codes "credential")));
  }

  unfoldable pub ice_servers : List (Option Json) → List IceServer
  ice_servers [] = []
  ice_servers (item ∷ r) =
      let s = ice_server item in
      let rest = ice_servers r in if not (is_empty s.url) then s ∷ rest else rest

  abbrev pub servers_of : Option (List (Option Json)) → List IceServer
  servers_of none = []
  servers_of (some items) = ice_servers items

  unfoldable pub read_servers : Option Json → List IceServer
  read_servers none = []
  read_servers (some root) =
      servers_of (array_items (get_object_item (some root) (codes "iceServers")))

  unfoldable pub read_servers_response : Bool × HttpResponse → List IceServer
  read_servers_response (ok, resp) =
      if not ok
      then []
      else if not (is_success resp.status)
      then []
      else read_servers (parse (c_str resp.body))

  unfoldable pub fetch_ice_servers : HttpLib → Signaling → List IceServer
  fetch_ice_servers http s = read_servers_response (
      request http 4096 empty_response
        (record { url = s.ice_url; method = http_get; body = []; content_type = [] }))
