-- ===== src/Transport/Signaling/Servers.antt =====
-- Which servers a fetch yields.
use mathlib.Core.Path.{subst}
use pipecat_voice_assistant.Prelude.{
  ◌≡◌, ◌≢◌, refl, ap₂, Bool, true, false, not, ◌&&◌, inl, inr, Option, none, some, List, [], ◌∷◌,
  Bytes, if◌then◌else◌, ltb, leb, codes, if_elim, Bool-cases, arith,
}
use pipecat_voice_assistant.Prelude.Int.{ℤ, pos, negsuc}
use pipecat_voice_assistant.Hal.NvsKv.{c_str}
use pipecat_voice_assistant.Hal.HttpsClient.{
  HttpLib, HttpRequest, HttpResponse, http_get, event_cbs, request,
}
use pipecat_voice_assistant.Transport.Signaling.{
  JsonLib, Signaling, IceServer, is_empty, is_success, empty_response, text_of, ice_server,
  ice_servers, servers_of, read_servers, read_servers_response, fetch_ice_servers,
}

abbrev pub or_empty : Option Bytes → Bytes
or_empty none = []
or_empty (some v) = v

text_of-or_empty : (o : Option Bytes) → text_of o ≡ or_empty o
text_of-or_empty none = refl
text_of-or_empty (some v) = refl

not_empty : (s : Bytes) → is_empty s ≡ false → s ≢ []
not_empty [] h = cc
not_empty (c ∷ r) h = λ e. cc

only_empty : (s : Bytes) → is_empty s ≡ true → s ≡ []
only_empty [] h = refl
only_empty (c ∷ r) h = cc

-- A status of 2xx.
abbrev pub is_2xx : ℤ → Bool
is_2xx (pos n) = leb 200 n && ltb n 300
is_2xx (negsuc n) = false

is_success-is_2xx : (status : ℤ) → is_success status ≡ is_2xx status
is_success-is_2xx (pos n) = ground arith
is_success-is_2xx (negsuc n) = refl

module _ (json : JsonLib) where
  open json use {Json, parse, get_object_item, string_value, array_items}

  -- A member of an item that is a string, else the empty string.
  abbrev pub member : Option Json → Bytes → Bytes
  member item name = or_empty (string_value (get_object_item item name))

  -- The servers are those of the items, in their order, whose `urls` is a string that is not empty.
  pub data Picked : List (Option Json) → List IceServer → Type 0 where
    nothing : Picked [] []
    taken :
        {items : List (Option Json)} {servers : List IceServer} (item : Option Json)
        → member item (codes "urls") ≢ []
        → Picked items servers
        → Picked (item ∷ items) (
            record {
              url = member item (codes "urls");
              username = member item (codes "username");
              credential = member item (codes "credential");
            }
            ∷ servers)
    skipped :
        {items : List (Option Json)} {servers : List IceServer} (item : Option Json)
        → member item (codes "urls") ≡ []
        → Picked items servers
        → Picked (item ∷ items) servers

  abbrev server_of : Option Json → IceServer
  server_of item = record {
    url = member item (codes "urls");
    username = member item (codes "username");
    credential = member item (codes "credential");
  }

  text_of-member :
      (item : Option Json) (name : Bytes)
      → text_of (string_value (get_object_item item name)) ≡ member item name
  text_of-member item name = text_of-or_empty (string_value (get_object_item item name))

  ice_server-server_of : (item : Option Json) → ice_server json item ≡ server_of item
  unfolding ice_server
  ice_server-server_of item =
      ap₂
        (λ (names : Bytes × Bytes) (credential : Bytes). record {
          url = names.0;
          username = names.1;
          credential = credential;
        })
        (ap₂ (λ a b. (a, b)) (text_of-member item (codes "urls"))
          (text_of-member item (codes "username")))
        (text_of-member item (codes "credential"))

  ice_servers-Picked : (items : List (Option Json)) → Picked items (ice_servers json items)
  unfolding ice_servers
  ice_servers-Picked [] = nothing
  ice_servers-Picked (item ∷ r) =
      let later = ice_servers-Picked r in
      rw (ice_server-server_of item) (
        if_elim (Picked (item ∷ r)) (not (is_empty (member item (codes "urls"))))
          (λ h. taken item (not_empty _ (ground arith)) later)
          (λ h. skipped item (only_empty _ (ground arith)) later))

  -- The items of the response's array; there are none when the exchange failed, the status is not
  -- 2xx, or the body is no such object.
  abbrev pub items_of : Option (List (Option Json)) → List (Option Json)
  items_of none = []
  items_of (some items) = items

  abbrev pub listed : Option Json → List (Option Json)
  listed none = []
  listed (some root) = items_of (array_items (get_object_item (some root) (codes "iceServers")))

  abbrev read_from : Bool × HttpResponse → List (Option Json)
  read_from (false, resp) = []
  read_from (true, resp) = if is_2xx resp.status then listed (parse (c_str resp.body)) else []

  servers_of-Picked : (o : Option (List (Option Json))) → Picked (items_of o) (servers_of json o)
  servers_of-Picked none = nothing
  servers_of-Picked (some items) = ice_servers-Picked items

  read_servers-Picked : (o : Option Json) → Picked (listed o) (read_servers json o)
  unfolding read_servers
  read_servers-Picked none = nothing
  read_servers-Picked (some root) = servers_of-Picked _

  read_servers_response-Picked :
      (r : Bool × HttpResponse) → Picked (read_from r) (read_servers_response json r)
  unfolding read_servers_response
  read_servers_response-Picked (false, resp) = nothing
  read_servers_response-Picked (true, resp) =
      rw (is_success-is_2xx resp.status) (elim (Bool-cases (is_2xx resp.status)) [
        | inl e ↦ rw e (read_servers-Picked (parse (c_str resp.body)))
        | inr e ↦ rw e nothing
      ])

  -- The exchange that asks for the servers.
  abbrev pub ice_request : Signaling → HttpRequest
  ice_request s = record { url = s.ice_url; method = http_get; body = []; content_type = [] }

  -- The items that an exchange brings, if it could begin and succeeded with a status of 2xx.
  abbrev pub offered : HttpLib → HttpRequest → List (Option Json)
  offered http req =
      let (events, ok, status) = http.perform req in
      if http.init req && ok && is_2xx status
      then listed (parse (c_str (event_cbs 4096 [] events)))
      else []

  read_from-request :
      (http : HttpLib) (req : HttpRequest)
      → read_from (request http 4096 empty_response req) ≡ offered http req
  unfolding request
  read_from-request http req = elim (Bool-cases (http.init req)) [
    | inr e ↦ rw e refl
    | inl e ↦ elim (Bool-cases (http.perform req).1) [
      | inl d ↦ rw (e, d) refl
      | inr d ↦ rw (e, d) refl
    ]
  ]

  -- A fetch yields, in their order, those items of the response's array whose member `urls` is a
  -- string that is not empty, with their user names and credentials; and none when the exchange
  -- failed, its status was not 2xx, or its body is no object with such an array.
  pub fetch_ice_servers-Picked :
      (http : HttpLib) (s : Signaling)
      → Picked (offered http (ice_request s)) (fetch_ice_servers json http s)
  unfolding fetch_ice_servers
  fetch_ice_servers-Picked http s =
      subst (λ (items : List (Option Json)). Picked items (fetch_ice_servers json http s))
        (read_from-request http (ice_request s))
        (read_servers_response-Picked (request http 4096 empty_response (ice_request s)))
