-- ===== src/Hal/HttpsClient.antt =====
-- The HTTPS client, https_client.cpp: the capped response body, and the host that is resolved ahead.
-- ESP-IDF's client is the record `HttpLib`: whether it initialises, and for a request the events of
-- `perform`, its status ESP_OK and the HTTP status. The timings are logged only and left out.
mod Capped
mod Host
mod Tests
use pipecat_voice_assistant.Prelude.{
  ℕ, ◌+◌, ◌-◌, Bool, true, false, not, ◌&&◌, ◌||◌, Option, none, some, List, [], ◌∷◌, ◌++◌, Bytes,
  if◌then◌else◌, ltb, ◌==◌, length, take, drop,
}
use pipecat_voice_assistant.Prelude.Int.{ℤ, pos}

pub data HttpEvent : Type 0 where
  on_connected on_other : HttpEvent
  on_data : Bytes → HttpEvent

pub data HttpMethod : Type 0 where
  http_get http_post : HttpMethod

-- The content type is empty where it is a null pointer.
pub record HttpRequest : Type 0 where
  pub url : Bytes
  pub method : HttpMethod
  pub body : Bytes
  pub content_type : Bytes

pub record HttpResponse : Type 0 where
  pub status : ℤ
  pub body : Bytes

pub record HttpLib : Type 0 where
  pub init : HttpRequest → Bool
  pub perform : HttpRequest → List HttpEvent × Bool × ℤ

-- The body after an event; a chunk over the cap is refused.
unfoldable pub event_cb : ℕ → Bytes → HttpEvent → Bytes
event_cb cap body on_connected = body
event_cb cap body on_other = body
event_cb cap body (on_data chunk) =
    if ltb cap (length body + length chunk) then body else body ++ chunk

unfoldable pub event_cbs : ℕ → Bytes → List HttpEvent → Bytes
event_cbs cap body [] = body
event_cbs cap body (e ∷ r) = event_cbs cap (event_cb cap body e) r

-- The error, none being ESP_OK, and `out`; the status of a client that did not initialise stays as
-- it was.
unfoldable pub request : HttpLib → ℕ → HttpResponse → HttpRequest → Bool × HttpResponse
request lib cap out req =
    let (events, ok, status) = lib.perform req in
    if not (lib.init req)
    then (false, record out { body = [] })
    else (ok, record { status = status; body = event_cbs cap [] events })

-- `u.find("://")`.
unfoldable pub find_scheme_end : Bytes → Option ℕ
find_scheme_end [] = none
find_scheme_end (a ∷ []) = none
find_scheme_end (a ∷ b ∷ []) = none
find_scheme_end (a ∷ b ∷ c ∷ r) =
    let later = find_scheme_end (b ∷ c ∷ r) in
    if (a == b':') && ((b == b'/') && (c == b'/'))
    then some 0
    else elim later [ none ↦ none | some i ↦ some (i + 1) ]

abbrev pub start_of : Option ℕ → ℕ
start_of none = 0
start_of (some p) = p + 3

-- Up to the first of `:` and `/`.
unfoldable pub until_delimiter : Bytes → Bytes
until_delimiter [] = []
until_delimiter (c ∷ r) =
    let rest = until_delimiter r in if (c == b':') || (c == b'/') then [] else c ∷ rest

unfoldable pub host_from_url : Bytes → Bytes
host_from_url url = until_delimiter (drop (start_of (find_scheme_end url)) url)
