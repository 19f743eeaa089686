-- ===== src/Hal/SoftapPortal.antt =====
-- The provisioning portal, softap_portal.cpp: the receiving of a body and the handler of POST /save.
-- What httpd_req_recv returns, call by call, is a list; the list's end is a request on which the
-- handler still waits. Bringing up the access point is ESP-IDF's.
pub mod Receiving
mod Tests
use pipecat_voice_assistant.Prelude.{
  ℕ, ◌-◌, ◌%◌, ◌^◌, Bool, true, false, ◌||◌, Option, none, some, List, [], ◌∷◌, ◌++◌, Bytes,
  if◌then◌else◌, ltb, leb, length, codes,
}
use pipecat_voice_assistant.Prelude.Int.{ℤ, pos, negsuc, ltb_ℤ, is_negative}
use pipecat_voice_assistant.Domain.FormUrlencoded.{form_get}

-- A call of httpd_req_recv: HTTPD_SOCK_ERR_TIMEOUT, another negative result, or bytes (none of them
-- is the result 0).
pub data Recv : Type 0 where
  timeout error : Recv
  got : Bytes → Recv

pub data Received : Type 0 where
  whole : Bytes → Received
  incomplete waiting : Received

-- The loop `while (total < remaining)`, with what the body holds.
unfoldable pub receive : ℕ → Bytes → List Recv → Received
receive remaining body [] = if ltb (length body) remaining then waiting else whole body
receive remaining body (timeout ∷ r) =
    let later = receive remaining body r in
    if ltb (length body) remaining then later else whole body
receive remaining body (error ∷ r) = if ltb (length body) remaining then incomplete else whole body
receive remaining body (got [] ∷ r) = if ltb (length body) remaining then incomplete else whole body
receive remaining body (got (c ∷ cs) ∷ r) =
    let later = receive remaining (body ++ (c ∷ cs)) r in
    if ltb (length body) remaining then later else whole body

-- hal::WifiCredentials.
pub record WifiCredentials : Type 0 where
  pub ssid : Bytes
  pub psk : Bytes
  pub backend_url : Bytes

-- The handler's answers: the three refusals, the page that confirms, a call of `on_creds` that
-- restarted the device, and a request that is still waited on.
pub data SaveResponse : Type 0 where
  payload_too_large incomplete_form missing_field saved restarted still_waiting : SaveResponse

abbrev pub max_body_bytes : ℕ
max_body_bytes = 512

-- The int of a size_t.
abbrev pub to_int : ℕ → ℤ
to_int n = if ltb n (2 ^ 31) then pos n else negsuc (2 ^ 32 - n - 1)

abbrev pub value_or_empty : Option Bytes → Bytes
value_or_empty none = []
value_or_empty (some v) = v

abbrev pub too_large : ℕ → Bool
too_large content_len =
    let remaining = to_int content_len in
    is_negative remaining || ltb_ℤ (pos max_body_bytes) remaining

-- `if (!ssid || !backend)`, and the credentials.
unfoldable pub credentials : Option Bytes → Option Bytes → Option Bytes → Option WifiCredentials
credentials none backend psk = none
credentials (some ssid) none psk = none
credentials (some ssid) (some backend) psk =
    some (record { ssid = ssid; psk = value_or_empty psk; backend_url = backend })

-- `on_creds` says whether it restarted the device, which it then does not return from; there is none
-- before setOnCredentials.
module _ {ℓ} {S : Type ℓ} (on_creds : Option (S → WifiCredentials → S × Bool)) where
  -- `if (g_impl->on_creds)`.
  unfoldable pub tell : Option (S → WifiCredentials → S × Bool) → S → WifiCredentials → S × Bool
  tell none s c = (s, false)
  tell (some told) s c = told s c

  unfoldable pub save_credentials : S → Option WifiCredentials → S × SaveResponse
  save_credentials s none = (s, missing_field)
  save_credentials s (some c) =
      let (s', restarts) = tell on_creds s c in (s', if restarts then restarted else saved)

  unfoldable pub save_received : S → Received → S × SaveResponse
  save_received s incomplete = (s, incomplete_form)
  save_received s waiting = (s, still_waiting)
  save_received s (whole body) = save_credentials s (
      credentials (form_get body (codes "ssid")) (form_get body (codes "backend"))
        (form_get body (codes "psk")))

  unfoldable pub handle_save : S → ℕ → List Recv → S × SaveResponse
  handle_save s content_len chunks =
      if too_large content_len
      then (s, payload_too_large)
      else save_received s (receive content_len [] chunks)
