-- ===== src/App/Session/Upload.antt =====
-- The uploader of the wake snapshot, `getWakeSampleUpload` and an iteration of `uploadTask` in
-- session.cpp. The text of the query (printf) is a parameter; whether the task was notified is the
-- input of an iteration.
mod Posted
mod Tests
use pipecat_voice_assistant.Prelude.{
  ℕ, Bool, true, false, Option, none, some, List, ◌++◌, Bytes, codes, if◌then◌else◌, ◌==◌, take,
}
use pipecat_voice_assistant.Prelude.Int.{ℤ}
use pipecat_voice_assistant.App.Session.{Session}
use pipecat_voice_assistant.App.Session.Wav.{make_wav}
use pipecat_voice_assistant.Hal.NvsKv.{c_str}
use pipecat_voice_assistant.Hal.HttpsClient.{HttpLib, HttpRequest, HttpResponse, http_post, request}
use pipecat_voice_assistant.Transport.Signaling.{trim_back, is_success, empty_response}

abbrev pub wake_sample_rate : ℕ
wake_sample_rate = 16000

abbrev pub max_response_bytes : ℕ
max_response_bytes = 1024

-- What is logged of an upload.
pub data UploadResult : Type 0 where
  transport_error bad_status uploaded : UploadResult

-- The WAV of the samples, none where there is no buffer or nothing in it.
unfoldable pub wav_of : Option (List ℤ) → ℕ → Option Bytes
wav_of none len = none
wav_of (some pcm) len = if len == 0 then none else some (make_wav (take len pcm) wake_sample_rate)

-- `wav`, `query` and `seq`.
unfoldable pub get_wake_sample_upload : (Session → Bytes) → Session → Option (Bytes × Bytes × ℕ)
get_wake_sample_upload query s = elim (wav_of s.wake_pcm s.wake_pcm_len) [
  | none ↦ none
  | some wav ↦ some (wav, query s, s.wake_capture_seq)
]

unfoldable pub endpoint : Bytes → Bytes
endpoint backend_url = trim_back backend_url ++ codes "/wake-sample?"

abbrev pub upload_request : Bytes → Bytes → Bytes → HttpRequest
upload_request backend_url wav query = record {
  url = c_str (endpoint backend_url ++ query);
  method = http_post;
  body = wav;
  content_type = codes "audio/wav";
}

unfoldable pub upload_result : Bool × HttpResponse → UploadResult
upload_result (ok, resp) =
    if ok then (if is_success resp.status then uploaded else bad_status) else transport_error

module _ (lib : HttpLib) (backend_url : Bytes) (query : Session → Bytes) where
  unfoldable pub upload : Option (Bytes × Bytes × ℕ) → Option (HttpRequest × UploadResult)
  upload none = none
  upload (some (wav, text, seq)) =
      let req = upload_request backend_url wav text in
      some (req, upload_result (request lib max_response_bytes empty_response req))

  -- The request that an iteration makes, and how it went.
  unfoldable pub upload_step : Bool → Session → Option (HttpRequest × UploadResult)
  upload_step notified s = if notified then upload (get_wake_sample_upload query s) else none
