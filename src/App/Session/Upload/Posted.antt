-- ===== src/App/Session/Upload/Posted.antt =====
-- What an upload posts after a wake snapshot.
use pipecat_voice_assistant.Prelude.{Option, none, some, List, Bytes}
use pipecat_voice_assistant.Prelude.Int.{ℤ}
use pipecat_voice_assistant.App.DropRing.{DropRing}
use pipecat_voice_assistant.App.Session.{Session}
use pipecat_voice_assistant.App.Session.Wav.{IsWav}
use pipecat_voice_assistant.App.Session.Upload.{UploadResult, wake_sample_rate}
use pipecat_voice_assistant.Hal.HttpsClient.{HttpRequest}

-- A request was made whose body is a WAV of these samples.
abbrev pub Posts : List ℤ → Option (HttpRequest × UploadResult) → Type 0
Posts pcm none = ⊥
Posts pcm (some (req, _)) = IsWav req.body wake_sample_rate pcm

abbrev HasWav : List ℤ → Option Bytes → Type 0
HasWav pcm none = ⊥
HasWav pcm (some w) = IsWav w wake_sample_rate pcm
