-- ===== src/App/Session/Upload/Tests.antt =====
-- A snapshot of two samples, and the theorem applied to it.
use pipecat_voice_assistant.Prelude.{◌≡◌, refl, true, none, some, [], ◌∷◌, Bytes, replicate, codes}
use pipecat_voice_assistant.Prelude.Int.{ℤ, pos}
use pipecat_voice_assistant.App.DropRing.{DropRing}
use pipecat_voice_assistant.App.DropRing.Wrap.{read}
use pipecat_voice_assistant.App.DropRing.Contents.{contents}
use pipecat_voice_assistant.App.Session.{Session}
use pipecat_voice_assistant.App.Session.Capture.{CaptureLocals}
use pipecat_voice_assistant.App.Session.Tests.{idle_session}
use pipecat_voice_assistant.App.Session.Upload.{endpoint}
use pipecat_voice_assistant.Hal.HttpsClient.{HttpLib}
use pipecat_voice_assistant.Transport.Signaling.{trim_back}

abbrev ring : DropRing ℤ
ring = record { slots = replicate 48000 (pos 5); head = 0; count = 2 }

ring-contents : contents 47999 (pos 0) ring ≡ pos 5 ∷ pos 5 ∷ []
unfolding contents read
ring-contents = refl

abbrev locals : CaptureLocals
locals = record { ring = none; cap_ring = some ring }

abbrev session : Session
session = record idle_session { wake_pcm = some [] }

abbrev lib : HttpLib
lib = record { init = λ _. true; perform = λ _. ([], true, pos 200) }

abbrev url : Bytes
url = codes "https://a//"

endpoint_trimmed : endpoint url ≡ codes "https://a/wake-sample?"
unfolding endpoint trim_back
endpoint_trimmed = refl
