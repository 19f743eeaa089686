-- ===== src/Hal/SoftapPortal/Tests.antt =====
-- A form that arrives in two pieces, and the theorem applied to it.
use pipecat_voice_assistant.Prelude.{
  ◌≤◌, ◌<◌, ◌≡◌, refl, Bool, true, some, List, [], ◌∷◌, Bytes, codes, length, arith,
}
use pipecat_voice_assistant.Domain.FormUrlencoded.{form_get}
use pipecat_voice_assistant.Hal.SoftapPortal.{
  Recv, timeout, error, got, whole, incomplete, receive, WifiCredentials, payload_too_large,
  handle_save,
}
use pipecat_voice_assistant.Hal.SoftapPortal.Receiving.{
  Delivers, done, late, piece, Answered, handle_save-Answered,
}

abbrev form : Bytes
form = codes "ssid=home&psk=my+pw&backend=http%3A%2F%2Fb"

abbrev chunks : List Recv
chunks = got (codes "ssid=home&psk=my+") ∷ timeout ∷ got (codes "pw&backend=http%3A%2F%2Fb") ∷ []

received : receive (length form) [] chunks ≡ whole form
unfolding receive
received = refl

cut_off : receive (length form) [] (got (codes "ssid=home") ∷ error ∷ []) ≡ incomplete
unfolding receive
cut_off = refl

chunks-Delivers : Delivers chunks form
chunks-Delivers = piece _ _ (late (piece _ _ done))

-- A callback that collects the credentials and restarts.
abbrev collect : List WifiCredentials → WifiCredentials → List WifiCredentials × Bool
collect s c = (c ∷ s, true)

handle_save-Answered_example :
    (length form ≤ 512
      → Answered
          (some collect)
          []
          (form_get form (codes "ssid"))
          (form_get form (codes "backend"))
          (form_get form (codes "psk"))
          (handle_save (some collect) [] (length form) chunks))
    × (512 < length form
        → handle_save (some collect) [] (length form) chunks ≡ ([], payload_too_large))
handle_save-Answered_example =
    handle_save-Answered (some collect) [] chunks form chunks-Delivers (omega arith)
