-- ===== src/Transport/Peer/Tests.antt =====
-- A peer that is used and destroyed, and the theorems applied to it.
use pipecat_voice_assistant.Prelude.{◌≡◌, refl, none, some, List, [], ◌∷◌, Bytes}
use pipecat_voice_assistant.Prelude.Int.{ℤ, pos}
use pipecat_voice_assistant.Transport.Peer.{
  PeerIceServer, opened, connection_loop, set_remote_description, publish_answers, tick,
}
use pipecat_voice_assistant.Transport.Peer.Latest.{tick-publish_answers}
use pipecat_voice_assistant.Transport.Peer.Released.{Use, publish, ticks, sends, closes, Released}

abbrev sent : Bytes → ℤ
sent _ = pos 0

abbrev server : PeerIceServer
server = record { url = (b's' ∷ []); username = []; credential = [] }

abbrev uses : List Use
uses =
    publish (0 ∷ [])
    ∷ publish (1 ∷ [])
    ∷ ticks ((2 ∷ []) ∷ [])
    ∷ sends (some (1 ∷ []))
    ∷ closes
    ∷ publish (3 ∷ [])
    ∷ closes
    ∷ []

tick-publish_answers_example :
    ((tick ((2 ∷ []) ∷ []) (publish_answers ((1 ∷ []) ∷ []) (opened []))).calls
      ≡ set_remote_description (2 ∷ []) ∷ connection_loop ∷ (opened []).calls)
    × ((tick ((2 ∷ []) ∷ []) (publish_answers ((1 ∷ []) ∷ []) (opened []))).pending_answer ≡ none)
tick-publish_answers_example = tick-publish_answers ((1 ∷ []) ∷ []) ((2 ∷ []) ∷ []) (opened []) refl
