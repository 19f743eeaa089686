-- ===== src/Domain/FormUrlencoded/Tests.antt =====
-- The theorems on the form parser at a provisioning request.
use pipecat_voice_assistant.Prelude.{◌≡◌, refl, none, some, Bytes, codes, arith}
use pipecat_voice_assistant.Domain.FormUrlencoded.{hex_value, escaped, url_decode, form_get}
use pipecat_voice_assistant.Domain.FormUrlencoded.Decode.{
  done, plain, space, escape, url_decode-Encodes,
}
use pipecat_voice_assistant.Domain.FormUrlencoded.Lookup.{fields, first_value, form_get-first_value}

abbrev body : Bytes
body = codes "ssid=My+Net%21&psk=100%&psk=x"

finds_ssid : form_get body (codes "ssid") ≡ some (codes "My Net!")
unfolding form_get url_decode hex_value escaped
finds_ssid = refl

finds_first_psk : form_get body (codes "psk") ≡ some (codes "100%")
unfolding form_get url_decode hex_value escaped
finds_first_psk = refl

finds_nothing : form_get body (codes "backend") ≡ none
unfolding form_get url_decode hex_value escaped
finds_nothing = refl

url_decode-Encodes_example : url_decode (codes "a+%2F") ≡ codes "a /"
unfolding hex_value
url_decode-Encodes_example =
    url_decode-Encodes
      (plain b'a' (omega arith) (omega arith) (space (escape b'2' b'F' 2 15 refl refl done)))

form_get-first_value_example : form_get body (codes "psk") ≡ first_value (fields body) (codes "psk")
form_get-first_value_example = form_get-first_value body (codes "psk")
