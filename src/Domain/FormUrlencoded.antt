-- ===== src/Domain/FormUrlencoded.antt =====
-- The form parser of the captive portal, firmware/components/pv_domain/include/domain/
-- form_urlencoded.hpp and src/form_urlencoded.cpp. A string is the list of its bytes.
mod Decode
mod Lookup
mod Tests
use pipecat_voice_assistant.Prelude.{
  ℕ, zero, suc, ◌+◌, ◌-◌, ◌*◌, ◌/◌, ◌%◌, ◌^◌, Bool, true, false, ◌&&◌, List, [], ◌∷◌, ◌++◌, Option,
  none, some, if◌then◌else◌, ltb, leb, ◌==◌, Bytes, list_eq, length, take, drop,
}
use pipecat_voice_assistant.Prelude.Word.{◌<<<◌}
use pipecat_voice_assistant.Prelude.Bits.{bit_or}

-- The value of a hexadecimal digit; `none` is the -1 of the code.
unfoldable pub hex_value : ℕ → Option ℕ
hex_value c =
    if leb b'0' c && leb c b'9'
    then some (c - b'0')
    else if leb b'a' c && leb c b'f'
    then some (10 + (c - b'a'))
    else if leb b'A' c && leb c b'F'
    then some (10 + (c - b'A'))
    else none

-- The byte that two digits stand for, or `none` if one of them is no digit.
unfoldable pub escaped : Option ℕ → Option ℕ → Option ℕ
escaped (some hi) (some lo) = some (bit_or (hi <<< 4) lo)
escaped _ _ = none

-- An escape is read only where two more bytes follow; a malformed one is a literal `%`.
unfoldable pub url_decode : Bytes → Bytes
url_decode [] = []
url_decode (c ∷ []) = (if c == b'+' then b' ' else c) ∷ []
url_decode (c ∷ d ∷ []) = (if c == b'+' then b' ' else c) ∷ url_decode (d ∷ [])
url_decode (c ∷ h ∷ l ∷ r) =
    let rest = url_decode (h ∷ l ∷ r) in
    let after = url_decode r in
    if c == b'+'
    then b' ' ∷ rest
    else if c == b'%'
    then elim (escaped (hex_value h) (hex_value l)) [ none ↦ c ∷ rest | some b ↦ b ∷ after ]
    else c ∷ rest

abbrev next_index : Option ℕ → Option ℕ
next_index none = none
next_index (some i) = some (suc i)

-- `body.find(c, pos)` relative to `pos`: `none` is `npos`.
unfoldable pub find : ℕ → Bytes → Option ℕ
find c [] = none
find c (x ∷ r) = let later = next_index (find c r) in if x == c then some 0 else later

-- The pair between `pos` and `end`, if its name is `key`.
unfoldable pub match_pair : Bytes → Option ℕ → ℕ → Bytes → Option Bytes
match_pair rest none end key = none
match_pair rest (some eq) end key =
    if ltb eq end && list_eq (take eq rest) key
    then some (url_decode (take (end - eq - 1) (drop (suc eq) rest)))
    else none

-- The loop from `pos`, on the rest of the body; the count bounds the rounds.
unfoldable pub get_from : ℕ → Bytes → Bytes → Option Bytes
get_from zero rest key = none
get_from (suc fuel) [] key = none
get_from (suc fuel) (c ∷ r) key =
    let rest = c ∷ r in
    let amp = find b'&' rest in
    let end : ℕ = elim amp [ none ↦ length rest | some i ↦ i ] in
    elim (match_pair rest (find b'=' rest) end key) [
      | some v ↦ some v
      | none ↦ elim amp [ none ↦ none | some i ↦ get_from fuel (drop (suc i) rest) key ]
    ]

unfoldable pub form_get : Bytes → Bytes → Option Bytes
unfolding get_from match_pair find
form_get body key = get_from (suc (length body)) body key
