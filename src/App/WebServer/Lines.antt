-- ===== src/App/WebServer/Lines.antt =====
-- What of a log line reaches the clients.
use pipecat_voice_assistant.Prelude.{
  ℕ, zero, suc, ◌-◌, ◌≤◌, ◌<◌, ◌+◌, ◌≡◌, refl, sym, ap, ◌∙◌, false, Option, none, some, [], ◌∷◌,
  ◌++◌, append-nil, if◌then◌else◌, Bytes, ltb, length, take, take-append, length-append,
  length-take, if_elim, arith,
}
use pipecat_voice_assistant.App.WebServer.LogStream.{line_size, send_line, log_vprintf}

take-all : (n : ℕ) (s : Bytes) → length s ≤ n → take n s ≡ s
take-all zero [] h = refl
take-all zero (c ∷ r) h = absurd (omega arith)
take-all (suc n) [] h = refl
take-all (suc n) (c ∷ r) h = ap (λ t. c ∷ t) (take-all n r (omega arith))

no_bytes : (text : Bytes) → ltb 0 (length text) ≡ false → [] ≡ text
no_bytes [] h = refl
no_bytes (c ∷ r) h = absurd (ground arith)

send_line-whole :
    (text : Bytes) → length text < line_size → send_line (length text) (text ++ (0 ∷ [])) ≡ text
unfolding send_line
send_line-whole text h =
    if_elim (λ (s : Bytes). s ≡ text) (ltb 0 (length text))
      (λ _.
        if_elim (λ (n : ℕ). take n (text ++ (0 ∷ [])) ≡ text) (ltb line_size (length text))
          (λ over. absurd (ground arith)) (λ _. take-append text (0 ∷ [])))
      (no_bytes text)

send_line-cut :
    (n : ℕ) (line : Bytes) → line_size ≤ n → length line ≡ line_size → send_line n line ≡ line
unfolding send_line
send_line-cut n line h size =
    if_elim (λ (s : Bytes). s ≡ line) (ltb 0 n)
      (λ _.
        if_elim (λ (m : ℕ). take m line ≡ line) (ltb line_size n)
          (λ _. take-all line_size line (omega arith)) (λ _. take-all n line (omega arith)))
      (λ none. absurd (ground arith))

-- What FreeRTOS documents of xStreamBufferSend without a wait: as many bytes as there is room for are
-- put behind those in the buffer.
abbrev pub SendsIntoRoom : ℕ → (Bytes → Bytes → Bytes) → Type 0
SendsIntoRoom room send =
    (buffered bytes : Bytes) → send buffered bytes ≡ buffered ++ take (room - length buffered) bytes

-- The bytes of a line that are streamed if there is room.
abbrev pub streamed : Bytes → Bytes
streamed text = if ltb (length text) 256 then text else take 255 text ++ (0 ∷ [])

send_line-streamed :
    (text : Bytes) → send_line (length text) (take (line_size - 1) text ++ (0 ∷ [])) ≡ streamed text
send_line-streamed text =
    if_elim (λ (s : Bytes). send_line (length text) (take (line_size - 1) text ++ (0 ∷ [])) ≡ s)
      (ltb (length text) 256)
      (λ short.
        let small : length text < 256 = ground arith in
        ap (λ (s : Bytes). send_line (length text) (s ++ (0 ∷ [])))
          (take-all (line_size - 1) text (omega arith))
        ∙ send_line-whole text small)
      (λ long.
        let large : 256 ≤ length text = ground arith in
        send_line-cut (length text) (take (line_size - 1) text ++ (0 ∷ [])) large (
          omega (
            arith,
            length-append (take (line_size - 1) text) (0 ∷ []),
            length-take (line_size - 1) text,
          )))

no_take : (n : ℕ) → ◌≡◌ {A = Bytes} [] (take n [])
no_take zero = refl
no_take (suc n) = refl

no_line : (room : ℕ) (text : Bytes) → ltb 0 (length text) ≡ false → [] ≡ take room (streamed text)
no_line room [] h = no_take room
no_line room (c ∷ r) h = absurd (ground arith)

log_vprintf-room :
    (room : ℕ) (send : Bytes → Bytes → Bytes) (buffered text : Bytes)
    → SendsIntoRoom room send
    → log_vprintf send (some buffered) text
      ≡ some (buffered ++ take (room - length buffered) (streamed text))
unfolding log_vprintf
log_vprintf-room room send buffered text sends =
    let expected = some (buffered ++ take (room - length buffered) (streamed text)) in
    if_elim (λ (o : Option Bytes). o ≡ expected) (ltb 0 (length text))
      (λ _. ap some (
        sends buffered _
        ∙ ap (λ (s : Bytes). buffered ++ take (room - length buffered) s)
            (send_line-streamed text)))
      (λ empty. ap some (
        sym (append-nil buffered)
        ∙ ap (λ (s : Bytes). buffered ++ s) (no_line (room - length buffered) text empty)))

-- A log line goes behind what the stream buffer holds, as far as it has room; without room it is
-- dropped. Of a line of at most 255 bytes these are its own bytes, and all of them if they fit; of a
-- longer one the first 255, with the terminator of the line behind them. Nothing is streamed where
-- the buffer was not allocated.
pub log_vprintf-line :
    (room : ℕ) (send : Bytes → Bytes → Bytes) (buffered text : Bytes)
    → SendsIntoRoom room send
    → (log_vprintf send (some buffered) text
        ≡ some (buffered ++ take (room - length buffered) (streamed text)))
      × (length buffered + length (streamed text) ≤ room
          → log_vprintf send (some buffered) text ≡ some (buffered ++ streamed text))
      × (log_vprintf send none text ≡ none)
log_vprintf-line room send buffered text sends =
    let sent = log_vprintf-room room send buffered text sends in
    (
      sent,
      λ fits.
          sent
          ∙ ap (λ (s : Bytes). some (buffered ++ s))
              (take-all (room - length buffered) (streamed text) (omega arith)),
      unfold log_vprintf in refl,
    )
