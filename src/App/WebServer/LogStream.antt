-- ===== src/App/WebServer/LogStream.antt =====
-- The log stream of web_server.cpp. The four slots are a list of ints; a negative one is free. The
-- mutex, which each function holds from start to end, is left out, and so is the copying of a chunk
-- to the heap: whether malloc and httpd_queue_work succeed for a client is a parameter.
use pipecat_voice_assistant.Prelude.{
  ℕ, ◌-◌, Bool, true, false, Option, none, some, List, [], ◌∷◌, ◌++◌, Bytes, if◌then◌else◌, ltb,
  ◌==◌, length, take,
}
use pipecat_voice_assistant.Prelude.Int.{ℤ, pos, negsuc, is_negative}

abbrev pub eq_ℤ : ℤ → ℤ → Bool
eq_ℤ (pos m) (pos n) = m == n
eq_ℤ (pos m) (negsuc n) = false
eq_ℤ (negsuc m) (pos n) = false
eq_ℤ (negsuc m) (negsuc n) = m == n

abbrev pub no_clients : List ℤ
no_clients = negsuc 0 ∷ negsuc 0 ∷ negsuc 0 ∷ negsuc 0 ∷ []

unfoldable pub holds_fd : List ℤ → ℤ → Bool
holds_fd [] fd = false
holds_fd (f ∷ r) fd = if eq_ℤ f fd then true else holds_fd r fd

unfoldable pub fill_free : List ℤ → ℤ → List ℤ
fill_free [] fd = []
fill_free (f ∷ r) fd = if is_negative f then fd ∷ r else f ∷ fill_free r fd

unfoldable pub ws_add_client : List ℤ → ℤ → List ℤ
ws_add_client fds fd = if holds_fd fds fd then fds else fill_free fds fd

unfoldable pub ws_remove_client : List ℤ → ℤ → List ℤ
ws_remove_client [] fd = []
ws_remove_client (f ∷ r) fd = (if eq_ℤ f fd then negsuc 0 else f) ∷ ws_remove_client r fd

-- What a chunk queues, by the clients for which it could be.
unfoldable pub log_broadcast : (ℤ → Bool) → List ℤ → Bytes → List (ℤ × Bytes)
log_broadcast queued [] chunk = []
log_broadcast queued (fd ∷ r) chunk =
    let rest = log_broadcast queued r chunk in
    if is_negative fd then rest else if queued fd then (fd, chunk) ∷ rest else rest

-- A queued send, by whether the frame went out.
unfoldable pub ws_send_work : Bool → List ℤ → ℤ → List ℤ
ws_send_work sent fds fd = if sent then fds else ws_remove_client fds fd

-- `sizeof line`.
abbrev pub line_size : ℕ
line_size = 256

-- What is given to the stream buffer of the line, by the result of vsnprintf.
unfoldable pub send_line : ℕ → Bytes → Bytes
send_line n line = if ltb 0 n then take (if ltb line_size n then line_size else n) line else []

-- `s_log_buf` after a call, none where it was not allocated. `send` is xStreamBufferSend without a
-- wait: the bytes in the buffer after it is given some. vsnprintf leaves a text's first bytes and a
-- terminator in the line; its result is the length of the text.
unfoldable pub log_vprintf : (Bytes → Bytes → Bytes) → Option Bytes → Bytes → Option Bytes
unfolding send_line
log_vprintf send none text = none
log_vprintf send (some buffered) text =
    if ltb 0 (length text)
    then some (send buffered (send_line (length text) (take (line_size - 1) text ++ (0 ∷ []))))
    else some buffered
