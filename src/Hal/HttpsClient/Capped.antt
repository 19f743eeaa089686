-- ===== src/Hal/HttpsClient/Capped.antt =====
-- The response body against its cap.
use pipecat_voice_assistant.Prelude.{
  ℕ, ◌+◌, ◌≤◌, ◌≡◌, refl, ◌∙◌, List, [], ◌∷◌, ◌++◌, Bytes, ltb, length, length-append, append_assoc,
  append-nil, if_elim, arith,
}
use pipecat_voice_assistant.Hal.HttpsClient.{
  HttpEvent, on_connected, on_other, on_data, event_cb, event_cbs,
}

-- All the bytes that arrive.
abbrev pub arrived : List HttpEvent → Bytes
arrived [] = []
arrived (on_connected ∷ r) = arrived r
arrived (on_other ∷ r) = arrived r
arrived (on_data chunk ∷ r) = chunk ++ arrived r

event_cb-bounded :
    (cap : ℕ) (body : Bytes) (e : HttpEvent)
    → length body ≤ cap
    → length (event_cb cap body e) ≤ cap
unfolding event_cb
event_cb-bounded cap body on_connected h = h
event_cb-bounded cap body on_other h = h
event_cb-bounded cap body (on_data chunk) h =
    if_elim (λ (b : Bytes). length b ≤ cap) (ltb cap (length body + length chunk)) (λ _. h)
      (λ fits. ground (arith, length-append body chunk))

event_cbs-bounded :
    (cap : ℕ) (body : Bytes) (events : List HttpEvent)
    → length body ≤ cap
    → length (event_cbs cap body events) ≤ cap
unfolding event_cbs
event_cbs-bounded cap body [] h = h
event_cbs-bounded cap body (e ∷ r) h =
    event_cbs-bounded cap (event_cb cap body e) r (event_cb-bounded cap body e h)

event_cbs-fits :
    (cap : ℕ) (body : Bytes) (events : List HttpEvent)
    → length body + length (arrived events) ≤ cap
    → event_cbs cap body events ≡ body ++ arrived events
unfolding event_cbs event_cb
event_cbs-fits cap body [] h = rw (append-nil body) refl
event_cbs-fits cap body (on_connected ∷ r) h = event_cbs-fits cap body r h
event_cbs-fits cap body (on_other ∷ r) h = event_cbs-fits cap body r h
event_cbs-fits cap body (on_data chunk ∷ r) h =
    let sizes = length-append chunk (arrived r) in
    if_elim (λ (b : Bytes). event_cbs cap b r ≡ body ++ (chunk ++ arrived r))
      (ltb cap (length body + length chunk)) (λ over. absurd (ground arith))
      (λ _.
        event_cbs-fits cap (body ++ chunk) r (omega (arith, length-append body chunk))
        ∙ append_assoc body chunk (arrived r))

-- However a response arrives, its body never exceeds the cap; and it is all the bytes that arrived,
-- in order, if these are no more than the cap.
pub event_cbs-capped :
    (cap : ℕ) (events : List HttpEvent)
    → (length (event_cbs cap [] events) ≤ cap)
      × (length (arrived events) ≤ cap → event_cbs cap [] events ≡ arrived events)
event_cbs-capped cap events =
    (event_cbs-bounded cap [] events (omega arith), λ h. event_cbs-fits cap [] events (omega arith))
