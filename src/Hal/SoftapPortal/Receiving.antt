-- ===== src/Hal/SoftapPortal/Receiving.antt =====
-- Bodies arrive whole however they are cut, and the handler's answer to them.
use pipecat_voice_assistant.Prelude.{
  ℕ, ◌+◌, ◌^◌, ◌≤◌, ◌<◌, ◌≡◌, refl, ap, ◌∙◌, Bool, false, Option, none, some, List, [], ◌∷◌, ◌++◌,
  Bytes, if◌then◌else◌, ltb, length, codes, length-append, append_assoc, append-nil, if_elim, arith,
}
use pipecat_voice_assistant.Domain.FormUrlencoded.{form_get}
use pipecat_voice_assistant.Hal.SoftapPortal.{
  Recv, timeout, got, Received, whole, receive, WifiCredentials, SaveResponse, payload_too_large,
  missing_field, saved, restarted, credentials, tell, save_credentials, save_received, handle_save,
  too_large, max_body_bytes,
}

-- The bytes in pieces, with time-outs between them.
pub data Delivers : List Recv → Bytes → Type 0 where
  done : Delivers [] []
  late :
      {chunks : List Recv} {body : Bytes} → Delivers chunks body → Delivers (timeout ∷ chunks) body
  piece :
      {chunks : List Recv} {body : Bytes} (c : ℕ) (cs : Bytes)
      → Delivers chunks body
      → Delivers (got (c ∷ cs) ∷ chunks) ((c ∷ cs) ++ body)

nothing_left :
    (n : ℕ) (acc body : Bytes)
    → length acc + length body ≡ n
    → ltb (length acc) n ≡ false
    → whole acc ≡ whole (acc ++ body)
nothing_left n acc [] e h = rw (append-nil acc) refl
nothing_left n acc (c ∷ body) e h = absurd (ground arith)

receive-Delivers :
    {chunks : List Recv} {body : Bytes} (n : ℕ) (acc : Bytes)
    → Delivers chunks body
    → length acc + length body ≡ n
    → receive n acc chunks ≡ whole (acc ++ body)
unfolding receive
receive-Delivers n acc done e = ground (arith, append-nil acc)
receive-Delivers n acc (late {chunks} {body} d) e =
    if_elim (λ (r : Received). r ≡ whole (acc ++ body)) (ltb (length acc) n)
      (λ _. receive-Delivers n acc d e) (nothing_left n acc body e)
receive-Delivers n acc (piece {chunks} {body} c cs d) e =
    if_elim (λ (r : Received). r ≡ whole (acc ++ (c ∷ (cs ++ body)))) (ltb (length acc) n)
      (λ _.
        receive-Delivers n (acc ++ (c ∷ cs)) d
          (omega (arith, length-append acc (c ∷ cs), length-append cs body))
        ∙ ap (λ (b : Bytes). whole b) (append_assoc acc (c ∷ cs) body))
      (nothing_left n acc (c ∷ (cs ++ body)) e)

-- The credentials are given to the callback, if there is one, and the page confirms unless it
-- restarts the device.
abbrev pub Told {ℓ} :
    {S : Type ℓ}
    → Option (S → WifiCredentials → S × Bool)
    → S
    → WifiCredentials
    → S × SaveResponse
    → Type ℓ
Told none s c r = r ≡ (s, saved)
Told (some told) s c r = r ≡ ((told s c).0, if (told s c).1 then restarted else saved)

-- Which answer a form gets, by its network name, its backend and its password.
abbrev pub Answered {ℓ} :
    {S : Type ℓ}
    → Option (S → WifiCredentials → S × Bool)
    → S
    → Option Bytes
    → Option Bytes
    → Option Bytes
    → S × SaveResponse
    → Type ℓ
Answered on_creds s none backend psk r = r ≡ (s, missing_field)
Answered on_creds s (some ssid) none psk r = r ≡ (s, missing_field)
Answered on_creds s (some ssid) (some backend) none r =
    Told on_creds s (record { ssid = ssid; psk = []; backend_url = backend }) r
Answered on_creds s (some ssid) (some backend) (some psk) r =
    Told on_creds s (record { ssid = ssid; psk = psk; backend_url = backend }) r

save_credentials-Told {ℓ} :
    {S : Type ℓ} (on_creds : Option (S → WifiCredentials → S × Bool)) (s : S) (c : WifiCredentials)
    → Told on_creds s c (save_credentials on_creds s (some c))
unfolding save_credentials tell
save_credentials-Told none s c = refl
save_credentials-Told (some told) s c = refl

save_credentials-Answered {ℓ} :
    {S : Type ℓ} (on_creds : Option (S → WifiCredentials → S × Bool)) (s : S)
    (ssid backend psk : Option Bytes)
    → Answered on_creds s ssid backend psk
        (save_credentials on_creds s (credentials ssid backend psk))
unfolding credentials
save_credentials-Answered on_creds s none backend psk = unfold save_credentials in refl
save_credentials-Answered on_creds s (some ssid) none psk = unfold save_credentials in refl
save_credentials-Answered on_creds s (some ssid) (some backend) none =
    save_credentials-Told on_creds s _
save_credentials-Answered on_creds s (some ssid) (some backend) (some psk) =
    save_credentials-Told on_creds s _

too_large_lem : (n : ℕ) → n < 2 ^ 32 → too_large n ≡ ltb max_body_bytes n
too_large_lem n h = ground arith

-- A body that arrives whole, in any pieces and with any time-outs, is answered by its fields if it
-- has at most 512 bytes: without a network name or a backend it is refused and changes nothing,
-- otherwise the callback, if it is set, gets the decoded fields, an absent password being empty. A
-- longer one (below 4 GiB) is refused and changes nothing.
pub handle_save-Answered {ℓ} :
    {S : Type ℓ} (on_creds : Option (S → WifiCredentials → S × Bool)) (s : S) (chunks : List Recv)
    (body : Bytes)
    → Delivers chunks body
    → length body < 2 ^ 32
    → (length body ≤ 512
        → Answered on_creds s
            (form_get body (codes "ssid"))
            (form_get body (codes "backend"))
            (form_get body (codes "psk"))
            (handle_save on_creds s (length body) chunks))
      × (512 < length body → handle_save on_creds s (length body) chunks ≡ (s, payload_too_large))
unfolding handle_save save_received
handle_save-Answered on_creds s chunks body d small = (
  λ h.
      rw (too_large_lem (length body) small, receive-Delivers (length body) [] d (omega arith))
        (if_elim
          (Answered on_creds s (form_get body (codes "ssid")) (form_get body (codes "backend"))
            (form_get body (codes "psk")))
          (ltb max_body_bytes (length body)) (λ over. absurd (ground arith))
          (λ _. save_credentials-Answered on_creds s _ _ _)),
  λ h. ground (arith, too_large_lem (length body) small),
)
