-- ===== src/Boot/Provisioning.antt =====
-- From the form of the portal to the boot that uses it, and back after a wipe.
use mathlib.Core.Path.{subst}
use pipecat_voice_assistant.Prelude.{
  ◌≤◌, ◌≡◌, refl, ap, ap₂, ◌∙◌, Bool, false, ◌||◌, Option, none, some, List, if◌then◌else◌, Bytes,
  codes, length, if_elim, arith,
}
use pipecat_voice_assistant.Domain.FormUrlencoded.{form_get}
use pipecat_voice_assistant.Hal.NvsKv.{NvsLib, esp_ok, init_partition, commit}
use pipecat_voice_assistant.Hal.NvsKv.Laws.{NoNul, IsHealthy}
use pipecat_voice_assistant.Hal.WifiSta.{WifiSta}
use pipecat_voice_assistant.Hal.SoftapPortal.{
  Recv, WifiCredentials, SaveResponse, saved, restarted, handle_save, max_body_bytes,
  value_or_empty,
}
use pipecat_voice_assistant.Hal.SoftapPortal.Receiving.{
  Delivers, Told, Answered, handle_save-Answered,
}
use pipecat_voice_assistant.Boot.{
  BootLib, Config, Boot, nvs_namespace, is_empty, on_credentials, run_provisioning, connect_and_run,
  after_init, decide_and_run,
}
use pipecat_voice_assistant.Boot.Stored.{
  config_of, saved_config, written, init-ok, load_config-config_of, config_of-init,
  config_of-written, config_of-commit, on_credentials-written,
}

module _ (lib : NvsLib) (ok : IsHealthy lib nvs_namespace) where
  open lib use {Flash, nvs_open, restart}

  -- A boot on a working store, by the configuration that it finds.
  decide_and_run-config :
      (b : BootLib) (w : WifiSta) (f : Flash)
      → decide_and_run lib b w f ≡ after_init lib b w (init_partition lib f).0 esp_ok
  unfolding decide_and_run
  decide_and_run-config b w f = rw (init-ok lib ok f) refl

  abbrev decide_by : BootLib → WifiSta → Flash → Config → Boot Flash
  decide_by b w f c =
      if is_empty c.ssid || is_empty c.backend
      then run_provisioning lib b f
      else connect_and_run lib b w f c

  decide_and_run-decide_by :
      (b : BootLib) (w : WifiSta) (f : Flash) (c : Config)
      → config_of lib ok f ≡ c
      → decide_and_run lib b w f ≡ decide_by b w (init_partition lib f).0 c
  unfolding after_init
  decide_and_run-decide_by b w f c e =
      let g = (init_partition lib f).0 in
      decide_and_run-config b w f
      ∙ ap (decide_by b w g) (load_config-config_of lib ok g ∙ config_of-init lib ok f ∙ e)

  decide_by-nonempty :
      (b : BootLib) (w : WifiSta) (f : Flash) (c : Config)
      → is_empty c.ssid ≡ false
      → is_empty c.backend ≡ false
      → decide_by b w f c ≡ connect_and_run lib b w f c
  decide_by-nonempty b w f c es eb =
      if_elim (λ (r : Boot Flash). r ≡ connect_and_run lib b w f c)
        (is_empty c.ssid || is_empty c.backend) (λ wrong. absurd (ground arith)) (λ _. refl)

  Answered-Told :
      (f : Flash) (ssid backend : Bytes) (psk : Option Bytes) (r : Flash × SaveResponse)
      → Answered (some (on_credentials lib)) f (some ssid) (some backend) psk r
      → Told
          (some (on_credentials lib))
          f
          (record { ssid = ssid; psk = value_or_empty psk; backend_url = backend })
          r
  Answered-Told f ssid backend none r h = h
  Answered-Told f ssid backend (some psk) r h = h

  answered_with :
      (f : Flash) (chunks : List Recv) (body ssid backend : Bytes)
      → Delivers chunks body
      → length body ≤ max_body_bytes
      → form_get body (codes "ssid") ≡ some ssid
      → form_get body (codes "backend") ≡ some backend
      → let c : WifiCredentials = record {
        ssid = ssid;
        psk = value_or_empty (form_get body (codes "psk"));
        backend_url = backend;
      } in
        handle_save (some (on_credentials lib)) f (length body) chunks
        ≡ (restart (commit lib (written lib ok f c)).0, restarted)
  answered_with f chunks body ssid backend d small hs hb =
      let psk = form_get body (codes "psk") in
      let c : WifiCredentials = record {
        ssid = ssid;
        psk = value_or_empty psk;
        backend_url = backend;
      } in
      let r = handle_save (some (on_credentials lib)) f (length body) chunks in
      let answer =
        (handle_save-Answered (some (on_credentials lib)) f chunks body d (omega arith)).0 small in
      let fields : Answered (some (on_credentials lib)) f (some ssid) (some backend) psk r =
        subst
          (λ (o : Option Bytes × Option Bytes).
            Answered (some (on_credentials lib)) f o.0 o.1 psk r)
          (ap₂ (λ a b. (a, b)) hs hb) answer in
      Answered-Told f ssid backend psk r fields
      ∙ ap (λ (q : Flash × Bool). (q.0, if q.1 then restarted else saved))
          (on_credentials-written lib ok f c)

  -- On such a store, a form of at most 512 bytes that arrives whole, with a network name and a
  -- backend that are not empty and no NUL byte in its fields, restarts the device once its callback
  -- is set, and the boot after it connects with the decoded fields, keeping the stored host name.
  pub provisioned-connects :
      (b : BootLib) (w : WifiSta) (f : Flash) (chunks : List Recv) (body ssid backend : Bytes)
      → Delivers chunks body
      → length body ≤ max_body_bytes
      → form_get body (codes "ssid") ≡ some ssid
      → form_get body (codes "backend") ≡ some backend
      → NoNul ssid
      → NoNul (value_or_empty (form_get body (codes "psk")))
      → NoNul backend
      → is_empty ssid ≡ false
      → is_empty backend ≡ false
      → let (f', answer) = handle_save (some (on_credentials lib)) f (length body) chunks in
        (answer ≡ restarted)
        × (decide_and_run lib b w f'
            ≡ connect_and_run lib b w (init_partition lib f').0 (
                saved_config lib ok f (record {
                  ssid = ssid;
                  psk = value_or_empty (form_get body (codes "psk"));
                  backend_url = backend;
                })))
  provisioned-connects b w f chunks body ssid backend d small hs hb ns np nb es eb =
      let c : WifiCredentials = record {
        ssid = ssid;
        psk = value_or_empty (form_get body (codes "psk"));
        backend_url = backend;
      } in
      let f' = restart (commit lib (written lib ok f c)).0 in
      let answered = answered_with f chunks body ssid backend d small hs hb in
      rw answered (
        refl,
        decide_and_run-decide_by b w f' (saved_config lib ok f c) (
              config_of-commit lib ok (written lib ok f c)
              ∙ config_of-written lib ok f c ns np nb es eb)
            ∙ decide_by-nonempty b w (init_partition lib f').0 (saved_config lib ok f c) es eb,
      )
