-- ===== src/Boot/Stored.antt =====
-- What the settings store holds after each of the entry's writes to it.
use pipecat_voice_assistant.Prelude.{
  ◌≡◌, refl, ap, ◌∙◌, true, false, Option, none, some, [], Bytes, list_eq, if_elim, arith,
}
use pipecat_voice_assistant.Hal.NvsKv.{
  NvsLib, EspErr, esp_ok, init_partition, needs_erase, get_str, set_str, erase, commit, read_str,
  c_str,
}
use pipecat_voice_assistant.Hal.NvsKv.Laws.{
  NoNul, c_str-NoNul, read_str-append, IsHealthy, list_eq-false,
}
use pipecat_voice_assistant.Hal.SoftapPortal.{WifiCredentials}
use pipecat_voice_assistant.Boot.{
  Config, nvs_namespace, nvs_key_ssid, nvs_key_psk, nvs_key_backend, nvs_key_hostname,
  default_hostname, is_empty, credentials_of, load_config, on_credentials, wipe_and_restart,
  nonempty_or,
}

module _ (lib : NvsLib) (ok : IsHealthy lib nvs_namespace) where
  open lib use {Flash, nvs_open, restart}

  abbrev pub stored : Flash → Bytes → Option Bytes
  stored f key = get_str lib f nvs_namespace key

  pub stored-set_str :
      (f : Flash) (k v : Bytes) → NoNul v → stored (set_str lib f nvs_namespace k v).0 k ≡ some v
  unfolding get_str set_str
  stored-set_str f k v h =
      ap read_str (ok.laws.get_set f k (c_str v) (ok.sets f k (c_str v)))
      ∙ read_str-append (c_str v)
      ∙ ap (λ (s : Bytes). some s) (c_str-NoNul v h)

  stored-set_other :
      (f : Flash) (k j v : Bytes)
      → list_eq j k ≡ false
      → stored (set_str lib f nvs_namespace k v).0 j ≡ stored f j
  unfolding get_str set_str
  stored-set_other f k j v h =
      ap read_str (ok.laws.get_set_other f k j (c_str v) (list_eq-false j k h))

  pub stored-commit : (f : Flash) (k : Bytes) → stored (restart (commit lib f).0) k ≡ stored f k
  unfolding get_str commit
  stored-commit f k = ap read_str (ok.laws.get_commit f k (ok.commits f))

  stored-erase : (f : Flash) (k : Bytes) → stored (erase lib f nvs_namespace k).0 k ≡ none
  unfolding get_str erase read_str
  stored-erase f k = ap read_str (ok.erased f k)

  stored-erase_other :
      (f : Flash) (k j : Bytes)
      → list_eq j k ≡ false
      → stored (erase lib f nvs_namespace k).0 j ≡ stored f j
  unfolding get_str erase
  stored-erase_other f k j h = ap read_str (ok.laws.get_erase_other f k j (list_eq-false j k h))

  stored-init : (f : Flash) (k : Bytes) → stored (init_partition lib f).0 k ≡ stored f k
  unfolding get_str init_partition
  stored-init f k = rw (ok.inits f) (ap read_str (ok.init_keeps f k))

  pub init-ok : (f : Flash) → (init_partition lib f).1 ≡ esp_ok
  unfolding init_partition
  init-ok f =
      if_elim (λ (r : Flash × EspErr). r.1 ≡ esp_ok) (needs_erase (lib.nvs_flash_init f).1)
        (λ wrong.
          let fine : needs_erase (lib.nvs_flash_init f).1 ≡ false =
            ap (λ (e : EspErr). needs_erase e) (ok.inits f) in
          cc)
        (λ _. ok.inits f)

  abbrev pub config_of : Flash → Config
  config_of f =
      credentials_of (stored f nvs_key_ssid) (stored f nvs_key_backend) (stored f nvs_key_psk)
        (nonempty_or default_hostname (stored f nvs_key_hostname))

  pub load_config-config_of : (f : Flash) → load_config lib f ≡ config_of f
  unfolding load_config
  load_config-config_of f = rw (ok.opens f) refl

  pub config_of-init : (f : Flash) → config_of (init_partition lib f).0 ≡ config_of f
  config_of-init f =
      rw
        (
          stored-init f nvs_key_ssid,
          stored-init f nvs_key_backend,
          stored-init f nvs_key_psk,
          stored-init f nvs_key_hostname,
        )
        refl

  abbrev pub saved_config : Flash → WifiCredentials → Config
  saved_config f c = record {
    ssid = c.ssid;
    psk = c.psk;
    backend = c.backend_url;
    hostname = nonempty_or default_hostname (stored f nvs_key_hostname);
  }

  -- What the callback writes before it commits.
  abbrev pub written : Flash → WifiCredentials → Flash
  written f c =
      (set_str lib
        (set_str lib (set_str lib f nvs_namespace nvs_key_ssid c.ssid).0 nvs_namespace nvs_key_psk
          c.psk).0
        nvs_namespace nvs_key_backend c.backend_url).0

  pub on_credentials-written :
      (f : Flash) (c : WifiCredentials)
      → on_credentials lib f c ≡ (restart (commit lib (written f c)).0, true)
  unfolding on_credentials
  on_credentials-written f c = rw (ok.opens f) refl

  stored-written :
      (f : Flash) (c : WifiCredentials)
      → NoNul c.ssid
      → NoNul c.psk
      → NoNul c.backend_url
      → (stored (written f c) nvs_key_ssid ≡ some c.ssid)
        × (stored (written f c) nvs_key_psk ≡ some c.psk)
        × (stored (written f c) nvs_key_backend ≡ some c.backend_url)
        × (stored (written f c) nvs_key_hostname ≡ stored f nvs_key_hostname)
  stored-written f c ns np nb =
      let f1 = (set_str lib f nvs_namespace nvs_key_ssid c.ssid).0 in
      let f2 = (set_str lib f1 nvs_namespace nvs_key_psk c.psk).0 in
      (
        stored-set_other f2 nvs_key_backend nvs_key_ssid c.backend_url refl
            ∙ stored-set_other f1 nvs_key_psk nvs_key_ssid c.psk refl
            ∙ stored-set_str f nvs_key_ssid c.ssid ns,
        stored-set_other f2 nvs_key_backend nvs_key_psk c.backend_url refl
            ∙ stored-set_str f1 nvs_key_psk c.psk np,
        stored-set_str f2 nvs_key_backend c.backend_url nb,
        stored-set_other f2 nvs_key_backend nvs_key_hostname c.backend_url refl
            ∙ stored-set_other f1 nvs_key_psk nvs_key_hostname c.psk refl
            ∙ stored-set_other f nvs_key_ssid nvs_key_hostname c.ssid refl,
      )

  pub config_of-commit : (f : Flash) → config_of (restart (commit lib f).0) ≡ config_of f
  config_of-commit f =
      rw
        (
          stored-commit f nvs_key_ssid,
          stored-commit f nvs_key_backend,
          stored-commit f nvs_key_psk,
          stored-commit f nvs_key_hostname,
        )
        refl

  pub config_of-written :
      (f : Flash) (c : WifiCredentials)
      → NoNul c.ssid
      → NoNul c.psk
      → NoNul c.backend_url
      → is_empty c.ssid ≡ false
      → is_empty c.backend_url ≡ false
      → config_of (written f c) ≡ saved_config f c
  unfolding credentials_of
  config_of-written f c ns np nb es eb =
      let (s, p, b, h) = stored-written f c ns np nb in rw (s, p, b, h) (ground arith)

  pub config_of-wiped :
      (f : Flash)
      → config_of (wipe_and_restart lib f) ≡ record {
        ssid = [];
        psk = [];
        backend = [];
        hostname = nonempty_or default_hostname (stored f nvs_key_hostname);
      }
  unfolding wipe_and_restart credentials_of
  config_of-wiped f =
      let f1 = (erase lib f nvs_namespace nvs_key_ssid).0 in
      let f2 = (erase lib f1 nvs_namespace nvs_key_psk).0 in
      rw
        (
          ok.opens f,
          stored-commit f2 nvs_key_ssid,
          stored-erase_other f1 nvs_key_psk nvs_key_ssid refl,
          stored-erase f nvs_key_ssid,
          stored-commit f2 nvs_key_hostname,
          stored-erase_other f1 nvs_key_psk nvs_key_hostname refl,
          stored-erase_other f nvs_key_ssid nvs_key_hostname refl,
        )
        refl
