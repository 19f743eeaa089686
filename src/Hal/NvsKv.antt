-- ===== src/Hal/NvsKv.antt =====
-- The settings store, nvs_kv.cpp. ESP-IDF's NVS library is the record `NvsLib` over the contents of
-- its flash partition. A handle that `open` returned is valid until it is destroyed, so the tests of
-- `valid_`, which guard moved-from objects, have no counterpart.
pub mod Laws
use pipecat_voice_assistant.Prelude.{
  Bool, true, false, ◌||◌, Option, none, some, List, [], ◌∷◌, ◌++◌, if◌then◌else◌, ◌==◌, ℕ, Bytes,
}

-- esp_err_t, as far as the code tells its values apart.
pub data EspErr : Type 0 where
  esp_ok esp_err_nvs_no_free_pages esp_err_nvs_new_version_found esp_err_other : EspErr

pub record NvsLib : Type 1 where
  pub Flash : Type 0
  pub nvs_flash_init : Flash → Flash × EspErr
  pub nvs_flash_erase : Flash → Flash × Bool
  -- Whether nvs_open of a namespace succeeds.
  pub nvs_open : Flash → Bytes → Bool
  -- The stored string of a key with its terminator; `none` is an error.
  pub nvs_get_str : Flash → Bytes → Bytes → Option Bytes
  -- The string is given without its terminator. The Boolean is the status ESP_OK.
  pub nvs_set_str : Flash → Bytes → Bytes → Bytes → Flash × Bool
  pub nvs_erase_key : Flash → Bytes → Bytes → Flash × Bool
  pub nvs_commit : Flash → Flash × Bool
  -- What a restart finds.
  pub restart : Flash → Flash

-- A byte string up to its first NUL, which is what `c_str()` hands to a C function.
unfoldable pub c_str : Bytes → Bytes
c_str [] = []
c_str (c ∷ r) = if c == 0 then [] else c ∷ c_str r

-- `if (!out.empty() && out.back() == '\0') out.pop_back();`
unfoldable pub pop_terminator : Bytes → Bytes
pop_terminator [] = []
pop_terminator (c ∷ []) = if c == 0 then [] else c ∷ []
pop_terminator (c ∷ d ∷ r) = c ∷ pop_terminator (d ∷ r)

-- The two answers of nvs_get_str, and `len == 0`.
unfoldable pub read_str : Option Bytes → Option Bytes
read_str none = none
read_str (some []) = none
read_str (some (c ∷ r)) = some (pop_terminator (c ∷ r))

abbrev pub needs_erase : EspErr → Bool
needs_erase esp_ok = false
needs_erase esp_err_nvs_no_free_pages = true
needs_erase esp_err_nvs_new_version_found = true
needs_erase esp_err_other = false

module _ (lib : NvsLib) where
  open lib use {
    Flash, nvs_flash_init, nvs_flash_erase, nvs_open, nvs_get_str, nvs_set_str, nvs_erase_key,
    nvs_commit,
  }

  unfoldable pub init_partition : Flash → Flash × EspErr
  init_partition flash =
      let (flash', err) = nvs_flash_init flash in
      let (erased, done) = nvs_flash_erase flash' in
      if needs_erase err
      then (if done then nvs_flash_init erased else (erased, err))
      else (flash', err)

  unfoldable pub get_str : Flash → Bytes → Bytes → Option Bytes
  get_str flash space key = read_str (nvs_get_str flash space key)

  unfoldable pub set_str : Flash → Bytes → Bytes → Bytes → Flash × Bool
  set_str flash space key value = nvs_set_str flash space key (c_str value)

  unfoldable pub erase : Flash → Bytes → Bytes → Flash × Bool
  erase flash space key = nvs_erase_key flash space key

  unfoldable pub commit : Flash → Flash × Bool
  commit flash = nvs_commit flash
