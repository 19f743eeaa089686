-- ===== src/Boot/Tests.antt =====
-- A settings store as an association list, and the theorems applied to it.
use mathlib.Core.Path.{subst}
use pipecat_voice_assistant.Prelude.{
  ◌≡◌, ◌≢◌, refl, sym, ap, ◌∙◌, true, false, Option, none, some, List, [], ◌∷◌, ◌++◌, Bytes,
  if◌then◌else◌, codes, list_eq, list_eq_refl, list_eq→eq, length, Bool-cases, inl, inr, arith,
}
use pipecat_voice_assistant.Domain.FormUrlencoded.{
  form_get, get_from, match_pair, find, url_decode, escaped, hex_value,
}
use pipecat_voice_assistant.Hal.NvsKv.{NvsLib, esp_ok, init_partition}
use pipecat_voice_assistant.Hal.NvsKv.Laws.{NoNul, IsNvs, IsHealthy}
use pipecat_voice_assistant.Hal.WifiSta.{WifiSta, WifiEvent, sta_start, got_ip}
use pipecat_voice_assistant.Hal.SoftapPortal.{
  Recv, timeout, got, handle_save, restarted, value_or_empty,
}
use pipecat_voice_assistant.Hal.SoftapPortal.Receiving.{Delivers, done, late, piece}
use pipecat_voice_assistant.Boot.{
  BootLib, Config, nvs_namespace, on_credentials, decide_and_run, connect_and_run,
}
use pipecat_voice_assistant.Boot.Stored.{saved_config}
use pipecat_voice_assistant.Boot.Provisioning.{provisioned-connects}
use pipecat_voice_assistant.Boot.SavedPage.{Unsaved, handle_save-Unsaved}

abbrev pub Store : Type 0
Store = List (Bytes × Bytes)

abbrev pub lookup : Store → Bytes → Option Bytes
lookup [] k = none
lookup ((j, v) ∷ r) k = if list_eq k j then some (v ++ (0 ∷ [])) else lookup r k

abbrev pub without : Store → Bytes → Store
without [] k = []
without ((j, v) ∷ r) k = let rest = without r k in if list_eq k j then rest else (j, v) ∷ rest

abbrev pub flash : NvsLib
flash = record {
  Flash = Store;
  nvs_flash_init = λ f. (f, esp_ok);
  nvs_flash_erase = λ f. ([], true);
  nvs_open = λ f space. true;
  nvs_get_str = λ f space k. lookup f k;
  nvs_set_str = λ f space k v. ((k, v) ∷ f, true);
  nvs_erase_key = λ f space k. (without f k, true);
  nvs_commit = λ f. (f, true);
  restart = λ f. f;
}

list_eq-ne : (j k : Bytes) → j ≢ k → list_eq j k ≡ false
list_eq-ne j k h = elim (Bool-cases (list_eq j k)) [
  | inl e ↦ absurd (h (list_eq→eq j k e))
  | inr e ↦ e
]

lookup-without : (f : Store) (k : Bytes) → lookup (without f k) k ≡ none
lookup-without [] k = refl
lookup-without ((j, v) ∷ r) k = elim (Bool-cases (list_eq k j)) [
  | inl e ↦ rw e (lookup-without r k)
  | inr e ↦ rw (e, e) (lookup-without r k)
]

lookup-without_other : (f : Store) (k j : Bytes) → j ≢ k → lookup (without f k) j ≡ lookup f j
lookup-without_other [] k j h = refl
lookup-without_other ((i, v) ∷ r) k j h = elim (Bool-cases (list_eq k i)) [
  | inl e ↦
      let other : list_eq j i ≡ false =
        list_eq-ne j i (λ same. h (same ∙ sym (list_eq→eq k i e))) in
      rw (e, other) (lookup-without_other r k j h)
  | inr e ↦ rw e (
      ap (λ (o : Option Bytes). if list_eq j i then some (v ++ (0 ∷ [])) else o)
        (lookup-without_other r k j h))
]

flash-IsNvs : IsNvs flash nvs_namespace
flash-IsNvs = record {
  get_set = λ f k v done. rw (list_eq_refl k) refl;
  get_set_other = λ f k j v h. rw (list_eq-ne j k h) refl;
  get_erase_other = λ f k j h. lookup-without_other f k j h;
  get_commit = λ f k done. refl;
}

pub flash-IsHealthy : IsHealthy flash nvs_namespace
flash-IsHealthy = record {
  laws = flash-IsNvs;
  opens = λ f. refl;
  sets = λ f k v. refl;
  commits = λ f. refl;
  erased = λ f k. lookup-without f k;
  inits = λ f. refl;
  init_keeps = λ f k. refl;
}

abbrev network : List WifiEvent → BootLib
network events = record {
  wifi = record {
    init_stack = true;
    wifi_init = true;
    set_mode = true;
    set_config = λ c. true;
    wifi_start = true;
    events = λ c. events;
  };
  portal_starts = true;
  i2c_bus = true;
  ring = true;
  audio = true;
  button = true;
}

abbrev station : WifiSta
station = record { tries = 0; connected = false; failed = false; connects = 0 }

abbrev form : Bytes
form = codes "ssid=home&psk=my+pw&backend=http%3A%2F%2Fb"

abbrev chunks : List Recv
chunks = got (codes "ssid=home&psk=my+") ∷ timeout ∷ got (codes "pw&backend=http%3A%2F%2Fb") ∷ []

form-ssid : form_get form (codes "ssid") ≡ some (codes "home")
unfolding form_get get_from match_pair find url_decode escaped hex_value
form-ssid = refl

form-backend : form_get form (codes "backend") ≡ some (codes "http://b")
unfolding form_get get_from match_pair find url_decode escaped hex_value
form-backend = refl

form-psk : value_or_empty (form_get form (codes "psk")) ≡ codes "my pw"
unfolding form_get get_from match_pair find url_decode escaped hex_value
form-psk = refl

chunks-Delivers : Delivers chunks form
chunks-Delivers = piece _ _ (late (piece _ _ done))

home-NoNul : NoNul (codes "home")
home-NoNul = (omega arith, (omega arith, (omega arith, (omega arith, tt))))

psk-NoNul : NoNul (value_or_empty (form_get form (codes "psk")))
psk-NoNul =
    subst NoNul (sym form-psk)
      (omega arith, (omega arith, (omega arith, (omega arith, (omega arith, tt)))))

backend-NoNul : NoNul (codes "http://b")
backend-NoNul = (
  omega arith,
  (
    omega arith,
    (omega arith, (omega arith, (omega arith, (omega arith, (omega arith, (omega arith, tt)))))),
  ),
)

abbrev up : BootLib
up = network (sta_start ∷ got_ip ∷ [])

provisioned-connects_example :
    ((handle_save (some (on_credentials flash)) [] (length form) chunks).1 ≡ restarted)
    × (decide_and_run flash up station
          (handle_save (some (on_credentials flash)) [] (length form) chunks).0
        ≡ connect_and_run flash up station
            (init_partition flash
              (handle_save (some (on_credentials flash)) [] (length form) chunks).0).0
            (saved_config flash flash-IsHealthy [] (record {
              ssid = codes "home";
              psk = value_or_empty (form_get form (codes "psk"));
              backend_url = codes "http://b";
            })))
provisioned-connects_example =
    provisioned-connects flash flash-IsHealthy up station [] chunks form (codes "home")
      (codes "http://b") chunks-Delivers (omega arith) form-ssid form-backend home-NoNul psk-NoNul
      backend-NoNul refl refl

abbrev down : BootLib
down = network []

abbrev home : Config
home = record {
  ssid = codes "home";
  psk = codes "my pw";
  backend = codes "http://b";
  hostname = codes "pipecat-voice";
}

handle_save-Unsaved_example :
    Unsaved flash [] (handle_save (some (on_credentials flash)) [] (length form) chunks)
handle_save-Unsaved_example = handle_save-Unsaved flash [] (length form) chunks
