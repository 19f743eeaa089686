-- ===== src/Hal/NvsKv/Laws.antt =====
-- What the code relies on of ESP-IDF's NVS, and the settings store on top of it.
use pipecat_voice_assistant.Prelude.{
  ℕ, ◌≡◌, ◌≢◌, refl, sym, ap, ◌∙◌, true, false, none, some, [], ◌∷◌, ◌++◌, Bytes, All, list_eq,
  list_eq_refl, arith,
}
use pipecat_voice_assistant.Hal.NvsKv.{NvsLib, esp_ok, c_str, pop_terminator, read_str}

abbrev pub NoNul : Bytes → Type 0
NoNul s = All (λ (c : ℕ). c ≢ 0) s

pub c_str-NoNul : (s : Bytes) → NoNul s → c_str s ≡ s
unfolding c_str
c_str-NoNul [] h = refl
c_str-NoNul (c ∷ r) (hc, hr) = ground (arith, c_str-NoNul r hr)

pop_terminator-append : (s : Bytes) → pop_terminator (s ++ (0 ∷ [])) ≡ s
unfolding pop_terminator
pop_terminator-append [] = refl
pop_terminator-append (c ∷ []) = refl
pop_terminator-append (c ∷ d ∷ r) = ap (λ t. c ∷ t) (pop_terminator-append (d ∷ r))

pub read_str-append : (s : Bytes) → read_str (some (s ++ (0 ∷ []))) ≡ some s
unfolding read_str pop_terminator
read_str-append [] = refl
read_str-append (c ∷ r) = ap (λ t. some t) (pop_terminator-append (c ∷ r))

-- The documented behaviour of NVS within one namespace, for calls that report success.
pub record IsNvs (lib : NvsLib) (space : Bytes) : Type 0 where
  pub get_set :
      (f : lib.Flash) (k v : Bytes)
      → (lib.nvs_set_str f space k v).1 ≡ true
      → lib.nvs_get_str (lib.nvs_set_str f space k v).0 space k ≡ some (v ++ (0 ∷ []))
  pub get_set_other :
      (f : lib.Flash) (k j v : Bytes)
      → j ≢ k
      → lib.nvs_get_str (lib.nvs_set_str f space k v).0 space j ≡ lib.nvs_get_str f space j
  pub get_erase_other :
      (f : lib.Flash) (k j : Bytes)
      → j ≢ k
      → lib.nvs_get_str (lib.nvs_erase_key f space k).0 space j ≡ lib.nvs_get_str f space j
  -- What was committed is found after a restart.
  pub get_commit :
      (f : lib.Flash) (k : Bytes)
      → (lib.nvs_commit f).1 ≡ true
      → lib.nvs_get_str (lib.restart (lib.nvs_commit f).0) space k ≡ lib.nvs_get_str f space k

-- A partition whose calls all succeed. Erasing a key that is not there is an error that leaves it so.
pub record IsHealthy (lib : NvsLib) (space : Bytes) : Type 0 where
  pub laws : IsNvs lib space
  pub opens : (f : lib.Flash) → lib.nvs_open f space ≡ true
  pub sets : (f : lib.Flash) (k v : Bytes) → (lib.nvs_set_str f space k v).1 ≡ true
  pub commits : (f : lib.Flash) → (lib.nvs_commit f).1 ≡ true
  pub erased :
      (f : lib.Flash) (k : Bytes) → lib.nvs_get_str (lib.nvs_erase_key f space k).0 space k ≡ none
  pub inits : (f : lib.Flash) → (lib.nvs_flash_init f).1 ≡ esp_ok
  pub init_keeps :
      (f : lib.Flash) (k : Bytes)
      → lib.nvs_get_str (lib.nvs_flash_init f).0 space k ≡ lib.nvs_get_str f space k

pub list_eq-false : (a b : Bytes) → list_eq a b ≡ false → a ≢ b
list_eq-false a b h e =
    let same : list_eq a b ≡ true = ap (λ (t : Bytes). list_eq a t) (sym e) ∙ list_eq_refl a in cc
