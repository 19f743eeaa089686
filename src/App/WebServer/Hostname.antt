-- ===== src/App/WebServer/Hostname.antt =====
-- Which host names are taken, and that a boot finds the one that was set.
use pipecat_voice_assistant.Prelude.{
  ℕ, suc, ◌+◌, ◌-◌, ◌≤◌, ◌≡◌, ◌≢◌, ◌↔◌, refl, ap, ◌∙◌, Bool, true, false, not, ◌&&◌, ◌||◌, ◌⊎◌, inl,
  inr, Option, none, some, [], ◌∷◌, Bytes, leb, ◌==◌, length, All, if_elim, arith, codes,
}
use pipecat_voice_assistant.App.WebServer.Console.{
  Query, valid_from, valid_hostname, Named, HostnameResponse, hostname_ok, bad_hostname,
  set_hostname, answer_hostname, handle_hostname, value_in,
}
use pipecat_voice_assistant.Hal.NvsKv.{NvsLib, get_str, set_str, commit}
use pipecat_voice_assistant.Hal.NvsKv.Laws.{NoNul, c_str-NoNul, IsHealthy}
use pipecat_voice_assistant.Boot.{
  nvs_namespace, nvs_key_hostname, Config, is_empty, load_config, credentials_of, nonempty_or,
  default_hostname,
}
use pipecat_voice_assistant.Boot.Stored.{load_config-config_of, stored-set_str, stored-commit}

-- A lower-case letter, a digit or a dash.
abbrev pub IsLabelByte : ℕ → Type 0
IsLabelByte c = ((b'a' ≤ c) × (c ≤ b'z')) ⊎ ((b'0' ≤ c) × (c ≤ b'9')) ⊎ (c ≡ b'-')

abbrev pub starts_with_dash : Bytes → Bool
starts_with_dash [] = false
starts_with_dash (c ∷ r) = c == b'-'

abbrev pub ends_with_dash : Bytes → Bool
ends_with_dash [] = false
ends_with_dash (c ∷ []) = c == b'-'
ends_with_dash (c ∷ d ∷ r) = ends_with_dash (d ∷ r)

pub record IsHostname (s : Bytes) : Type 0 where
  pub nonempty : 1 ≤ length s
  pub short : length s ≤ 32
  pub bytes : All IsLabelByte s
  pub first : starts_with_dash s ≡ false
  pub last : ends_with_dash s ≡ false

abbrev label_byte : ℕ → Bool
label_byte c = (leb b'a' c && leb c b'z') || (leb b'0' c && leb c b'9') || (c == b'-')

label_byte_iff : (c : ℕ) → (label_byte c ≡ true) ↔ IsLabelByte c
label_byte_iff c = ground arith

valid_from-cons :
    (n i c : ℕ) (r : Bytes)
    → valid_from n i (c ∷ r)
      ≡ label_byte c && (not ((c == b'-') && ((i == 0) || (i == n - 1))) && valid_from n (suc i) r)
unfolding valid_from
valid_from-cons n i c r = ground arith

not_nul : (c : ℕ) → IsLabelByte c → c ≢ 0
not_nul c (inl (a, b)) = omega arith
not_nul c (inr (inl (a, b))) = omega arith
not_nul c (inr (inr e)) = omega arith

-- The loop behind the first byte.
valid_from-later :
    (n i : ℕ) (s : Bytes)
    → 1 ≤ i
    → i + length s ≡ n
    → (valid_from n i s ≡ true) ↔ (All IsLabelByte s × (ends_with_dash s ≡ false))
valid_from-later n i [] hi hn = unfold valid_from in (λ e. (tt, refl), λ h. refl)
valid_from-later n i (c ∷ []) hi hn =
    let end : valid_from n (suc i) [] ≡ true = unfold valid_from in refl in
    (
      λ e. ground (arith, valid_from-cons n i c [], end),
      λ h. ground (arith, valid_from-cons n i c [], end),
    )
valid_from-later n i (c ∷ d ∷ r) hi hn =
    let later = valid_from-later n (suc i) (d ∷ r) (omega arith) (omega arith) in
    (
      λ e. ground (arith, valid_from-cons n i c (d ∷ r)),
      λ h. ground (arith, valid_from-cons n i c (d ∷ r)),
    )

valid_from-whole :
    (n : ℕ) (s : Bytes)
    → 1 ≤ length s
    → length s ≡ n
    → (valid_from n 0 s ≡ true)
      ↔ (All IsLabelByte s × (starts_with_dash s ≡ false) × (ends_with_dash s ≡ false))
valid_from-whole n [] h e = absurd (omega arith)
valid_from-whole n (c ∷ []) h e =
    let end : valid_from n 1 [] ≡ true = unfold valid_from in refl in
    (
      λ e. ground (arith, valid_from-cons n 0 c [], end),
      λ h. ground (arith, valid_from-cons n 0 c [], end),
    )
valid_from-whole n (c ∷ d ∷ r) h e =
    let later = valid_from-later n 1 (d ∷ r) (omega arith) (omega arith) in
    (
      λ e. ground (arith, valid_from-cons n 0 c (d ∷ r)),
      λ h. ground (arith, valid_from-cons n 0 c (d ∷ r)),
    )

-- A host name is taken exactly when it has 1 to 32 bytes, all of them lower-case letters, digits or
-- dashes, and neither starts nor ends with a dash.
pub valid_hostname_iff : (s : Bytes) → (valid_hostname s ≡ true) ↔ IsHostname s
unfolding valid_hostname
valid_hostname_iff s = (
  λ e.
      let within : (1 ≤ length s) × (length s ≤ 32) × (valid_from (length s) 0 s ≡ true) =
        ground arith in
      let (b, f, l) = (valid_from-whole (length s) s within.0 refl).0 within.2 in
      record { nonempty = within.0; short = within.1; bytes = b; first = f; last = l },
  λ h.
      let loop = (valid_from-whole (length s) s h.nonempty refl).1 (h.bytes, h.first, h.last) in
      ground (arith, h.nonempty, h.short, loop),
)

label-NoNul : (s : Bytes) → All IsLabelByte s → NoNul s
label-NoNul [] h = tt
label-NoNul (c ∷ r) (hc, hr) = (not_nul c hc, label-NoNul r hr)

credentials_of-hostname :
    (s b p : Option Bytes) (hostname : Bytes) → (credentials_of s b p hostname).hostname ≡ hostname
unfolding credentials_of
credentials_of-hostname none b p hostname = refl
credentials_of-hostname (some s) none p hostname = refl
credentials_of-hostname (some s) (some b) p hostname =
    if_elim (λ (c : Config). c.hostname ≡ hostname) (not (is_empty s) && not (is_empty b))
      (λ _. refl) (λ _. refl)

nonempty_or-name :
    (name : Bytes) → 1 ≤ length name → nonempty_or default_hostname (some name) ≡ name
nonempty_or-name [] h = absurd (omega arith)
nonempty_or-name (c ∷ r) h = refl

-- The name that a request gives, if its query and the name fit their buffers.
abbrev pub name_in : Query → Option Bytes → Option Bytes
name_in req none = none
name_in req (some q) = req.query_key_value q (codes "name") 40

module _ (lib : NvsLib) (mdns_set : Bytes → Bool) (ok : IsHealthy lib nvs_namespace) where
  open lib use {Flash, restart}

  load_config-hostname :
      (f : Flash)
      → (load_config lib f).hostname
        ≡ nonempty_or default_hostname (get_str lib f nvs_namespace nvs_key_hostname)
  load_config-hostname f =
      ap (λ (c : Config). c.hostname) (load_config-config_of lib ok f)
      ∙ credentials_of-hostname _ _ _ _

  -- The name is taken: the next boot has it, and mDNS answers to it if it took it.
  abbrev pub Takes : Named Flash → Bytes → Named Flash → Type 0
  Takes d name d' =
      (mdns_set name ≡ true → d'.mdns_hostname ≡ name)
      × (mdns_set name ≡ false → d'.mdns_hostname ≡ d.mdns_hostname)
      × ((load_config lib (restart d'.flash)).hostname ≡ name)

  abbrev pub Refuses : Named Flash → Named Flash × HostnameResponse → Type 0
  Refuses d r = (r.0 ≡ d) × (r.1 ≡ bad_hostname)

  abbrev pub Answers : Named Flash → Option Bytes → Named Flash × HostnameResponse → Type 0
  Answers d none r = Refuses d r
  Answers d (some name) r =
      (IsHostname name → (r.1 ≡ hostname_ok) × Takes d name r.0)
      × ((IsHostname name → ⊥) → Refuses d r)

  set_hostname-Takes :
      (d : Named Flash) (name : Bytes)
      → IsHostname name
      → Takes d name (set_hostname lib mdns_set d name)
  unfolding set_hostname
  set_hostname-Takes d name h =
      let f' = (set_str lib d.flash nvs_namespace nvs_key_hostname name).0 in
      let no_nul = label-NoNul name h.bytes in
      rw (c_str-NoNul name no_nul) (
        λ e. rw e refl,
        λ e. rw e refl,
        rw (ok.opens d.flash) (
            load_config-hostname (restart (commit lib f').0)
            ∙ ap (nonempty_or default_hostname) (
                stored-commit lib ok f' nvs_key_hostname
                ∙ stored-set_str lib ok d.flash nvs_key_hostname name no_nul)
            ∙ nonempty_or-name name h.nonempty),
      )

  named-Answers :
      (d : Named Flash) (o : Option Bytes) → Answers d o (answer_hostname lib mdns_set d o)
  unfolding answer_hostname
  named-Answers d none = (refl, refl)
  named-Answers d (some name) = (
    λ h.
        if_elim (λ (r : Named Flash × HostnameResponse). (r.1 ≡ hostname_ok) × Takes d name r.0)
          (valid_hostname name) (λ _. (refl, set_hostname-Takes d name h))
          (λ wrong. let right = (valid_hostname_iff name).1 h in cc),
    λ h.
        if_elim (Refuses d) (valid_hostname name)
          (λ right. absurd (h ((valid_hostname_iff name).0 right))) (λ _. (refl, refl)),
  )

  answer_hostname-Answers :
      (req : Query) (d : Named Flash) (query : Option Bytes)
      → Answers d
          (name_in req query)
          (answer_hostname lib mdns_set d (value_in req query (codes "name") 40))
  answer_hostname-Answers req d none = unfold answer_hostname in (refl, refl)
  answer_hostname-Answers req d (some q) = named-Answers d (req.query_key_value q (codes "name") 40)

  -- A request whose name is a host name is stored: on a store whose calls succeed the next boot's
  -- configuration has the name, and mDNS answers to it exactly if it took it, else to the one it had.
  -- Any other request, without a name or with another one, is refused and changes nothing.
  pub handle_hostname-stores :
      (req : Query) (d : Named Flash)
      → Answers d (name_in req (req.url_query_str 96)) (handle_hostname lib mdns_set req d)
  unfolding handle_hostname
  handle_hostname-stores req d = answer_hostname-Answers req d (req.url_query_str 96)
