-- ===== src/Boot/SavedPage.antt =====
-- When the page that confirms the saving is sent.
use pipecat_voice_assistant.Prelude.{
  ℕ, ◌≡◌, refl, Bool, false, Option, none, some, List, if◌then◌else◌, if_elim,
}
use pipecat_voice_assistant.Hal.NvsKv.{NvsLib}
use pipecat_voice_assistant.Hal.SoftapPortal.{
  Recv, Received, whole, incomplete, waiting, receive, WifiCredentials, SaveResponse, saved,
  restarted, too_large, tell, save_credentials, save_received, handle_save,
}
use pipecat_voice_assistant.Boot.{nvs_namespace, on_credentials}

module _ (lib : NvsLib) where
  open lib use {Flash, nvs_open}

  -- If the page is the answer, nothing was saved.
  abbrev pub Unsaved : Flash → Flash × SaveResponse → Type 0
  Unsaved f r = r.1 ≡ saved → (nvs_open f nvs_namespace ≡ false) × (r.0 ≡ f)

  save_credentials-Unsaved :
      (f : Flash) (c : Option WifiCredentials)
      → Unsaved f (save_credentials (some (on_credentials lib)) f c)
  unfolding save_credentials tell on_credentials
  save_credentials-Unsaved f none = λ e. cc
  save_credentials-Unsaved f (some c) =
      if_elim (λ (r : Flash × Bool). Unsaved f (r.0, if r.1 then restarted else saved))
        (nvs_open f nvs_namespace) (λ _ e. cc) (λ closed e. (closed, refl))

  save_received-Unsaved :
      (f : Flash) (r : Received) → Unsaved f (save_received (some (on_credentials lib)) f r)
  unfolding save_received
  save_received-Unsaved f (whole body) = save_credentials-Unsaved f _
  save_received-Unsaved f incomplete = λ e. cc
  save_received-Unsaved f waiting = λ e. cc

  -- The page that says that the settings are saved is sent only when the store could not be opened
  -- and so nothing was: after a successful save the callback restarts before the answer.
  pub handle_save-Unsaved :
      (f : Flash) (content_len : ℕ) (chunks : List Recv)
      → Unsaved f (handle_save (some (on_credentials lib)) f content_len chunks)
  unfolding handle_save
  handle_save-Unsaved f content_len chunks =
      if_elim (Unsaved f) (too_large content_len) (λ _ e. cc)
        (λ _. save_received-Unsaved f (receive content_len _ chunks))
