-- ===== src/App/WebServer/Ota.antt =====
-- The firmware upload of web_server.cpp. ESP-IDF's update functions are the record `OtaLib`, over the
-- image that has been written to the inactive partition; httpd_req_recv is a list of its results,
-- whose end is an upload that is still waited on.
use pipecat_voice_assistant.Prelude.{
  ℕ, ◌-◌, Bool, true, not, List, [], ◌∷◌, ◌++◌, Bytes, if◌then◌else◌, ltb, length,
}
use pipecat_voice_assistant.Prelude.Int.{ℤ, pos}
use pipecat_voice_assistant.App.Ui.{Ui, rainbow, override_effect, resume_auto}
use pipecat_voice_assistant.Hal.SoftapPortal.{Recv, timeout, error, got, to_int}

pub data OtaEnd : Type 0 where
  end_ok validate_failed end_failed : OtaEnd

pub record OtaLib : Type 0 where
  -- esp_ota_get_next_update_partition is not null, and esp_ota_begin succeeds.
  pub next_partition : Bool
  pub begins : Bool
  -- esp_ota_write of more bytes behind an image succeeds.
  pub writes : Bytes → Bytes → Bool
  pub ends : Bytes → OtaEnd
  pub set_boot_partition : Bytes → Bool
  -- xTaskCreate of `ota_reboot_task`, whose result the handler ignores.
  pub reboot_task : Bool

-- The LED, what the inactive partition holds, the boot partition's image if it was switched, and
-- whether the restart is under way.
pub record Device : Type 0 where
  pub ui : Ui
  pub image : Bytes
  pub switched : Bool
  pub rebooting : Bool

pub data OtaResponse : Type 0 where
  no_partition begin_failed upload_failed invalid_image end_refused set_boot_failed updated
        still_uploading :
      OtaResponse

pub data Uploaded : Type 0 where
  complete : Bytes → Uploaded
  broken : Bytes → Uploaded
  uploading : Bytes → Uploaded

-- `remaining` as an int that is not positive uploads nothing.
abbrev pub positive_part : ℤ → ℕ
positive_part (pos n) = n
positive_part _ = 0

module _ (lib : OtaLib) where
  open lib use {next_partition, begins, writes, ends, set_boot_partition, reboot_task}

  -- The loop `while (remaining > 0)`.
  unfoldable pub upload : ℕ → Bytes → List Recv → Uploaded
  upload remaining image [] = if ltb 0 remaining then uploading image else complete image
  upload remaining image (timeout ∷ r) =
      let later = upload remaining image r in if ltb 0 remaining then later else complete image
  upload remaining image (error ∷ r) = if ltb 0 remaining then broken image else complete image
  upload remaining image (got [] ∷ r) = if ltb 0 remaining then broken image else complete image
  upload remaining image (got (c ∷ cs) ∷ r) =
      let later = upload (remaining - length (c ∷ cs)) (image ++ (c ∷ cs)) r in
      if not (ltb 0 remaining)
      then complete image
      else if writes image (c ∷ cs)
      then later
      else broken image

  -- esp_ota_end and what follows it.
  unfoldable pub finish : Device → OtaEnd → Device × OtaResponse
  finish d validate_failed = (record d { ui = resume_auto d.ui }, invalid_image)
  finish d end_failed = (record d { ui = resume_auto d.ui }, end_refused)
  finish d end_ok =
      if set_boot_partition d.image
      then (
        record d { switched = true; rebooting = if reboot_task then true else d.rebooting },
        updated,
      )
      else (record d { ui = resume_auto d.ui }, set_boot_failed)

  unfoldable pub after_upload : Device → Uploaded → Device × OtaResponse
  after_upload d (complete image) = finish (record d { image = image }) (ends image)
  after_upload d (broken image) = (record d { image = image; ui = resume_auto d.ui }, upload_failed)
  after_upload d (uploading image) = (record d { image = image }, still_uploading)

  unfoldable pub handle_ota : Device → ℤ → ℕ → List Recv → Device × OtaResponse
  handle_ota d now content_len chunks =
      let shown = record d {
        ui = override_effect d.ui rainbow (record { r = 0; g = 0; b = 0 }) 128 64 (pos 120000) now;
        image = [];
      } in
      if not next_partition
      then (d, no_partition)
      else if not begins
      then (d, begin_failed)
      else after_upload shown (upload (positive_part (to_int content_len)) [] chunks)
