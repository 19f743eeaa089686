-- ===== src/App/WebServer/Flashing.antt =====
-- What an upload leaves of the device.
use pipecat_voice_assistant.Prelude.{
  ℕ, ◌-◌, ◌^◌, ◌<◌, ◌≡◌, refl, ap, ◌∙◌, true, false, not, List, [], ◌∷◌, ◌++◌, Bytes, ltb, length,
  length-append, append_assoc, append-nil, if_elim, arith,
}
use pipecat_voice_assistant.Prelude.Int.{ℤ, pos}
use pipecat_voice_assistant.App.Ui.{Ui, rainbow, override_effect, resume_auto}
use pipecat_voice_assistant.Hal.SoftapPortal.{Recv, timeout, error, got, to_int}
use pipecat_voice_assistant.Hal.SoftapPortal.Receiving.{Delivers, done, late, piece}
use pipecat_voice_assistant.App.WebServer.Ota.{
  end_ok, OtaLib, Device, OtaResponse, no_partition, begin_failed, upload_failed, invalid_image,
  end_refused, set_boot_failed, updated, still_uploading, Uploaded, complete, upload, finish,
  after_upload, positive_part, handle_ota,
}

-- The LED while the upload runs.
abbrev pub flashing_ui : Ui → ℤ → Ui
flashing_ui ui now =
    override_effect ui rainbow (record { r = 0; g = 0; b = 0 }) 128 64 (pos 120000) now

-- A failed upload keeps the running image and gives the LED back.
abbrev pub Refused : Device → ℤ → Device → Type 0
Refused d now d' =
    (d'.rebooting ≡ d.rebooting)
    × (d'.switched ≡ d.switched)
    × (d'.ui ≡ resume_auto (flashing_ui d.ui now))

-- What an answer says of the device: `updated` that ESP-IDF accepted the image and boots it next, and
-- that the restart is under way if its task was created; an upload that failed gives the LED back.
abbrev pub Settled : OtaLib → Device → ℤ → Device × OtaResponse → Type 0
Settled lib d now (d', updated) =
    (lib.reboot_task ≡ true → d'.rebooting ≡ true)
    × (lib.reboot_task ≡ false → d'.rebooting ≡ d.rebooting)
    × (d'.switched ≡ true)
    × (lib.ends d'.image ≡ end_ok)
    × (lib.set_boot_partition d'.image ≡ true)
    × (d'.ui ≡ flashing_ui d.ui now)
Settled lib d now (d', still_uploading) =
    (d'.rebooting ≡ d.rebooting) × (d'.switched ≡ d.switched) × (d'.ui ≡ flashing_ui d.ui now)
Settled lib d now (d', no_partition) = d' ≡ d
Settled lib d now (d', begin_failed) = d' ≡ d
Settled lib d now (d', upload_failed) = Refused d now d'
Settled lib d now (d', invalid_image) = Refused d now d'
Settled lib d now (d', end_refused) = Refused d now d'
Settled lib d now (d', set_boot_failed) = Refused d now d'

module _ (lib : OtaLib) where
  abbrev shown : Device → ℤ → Bytes → Device
  shown d now image = record d { ui = flashing_ui d.ui now; image = image }

  -- The partition takes every piece of this body behind what it holds.
  abbrev pub Takes : Bytes → List Recv → Type 0
  Takes image [] = Unit
  Takes image (timeout ∷ r) = Takes image r
  Takes image (error ∷ r) = ⊥
  Takes image (got bytes ∷ r) = (lib.writes image bytes ≡ true) × Takes (image ++ bytes) r

  all_written :
      (image body : Bytes) → ltb 0 (length body) ≡ false → complete image ≡ complete (image ++ body)
  all_written image [] h = rw (append-nil image) refl
  all_written image (c ∷ r) h = absurd (ground arith)

  upload-Delivers :
      {chunks : List Recv} {body : Bytes} (image : Bytes)
      → Delivers chunks body
      → Takes image chunks
      → upload lib (length body) image chunks ≡ complete (image ++ body)
  unfolding upload
  upload-Delivers image done h = rw (append-nil image) (ground arith)
  upload-Delivers image (late {chunks} {body} d) h =
      if_elim (λ (u : Uploaded). u ≡ complete (image ++ body)) (ltb 0 (length body))
        (λ _. upload-Delivers image d h) (all_written image body)
  upload-Delivers image (piece {chunks} {body} c cs d) (w, h) =
      let left : length ((c ∷ cs) ++ body) - length (c ∷ cs) ≡ length body =
        omega (arith, length-append cs body) in
      if_elim (λ (u : Uploaded). u ≡ complete (image ++ (c ∷ (cs ++ body))))
        (not (ltb 0 (length ((c ∷ cs) ++ body)))) (λ none. absurd (ground arith))
        (λ _.
          if_elim (λ (u : Uploaded). u ≡ complete (image ++ (c ∷ (cs ++ body))))
            (lib.writes image (c ∷ cs))
            (λ _.
              ap (λ (n : ℕ). upload lib n (image ++ (c ∷ cs)) chunks) left
              ∙ upload-Delivers (image ++ (c ∷ cs)) d h
              ∙ ap (λ (b : Bytes). complete b) (append_assoc image (c ∷ cs) body))
            (λ no_room. cc))

  -- An image below 2 GiB that arrives whole, in any pieces and with any time-outs, and that the
  -- partition takes and ESP-IDF accepts, is what the device restarts into, if the task that restarts
  -- it can be created.
  pub handle_ota-Delivers :
      (d : Device) (now : ℤ) (chunks : List Recv) (body : Bytes)
      → Delivers chunks body
      → length body < 2 ^ 31
      → lib.next_partition ≡ true
      → lib.begins ≡ true
      → Takes [] chunks
      → lib.ends body ≡ end_ok
      → lib.set_boot_partition body ≡ true
      → lib.reboot_task ≡ true
      → handle_ota lib d now (length body) chunks ≡ (
        record d { ui = flashing_ui d.ui now; image = body; switched = true; rebooting = true },
        updated,
      )
  unfolding handle_ota after_upload finish upload override_effect
  handle_ota-Delivers d now chunks body whole small p b t e s r =
      let count : positive_part (to_int (length body)) ≡ length body = ground arith in
      rw (p, b, count, upload-Delivers [] whole t, e, s, r) refl
