-- ===== src/App/WebServer/Tests.antt =====
-- Requests to the web console, and the theorems applied to them.
use pipecat_voice_assistant.Prelude.{
  ◌+◌, ◌-◌, ◌≤◌, ◌≡◌, ◌++◌, refl, Bool, true, false, ◌&&◌, none, some, List, [], ◌∷◌, Bytes,
  if◌then◌else◌, codes, length, replicate, take, arith,
}
use pipecat_voice_assistant.Prelude.Int.{pos, negsuc}
use pipecat_voice_assistant.Domain.LedFsm.{LedState}
use pipecat_voice_assistant.Hal.SoftapPortal.{Recv, timeout, got}
use pipecat_voice_assistant.Hal.SoftapPortal.Receiving.{done, late, piece}
use pipecat_voice_assistant.Boot.Tests.{flash, flash-IsHealthy}
use pipecat_voice_assistant.App.WebServer.LogStream.{
  no_clients, holds_fd, ws_add_client, fill_free, ws_send_work, ws_remove_client, log_broadcast,
  log_vprintf,
}
use pipecat_voice_assistant.App.WebServer.Lines.{streamed, log_vprintf-line}
use pipecat_voice_assistant.App.WebServer.Slots.{
  SlotStep, connect, sends, slot_steps, IsDistinct, queued_for, slot_steps-log_broadcast,
}
use pipecat_voice_assistant.App.WebServer.Console.{
  Query, valid_hostname, valid_from, Named, handle_hostname,
}
use pipecat_voice_assistant.App.WebServer.Hostname.{Answers, handle_hostname-stores}
use pipecat_voice_assistant.App.WebServer.Ota.{OtaLib, end_ok, Device, handle_ota, updated}
use pipecat_voice_assistant.App.WebServer.Flashing.{flashing_ui, handle_ota-Delivers}

abbrev handshakes : List SlotStep
handshakes = connect 54 ∷ connect 55 ∷ connect 54 ∷ sends 55 false ∷ connect 56 ∷ []

slots_used : slot_steps no_clients handshakes ≡ pos 54 ∷ pos 56 ∷ negsuc 0 ∷ negsuc 0 ∷ []
unfolding ws_add_client fill_free holds_fd ws_send_work ws_remove_client
slots_used = refl

slot_steps-log_broadcast_example :
    IsDistinct (slot_steps no_clients handshakes)
    × (queued_for 56 (log_broadcast (λ fd. true) (slot_steps no_clients handshakes) (codes "wake!"))
        ≡ (if holds_fd (slot_steps no_clients handshakes) (pos 56) && true then 1 else 0))
slot_steps-log_broadcast_example =
    slot_steps-log_broadcast (λ fd. true) handshakes 56 (codes "wake!")

abbrev long_line : Bytes
long_line = replicate 300 b'a'

-- A stream buffer of 8192 bytes.
abbrev log_send : Bytes → Bytes → Bytes
log_send buffered bytes = buffered ++ take (8192 - length buffered) bytes

log_vprintf-line_example :
    (log_vprintf log_send (some (codes "boot")) long_line
      ≡ some (codes "boot" ++ take 8188 (streamed long_line)))
    × (length (codes "boot") + length (streamed long_line) ≤ 8192
        → log_vprintf log_send (some (codes "boot")) long_line
          ≡ some (codes "boot" ++ streamed long_line))
    × (log_vprintf log_send none long_line ≡ none)
log_vprintf-line_example = log_vprintf-line 8192 log_send (codes "boot") long_line (λ _ _. refl)

dashed : valid_hostname (codes "-kitchen") ≡ false
unfolding valid_hostname valid_from
dashed = refl

abbrev request : Query
request = record {
  url_query_str = λ size. some (codes "name=room-2");
  query_key_value = λ q key size. some (codes "room-2");
  atoi = λ v. pos 0;
}

abbrev named : Named (List (Bytes × Bytes))
named = record { mdns_hostname = codes "pipecat-voice"; flash = [] }

abbrev mdns_set : Bytes → Bool
mdns_set name = true

handle_hostname-stores_example :
    Answers flash mdns_set flash-IsHealthy named
      (some (codes "room-2"))
      (handle_hostname flash mdns_set request named)
handle_hostname-stores_example = handle_hostname-stores flash mdns_set flash-IsHealthy request named

abbrev device : Device
device = record {
  ui = record {
    last_pushed = LedState.off;
    hold_until_us = pos 0;
    override_until_us = pos 0;
    force = false;
    ring = [];
  };
  image = [];
  switched = false;
  rebooting = false;
}

abbrev slot : OtaLib
slot = record {
  next_partition = true;
  begins = true;
  writes = λ image bytes. true;
  ends = λ image. end_ok;
  set_boot_partition = λ image. true;
  reboot_task = true;
}

abbrev pieces : List Recv
pieces = got (1 ∷ 2 ∷ []) ∷ timeout ∷ got (3 ∷ []) ∷ []

handle_ota-Delivers_example : handle_ota slot device (pos 5) 3 pieces ≡ (
  record device {
    ui = flashing_ui device.ui (pos 5);
    image = 1 ∷ 2 ∷ 3 ∷ [];
    switched = true;
    rebooting = true;
  },
  updated,
)
handle_ota-Delivers_example =
    handle_ota-Delivers slot device (pos 5) pieces (1 ∷ 2 ∷ 3 ∷ [])
      (piece 1 (2 ∷ []) (late (piece 3 [] done))) (omega arith) refl refl (refl, (refl, tt)) refl
      refl refl
