-- ===== src/Lib.antt =====
-- The voice assistant's firmware (firmware/components): a device that listens for a wake word,
-- opens a WebRTC session to its backend for one conversation, streams the microphone to it as
-- G.722, plays the answers, shows its state on an LED ring, and closes the session again.
--
-- The parts and their files:
-- - Domain: firmware/components/pv_domain, the pure functions. Domain/SessionFsm (session_fsm.cpp,
--   `SessionFsm::onEvent` is `on_event`), Domain/LedFsm (led_fsm.cpp, `resolveLedState` is
--   `resolve_led_state`), Domain/EnergyGate (energy_gate.cpp), Domain/G711 (g711.hpp), Domain/G722
--   (g722.cpp; Tables, Band with `block4`, Codec with `g722_encode` and `g722_decode`),
--   Domain/FormUrlencoded (form_urlencoded.cpp), Domain/WakeWindow (wake_window.cpp).
-- - App: firmware/components/pv_app. App/DropRing models the two rings of `captureTask` in
--   session.cpp, App/Ui the arbiter of ui.cpp, and App/Session the class of session.cpp: its fields
--   and the callbacks of libpeer (`onPeerState`, `onInboundAudio`, `onLocalSdp`); App/Session/Main
--   `buildAndOffer` and an iteration of `mainLoopTask` with `Peer::tick` of
--   pv_transport/src/peer.cpp; App/Session/Capture an iteration of `captureTask`, split at its lock;
--   App/Session/Steps the interleaving of the two loops; App/Session/Playback an iteration of
--   `playbackTask`; App/Session/Wav `makeWav`; App/Session/Upload an iteration of `uploadTask`.
--   App/WebServer models web_server.cpp: LogStream the log hook and its clients, Console the LED and
--   host name handlers, Ota the firmware upload.
-- - WakeWord: firmware/components/wake_word/wake_word.cc; its window here, `wake_word_process` in
--   WakeWord/Process, `wake_word_init` in WakeWord/Init.
-- - Hal: firmware/components/pv_hal. Hal/NvsKv models nvs_kv.cpp, Hal/WifiSta wifi_sta.cpp,
--   Hal/SoftapPortal the form handler of softap_portal.cpp, Hal/HttpsClient https_client.cpp,
--   Hal/Xvf3800 the frames of xvf3800.cpp.
-- - Transport: firmware/components/pv_transport. Transport/Signaling models signaling.cpp,
--   Transport/WakeEngine models wake_engine.cpp, and Transport/Peer what peer.cpp owns and calls.
-- - Boot: firmware/main/main.cpp, `decideAndRun` over the settings store, with the callback of the
--   portal and the wipe; a boot ends in a restart, in the portal, or with the session running.
-- - Prelude: Boolean tests, lists, signed integers, casts and bit operations that they share.
--
-- How code becomes a definition. A fixed-width integer is a number, or an integer where it is
-- signed, with its casts written out; a tick is a uint32_t and is subtracted with its wrap. A
-- mutable object is a record that an operation takes and returns. A loop is structural recursion,
-- or recursion on fuel where it walks an index: `get_from` of FormUrlencoded has one more than the
-- length of the body as fuel, each round takes at least one character, and its refinement theorem
-- shows that this is enough. The floats of the wake window are a parameter with no laws. FreeRTOS
-- (`pdMS_TO_TICKS` and the stream buffer) is the record `Platform`. What libpeer, the signaling
-- server, the wake engine and the mute button do is the input of a step. The methods that hold a
-- lock from start to end are single steps; an iteration of the main loop is one step, and an
-- iteration of the microphone loop two, so writes of one loop between two reads of the other
-- within a step are not in the model.
--
-- ESP-IDF, TensorFlow Lite and the microfrontend are records of functions (`NvsLib`, `WifiLib`,
-- `OtaLib`, `WakeLib`, `HttpLib`, `JsonLib`), with no laws but those that a theorem names: `IsNvs`
-- and `IsHealthy` for the settings store, `ReadsWithin` for the frontend, `SendsIntoRoom` for the
-- stream buffer of the log. What a socket delivers is a list of results of httpd_req_recv. The loop
-- of `wake_word_process` runs on one round for each sample, which is enough since a round that
-- consumes none ends it.
--
-- Not modelled: libpeer (firmware/components/libpeer), a copy of that library; the microfrontend,
-- likewise, and the generated model data; the drivers for audio, the button, mDNS and SNTP and the
-- text of diagnostics, which are I/O; the gain limiter and the tone synthesis, which are floating
-- point.
pub mod Prelude
pub mod Domain
pub mod App
pub mod WakeWord
pub mod Hal
pub mod Transport
pub mod Boot
