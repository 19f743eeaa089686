-- ===== src/App/WebServer.antt =====
-- The web console, firmware/components/pv_app/src/web_server.cpp: `LogStream` the log line hook and
-- the slots of the WebSocket clients, `Console` the handlers that set the LED and the host name,
-- `Ota` the firmware upload.
pub mod LogStream
pub mod Console
pub mod Ota
mod Slots
mod Lines
mod Hostname
mod Flashing
mod Tests
