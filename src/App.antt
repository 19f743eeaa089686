-- ===== src/App.antt =====
-- The application of firmware/components/pv_app: the session that drives the connection, and the
-- rings and the LED arbiter it uses.
pub mod DropRing
pub mod Ui
pub mod Session
pub mod WebServer
