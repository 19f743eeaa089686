-- ===== src/Transport.antt =====
-- The transport of firmware/components/pv_transport that the session uses. The state of the peer as
-- the session sees it is in App/Session; what the peer owns and calls is in Transport/Peer.
pub mod Peer
pub mod Signaling
pub mod WakeEngine
