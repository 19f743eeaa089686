-- ===== src/Transport/Peer/Released.antt =====
-- What a peer releases.
use pipecat_voice_assistant.Prelude.{
  ℕ, ◌+◌, ◌≡◌, Bool, true, false, Option, none, some, List, [], ◌∷◌, Bytes,
}
use pipecat_voice_assistant.Prelude.Int.{ℤ}
use pipecat_voice_assistant.Transport.Peer.{
  PeerCall, connection_create, connection_loop, connection_close, connection_destroy,
  set_remote_description, send_audio_packet, Peer, publish_answer, tick, send_audio, close, destroy,
}

-- How far the connection of libpeer is; `misused` is a call that it does not allow there.
pub data Connection : Type 0 where
  missing live closed released misused : Connection

abbrev pub after_call : Connection → PeerCall → Connection
after_call missing (connection_create ice) = live
after_call live connection_loop = live
after_call live (set_remote_description sdp) = live
after_call live (send_audio_packet payload) = live
after_call live connection_close = closed
after_call closed connection_destroy = released
after_call _ _ = misused

-- From the calls, the latest first.
abbrev pub connection_of : List PeerCall → Connection
connection_of [] = missing
connection_of (c ∷ r) = after_call (connection_of r) c

-- What is done with a peer.
pub data Use : Type 0 where
  publish : Bytes → Use
  ticks : List Bytes → Use
  sends : Option Bytes → Use
  closes : Use

module _ (sent : Bytes → ℤ) where
  abbrev pub use_peer : Use → Peer → Peer
  use_peer (publish sdp) p = publish_answer sdp p
  use_peer (ticks during) p = tick during p
  use_peer (sends payload) p = (send_audio sent payload p).0
  use_peer closes p = close p

  abbrev pub use_all : List Use → Peer → Peer
  use_all [] p = p
  use_all (u ∷ r) p = use_all r (use_peer u p)

abbrev pub strings : Option Bytes → ℕ
strings none = 0
strings (some _) = 1

abbrev pub connection_with : Bool → Connection
connection_with true = live
connection_with false = released

-- The strings not yet deleted are the parked one, and the connection lives while the peer holds it.
abbrev pub Owns : Bool → Peer → Type 0
Owns held p =
    (p.pc ≡ held)
    × (p.allocated ≡ p.deleted + strings p.pending_answer)
    × (connection_of p.calls ≡ connection_with held)

abbrev held_after : Use → Bool → Bool
held_after (publish sdp) held = held
held_after (ticks during) held = held
held_after (sends payload) held = held
held_after closes held = false

-- The end of a peer; there is none where the connection was not created.
abbrev pub Released : Bool → Option Peer → Type 0
Released made none = made ≡ false
Released made (some p) =
    (made ≡ true) × (p.allocated ≡ p.deleted) × (connection_of p.calls ≡ released)

module _ (sent : Bytes → ℤ) where
  abbrev pub lifetime : List Use → Option Peer → Option Peer
  lifetime uses none = none
  lifetime uses (some p) = some (destroy (use_all sent uses p))
