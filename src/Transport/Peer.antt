-- ===== src/Transport/Peer.antt =====
-- The owner of libpeer's connection, firmware/components/pv_transport/src/peer.cpp: the calls it
-- makes of libpeer, and the answer parked on the heap. What libpeer and the allocator do is a
-- parameter: whether a connection is created, and what sending returns. A thread publishes with one
-- atomic exchange, so what it publishes while libpeer runs is the input of a tick. The codec and the
-- callbacks of the configuration are constants and left out.
mod Latest
mod Released
mod Tests
use pipecat_voice_assistant.Prelude.{
  ℕ, ◌+◌, Bool, true, false, Option, none, some, List, [], ◌∷◌, if◌then◌else◌, Bytes, take,
}
use pipecat_voice_assistant.Prelude.Int.{ℤ, negsuc}

pub record PeerIceServer : Type 0 where
  pub url : Bytes
  pub username : Bytes
  pub credential : Bytes

-- The calls of libpeer.
pub data PeerCall : Type 0 where
  connection_create : List PeerIceServer → PeerCall
  connection_loop connection_close connection_destroy : PeerCall
  set_remote_description send_audio_packet : Bytes → PeerCall

-- `pc_ != nullptr`, the parked answer, the strings that `new` and `delete` were called for, and the
-- calls of libpeer, the latest first.
pub record Peer : Type 0 where
  pub pc : Bool
  pub pending_answer : Option Bytes
  pub allocated : ℕ
  pub deleted : ℕ
  pub calls : List PeerCall

-- Room for five servers.
abbrev pub max_ice_servers : ℕ
max_ice_servers = 5

abbrev pub opened : List PeerIceServer → Peer
opened ice = record {
  pc = true;
  pending_answer = none;
  allocated = 0;
  deleted = 0;
  calls = connection_create (take max_ice_servers ice) ∷ [];
}

-- The Boolean is whether peer_connection_create succeeds.
unfoldable pub create : Bool → List PeerIceServer → Option Peer
create false ice = none
create true ice = some (opened ice)

unfoldable pub call : PeerCall → Peer → Peer
call c p = record p { calls = c ∷ p.calls }

-- `delete` of what an exchange returned; null is no string.
unfoldable pub delete_answer : Option Bytes → Peer → Peer
delete_answer none p = p
delete_answer (some old) p = record p { deleted = p.deleted + 1 }

unfoldable pub publish_answer : Bytes → Peer → Peer
publish_answer sdp p =
    delete_answer p.pending_answer
      (record p { pending_answer = some sdp; allocated = p.allocated + 1 })

unfoldable pub publish_answers : List Bytes → Peer → Peer
publish_answers [] p = p
publish_answers (sdp ∷ r) p = publish_answers r (publish_answer sdp p)

unfoldable pub apply_parked : Option Bytes → Peer → Peer
apply_parked none p = p
apply_parked (some parked) p = delete_answer (some parked) (call (set_remote_description parked) p)

unfoldable pub exchange_parked : Peer → Peer
exchange_parked p = apply_parked p.pending_answer (record p { pending_answer = none })

-- With what is published while libpeer runs.
unfoldable pub tick : List Bytes → Peer → Peer
tick during p =
    if p.pc
    then exchange_parked (publish_answers during (call connection_loop p))
    else publish_answers during p

-- `none` is a null payload.
unfoldable pub send_audio : (Bytes → ℤ) → Option Bytes → Peer → Peer × ℤ
send_audio sent none p = (p, negsuc 0)
send_audio sent (some payload) p =
    if p.pc then (call (send_audio_packet payload) p, sent payload) else (p, negsuc 0)

unfoldable pub close : Peer → Peer
close p =
    if p.pc then record (call connection_destroy (call connection_close p)) { pc = false } else p

-- The destructor.
unfoldable pub destroy : Peer → Peer
destroy p = let q = close p in delete_answer q.pending_answer (record q { pending_answer = none })
