-- ===== src/App/Session/Uplink.antt =====
-- What the send section of `captureTask`, firmware/components/pv_app/src/session.cpp, does with the
-- backlog of encoded packets.
use mathlib.Core.Path.{subst}
use pipecat_voice_assistant.Prelude.{
  ℕ, zero, suc, ◌+◌, ◌≡◌, refl, sym, ◌∙◌, ap, ap₂, Bool, Option, none, some, List, [], ◌∷◌, ◌++◌,
  Bytes, length, length-append, append_assoc, if◌then◌else◌, if_elim, ◌&&◌, min, arith,
}
use pipecat_voice_assistant.App.DropRing
use pipecat_voice_assistant.App.DropRing.{DropRing}
use pipecat_voice_assistant.App.DropRing.Contents.{
  IsValid, contents, Popped, pop-Popped, length-contents,
}
use pipecat_voice_assistant.App.Session.{Session, Peer, is_some}
use pipecat_voice_assistant.App.Session.Capture.{
  CaptureLocals, ring_pkts, send_audio, flush, budget, send_to, send_section,
}

-- The backlog's packets, oldest first.
abbrev pub waiting : DropRing Bytes → List Bytes
waiting = contents 399 []

abbrev pub IsBacklog : DropRing Bytes → Type 0
IsBacklog = IsValid 399 []

-- What a flush may do with a ring and a peer.
pub record Flushed (n : ℕ) (r r' : DropRing Bytes) (p p' : Peer) : Type 0 where
  -- Nothing lost, repeated or reordered.
  pub order : p'.sent ++ waiting r' ≡ p.sent ++ waiting r
  pub valid : IsBacklog r'
  -- As many packets as the budget and the backlog allow.
  pub sends : length p'.sent ≡ length p.sent + min n (length (waiting r))

pop_step :
    (n : ℕ) (r : DropRing Bytes) (p : Peer) (popped : Option (Bytes × DropRing Bytes))
    → IsBacklog r
    → Popped 399 [] (waiting r) popped
    → ((packet : Bytes) (r' : DropRing Bytes)
        → IsBacklog r'
        → let (r'', p'') = flush n r' (send_audio p packet) in
          Flushed n r' r'' (send_audio p packet) p'')
    → let (r'', p'') = elim popped as (λ _. DropRing Bytes × Peer) [
      | none ↦ (r, p)
      | some (packet, r') ↦ flush n r' (send_audio p packet)
    ] in
      Flushed (suc n) r r'' p p''
unfolding send_audio
pop_step n r p none v e rest = record {
  order = refl;
  valid = v;
  sends = omega (arith, ap length e);
}
pop_step n r p (some (packet, r')) v e rest =
    let f = rest packet r' e.1 in
    let one = length-append p.sent (packet ∷ []) in
    record {
      order =
          f.order
          ∙ append_assoc p.sent (packet ∷ []) (waiting r')
          ∙ ap (λ t. p.sent ++ t) (sym e.0);
      valid = f.valid;
      sends = omega (arith, f.sends, one, ap length e.0);
    }

-- A flush of a well-formed backlog sends the oldest packets, as many as its budget and the backlog
-- allow: what was sent followed by what still waits is the same sequence as before, and the backlog
-- is well-formed again.
pub flush_fifo :
    (n : ℕ) (r : DropRing Bytes) (p : Peer)
    → IsBacklog r
    → let (r', p') = flush n r p in Flushed n r r' p p'
unfolding flush
flush_fifo zero r p v = record { order = refl; valid = v; sends = omega arith }
flush_fifo (suc n) r p v =
    pop_step n r p (DropRing.pop ring_pkts [] r) v (pop-Popped 399 [] r v)
      (λ packet r' v'. flush_fifo n r' (send_audio p packet) v')

-- The packets that a session's peer has been handed.
abbrev pub sent_by : Option Peer → List Bytes
sent_by none = []
sent_by (some p) = p.sent

abbrev pub backlog_of : Option (DropRing Bytes) → List Bytes
backlog_of none = []
backlog_of (some r) = waiting r

-- What the send section keeps and what it sends, from `c` and `s` to `c'` and `s'`.
abbrev Ordered : CaptureLocals → Session → DropRing Bytes → Bool → CaptureLocals → Session → Type 0
Ordered c s r sending c' s' =
    (sent_by s'.peer ++ backlog_of c'.ring ≡ sent_by s.peer ++ backlog_of c.ring)
    × (length (sent_by s'.peer)
        ≡ length (sent_by s.peer) + (if sending then min 3 (length (waiting r)) else 0))

budget_enough :
    (r : DropRing Bytes) → min (budget r) (length (waiting r)) ≡ min 3 (length (waiting r))
unfolding budget
budget_enough r = ground (arith, length-contents 399 [] r)

send_to-Ordered :
    (wire : Bytes) (c : CaptureLocals) (s : Session) (r : DropRing Bytes) (p : Option Peer)
    → s.peer ≡ p
    → c.ring ≡ some r
    → IsBacklog r
    → let (c', s') = send_to wire c s p (some r) in Ordered c s r (is_some p) c' s'
unfolding send_to
send_to-Ordered wire c s r none ep er v = (refl, omega arith)
send_to-Ordered wire c s r (some p) ep er v =
    let f = flush_fifo (budget r) r p v in
    (
      f.order ∙ ap₂ (λ xs ys. xs ++ ys) (ap sent_by (sym ep)) (ap backlog_of (sym er)),
      f.sends ∙ ap₂ (λ x y. x + y) (ap (λ o. length (sent_by o)) (sym ep)) (budget_enough r),
    )

-- The send section of a task that has its backlog ring, when the ring is well-formed. Unless the
-- session is connected and holds a peer, nothing is sent. Otherwise the oldest
-- packets go out in order, up to three when more than one waits and one when one waits; what was
-- sent followed by what waits stays the same sequence.
pub send_section_ordered :
    (wire : Bytes) (c : CaptureLocals) (s : Session) (r : DropRing Bytes)
    → c.ring ≡ some r
    → IsBacklog r
    → let (c', s') = send_section wire c s in
      (sent_by s'.peer ++ backlog_of c'.ring ≡ sent_by s.peer ++ backlog_of c.ring)
      × (length (sent_by s'.peer)
          ≡ length (sent_by s.peer)
            + (if s.connected && is_some s.peer then min 3 (length (waiting r)) else 0))
unfolding send_section
send_section_ordered wire c s r e v =
    if_elim (λ (t : CaptureLocals × Session). Ordered c s r (s.connected && is_some s.peer) t.0 t.1)
      s.connected
      (λ h.
        subst
          (λ (b : Bool).
            Ordered c s r (b && is_some s.peer) (send_to wire c s s.peer c.ring).0
              (send_to wire c s s.peer c.ring).1)
          (sym h)
          (subst
            (λ ring.
              let (c', s') = send_to wire c s s.peer ring in Ordered c s r (is_some s.peer) c' s')
            (sym e) (send_to-Ordered wire c s r s.peer refl e v)))
      (λ h.
        subst (λ (b : Bool). Ordered c s r (b && is_some s.peer) c s) (sym h) (refl, omega arith))
