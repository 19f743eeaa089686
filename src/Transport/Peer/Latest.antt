-- ===== src/Transport/Peer/Latest.antt =====
-- Which answer a tick applies, and when: the comment on `tick` in peer.hpp has the opposite order.
use pipecat_voice_assistant.Prelude.{
  ◌≡◌, refl, ◌∙◌, ap, ap₂, Bool, true, Option, none, some, List, [], ◌∷◌, ◌++◌, Bytes, if_elim,
  arith,
}
use pipecat_voice_assistant.Transport.Peer.{
  Peer, PeerCall, connection_loop, set_remote_description, call, delete_answer, publish_answer,
  publish_answers, apply_parked, exchange_parked, tick,
}

-- The last of a list, or else the given one.
abbrev pub last_or : Option Bytes → List Bytes → Option Bytes
last_or o [] = o
last_or o (a ∷ []) = some a
last_or o (a ∷ b ∷ r) = last_or o (b ∷ r)

last_or-tail :
    (o u : Option Bytes) (b : Bytes) (r : List Bytes) → last_or o (b ∷ r) ≡ last_or u (b ∷ r)
last_or-tail o u b [] = refl
last_or-tail o u b (c ∷ r) = last_or-tail o u c r

last_or-append :
    (o : Option Bytes) (xs ys : List Bytes) → last_or (last_or o xs) ys ≡ last_or o (xs ++ ys)
last_or-append o [] ys = refl
last_or-append o (a ∷ []) [] = refl
last_or-append o (a ∷ []) (b ∷ r) = last_or-tail (some a) o b r
last_or-append o (a ∷ b ∷ r) ys = last_or-append o (b ∷ r) ys

abbrev pub with_remote : Option Bytes → List PeerCall → List PeerCall
with_remote none calls = calls
with_remote (some sdp) calls = set_remote_description sdp ∷ calls

-- The flag, the parked answer and the calls of a peer.
abbrev pub Shows : Peer → Bool → Option Bytes → List PeerCall → Type 0
Shows p held parked calls = (p.pc ≡ held) × (p.pending_answer ≡ parked) × (p.calls ≡ calls)

delete_answer-Shows :
    (old : Option Bytes) (p : Peer) → Shows (delete_answer old p) p.pc p.pending_answer p.calls
unfolding delete_answer
delete_answer-Shows none p = (refl, refl, refl)
delete_answer-Shows (some old) p = (refl, refl, refl)

publish_answer-Shows :
    (sdp : Bytes) (p : Peer) → Shows (publish_answer sdp p) p.pc (some sdp) p.calls
unfolding publish_answer
publish_answer-Shows sdp p = delete_answer-Shows p.pending_answer _

publish_answers-Shows :
    (sdps : List Bytes) (p : Peer)
    → Shows (publish_answers sdps p) p.pc (last_or p.pending_answer sdps) p.calls
unfolding publish_answers
publish_answers-Shows [] p = (refl, refl, refl)
publish_answers-Shows (a ∷ []) p = publish_answer-Shows a p
publish_answers-Shows (a ∷ b ∷ r) p =
    let (h, o, c) = publish_answer-Shows a p in
    let (h2, o2, c2) = publish_answers-Shows (b ∷ r) (publish_answer a p) in
    (h2 ∙ h, o2 ∙ last_or-tail (publish_answer a p).pending_answer p.pending_answer b r, c2 ∙ c)

apply_parked-Shows :
    (parked : Option Bytes) (p : Peer)
    → Shows (apply_parked parked p) p.pc p.pending_answer (with_remote parked p.calls)
unfolding apply_parked call delete_answer
apply_parked-Shows none p = (refl, refl, refl)
apply_parked-Shows (some parked) p = (refl, refl, refl)

exchange_parked-Shows :
    (p : Peer) → Shows (exchange_parked p) p.pc none (with_remote p.pending_answer p.calls)
unfolding exchange_parked
exchange_parked-Shows p = apply_parked-Shows p.pending_answer (record p { pending_answer = none })

tick-Shows :
    (during : List Bytes) (p : Peer)
    → p.pc ≡ true
    → Shows
        (tick during p)
        true
        none
        (with_remote (last_or p.pending_answer during) (connection_loop ∷ p.calls))
unfolding tick call
tick-Shows during p held =
    let q = publish_answers during (call connection_loop p) in
    let (h, o, c) = publish_answers-Shows during (call connection_loop p) in
    let (h2, o2, c2) = exchange_parked-Shows q in
    if_elim
      (λ (t : Peer).
        Shows t true none
          (with_remote (last_or p.pending_answer during) (connection_loop ∷ p.calls)))
      p.pc (λ _. (h2 ∙ h ∙ held, o2, c2 ∙ ap₂ with_remote o c)) (λ shut. absurd (ground arith))

-- Whatever answers are published before a tick of an open peer and while libpeer runs in it, the
-- tick calls libpeer's loop first and then sets the answer that was published last, or the one
-- parked before if none was, or nothing; no other answer is set, and none stays parked.
pub tick-publish_answers :
    (before during : List Bytes) (p : Peer)
    → p.pc ≡ true
    → ((tick during (publish_answers before p)).calls
        ≡ with_remote (last_or p.pending_answer (before ++ during)) (connection_loop ∷ p.calls))
      × ((tick during (publish_answers before p)).pending_answer ≡ none)
tick-publish_answers before during p held =
    let (h, o, c) = publish_answers-Shows before p in
    let (_, o2, c2) = tick-Shows during (publish_answers before p) (h ∙ held) in
    (
      c2
          ∙ ap₂
              (λ (parked : Option Bytes) (calls : List PeerCall).
                with_remote parked (connection_loop ∷ calls))
              (ap (λ parked. last_or parked during) o
                ∙ last_or-append p.pending_answer before during)
              c,
      o2,
    )
