-- ===== src/App/Session/Frames.antt =====
-- What an iteration of the playback loop writes.
mod Tests
use mathlib.Core.Path.{subst}
use pipecat_voice_assistant.Prelude.{
  ℕ, zero, suc, ◌+◌, ◌-◌, ◌*◌, ◌^◌, ◌≤◌, ◌<◌, ◌≡◌, refl, ap, ◌∙◌, Bool, true, false, ◌&&◌, Option,
  none, some, List, [], ◌∷◌, ◌++◌, map, if◌then◌else◌, ltb, leb, ◌==◌, length, take, drop,
  replicate, min, All, All-append, length-append, length-take, length-replicate, length-drop,
  take-append-drop, append-nil, if_elim, sym, Bool-cases, inl, inr, take-append, drop-append, arith,
}
use pipecat_voice_assistant.Prelude.Int.{ℤ, pos, ◌*ℤ◌}
use pipecat_voice_assistant.App.Session.{Session, Chirp}
use pipecat_voice_assistant.App.Session.Capture.{frames_per_packet}
use pipecat_voice_assistant.App.Session.Playback.{
  PlaybackInput, widen, chirp_writes, chirps, padded, received_of, playback_step,
}

abbrev pub concat : List (List ℤ) → List ℤ
concat [] = []
concat (w ∷ r) = w ++ concat r

abbrev pub chirp_of : PlaybackInput → Option Chirp → List ℤ
chirp_of i none = []
chirp_of i (some c) = if i.chirp_buf then i.synth_chirp c else []

-- What was received, where there is a buffer.
abbrev pub heard : PlaybackInput → Option (List ℤ) → List ℤ
heard i none = []
heard i (some buf) = i.received

-- Stereo samples, left and right in turn, with these mono samples on the left, in the high half of 32
-- bits, and silence on the right.
abbrev pub IsLeft : List ℤ → List ℤ → Type 0
IsLeft [] [] = Unit
IsLeft [] (l ∷ w) = ⊥
IsLeft (x ∷ r) [] = ⊥
IsLeft (x ∷ r) (l ∷ []) = ⊥
IsLeft (x ∷ r) (l ∷ right ∷ w) = (l ≡ x *ℤ pos (2 ^ 16)) × (right ≡ pos 0) × IsLeft r w

-- What an iteration writes: the chirp that was pending, whole, then a packet that starts with what
-- was received; no write is longer than the stereo buffer.
pub record Plays (i : PlaybackInput) (pending : Option Chirp) (received : List ℤ)
    (writes : List (List ℤ)) : Type 0 where
  pub before : List (List ℤ)
  pub mono : List ℤ
  pub stereo : List ℤ
  pub in_order : writes ≡ before ++ (stereo ∷ [])
  pub on_left : IsLeft mono stereo
  pub chirp : IsLeft (chirp_of i pending) (concat before)
  pub packet : length mono ≡ 320
  pub starts : take (length received) mono ≡ received
  pub silence : All (λ (x : ℤ). x ≡ pos 0) (drop (length received) mono)
  pub fits : All (λ (w : List ℤ). length w ≤ 640) writes

widen-IsLeft : (s : List ℤ) → IsLeft s (widen s)
unfolding widen
widen-IsLeft [] = tt
widen-IsLeft (x ∷ r) = (refl, refl, widen-IsLeft r)

length-widen : (s : List ℤ) → length (widen s) ≡ 2 * length s
unfolding widen
length-widen [] = refl
length-widen (x ∷ r) = omega (arith, length-widen r)

widen-append : (s r : List ℤ) → widen (s ++ r) ≡ widen s ++ widen r
unfolding widen
widen-append [] r = refl
widen-append (x ∷ s) r = ap (λ t. x *ℤ pos (2 ^ 16) ∷ pos 0 ∷ t) (widen-append s r)

concat-chirp_writes :
    (fuel : ℕ) (s : List ℤ) → length s ≤ fuel → concat (chirp_writes fuel s) ≡ widen s
unfolding chirp_writes widen
concat-chirp_writes fuel [] h = refl
concat-chirp_writes zero (x ∷ r) h = absurd (omega arith)
concat-chirp_writes (suc fuel) (x ∷ r) h =
    let s = x ∷ r in
    ap (λ (t : List ℤ). widen (take frames_per_packet s) ++ t)
      (concat-chirp_writes fuel (drop frames_per_packet s)
        (omega (arith, length-drop frames_per_packet s)))
    ∙ sym (widen-append (take frames_per_packet s) (drop frames_per_packet s))
    ∙ ap widen (take-append-drop frames_per_packet s)

chirp_writes-fit :
    (fuel : ℕ) (s : List ℤ)
    → All (λ (w : List ℤ). length w ≤ 2 * frames_per_packet) (chirp_writes fuel s)
unfolding chirp_writes
chirp_writes-fit fuel [] = tt
chirp_writes-fit zero (x ∷ r) = tt
chirp_writes-fit (suc fuel) (x ∷ r) = (
  omega
      (arith, length-widen (take frames_per_packet (x ∷ r)), length-take frames_per_packet (x ∷ r)),
  chirp_writes-fit fuel (drop frames_per_packet (x ∷ r)),
)

abbrev IsSilence : List ℤ → Type 0
IsSilence s = All (λ (x : ℤ). x ≡ pos 0) s

replicate-IsSilence : (n : ℕ) → IsSilence (replicate n (pos 0))
replicate-IsSilence zero = tt
replicate-IsSilence (suc n) = (refl, replicate-IsSilence n)

take-whole : (s : List ℤ) → take (length s) s ≡ s
take-whole [] = refl
take-whole (x ∷ r) = ap (λ t. x ∷ t) (take-whole r)

drop-whole : (s : List ℤ) → drop (length s) s ≡ []
drop-whole [] = refl
drop-whole (x ∷ r) = drop-whole r

-- A packet that starts with what was received.
abbrev Pads : List ℤ → List ℤ → Type 0
Pads s mono =
    (length mono ≡ frames_per_packet)
    × (take (length s) mono ≡ s)
    × IsSilence (drop (length s) mono)

padded-Pads : (s : List ℤ) → length s ≤ frames_per_packet → Pads s (padded s)
unfolding padded
padded-Pads [] h =
    (length-replicate frames_per_packet (pos 0), refl, replicate-IsSilence frames_per_packet)
padded-Pads (x ∷ r) h =
    let s = x ∷ r in
    let fill = replicate (frames_per_packet - length s) (pos 0) in
    if_elim (Pads s) (length s == 0) (λ none. absurd (ground arith))
      (λ _.
        if_elim (Pads s) (ltb (length s) frames_per_packet)
          (λ short. (
            omega (
              arith,
              length-append s fill,
              length-replicate (frames_per_packet - length s) (pos 0),
              h,
            ),
            take-append s fill,
            subst IsSilence (sym (drop-append s fill))
                (replicate-IsSilence (frames_per_packet - length s)),
          ))
          (λ full. (ground arith, take-whole s, subst IsSilence (sym (drop-whole s)) tt)))

chirps-whole :
    (i : PlaybackInput) (pending : Option Chirp)
    → (concat (chirps i pending) ≡ widen (chirp_of i pending))
      × All (λ (w : List ℤ). length w ≤ 2 * frames_per_packet) (chirps i pending)
unfolding chirps
chirps-whole i none = (unfold widen in refl, tt)
chirps-whole i (some c) =
    let pcm = i.synth_chirp c in
    elim (Bool-cases i.chirp_buf) [
      | inl e ↦
          rw e
            (concat-chirp_writes (length pcm) pcm (omega arith), chirp_writes-fit (length pcm) pcm)
      | inr e ↦ rw e (unfold widen in refl, tt)
    ]

received-small :
    (i : PlaybackInput) (buf : Option (List ℤ))
    → length i.received ≤ frames_per_packet
    → length (received_of i buf) ≤ frames_per_packet
received-small i none h = omega arith
received-small i (some b) h = h

received_of-heard : (i : PlaybackInput) (buf : Option (List ℤ)) → received_of i buf ≡ heard i buf
received_of-heard i none = refl
received_of-heard i (some b) = refl

-- If no more than a packet is received, an iteration plays the pending chirp whole, if its buffer
-- was allocated, and then one packet that starts with what was received and goes on with silence, on
-- the left channel only; no write is longer than the stereo buffer, and no chirp stays pending.
pub playback_step-Plays :
    (i : PlaybackInput) (s : Session)
    → length i.received ≤ frames_per_packet
    → let (writes, s') = playback_step i s in
      Plays i s.chirp_pending (heard i s.playback_buf) writes × (s'.chirp_pending ≡ none)
unfolding playback_step
playback_step-Plays i s h =
    let received = received_of i s.playback_buf in
    let small : length received ≤ frames_per_packet = received-small i s.playback_buf h in
    let (packet, starts, silence) = padded-Pads received small in
    let (whole, fit) = chirps-whole i s.chirp_pending in
    let same = received_of-heard i s.playback_buf in
    (
      record {
        before = chirps i s.chirp_pending;
        mono = padded received;
        stereo = widen (padded received);
        in_order = refl;
        on_left = widen-IsLeft (padded received);
        chirp = subst (IsLeft (chirp_of i s.chirp_pending)) (sym whole) (widen-IsLeft _);
        packet = packet;
        starts = subst (λ (r : List ℤ). take (length r) (padded received) ≡ r) same starts;
        silence =
            subst (λ (r : List ℤ). IsSilence (drop (length r) (padded received))) same silence;
        fits =
            All-append (λ (w : List ℤ). length w ≤ 2 * frames_per_packet) (chirps i s.chirp_pending)
              (widen (padded received) ∷ []) fit
              (omega (arith, length-widen (padded received)), tt);
      },
      refl,
    )
