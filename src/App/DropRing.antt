-- ===== src/App/DropRing.antt =====
-- The two rings of `captureTask`, firmware/components/pv_app/src/session.cpp: the uplink backlog
-- (`ring_push`, `ring_pop`, 400 packets) and the rolling microphone buffer (`cap_push` and the
-- snapshot, 48000 samples). They have one shape: an array, the place of the oldest element and a
-- count, where a push on a full ring drops the oldest. The capacity is a parameter.
pub mod Wrap
pub mod Contents
pub mod Snapshot
mod Tests
use pipecat_voice_assistant.Prelude.{
  ℕ, ◌+◌, ◌-◌, ◌%◌, ◌^◌, Bool, Option, none, some, List, [], ◌∷◌, ◌++◌, if◌then◌else◌, ltb, ◌==◌,
  get_or, set, take, drop, replicate, length, min,
}

pub record DropRing {ℓ} (A : Type ℓ) : Type ℓ where
  pub slots : List A
  pub head : ℕ
  pub count : ℕ

module _ {ℓ} {A : Type ℓ} (capacity : ℕ) where
  unfoldable pub empty : A → DropRing A
  empty a = record { slots = replicate capacity a; head = 0; count = 0 }

  -- `r_head = r_count = 0`.
  unfoldable pub clear : DropRing A → DropRing A
  clear r = record r { head = 0; count = 0 }

  unfoldable pub push : DropRing A → A → DropRing A
  push r a =
      let slots = set r.slots ((r.head + r.count) % capacity) a in
      if ltb r.count capacity
      then record { slots = slots; head = r.head; count = r.count + 1 }
      else record { slots = slots; head = (r.head + 1) % capacity; count = r.count }

  -- The loop of `cap_push`.
  unfoldable pub push_all : DropRing A → List A → DropRing A
  push_all r [] = r
  push_all r (a ∷ rest) = push_all (push r a) rest

  -- `a` is read only from a ring whose array is too short.
  unfoldable pub pop : A → DropRing A → Option (A × DropRing A)
  pop a r =
      if r.count == 0
      then none
      else some (
        get_or r.slots r.head a,
        record r { head = (r.head + 1) % capacity; count = r.count - 1 },
      )

  -- The two `memcpy`s of the wake snapshot.
  unfoldable pub snapshot : DropRing A → List A
  snapshot r =
      let first = min r.count (capacity - r.head) in
      let front = take first (drop r.head r.slots) in
      if ltb first r.count then front ++ take (r.count - first) r.slots else front
