-- ===== src/Domain/WakeWindow.antt =====
-- The sliding-window wake detector, firmware/components/pv_domain/include/domain/wake_window.hpp
-- and src/wake_window.cpp. `float` and its operations are a parameter: nothing that is proved rests
-- on how they round. Milliseconds are integers, as `std::chrono::milliseconds` is signed.
mod Refractory
mod Tests
use pipecat_voice_assistant.Prelude.{
  ℕ, zero, suc, ◌+◌, ◌%◌, Bool, true, false, ◌&&◌, List, [], ◌∷◌, if◌then◌else◌, ltb, set,
  replicate,
}
use pipecat_voice_assistant.Prelude.Int.{ℤ, pos, negsuc, ◌-ℤ◌, ltb_ℤ, is_negative}

-- What the code uses of `float`.
pub record Floats : Type 1 where
  pub F : Type 0
  pub of_ℕ : ℕ → F
  pub lt : F → F → Bool
  pub add : F → F → F
  pub div : F → F → F

abbrev pub wake_window_len : ℕ
wake_window_len = 8

module _ (fl : Floats) where
  open fl use {F, of_ℕ, lt, add, div}

  pub record WakeWindow : Type 0 where
    pub threshold : F
    pub cooldown : ℤ
    pub window : List F
    pub idx : ℕ
    pub count : ℕ
    pub last_prob : F
    pub last_fire : ℤ

  clamp : F → F
  clamp prob =
      let p = if lt prob (of_ℕ 0) then of_ℕ 0 else prob in if lt (of_ℕ 1) p then of_ℕ 1 else p

  sum_from : F → List F → F
  sum_from acc [] = acc
  sum_from acc (x ∷ r) = sum_from (add acc x) r

  pub average : List F → F
  average w = div (sum_from (of_ℕ 0) w) (of_ℕ wake_window_len)

  -- What precedes the first return: the sample is recorded.
  pub record_sample : WakeWindow → F → WakeWindow
  record_sample w prob =
      let p = clamp prob in
      record w {
        last_prob = p;
        window = set w.window w.idx p;
        idx = (w.idx + 1) % wake_window_len;
        count = if ltb w.count wake_window_len then w.count + 1 else w.count;
      }

  cooling : WakeWindow → ℤ → Bool
  unfolding ◌-ℤ◌
  cooling w now = if is_negative w.last_fire then false else ltb_ℤ (now -ℤ w.last_fire) w.cooldown

  -- The three early returns, and the fire.
  decide_fire : WakeWindow → ℤ → WakeWindow × Bool
  decide_fire w now =
      if ltb w.count wake_window_len
      then (w, false)
      else if lt (average w.window) w.threshold
      then (w, false)
      else if cooling w now
      then (w, false)
      else (
        record w { last_fire = now; window = replicate wake_window_len (of_ℕ 0); count = 0 },
        true,
      )

  pub push : WakeWindow → F → ℤ → WakeWindow × Bool
  push w prob now = decide_fire (record_sample w prob) now

  pub reset : WakeWindow → WakeWindow
  reset w = record w {
    window = replicate wake_window_len (of_ℕ 0);
    idx = 0;
    count = 0;
    last_prob = of_ℕ 0;
    last_fire = negsuc 0;
  }

  -- The results of a run of samples, each with its time, and the detector after them.
  pub push_all : WakeWindow → List (F × ℤ) → WakeWindow × List Bool
  push_all w [] = (w, [])
  push_all w ((prob, now) ∷ r) =
      let (w', fired) = push w prob now in let (w'', rest) = push_all w' r in (w'', fired ∷ rest)
