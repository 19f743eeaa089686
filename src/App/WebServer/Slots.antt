-- ===== src/App/WebServer/Slots.antt =====
-- The slots of the WebSocket clients as a set.
use pipecat_voice_assistant.Prelude.{
  ℕ, suc, ◌+◌, ◌≤◌, ◌≡◌, refl, ap, ◌∙◌, Bool, true, false, ◌&&◌, ◌||◌, inl, inr, List, [], ◌∷◌,
  Bytes, if◌then◌else◌, ltb, ◌==◌, length, ==_iff, Bool-cases, if_elim, arith,
}
use pipecat_voice_assistant.Prelude.Int.{ℤ, pos, negsuc, is_negative}
use pipecat_voice_assistant.App.WebServer.LogStream.{
  eq_ℤ, no_clients, holds_fd, fill_free, ws_add_client, ws_remove_client, log_broadcast,
  ws_send_work,
}

-- How often a socket occurs among the slots, and among the queued sends.
unfoldable pub count : ℕ → List ℤ → ℕ
count n [] = 0
count n (f ∷ r) = (if eq_ℤ f (pos n) then 1 else 0) + count n r

unfoldable pub queued_for : ℕ → List (ℤ × Bytes) → ℕ
queued_for n [] = 0
queued_for n ((f, chunk) ∷ r) = (if eq_ℤ f (pos n) then 1 else 0) + queued_for n r

abbrev pub has_free : List ℤ → Bool
has_free [] = false
has_free (f ∷ r) = is_negative f || has_free r

count-fill_free :
    (n m : ℕ) (l : List ℤ)
    → count n (fill_free l (pos m)) ≡ (if (m == n) && has_free l then 1 else 0) + count n l
unfolding count fill_free
count-fill_free n m [] = ground arith
count-fill_free n m (pos k ∷ r) = ground (arith, count-fill_free n m r)
count-fill_free n m (negsuc k ∷ r) = ground arith

count-holds_fd : (n : ℕ) (l : List ℤ) → holds_fd l (pos n) ≡ ltb 0 (count n l)
unfolding count holds_fd
count-holds_fd n [] = refl
count-holds_fd n (f ∷ r) = ground (arith, count-holds_fd n r)

count-ws_remove_client :
    (n m : ℕ) (l : List ℤ)
    → count n (ws_remove_client l (pos m)) ≡ (if m == n then 0 else count n l)
unfolding count ws_remove_client
count-ws_remove_client n m [] = ground arith
count-ws_remove_client n m (pos k ∷ r) = ground (arith, count-ws_remove_client n m r)
count-ws_remove_client n m (negsuc k ∷ r) = ground (arith, count-ws_remove_client n m r)

length-fill_free : (l : List ℤ) (fd : ℤ) → length (fill_free l fd) ≡ length l
unfolding fill_free
length-fill_free [] fd = refl
length-fill_free (pos k ∷ r) fd = ap suc (length-fill_free r fd)
length-fill_free (negsuc k ∷ r) fd = refl

length-ws_remove_client : (l : List ℤ) (fd : ℤ) → length (ws_remove_client l fd) ≡ length l
unfolding ws_remove_client
length-ws_remove_client [] fd = refl
length-ws_remove_client (f ∷ r) fd = ap suc (length-ws_remove_client r fd)

-- What happens to the slots: a handshake on a socket, and a send to one, with whether it went out.
pub data SlotStep : Type 0 where
  connect : ℕ → SlotStep
  sends : ℕ → Bool → SlotStep

abbrev pub slot_step : List ℤ → SlotStep → List ℤ
slot_step l (connect fd) = ws_add_client l (pos fd)
slot_step l (sends fd sent) = ws_send_work sent l (pos fd)

abbrev pub slot_steps : List ℤ → List SlotStep → List ℤ
slot_steps l [] = l
slot_steps l (step ∷ r) = slot_steps (slot_step l step) r

-- Four slots, and each socket at most once.
pub record IsDistinct (l : List ℤ) : Type 0 where
  pub four : length l ≡ 4
  pub once : (n : ℕ) → count n l ≤ 1

no_clients-IsDistinct : IsDistinct no_clients
unfolding count
no_clients-IsDistinct = record { four = refl; once = λ n. omega arith }

ws_add_client-IsDistinct :
    (l : List ℤ) (fd : ℕ) → IsDistinct l → IsDistinct (ws_add_client l (pos fd))
unfolding ws_add_client
ws_add_client-IsDistinct l fd h =
    if_elim IsDistinct (holds_fd l (pos fd)) (λ _. h)
      (λ absent. record {
        four = length-fill_free l (pos fd) ∙ h.four;
        once = λ n. ground (arith, count-fill_free n fd l, count-holds_fd fd l, h.once n);
      })

ws_remove_client-IsDistinct :
    (l : List ℤ) (fd : ℕ) → IsDistinct l → IsDistinct (ws_remove_client l (pos fd))
ws_remove_client-IsDistinct l fd h = record {
  four = length-ws_remove_client l (pos fd) ∙ h.four;
  once = λ n. ground (arith, count-ws_remove_client n fd l, h.once n);
}

slot_steps-IsDistinct :
    (l : List ℤ) (steps : List SlotStep) → IsDistinct l → IsDistinct (slot_steps l steps)
unfolding ws_send_work
slot_steps-IsDistinct l [] h = h
slot_steps-IsDistinct l (connect fd ∷ r) h =
    slot_steps-IsDistinct (ws_add_client l (pos fd)) r (ws_add_client-IsDistinct l fd h)
slot_steps-IsDistinct l (sends fd true ∷ r) h = slot_steps-IsDistinct l r h
slot_steps-IsDistinct l (sends fd false ∷ r) h =
    slot_steps-IsDistinct (ws_remove_client l (pos fd)) r (ws_remove_client-IsDistinct l fd h)

-- One client more, whose work could be queued or not.
queued_for-queue :
    (k n : ℕ) (chunk : Bytes) (here there : Bool) (rest : List (ℤ × Bytes)) (m : ℕ)
    → ((k == n) ≡ true → here ≡ there)
    → queued_for n rest ≡ (if there then m else 0)
    → queued_for n (if here then (pos k, chunk) ∷ rest else rest)
      ≡ (if there then (if k == n then 1 else 0) + m else 0)
unfolding queued_for
queued_for-queue k n chunk true true rest m same ih = ground (arith, ih)
queued_for-queue k n chunk true false rest m same ih = ground (arith, ih)
queued_for-queue k n chunk false true rest m same ih = ground (arith, ih)
queued_for-queue k n chunk false false rest m same ih = ih

queued_for-log_broadcast :
    (queued : ℤ → Bool) (n : ℕ) (l : List ℤ) (chunk : Bytes)
    → queued_for n (log_broadcast queued l chunk) ≡ (if queued (pos n) then count n l else 0)
unfolding queued_for log_broadcast count
queued_for-log_broadcast queued n [] chunk = ground arith
queued_for-log_broadcast queued n (pos k ∷ r) chunk =
    let ih = queued_for-log_broadcast queued n r chunk in
    elim (Bool-cases (k == n)) [
      | inl e ↦
          let same : queued (pos k) ≡ queued (pos n) =
            ap (λ (j : ℕ). queued (pos j)) ((==_iff k n).0 e) in
          queued_for-queue k n chunk (queued (pos k)) (queued (pos n)) _ (count n r) (λ h. same) ih
      | inr e ↦
          queued_for-queue k n chunk (queued (pos k)) (queued (pos n)) _ (count n r) (λ h. cc) ih
    ]
queued_for-log_broadcast queued n (negsuc k ∷ r) chunk =
    ground (arith, queued_for-log_broadcast queued n r chunk)

once_or_not :
    (n : ℕ) (l : List ℤ) (queued : Bool)
    → count n l ≤ 1
    → (if queued then count n l else 0) ≡ (if holds_fd l (pos n) && queued then 1 else 0)
once_or_not n l queued h = ground (arith, count-holds_fd n l)

-- After any handshakes and sends there are four slots with no socket twice, and a chunk is queued
-- for a client exactly once if it holds a slot and its work can be queued, and else not at all.
pub slot_steps-log_broadcast :
    (queued : ℤ → Bool) (steps : List SlotStep) (n : ℕ) (chunk : Bytes)
    → let l = slot_steps no_clients steps in
      IsDistinct l
      × (queued_for n (log_broadcast queued l chunk)
          ≡ (if holds_fd l (pos n) && queued (pos n) then 1 else 0))
slot_steps-log_broadcast queued steps n chunk =
    let l = slot_steps no_clients steps in
    let distinct = slot_steps-IsDistinct no_clients steps no_clients-IsDistinct in
    (
      distinct,
      queued_for-log_broadcast queued n l chunk
          ∙ once_or_not n l (queued (pos n)) (distinct.once n),
    )
