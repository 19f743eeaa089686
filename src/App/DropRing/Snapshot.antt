-- ===== src/App/DropRing/Snapshot.antt =====
-- The wake snapshot of `captureTask`: its two copies are the elements of the ring in order.
use native.Mathlib.Nat.{mod-eq_of_lt}
use pipecat_voice_assistant.Prelude.{
  ℕ, zero, suc, ◌+◌, ◌-◌, ◌%◌, ◌<◌, ◌≤◌, ◌≡◌, refl, sym, ◌∙◌, ap, ap₂, ltb, false, List, [], ◌∷◌,
  ◌++◌, inl, inr, le_or_lt, lt→ltb, get_or, length, take, drop, min, arith,
}
use pipecat_voice_assistant.App.DropRing.{DropRing, snapshot}
use pipecat_voice_assistant.App.DropRing.Wrap.{read, shift, next-lt, full_circle}
use pipecat_voice_assistant.App.DropRing.Contents.{IsValid, contents}

ltb-false : (x y : ℕ) → y ≤ x → ltb x y ≡ false
ltb-false x y h = ground arith

module _ {ℓ} {A : Type ℓ} (c : ℕ) (a : A) where
  drop_get : (xs : List A) (i : ℕ) → i < length xs → drop i xs ≡ get_or xs i a ∷ drop (suc i) xs
  drop_get [] i h = absurd (omega arith)
  drop_get (x ∷ xs) zero h = refl
  drop_get (x ∷ xs) (suc i) h = drop_get xs i (omega arith)

  -- Without a wrap a ring's elements are one stretch of the array.
  read_straight :
      (slots : List A) (i n : ℕ)
      → length slots ≡ suc c
      → i + n ≤ suc c
      → read c a slots i n ≡ take n (drop i slots)
  unfolding read
  read_straight slots i zero l h = refl
  read_straight slots i (suc zero) l h = sym (ap (take 1) (drop_get slots i (omega arith)))
  read_straight slots i (suc (suc n)) l h =
      ap (λ t. get_or slots i a ∷ t)
        (ap (λ k. read c a slots k (suc n)) (mod-eq_of_lt (omega arith))
          ∙ read_straight slots (i + 1) (suc n) l (omega arith)
          ∙ ap (λ k. take (suc n) (drop k slots)) {y = suc i} (omega arith))
      ∙ sym (ap (take (suc (suc n))) (drop_get slots i (omega arith)))

  wrapped_zero : (i : ℕ) → i < suc c → (i + 0) % suc c ≡ i
  wrapped_zero i h = ap (λ t. t % suc c) {y = i} (omega arith) ∙ mod-eq_of_lt h

  read-append :
      (slots : List A) (i n m : ℕ)
      → i < suc c
      → read c a slots i (n + m) ≡ read c a slots i n ++ read c a slots ((i + n) % suc c) m
  unfolding read
  read-append slots i zero m h =
      ap (read c a slots i) {y = m} (omega arith)
      ∙ ap (λ k. read c a slots k m) (sym (wrapped_zero i h))
  read-append slots i (suc n) m h =
      ap (read c a slots i) {y = suc (n + m)} (omega arith)
      ∙ ap (λ t. get_or slots i a ∷ t)
          (read-append slots ((i + 1) % suc c) n m (next-lt c a (i + 1))
            ∙ ap (λ t. read c a slots ((i + 1) % suc c) n ++ read c a slots t m) (shift c a i n))

  -- The snapshot of a ring is its elements, oldest first, whether or not they wrap around the end of
  -- the array.
  pub snapshot-contents : (r : DropRing A) → IsValid c a r → snapshot (suc c) r ≡ contents c a r
  unfolding snapshot contents
  snapshot-contents r i = elim (le_or_lt r.count (suc c - r.head)) [
    | inl h ↦
        let first : min r.count (suc c - r.head) ≡ r.count = omega arith in
        rw first (
          rw (ltb-false r.count r.count (omega arith))
            (sym (read_straight r.slots r.head r.count i.full_size (omega (arith, i.inside)))))
    | inr h ↦
        let first : min r.count (suc c - r.head) ≡ suc c - r.head = omega arith in
        let rest = r.count - (suc c - r.head) in
        rw first (
          rw (lt→ltb (suc c - r.head) r.count h) (
            sym (
              ap (read c a r.slots r.head) {y = (suc c - r.head) + rest} (omega arith)
              ∙ read-append r.slots r.head (suc c - r.head) rest i.inside
              ∙ ap₂ (λ xs ys. xs ++ ys)
                  (read_straight r.slots r.head (suc c - r.head) i.full_size
                    (omega (arith, i.inside)))
                  (ap (λ t. read c a r.slots t rest)
                      (ap (λ t. t % suc c) {y = 0 + suc c} (omega (arith, i.inside))
                        ∙ full_circle c a 0 (omega arith))
                    ∙ read_straight r.slots 0 rest i.full_size (omega (arith, i.counted))))))
  ]
