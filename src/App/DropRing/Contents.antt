-- ===== src/App/DropRing/Contents.antt =====
-- The rings as bounded queues: what each operation does to the elements, oldest first.
use pipecat_voice_assistant.Prelude.{
  ℕ, zero, suc, ◌+◌, ◌-◌, ◌%◌, ◌<◌, ◌≤◌, ◌≡◌, refl, sym, ◌∙◌, ap, ap₂, ltb, lt→ltb, ◌==◌, true,
  false, Option, none, some, List, [], ◌∷◌, ◌++◌, inl, inr, le_or_lt, append_assoc, append-nil,
  get_or, set, length, length-set, length-append, length-drop, get_or-set_self, drop, arith,
}
use pipecat_voice_assistant.App.DropRing.{DropRing, push, push_all, pop}
use pipecat_voice_assistant.App.DropRing.Wrap.{
  read, read-set_other, read_snoc, length-read, next-lt, full_circle, full_circle_next,
}

module _ {ℓ} {A : Type ℓ} (c : ℕ) (a : A) where
  pub record IsValid (r : DropRing A) : Type 0 where
    pub full_size : length r.slots ≡ suc c
    pub inside : r.head < suc c
    pub counted : r.count ≤ suc c

  -- The elements of a ring, oldest first.
  unfoldable pub contents : DropRing A → List A
  contents r = read c a r.slots r.head r.count

  -- The last `suc c` of a list.
  abbrev pub latest : List A → List A
  latest xs = drop (length xs - suc c) xs

  pub length-contents : (r : DropRing A) → length (contents r) ≡ r.count
  unfolding contents
  length-contents r = length-read c a r.slots r.head r.count

  push-IsValid : (r : DropRing A) (v : A) → IsValid r → IsValid (push (suc c) r v)
  unfolding push
  push-IsValid r v i =
      let l = length-set r.slots ((r.head + r.count) % suc c) v in
      let n = next-lt c a (r.head + 1) in
      let h = i.full_size in let k = i.inside in let m = i.counted in ground (arith, l, n)

  written :
      (r : DropRing A) (v : A)
      → IsValid r
      → get_or (set r.slots ((r.head + r.count) % suc c) v) ((r.head + r.count) % suc c) a ≡ v
  written r v i =
      get_or-set_self r.slots ((r.head + r.count) % suc c) v a
        (omega (arith, i.full_size, next-lt c a (r.head + r.count)))

  contents-push_free :
      (r : DropRing A) (v : A)
      → IsValid r
      → r.count < suc c
      → contents (push (suc c) r v) ≡ contents r ++ (v ∷ [])
  unfolding push contents
  contents-push_free r v i h =
      let slots' = set r.slots ((r.head + r.count) % suc c) v in
      rw (lt→ltb r.count (suc c) h) (
        ap (λ n. read c a slots' r.head n) (omega arith)
        ∙ read_snoc c a slots' r.head r.count i.inside
        ∙ ap₂ (λ xs x. xs ++ (x ∷ []))
            (read-set_other c a r.slots r.head r.count r.count v i.inside (omega arith) h)
            (written r v i))

  -- On a full ring the write goes to the oldest element.
  oldest : (r : DropRing A) → IsValid r → r.count ≡ suc c → (r.head + r.count) % suc c ≡ r.head
  oldest r i h = ap (λ n. (r.head + n) % suc c) h ∙ full_circle c a r.head i.inside

  contents-push_full :
      (r : DropRing A) (v : A)
      → IsValid r
      → r.count ≡ suc c
      → contents (push (suc c) r v) ≡ drop 1 (contents r) ++ (v ∷ [])
  unfolding push contents read
  contents-push_full r v i h =
      let at = (r.head + r.count) % suc c in
      let slots' = set r.slots at v in
      let next = (r.head + 1) % suc c in
      let round = full_circle_next c a r.head i.inside in
      rw (ltb-false r.count (suc c) (omega arith)) (
        ap (λ n. read c a slots' next n) h
        ∙ read_snoc c a slots' next c (next-lt c a (r.head + 1))
        ∙ ap₂ (λ xs x. xs ++ (x ∷ []))
            (ap (λ t. read c a (set r.slots t v) next c) (oldest r i h ∙ sym round)
              ∙ read-set_other c a r.slots next c c v (next-lt c a (r.head + 1)) (omega arith)
                  (omega arith))
            (ap (λ t. get_or slots' t a) (round ∙ sym (oldest r i h)) ∙ written r v i)
        ∙ ap (λ n. drop 1 (read c a r.slots r.head n) ++ (v ∷ [])) (sym h))
    where
      ltb-false : (x y : ℕ) → y ≤ x → ltb x y ≡ false
      ltb-false x y k = ground arith

  drop_short : (xs : List A) (n : ℕ) → n ≡ 0 → drop n xs ≡ xs
  drop_short xs n h = ap (λ t. drop t xs) h

  drop-append_short : (n : ℕ) (xs ys : List A) → n ≤ length xs → drop n (xs ++ ys) ≡ drop n xs ++ ys
  drop-append_short zero xs ys h = refl
  drop-append_short (suc n) [] ys h = absurd (omega arith)
  drop-append_short (suc n) (x ∷ xs) ys h = drop-append_short n xs ys (omega arith)

  -- A push appends the element, and drops the oldest one when the ring was full.
  contents-push :
      (r : DropRing A) (v : A)
      → IsValid r
      → contents (push (suc c) r v) ≡ latest (contents r ++ (v ∷ []))
  contents-push r v i =
      let total = length-append (contents r) (v ∷ []) ∙ ap (λ n. n + 1) (length-contents r) in
      elim (le_or_lt (suc c) r.count) [
        | inl h ↦
            let full : r.count ≡ suc c = omega (arith, i.counted) in
            contents-push_full r v i full
            ∙ sym (
                ap (λ n. drop n (contents r ++ (v ∷ []))) {y = 1} (omega (arith, total))
                ∙ drop-append_short 1 (contents r) (v ∷ []) (omega (arith, length-contents r)))
        | inr h ↦
            contents-push_free r v i h
            ∙ sym (drop_short (contents r ++ (v ∷ [])) _ (omega (arith, total)))
      ]

  drop_nil : (n : ℕ) → drop {A = A} n [] ≡ []
  drop_nil zero = refl
  drop_nil (suc n) = refl

  drop-drop : (i j : ℕ) (xs : List A) → drop i (drop j xs) ≡ drop (j + i) xs
  drop-drop i zero xs = ap (λ n. drop n xs) (omega arith)
  drop-drop i (suc j) [] = drop_nil i ∙ sym (drop_nil (suc j + i))
  drop-drop i (suc j) (x ∷ xs) =
      drop-drop i j xs ∙ ap (λ n. drop n (x ∷ xs)) {x = suc (j + i)} (omega arith)

  latest-latest : (xs ys : List A) → latest (latest xs ++ ys) ≡ latest (xs ++ ys)
  latest-latest xs ys =
      let n = length xs - suc c in
      let moved = drop-append_short n xs ys (omega arith) in
      ap latest (sym moved)
      ∙ drop-drop (length (drop n (xs ++ ys)) - suc c) n (xs ++ ys)
      ∙ ap (λ k. drop k (xs ++ ys)) {y = length (xs ++ ys) - suc c}
          (omega (arith, length-drop n (xs ++ ys), length-append xs ys))

  -- After a run of pushes a ring holds the last `suc c` of what it held and what was pushed, in
  -- order, and its indices are in range again.
  pub contents-push_all :
      (r : DropRing A) (xs : List A)
      → IsValid r
      → IsValid (push_all (suc c) r xs)
        × (contents (push_all (suc c) r xs) ≡ latest (contents r ++ xs))
  unfolding push_all
  contents-push_all r [] i = (
    i,
    sym (
        ap latest (append-nil (contents r))
        ∙ drop_short (contents r) _ (omega (arith, length-contents r, i.counted))),
  )
  contents-push_all r (x ∷ xs) i =
      let (valid, rest) = contents-push_all (push (suc c) r x) xs (push-IsValid r x i) in
      (
        valid,
        rest
            ∙ ap (λ t. latest (t ++ xs)) (contents-push r x i)
            ∙ latest-latest (contents r ++ (x ∷ [])) xs
            ∙ ap latest (append_assoc (contents r) (x ∷ []) xs),
      )

  abbrev pub Popped : List A → Option (A × DropRing A) → Type ℓ
  Popped xs none = xs ≡ []
  Popped xs (some (x, r)) = (xs ≡ x ∷ contents r) × IsValid r

  -- `pop` takes the oldest element off, and nothing from an empty ring.
  pub pop-Popped : (r : DropRing A) → IsValid r → Popped (contents r) (pop (suc c) a r)
  unfolding pop contents read
  pop-Popped r i = go r.count refl
    where
      zero_test : (n : ℕ) → n ≡ 0 → (n == 0) ≡ true
      zero_test n h = ground arith

      suc_test : (n m : ℕ) → n ≡ suc m → (n == 0) ≡ false
      suc_test n m h = ground arith

      go : (n : ℕ) → r.count ≡ n → Popped (contents r) (pop (suc c) a r)
      go zero h = rw (zero_test r.count h) (ap (read c a r.slots r.head) h)
      go (suc n) h = rw (suc_test r.count n h) (
        ap (read c a r.slots r.head) h
            ∙ ap (λ t. get_or r.slots r.head a ∷ read c a r.slots ((r.head + 1) % suc c) t)
                {y = r.count - 1} (omega (arith, h)),
        record {
          full_size = i.full_size;
          inside = next-lt c a (r.head + 1);
          counted = omega (arith, i.counted);
        },
      )
