-- ===== src/App/DropRing/Wrap.antt =====
-- Reading a circular array of `suc c` slots: indices that wrap, and what a write elsewhere leaves.
use native.Mathlib.Nat.{mod-eq_of_lt, mod-eq-sub-mod, mod-add-mod, mod-lt}
use pipecat_voice_assistant.Prelude.{
  ℕ, zero, suc, ◌+◌, ◌-◌, ◌%◌, ◌<◌, ◌≤◌, ◌≡◌, ◌≢◌, refl, sym, ◌∙◌, ap, ap₂, inl, inr, le_or_lt,
  List, [], ◌∷◌, ◌++◌, get_or, set, length, get_or-set_ne, arith,
}

wrap-lt : (n m : ℕ) → m < n → m % n ≡ m
wrap-lt n m h = mod-eq_of_lt h

wrap-ge : (n m : ℕ) → n ≤ m → m < n + n → m % n ≡ m - n
wrap-ge n m h k = mod-eq-sub-mod h ∙ mod-eq_of_lt (omega arith)

module _ {ℓ} {A : Type ℓ} (c : ℕ) (a : A) where
  -- The `n` elements from index `i` on.
  unfoldable pub read : List A → ℕ → ℕ → List A
  read slots i zero = []
  read slots i (suc n) = get_or slots i a ∷ read slots ((i + 1) % suc c) n

  pub next-lt : (i : ℕ) → i % suc c < suc c
  next-lt i = mod-lt i (omega arith)

  moved_ne : (i m : ℕ) → i < suc c → 0 < m → m < suc c → (i + m) % suc c ≢ i
  moved_ne i m hi h0 hm e = elim (le_or_lt (suc c) (i + m)) [
    | inl h ↦ absurd (omega (arith, e, wrap-ge (suc c) (i + m) h (omega arith)))
    | inr h ↦ absurd (omega (arith, e, wrap-lt (suc c) (i + m) h))
  ]

  -- A step along the ring, and `m` less to go.
  pub shift : (i m : ℕ) → ((i + 1) % suc c + m) % suc c ≡ (i + suc m) % suc c
  shift i m = mod-add-mod (i + 1) (suc c) m ∙ ap (λ t. t % suc c) (omega arith)

  pub read-set_other :
      (slots : List A) (i n m : ℕ) (v : A)
      → i < suc c
      → n ≤ m
      → m < suc c
      → read (set slots ((i + m) % suc c) v) i n ≡ read slots i n
  unfolding read
  read-set_other slots i zero m v hi hn hm = refl
  read-set_other slots i (suc n) zero v hi hn hm = absurd (omega arith)
  read-set_other slots i (suc n) (suc m) v hi hn hm =
      let j = (i + suc m) % suc c in
      let here = get_or-set_ne slots j i v a (moved_ne i (suc m) hi (omega arith) hm) in
      let there =
        read-set_other slots ((i + 1) % suc c) n m v (next-lt (i + 1)) (omega arith)
          (omega arith) in
      ap₂ (λ x xs. x ∷ xs) here
        (ap (λ t. read (set slots t v) ((i + 1) % suc c) n) (sym (shift i m)) ∙ there)

  pub read_snoc :
      (slots : List A) (i n : ℕ)
      → i < suc c
      → read slots i (suc n) ≡ read slots i n ++ (get_or slots ((i + n) % suc c) a ∷ [])
  unfolding read
  read_snoc slots i zero hi =
      ap (λ t. get_or slots t a ∷ []) (sym (wrap-lt (suc c) (i + 0) (omega arith) ∙ omega arith))
  read_snoc slots i (suc n) hi =
      ap (λ t. get_or slots i a ∷ t)
        (read_snoc slots ((i + 1) % suc c) n (next-lt (i + 1))
          ∙ ap (λ t. read slots ((i + 1) % suc c) n ++ (get_or slots t a ∷ [])) (shift i n))

  pub length-read : (slots : List A) (i n : ℕ) → length (read slots i n) ≡ n
  unfolding read
  length-read slots i zero = refl
  length-read slots i (suc n) = ap suc (length-read slots ((i + 1) % suc c) n)

  pub full_circle : (i : ℕ) → i < suc c → (i + suc c) % suc c ≡ i
  full_circle i hi = wrap-ge (suc c) (i + suc c) (omega arith) (omega arith) ∙ omega arith

  pub full_circle_next : (i : ℕ) → i < suc c → ((i + 1) % suc c + c) % suc c ≡ i
  full_circle_next i hi = shift i c ∙ full_circle i hi
