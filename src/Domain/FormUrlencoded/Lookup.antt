-- ===== src/Domain/FormUrlencoded/Lookup.antt =====
-- The lookup loop against a body that is split into its fields first.
use pipecat_voice_assistant.Prelude.{
  ℕ, zero, suc, ◌+◌, ◌-◌, ◌≤◌, ◌<◌, ◌≡◌, refl, sym, ap, ◌∙◌, inl, inr, Bool-cases, Option-cases,
  List, [], ◌∷◌, Option, none, some, if◌then◌else◌, ltb, ◌==◌, Bytes, list_eq, length, length-drop,
  take, drop, arith,
}
use pipecat_voice_assistant.Domain.FormUrlencoded.{
  next_index, find, url_decode, match_pair, get_from, form_get,
}

abbrev glue : ℕ → List Bytes → List Bytes
glue c [] = (c ∷ []) ∷ []
glue c (s ∷ ss) = (c ∷ s) ∷ ss

-- The fields between the ampersands.
unfoldable pub fields : Bytes → List Bytes
fields [] = [] ∷ []
fields (c ∷ r) = let more = fields r in if c == b'&' then [] ∷ more else glue c more

abbrev value_at : Bytes → Option ℕ → Bytes → Option Bytes
value_at field none key = none
value_at field (some eq) key =
    if list_eq (take eq field) key then some (url_decode (drop (eq + 1) field)) else none

-- The decoded value of a field whose name, up to its first equals sign, is the key.
abbrev pub field_value : Bytes → Bytes → Option Bytes
field_value field key = value_at field (find b'=' field) key

abbrev pub first_value : List Bytes → Bytes → Option Bytes
first_value [] key = none
first_value (f ∷ fs) key = elim (field_value f key) [ some v ↦ some v | none ↦ first_value fs key ]

abbrev cutoff : ℕ → Option ℕ → Option ℕ
cutoff end none = none
cutoff end (some i) = if ltb i end then some i else none

cutoff-next_index :
    (end : ℕ) (o : Option ℕ) → cutoff (suc end) (next_index o) ≡ next_index (cutoff end o)
cutoff-next_index end none = refl
cutoff-next_index end (some i) = ground arith

find-take : (c end : ℕ) (s : Bytes) → find c (take end s) ≡ cutoff end (find c s)
unfolding find
find-take c zero s = ground arith
find-take c (suc end) [] = refl
find-take c (suc end) (x ∷ r) = elim (Bool-cases (x == c)) [
  | inl here ↦ ground arith
  | inr later ↦ rw (later, cutoff-next_index, find-take c end r)
]

fields-none : (s : Bytes) → find b'&' s ≡ none → fields s ≡ s ∷ []
unfolding find fields
fields-none [] h = refl
fields-none (c ∷ r) h = ground (arith, fields-none r)

fields-some :
    (s : Bytes) (i : ℕ)
    → find b'&' s ≡ some i
    → (i < length s) × (fields s ≡ take i s ∷ fields (drop (suc i) s))
unfolding find fields
fields-some [] i h = absurd (cc)
fields-some (c ∷ r) zero h = ground arith
fields-some (c ∷ r) (suc i) h = ground (arith, fields-some r i)

take-take : {A : Type 0} (n m : ℕ) (s : List A) → n ≤ m → take n (take m s) ≡ take n s
take-take zero m s h = refl
take-take (suc n) zero s h = absurd (omega arith)
take-take (suc n) (suc m) [] h = refl
take-take (suc n) (suc m) (x ∷ r) h = ap (λ t. x ∷ t) (take-take n m r (omega arith))

take-nil : (A : Type 0) (n : ℕ) → take {A = A} n [] ≡ []
take-nil A zero = refl
take-nil A (suc n) = refl

drop-take : {A : Type 0} (n m : ℕ) (s : List A) → drop n (take m s) ≡ take (m - n) (drop n s)
drop-take zero m s = ap (λ k. take k s) (omega arith)
drop-take (suc n) zero s = ap (λ k. take k (drop (suc n) s)) {x = 0} {y = 0 - suc n} (omega arith)
drop-take {A} (suc n) (suc m) [] = sym (take-nil A (suc m - suc n))
drop-take (suc n) (suc m) (x ∷ r) = drop-take n m r ∙ ap (λ k. take k (drop n r)) (omega arith)

match_pair-cutoff :
    (rest : Bytes) (o : Option ℕ) (end : ℕ) (key : Bytes)
    → match_pair rest o end key ≡ value_at (take end rest) (cutoff end o) key
unfolding match_pair
match_pair-cutoff rest none end key = refl
match_pair-cutoff rest (some eq) end key = elim (Bool-cases (ltb eq end)) [
  | inl inside ↦ ground (
    arith,
    take-take eq end rest,
    drop-take (suc eq) end rest,
    ap (λ k. take k (drop (suc eq) rest)) {x = end - eq - 1} {y = end - suc eq} (omega arith),
  )
  | inr outside ↦ ground arith
]

match_pair-field_value :
    (rest : Bytes) (end : ℕ) (key : Bytes)
    → match_pair rest (find b'=' rest) end key ≡ field_value (take end rest) key
match_pair-field_value rest end key =
    rw (find-take b'=' end rest) (match_pair-cutoff rest (find b'=' rest) end key)

take_all : (s : Bytes) → take (length s) s ≡ s
take_all [] = refl
take_all (x ∷ r) = ap (λ t. x ∷ t) (take_all r)

get_from-first_value :
    (fuel : ℕ) (rest key : Bytes)
    → length rest < fuel
    → get_from fuel rest key ≡ first_value (fields rest) key
unfolding get_from
get_from-first_value zero rest key h = absurd (omega arith)
get_from-first_value (suc fuel) [] key h = unfold find fields in refl
get_from-first_value (suc fuel) (c ∷ r) key h =
    let s = c ∷ r in
    elim (Option-cases (find b'&' s)) [
      | inl last ↦
          ground (arith, fields-none s last, match_pair-field_value s (length s) key, take_all s)
      | inr (i, more) ↦
          let cut = fields-some s i more in
          ground (
            arith,
            cut,
            match_pair-field_value s i key,
            get_from-first_value fuel (drop (suc i) s) key (omega (arith, length-drop (suc i) s)),
          )
    ]

-- The loop ends, and gives the decoded value of the first field of the body whose name is the key,
-- or nothing if there is no such field.
pub form_get-first_value : (body key : Bytes) → form_get body key ≡ first_value (fields body) key
unfolding form_get
form_get-first_value body key = get_from-first_value (suc (length body)) body key (omega arith)
