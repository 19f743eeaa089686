-- ===== src/Transport/Signaling/Urls.antt =====
-- The joined URLs have one slash at the seam.
use pipecat_voice_assistant.Prelude.{
  ℕ, zero, suc, ◌≡◌, refl, ap, Bool, false, [], ◌∷◌, ◌++◌, Bytes, replicate, arith,
}
use pipecat_voice_assistant.Transport.Signaling.{
  is_slash, trim_front, trim_onto, trim_back, join_url,
}

abbrev pub starts_with_slash : Bytes → Bool
starts_with_slash [] = false
starts_with_slash (c ∷ r) = is_slash c

abbrev pub ends_with_slash : Bytes → Bool
ends_with_slash [] = false
ends_with_slash (c ∷ []) = is_slash c
ends_with_slash (c ∷ d ∷ r) = ends_with_slash (d ∷ r)

trim_front-slashes :
    (n : ℕ) (path : Bytes)
    → starts_with_slash path ≡ false
    → trim_front (replicate n b'/' ++ path) ≡ path
unfolding trim_front
trim_front-slashes zero [] h = refl
trim_front-slashes zero (c ∷ r) h = ground arith
trim_front-slashes (suc n) path h = trim_front-slashes n path h

trim_back-replicate : (m : ℕ) → trim_back (replicate m b'/') ≡ []
unfolding trim_back
trim_back-replicate zero = refl
trim_back-replicate (suc m) = rw (trim_back-replicate m) refl

trim_back-slashes :
    (m : ℕ) (base : Bytes)
    → ends_with_slash base ≡ false
    → trim_back (base ++ replicate m b'/') ≡ base
unfolding trim_back
trim_back-slashes m [] h = trim_back-replicate m
trim_back-slashes m (c ∷ []) h = rw (trim_back-replicate m) (ground arith)
trim_back-slashes m (c ∷ d ∷ r) h = ap (trim_onto c) (trim_back-slashes m (d ∷ r) h)

-- Whatever slashes end the base and start the path, the joined URL has exactly one between them.
pub join_url-canonical :
    (m n : ℕ) (base path : Bytes)
    → ends_with_slash base ≡ false
    → starts_with_slash path ≡ false
    → join_url (base ++ replicate m b'/') (replicate n b'/' ++ path) ≡ base ++ (b'/' ∷ path)
unfolding join_url
join_url-canonical m n base path hb hp =
    rw (trim_back-slashes m base hb, trim_front-slashes n path hp) refl
