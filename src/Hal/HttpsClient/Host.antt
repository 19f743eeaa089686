-- ===== src/Hal/HttpsClient/Host.antt =====
-- The host of a URL.
use pipecat_voice_assistant.Prelude.{
  ℕ, ◌+◌, ◌≡◌, ◌≢◌, refl, sym, ap, ◌∙◌, true, ◌||◌, some, [], ◌∷◌, ◌++◌, Bytes, ◌==◌, length, drop,
  All, codes, drop-append, length-append, append_assoc, arith,
}
use pipecat_voice_assistant.Hal.HttpsClient.{find_scheme_end, until_delimiter, host_from_url}

abbrev pub NoColon : Bytes → Type 0
NoColon s = All (λ (c : ℕ). c ≢ b':') s

abbrev pub NoDelimiter : Bytes → Type 0
NoDelimiter s = All (λ (c : ℕ). (c ≢ b':') × (c ≢ b'/')) s

-- What may follow the host.
abbrev pub Follows : Bytes → Type 0
Follows [] = Unit
Follows (c ∷ r) = ((c == b':') || (c == b'/')) ≡ true

find_scheme_end-append :
    (scheme rest : Bytes)
    → NoColon scheme
    → find_scheme_end (scheme ++ (codes "://" ++ rest)) ≡ some (length scheme)
unfolding find_scheme_end
find_scheme_end-append [] rest h = refl
find_scheme_end-append (a ∷ []) rest (ha, hr) = ground arith
find_scheme_end-append (a ∷ b ∷ []) rest (ha, hr) =
    ground (arith, find_scheme_end-append (b ∷ []) rest hr)
find_scheme_end-append (a ∷ b ∷ c ∷ r) rest (ha, hr) =
    ground (arith, find_scheme_end-append (b ∷ c ∷ r) rest hr)

until_delimiter-append :
    (host rest : Bytes) → NoDelimiter host → Follows rest → until_delimiter (host ++ rest) ≡ host
unfolding until_delimiter
until_delimiter-append [] [] h f = refl
until_delimiter-append [] (c ∷ r) h f = rw f refl
until_delimiter-append (c ∷ host) rest ((hc, hs), hr) f =
    ground (arith, until_delimiter-append host rest hr f)

drop_scheme : (s r : Bytes) → drop (length s + 3) (s ++ (codes "://" ++ r)) ≡ r
drop_scheme s r =
    let whole : Bytes = s ++ codes "://" in
    ap (λ (n : ℕ). drop n (s ++ (codes "://" ++ r))) (sym (length-append s (codes "://")))
    ∙ ap (λ (t : Bytes). drop (length whole) t) (sym (append_assoc s (codes "://") r))
    ∙ drop-append whole r

-- The host of a URL is what stands between `://` and the first colon or slash behind it.
pub host_from_url-parts :
    (scheme host rest : Bytes)
    → NoColon scheme
    → NoDelimiter host
    → Follows rest
    → host_from_url (scheme ++ (codes "://" ++ (host ++ rest))) ≡ host
unfolding host_from_url
host_from_url-parts scheme host rest hs hh hf =
    rw (find_scheme_end-append scheme (host ++ rest) hs) (
      ap until_delimiter (drop_scheme scheme (host ++ rest))
      ∙ until_delimiter-append host rest hh hf)
