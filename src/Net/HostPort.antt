-- ===== src/Net/HostPort.antt =====
-- Go's `net.SplitHostPort`: the host of "host:port" and "[host]:port".
pub mod Joined
use go2rtc_manager.Prelude.{
  ℕ, ◌≡◌, refl, Bool, true, false, ◌||◌, [], ◌∷◌, Option, none, some, any, ◌==◌, if◌then◌else◌,
}
use go2rtc_manager.Prelude.Text.{Text, codes}

abbrev holds : ℕ → Text → Bool
holds c s = any (λ d. d == c) s

-- The text before the first `c`, and behind it.
unfoldable pub cut : ℕ → Text → Option (Text × Text)
cut c [] = none
cut c (d ∷ s) = elim (d == c) [
  | true ↦ some ([], s)
  | false ↦ elim (cut c s) [ none ↦ none | some (before, behind) ↦ some (d ∷ before, behind) ]
]

abbrev after_colon : Text → Option Text
after_colon [] = none
after_colon (c ∷ s) = if c == b':' then some s else none

-- No further bracket, and no colon in the port.
abbrev plain : Text → Text → Option Text
plain host port =
    if holds b'[' host || holds b']' host || holds b'[' port || holds b']' port || holds b':' port
    then none
    else some host

-- `[host]:port`: the text behind the first bracket.
unfoldable pub bracketed : Text → Option Text
unfolding cut
bracketed s = elim (cut b']' s) [
  | none ↦ none
  | some (host, rest) ↦ elim (after_colon rest) [ none ↦ none | some port ↦ plain host port ]
]

-- `host:port`, with one colon.
unfoldable pub unbracketed : Text → Option Text
unfolding cut
unbracketed s = elim (cut b':' s) [ none ↦ none | some (host, port) ↦ plain host port ]

-- The host; `none` is an error.
unfoldable pub split_host_port : Text → Option Text
unfolding bracketed unbracketed
split_host_port [] = none
split_host_port (c ∷ s) = if c == b'[' then bracketed s else unbracketed (c ∷ s)

split_tests :
    (split_host_port (codes "127.0.0.1:5000") ≡ some (codes "127.0.0.1"))
    × (split_host_port (codes "[::1]:5000") ≡ some (codes "::1"))
    × (split_host_port (codes "127.0.0.1") ≡ none)
    × (split_host_port (codes "::1") ≡ none)
    × (split_host_port (codes "[::1]") ≡ none)
unfolding split_host_port
split_tests = (refl, refl, refl, refl, refl)
