-- ===== src/Net/HostPort/Joined.antt =====
-- Addresses as "host:port" and "[host]:port", and Go's `net.SplitHostPort` of them.
use go2rtc_manager.Prelude.{ℕ, ◌≡◌, ◌≢◌, refl, false, [], ◌∷◌, ◌++◌, some, All, arith}
use go2rtc_manager.Prelude.Text.{Text}
use go2rtc_manager.Net.HostPort.{holds, cut, plain, bracketed, unbracketed, split_host_port}

abbrev Lacks : ℕ → Text → Type 0
Lacks d s = All (λ c. c ≢ d) s

-- An address that a host and a port make: a host with a colon in it stands in brackets.
pub data Joined (host : Text) : Text → Type 0 where
  plainly :
      (port : Text)
      → Lacks b':' host
      → Lacks b'[' host
      → Lacks b']' host
      → Lacks b':' port
      → Lacks b'[' port
      → Lacks b']' port
      → Joined host (host ++ b':' ∷ port)
  in_brackets :
      (port : Text)
      → Lacks b'[' host
      → Lacks b']' host
      → Lacks b':' port
      → Lacks b'[' port
      → Lacks b']' port
      → Joined host (b'[' ∷ (host ++ b']' ∷ b':' ∷ port))

cut-Lacks : (d : ℕ) (s rest : Text) → Lacks d s → cut d (s ++ d ∷ rest) ≡ some (s, rest)
unfolding cut
cut-Lacks d [] rest h = ground arith
cut-Lacks d (c ∷ s) rest h = ground (arith, cut-Lacks d s rest h.1)

holds-Lacks : (d : ℕ) (s : Text) → Lacks d s → holds d s ≡ false
holds-Lacks d [] h = refl
holds-Lacks d (c ∷ s) h = ground (arith, holds-Lacks d s h.1)

plain-Lacks :
    (host port : Text)
    → Lacks b'[' host
    → Lacks b']' host
    → Lacks b':' port
    → Lacks b'[' port
    → Lacks b']' port
    → plain host port ≡ some host
plain-Lacks host port h1 h2 p1 p2 p3 =
    rw
      (
        holds-Lacks b'[' host h1,
        holds-Lacks b']' host h2,
        holds-Lacks b'[' port p2,
        holds-Lacks b']' port p3,
        holds-Lacks b':' port p1,
      )
      refl

split-plainly :
    (host port : Text)
    → Lacks b'[' host
    → split_host_port (host ++ b':' ∷ port) ≡ unbracketed (host ++ b':' ∷ port)
unfolding split_host_port
split-plainly [] port h = refl
split-plainly (c ∷ host) port h = ground arith

-- Taken apart, a joined address gives its host.
pub split_host_port-Joined :
    (host addr : Text) → Joined host addr → split_host_port addr ≡ some host
unfolding split_host_port unbracketed bracketed
split_host_port-Joined host _ (plainly port h0 h1 h2 p1 p2 p3) =
    rw
      (
        split-plainly host port h1,
        unbracketed,
        cut-Lacks b':' host port h0,
        plain-Lacks host port h1 h2 p1 p2 p3,
      )
      refl
split_host_port-Joined host _ (in_brackets port h1 h2 p1 p2 p3) =
    rw
      (
        split_host_port,
        bracketed,
        cut-Lacks b']' host (b':' ∷ port) h2,
        plain-Lacks host port h1 h2 p1 p2 p3,
      )
      refl
