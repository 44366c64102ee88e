-- ===== src/HttpServer/Admission.antt =====
-- httpserver/server.go: the remote addresses that `recordAccessAllowed` lets in, against the entries of
-- `record.allowed_ips`.
use go2rtc_manager.Prelude.{
  subst, ◌≡◌, refl, ◌↔◌, ◌⊎◌, inl, inr, Bool, Bool-cases, true, false, List, [], ◌∷◌, Any, All,
  Option, none, some, arith, if◌then◌else◌, ◌||◌, not,
}
use go2rtc_manager.Prelude.Text.{
  Text, codes, is_space, trim_left, trim_right, trim_space, text_eq_iff, contains,
}
use go2rtc_manager.Net.Ip.{Ip, parse_ip}
use go2rtc_manager.Net.Cidr.{IpNet, parse_cidr, cidr_contains}
use go2rtc_manager.Net.HostPort.Joined.{Joined, split_host_port-Joined}
use go2rtc_manager.HttpServer.Access.{
  push_some, parse_allowed_record_ips, parse_allowed_record_cidrs, allowed_of, any_ip, any_cidr,
  ip_allowed, remote_addr_ip, record_access_allowed,
}

-- An entry that names the address, and an entry that is a network with the address in it.
abbrev pub Names : Ip → Text → Type 0
Names ip value =
    (contains (trim_space value) (codes "/") ≡ false) × (parse_ip (trim_space value) ≡ some ip)

abbrev pub Covers : Ip → Text → Type 0
Covers ip value =
    (contains (trim_space value) (codes "/") ≡ true)
    × ((n : IpNet) × (parse_cidr (trim_space value) ≡ some n) × (cidr_contains n ip ≡ true))

-- One of the entries lets the address in.
abbrev pub Admits : List Text → Ip → Type 0
Admits values ip = Any (Names ip) values ⊎ Any (Covers ip) values

ip-step :
    (ip : Ip) (b : Bool) (o : Option Ip) (rest : List Ip)
    → (any_ip ip (if b then rest else push_some o rest) ≡ true)
      ↔ (((b ≡ false) × (o ≡ some ip)) ⊎ (any_ip ip rest ≡ true))
unfolding any_ip
ip-step ip true o rest = (λ e. inr e, λ h. ground arith)
ip-step ip false none rest = (λ e. inr e, λ h. ground arith)
ip-step ip false (some x) rest = ground (arith, text_eq_iff x ip)

cidr-step :
    (ip : Ip) (b : Bool) (o : Option IpNet) (rest : List IpNet)
    → (any_cidr ip (if not b then rest else push_some o rest) ≡ true) ↔ (
        ((b ≡ true) × ((n : IpNet) × (o ≡ some n) × (cidr_contains n ip ≡ true)))
        ⊎ (any_cidr ip rest ≡ true))
unfolding any_cidr
cidr-step ip false o rest = (λ e. inr e, λ h. ground arith)
cidr-step ip true none rest = (λ e. inr e, λ h. ground arith)
cidr-step ip true (some x) rest = (there (Bool-cases (cidr_contains x ip)), back)
  where
    there :
        (cidr_contains x ip ≡ true) ⊎ (cidr_contains x ip ≡ false)
        → (cidr_contains x ip || any_cidr ip rest) ≡ true
        → ((true ≡ true) × ((n : IpNet) × (some x ≡ some n) × (cidr_contains n ip ≡ true)))
          ⊎ (any_cidr ip rest ≡ true)
    there (inl hit) e = inl (refl, (x, refl, hit))
    there (inr miss) e = inr (ground arith)

    back :
        ((true ≡ true) × ((n : IpNet) × (some x ≡ some n) × (cidr_contains n ip ≡ true)))
          ⊎ (any_cidr ip rest ≡ true)
        → (cidr_contains x ip || any_cidr ip rest) ≡ true
    back (inl (e, (n, same, hit))) = let eq : x ≡ n = cc in rw (eq, hit) refl
    back (inr h) = ground arith

-- An entry of a list in front of the others, both seen through an equivalence.
or_rest : {A B P Q : Type 0} → (A ↔ (P ⊎ B)) → (B ↔ Q) → A ↔ (P ⊎ Q)
or_rest f g = (
  λ a. elim (f.0 a) [ inl p ↦ inl p | inr b ↦ inr (g.0 b) ],
  λ h. elim h [ inl p ↦ f.1 (inl p) | inr q ↦ f.1 (inr (g.1 q)) ],
)

any_ip_iff :
    (ip : Ip) (values : List Text)
    → (any_ip ip (parse_allowed_record_ips values) ≡ true) ↔ Any (Names ip) values
unfolding parse_allowed_record_ips any_ip
any_ip_iff ip [] = (λ e. cc, λ h. absurd h.0)
any_ip_iff ip (value ∷ values) =
    or_rest
      (ip-step ip (contains (trim_space value) (codes "/")) (parse_ip (trim_space value))
        (parse_allowed_record_ips values))
      (any_ip_iff ip values)

any_cidr_iff :
    (ip : Ip) (values : List Text)
    → (any_cidr ip (parse_allowed_record_cidrs values) ≡ true) ↔ Any (Covers ip) values
unfolding parse_allowed_record_cidrs any_cidr
any_cidr_iff ip [] = (λ e. cc, λ h. absurd h.0)
any_cidr_iff ip (value ∷ values) =
    or_rest
      (cidr-step ip (contains (trim_space value) (codes "/")) (parse_cidr (trim_space value))
        (parse_allowed_record_cidrs values))
      (any_cidr_iff ip values)

trim_right-filled : (s : Text) → All (λ c. is_space c ≡ false) s → trim_right s ≡ s
unfolding trim_right
trim_right-filled [] h = refl
trim_right-filled (c ∷ s) h = rw (h.0, trim_right-filled s h.1) refl

trim_space-filled : (s : Text) → All (λ c. is_space c ≡ false) s → trim_space s ≡ s
unfolding trim_space trim_left
trim_space-filled [] h = trim_right-filled [] h
trim_space-filled (c ∷ s) h = rw h.0 (trim_right-filled (c ∷ s) h)

remote_addr_ip-Joined :
    (host remote_addr : Text)
    → Joined host remote_addr
    → All (λ c. is_space c ≡ false) host
    → remote_addr_ip remote_addr ≡ parse_ip host
unfolding remote_addr_ip
remote_addr_ip-Joined host remote_addr joined filled =
    rw (split_host_port-Joined host remote_addr joined, trim_space-filled host filled) refl

some-Admits :
    (values : List Text) (ip : Ip)
    → (ip_allowed (allowed_of values) (some ip) ≡ true) ↔ Admits values ip
unfolding ip_allowed allowed_of
some-Admits values ip = (split (Bool-cases (any_ip ip (parse_allowed_record_ips values))), join)
  where
    split :
        (any_ip ip (parse_allowed_record_ips values) ≡ true)
          ⊎ (any_ip ip (parse_allowed_record_ips values) ≡ false)
        → ip_allowed (allowed_of values) (some ip) ≡ true
        → Admits values ip
    split (inl hit) e = inl ((any_ip_iff ip values).0 hit)
    split (inr miss) e = inr ((any_cidr_iff ip values).0 (rw miss at e))

    join : Admits values ip → ip_allowed (allowed_of values) (some ip) ≡ true
    join (inl h) = rw ((any_ip_iff ip values).1 h) refl
    join (inr h) = ground (arith, (any_cidr_iff ip values).1 h)

ip_allowed_iff :
    (values : List Text) (o : Option Ip)
    → (ip_allowed (allowed_of values) o ≡ true) ↔ ((ip : Ip) × (o ≡ some ip) × Admits values ip)
unfolding ip_allowed
ip_allowed_iff values none = (λ e. cc, λ h. cc (h.1))
ip_allowed_iff values (some ip) = (
  λ e. (ip, refl, (some-Admits values ip).0 e),
  λ h. let same : h.0 ≡ ip = cc (h.1) in (some-Admits values ip).1 (subst (Admits values) same h.2),
)

-- For a remote address "host:port" or "[host]:port" without a space in the host: the record API lets
-- it in exactly when the host is an IP address, and an entry of `record.allowed_ips`, without the
-- spaces around it, is that address, or is a network, written with a slash, that contains it.
pub record_access_allowed-Joined :
    (values : List Text) (host remote_addr : Text)
    → Joined host remote_addr
    → All (λ c. is_space c ≡ false) host
    → (record_access_allowed (allowed_of values) remote_addr ≡ true)
      ↔ ((ip : Ip) × (parse_ip host ≡ some ip) × Admits values ip)
unfolding record_access_allowed
record_access_allowed-Joined values host remote_addr joined filled =
    rw (remote_addr_ip-Joined host remote_addr joined filled)
      (ip_allowed_iff values (parse_ip host))
