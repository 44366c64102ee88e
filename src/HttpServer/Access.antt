-- ===== src/HttpServer/Access.antt =====
-- httpserver/server.go: the allowed addresses and networks of the record API.
use go2rtc_manager.Prelude.{
  ◌≡◌, refl, Bool, true, false, not, ◌||◌, List, [], ◌∷◌, Option, none, some, if◌then◌else◌,
}
use go2rtc_manager.Prelude.Text.{Text, codes, text_eq, trim_space, contains}
use go2rtc_manager.Net.Ip.{Ip, parse_ip}
use go2rtc_manager.Net.Cidr.{IpNet, parse_cidr, cidr_contains}
use go2rtc_manager.Net.HostPort.{split_host_port}

abbrev pub push_some {ℓ} : {A : Type ℓ} → Option A → List A → List A
push_some none xs = xs
push_some (some x) xs = x ∷ xs

unfoldable pub parse_allowed_record_ips : List Text → List Ip
parse_allowed_record_ips [] = []
parse_allowed_record_ips (given ∷ more) =
    let value = trim_space given in
    let rest = parse_allowed_record_ips more in
    if contains value (codes "/") then rest else push_some (parse_ip value) rest

unfoldable pub parse_allowed_record_cidrs : List Text → List IpNet
parse_allowed_record_cidrs [] = []
parse_allowed_record_cidrs (given ∷ more) =
    let value = trim_space given in
    let rest = parse_allowed_record_cidrs more in
    if not (contains value (codes "/")) then rest else push_some (parse_cidr value) rest

-- The host, or the whole text if it cannot be split.
abbrev pub or_whole : Option Text → Text → Text
or_whole none whole = whole
or_whole (some host) whole = host

unfoldable pub remote_addr_ip : Text → Option Ip
remote_addr_ip remote_addr =
    parse_ip (trim_space (or_whole (split_host_port remote_addr) remote_addr))

-- The two loops of `recordAccessAllowed`. `IP.Equal` of two addresses of 16 bytes compares bytes.
unfoldable pub any_ip : Ip → List Ip → Bool
any_ip ip [] = false
any_ip ip (allowed ∷ more) = text_eq allowed ip || any_ip ip more

unfoldable pub any_cidr : Ip → List IpNet → Bool
any_cidr ip [] = false
any_cidr ip (allowed ∷ more) = cidr_contains allowed ip || any_cidr ip more

-- The server's two lists, as `New` fills them.
pub record Allowed : Type 0 where
  pub ips : List Ip
  pub cidrs : List IpNet

unfoldable pub allowed_of : List Text → Allowed
unfolding parse_allowed_record_ips parse_allowed_record_cidrs
allowed_of values = record {
  ips = parse_allowed_record_ips values;
  cidrs = parse_allowed_record_cidrs values;
}

unfoldable pub ip_allowed : Allowed → Option Ip → Bool
unfolding any_ip any_cidr
ip_allowed allowed none = false
ip_allowed allowed (some ip) = any_ip ip allowed.ips || any_cidr ip allowed.cidrs

unfoldable pub record_access_allowed : Allowed → Text → Bool
unfolding ip_allowed remote_addr_ip
record_access_allowed allowed remote_addr = ip_allowed allowed (remote_addr_ip remote_addr)

abbrev readme_ips : List Text
readme_ips = codes "127.0.0.1" ∷ codes "10.0.0.20" ∷ codes "192.168.0.0/24" ∷ []

access_tests :
    (record_access_allowed (allowed_of readme_ips) (codes "192.168.0.9:4711") ≡ true)
    × (record_access_allowed (allowed_of readme_ips) (codes "192.168.1.9:4711") ≡ false)
    × (record_access_allowed (allowed_of readme_ips) (codes "10.0.0.20:1") ≡ true)
    × (record_access_allowed (allowed_of []) (codes "127.0.0.1:1") ≡ false)
    × (record_access_allowed (allowed_of readme_ips) (codes "unix") ≡ false)
unfolding record_access_allowed allowed_of trim_space contains parse_ip parse_cidr cidr_contains
    split_host_port text_eq
access_tests = (refl, refl, refl, refl, refl)
