-- ===== src/Net/Cidr.antt =====
-- Go's `net.ParseCIDR` and `IPNet.Contains`. A mask is the number of one bits in each byte.
use go2rtc_manager.Prelude.{
  ℕ, zero, suc, ◌+◌, ◌-◌, ◌*◌, ◌/◌, ◌^◌, ◌≡◌, refl, Bool, true, false, ◌&&◌, List, [], ◌∷◌, Option,
  none, some, length, ltb, ◌==◌, if◌then◌else◌, min,
}
use go2rtc_manager.Prelude.Text.{Text, codes, is_empty, text_eq}
use go2rtc_manager.Net.Ip.{Ip, Addr, is_digit, parse_addr, parse_ip}

pub record IpNet : Type 0 where
  pub ip : Ip
  pub mask : List ℕ

-- `CIDRMask(n, 8 * bytes)`
unfoldable pub cidr_mask : ℕ → ℕ → List ℕ
cidr_mask n zero = []
cidr_mask n (suc bytes) = min n 8 ∷ cidr_mask (n - 8) bytes

-- `b & m`, for a byte and a mask of `ones` one bits.
unfoldable pub mask_byte : ℕ → ℕ → ℕ
mask_byte ones b = b / 2 ^ (8 - ones) * 2 ^ (8 - ones)

unfoldable pub mask_bytes : List ℕ → List ℕ → List ℕ
unfolding mask_byte
mask_bytes (ones ∷ mask) (b ∷ ip) = mask_byte ones b ∷ mask_bytes mask ip
mask_bytes _ _ = []

abbrev drop : ℕ → List ℕ → List ℕ
drop zero xs = xs
drop (suc n) [] = []
drop (suc n) (x ∷ xs) = drop n xs

abbrev take : ℕ → List ℕ → List ℕ
take zero xs = []
take (suc n) [] = []
take (suc n) (x ∷ xs) = x ∷ take n xs

-- `ip.To4()`, or the address as it is: 16 bytes behind the prefix ::ffff:0:0/96 become 4.
unfoldable pub to4 : Ip → Ip
unfolding text_eq
to4 ip =
    if text_eq (take 12 ip) (0 ∷ 0 ∷ 0 ∷ 0 ∷ 0 ∷ 0 ∷ 0 ∷ 0 ∷ 0 ∷ 0 ∷ 255 ∷ 255 ∷ [])
      && (length ip == 16)
    then drop 12 ip
    else ip

-- `dtoi`, of a text that is digits to its end; `none` from 0xFFFFFF on.
unfoldable pub read_digits : ℕ → Text → Option ℕ
read_digits n [] = some n
read_digits n (c ∷ s) =
    let m : ℕ = n * 10 + (c - b'0') in
    let rest = read_digits m s in if is_digit c && ltb m 16777215 then rest else none

-- The text before the first slash, and behind it.
unfoldable pub cut_slash : Text → Option (Text × Text)
cut_slash [] = none
cut_slash (c ∷ s) = elim (c == b'/') [
  | true ↦ some ([], s)
  | false ↦ elim (cut_slash s) [ none ↦ none | some (before, behind) ↦ some (c ∷ before, behind) ]
]

-- The network of an address and its number of one bits.
unfoldable pub network : Addr → ℕ → Option IpNet
unfolding cidr_mask mask_bytes to4
network addr n =
    if addr.is_v4
    then (if ltb 32 n
        then none
        else (let mask = cidr_mask n 4 in
            some (record { ip = mask_bytes mask (to4 addr.bytes); mask = mask })))
    else if ltb 128 n
    then none
    else (let mask = cidr_mask n 16 in
        some (record { ip = mask_bytes mask addr.bytes; mask = mask }))

-- The address and the number, where both are right.
abbrev both : Option Addr → Option ℕ → Option IpNet
both (some addr) (some n) = network addr n
both _ _ = none

-- The network that `net.ParseCIDR` returns.
unfoldable pub parse_cidr : Text → Option IpNet
unfolding cut_slash parse_addr read_digits network
parse_cidr s = elim (cut_slash s) [
  | none ↦ none
  | some (addr, bits) ↦ if is_empty bits then none else both (parse_addr addr) (read_digits 0 bits)
]

-- `networkNumberAndMask`: the mask of a 16 byte network that is written in 4 bytes loses its front.
unfoldable pub mask_for : ℕ → List ℕ → List ℕ
mask_for bytes mask = if (bytes == 4) && (length mask == 16) then drop 12 mask else mask

-- `n.Contains(ip)`
unfoldable pub cidr_contains : IpNet → Ip → Bool
unfolding to4 mask_for mask_bytes text_eq
cidr_contains n ip =
    let number = to4 n.ip in
    let x = to4 ip in
    let mask = mask_for (length number) n.mask in
    (length x == length number)
    && (length mask == length number)
    && text_eq (mask_bytes mask number) (mask_bytes mask x)

-- Whether an address lies in a network, both as texts.
abbrev lies_in : Option Ip → Option IpNet → Bool
lies_in (some ip) (some n) = cidr_contains n ip
lies_in _ _ = false

parse_cidr_tests :
    (lies_in (parse_ip (codes "192.168.0.77")) (parse_cidr (codes "192.168.0.0/24")) ≡ true)
    × (lies_in (parse_ip (codes "192.168.1.77")) (parse_cidr (codes "192.168.0.0/24")) ≡ false)
    × (lies_in (parse_ip (codes "192.168.1.77")) (parse_cidr (codes "192.168.0.9/23")) ≡ true)
    × (lies_in (parse_ip (codes "::ffff:10.0.0.9")) (parse_cidr (codes "10.0.0.0/8")) ≡ true)
    × (lies_in (parse_ip (codes "10.1.2.9")) (parse_cidr (codes "::ffff:10.1.2.0/120")) ≡ true)
    × (lies_in (parse_ip (codes "fe80::9")) (parse_cidr (codes "fe80::/10")) ≡ true)
    × (lies_in (parse_ip (codes "10.0.0.1")) (parse_cidr (codes "::/0")) ≡ false)
    × (parse_cidr (codes "10.0.0.0/33") ≡ none)
    × (parse_cidr (codes "10.0.0.0") ≡ none)
    × (parse_cidr (codes "10.0.0.0/") ≡ none)
unfolding parse_cidr cidr_contains parse_ip
parse_cidr_tests = (refl, refl, refl, refl, refl, refl, refl, refl, refl, refl)
