-- ===== src/Net/Ip.antt =====
-- Go's `net.ParseIP`, by `netip.ParseAddr`: the two notations of an address.
use go2rtc_manager.Prelude.{
  ℕ, zero, suc, ◌+◌, ◌-◌, ◌*◌, ◌/◌, ◌%◌, ◌≡◌, refl, Bool, true, false, not, ◌&&◌, ◌||◌, List, [],
  ◌∷◌, ◌++◌, Option, none, some, length, ltb, leb, ◌==◌, if◌then◌else◌,
}
use go2rtc_manager.Prelude.Text.{Text, codes, is_empty}

abbrev pub Ip : Type 0
Ip = List ℕ

abbrev pub is_digit : ℕ → Bool
is_digit c = leb b'0' c && leb c b'9'

-- `parseIPv4Fields`: the fields so far, last first, the value and the number of the digits of the
-- field at hand.
unfoldable pub parse_ipv4_fields : List ℕ → ℕ → ℕ → Text → Option (List ℕ)
parse_ipv4_fields (c ∷ b ∷ a ∷ []) val digits [] = some (a ∷ b ∷ c ∷ val ∷ [])
parse_ipv4_fields fields val digits [] = none
parse_ipv4_fields fields val digits (c ∷ s) =
    let digit = parse_ipv4_fields fields (val * 10 + (c - b'0')) (digits + 1) s in
    let field = parse_ipv4_fields (val ∷ fields) 0 0 s in
    if is_digit c
    then (if ((digits == 1) && (val == 0)) || ltb 255 (val * 10 + (c - b'0')) then none else digit)
    else if c == b'.'
    then (if (digits == 0) || is_empty s || (length fields == 3) then none else field)
    else none

unfoldable pub parse_ipv4 : Text → Option (List ℕ)
unfolding parse_ipv4_fields
parse_ipv4 s = parse_ipv4_fields [] 0 0 s

-- The value of a hexadecimal digit.
unfoldable pub hex_value : ℕ → Option ℕ
hex_value c =
    if is_digit c
    then some (c - b'0')
    else if leb b'a' c && leb c b'f'
    then some (c - b'a' + 10)
    else if leb b'A' c && leb c b'F'
    then some (c - b'A' + 10)
    else none

-- The hexadecimal digits at the front: their number, their value, and what stands behind them;
-- `none` if there are more than four. (Four digits never pass 65535.)
unfoldable pub hex_group : ℕ → ℕ → Text → Option (ℕ × ℕ × Text)
unfolding hex_value
hex_group off acc [] = some (off, acc, [])
hex_group off acc (c ∷ s) = elim (hex_value c) [
  | none ↦ some (off, acc, c ∷ s)
  | some v ↦ if ltb 3 off then none else hex_group (off + 1) (acc * 16 + v) s
]

abbrev pub zeros : ℕ → List ℕ
zeros zero = []
zeros (suc n) = 0 ∷ zeros n

-- The end of `parseIPv6`: the bytes before the ellipsis, if there was one, and those since.
unfoldable pub expand : Option (List ℕ) → List ℕ → Option Ip
expand none bytes = if length bytes == 16 then some bytes else none
expand (some before) bytes =
    let n : ℕ = length before + length bytes in
    if ltb n 16 then some (before ++ (zeros (16 - n) ++ bytes)) else none

-- Every colon is followed by a group or by the second colon of the ellipsis.
abbrev starts_with_colon : Text → Bool
starts_with_colon [] = false
starts_with_colon (c ∷ s) = c == b':'

abbrev tail : Text → Text
tail [] = []
tail (c ∷ s) = s

abbrev has_ellipsis : Option (List ℕ) → Bool
has_ellipsis none = false
has_ellipsis (some _) = true

-- The number of bytes so far.
abbrev filled : Option (List ℕ) → List ℕ → ℕ
filled none bytes = length bytes
filled (some before) bytes = length before + length bytes

-- A trailing IPv4 address, in its right place.
unfoldable pub ipv4_tail : Option (List ℕ) → List ℕ → Text → Option Ip
unfolding parse_ipv4 expand
ipv4_tail before bytes s =
    if (not (has_ellipsis before) && not (filled before bytes == 12))
      || ltb 16 (filled before bytes + 4)
    then none
    else elim (parse_ipv4 s) [ none ↦ none | some fields ↦ expand before (bytes ++ fields) ]

-- The loop of `parseIPv6`, a round for a group; there are at most eight.
unfoldable pub ipv6_groups : ℕ → Option (List ℕ) → List ℕ → Text → Option Ip
unfolding hex_group expand ipv4_tail
ipv6_groups zero before bytes s = if is_empty s then expand before bytes else none
ipv6_groups (suc rounds) before bytes s =
    if leb 16 (filled before bytes)
    then (if is_empty s then expand before bytes else none)
    else elim (hex_group 0 0 s) [
      | none ↦ none
      | some (off, acc, rest) ↦
          if off == 0
          then none
          else (let bytes' = bytes ++ (acc / 256) ∷ (acc % 256) ∷ [] in
              elim rest [
                | [] ↦ expand before bytes'
                | c ∷ s' ↦
                    if c == b'.'
                    then ipv4_tail before bytes s
                    else if not (c == b':') || is_empty s'
                    then none
                    else elim (starts_with_colon s') [
                      | false ↦ ipv6_groups rounds before bytes' s'
                      | true ↦ if has_ellipsis before then none else elim (is_empty (tail s')) [
                        | true ↦ expand (some bytes') []
                        | false ↦ ipv6_groups rounds (some bytes') [] (tail s')
                      ]
                    ]
              ])
    ]

unfoldable pub parse_ipv6 : Text → Option Ip
unfolding ipv6_groups
parse_ipv6 s =
    if starts_with_colon s && starts_with_colon (tail s)
    then (if is_empty (tail (tail s))
        then some (zeros 16)
        else ipv6_groups 8 (some []) [] (tail (tail s)))
    else ipv6_groups 8 none [] s

-- The text holds a `%`: an address with a zone, which `net` refuses.
abbrev has_zone : Text → Bool
has_zone [] = false
has_zone (c ∷ s) = (c == b'%') || has_zone s

-- An address, and whether it was written as IPv4.
pub record Addr : Type 0 where
  pub bytes : Ip
  pub is_v4 : Bool

unfoldable pub v4_in_v6 : List ℕ → Ip
v4_in_v6 fields = zeros 10 ++ 255 ∷ 255 ∷ fields

abbrev as_v4 : Option (List ℕ) → Option Addr
as_v4 none = none
as_v4 (some fields) = some (record { bytes = v4_in_v6 fields; is_v4 = true })

abbrev as_v6 : Option Ip → Option Addr
as_v6 none = none
as_v6 (some ip) = some (record { bytes = ip; is_v4 = false })

-- `netip.ParseAddr`, and the refusal of a zone: the first `.`, `:` or `%` decides the notation.
unfoldable pub scan_addr : Text → Text → Option Addr
unfolding parse_ipv4 parse_ipv6 v4_in_v6
scan_addr whole [] = none
scan_addr whole (c ∷ s) =
    let rest = scan_addr whole s in
    if c == b'.'
    then as_v4 (parse_ipv4 whole)
    else if c == b':'
    then (if has_zone whole then none else as_v6 (parse_ipv6 whole))
    else if c == b'%'
    then none
    else rest

unfoldable pub parse_addr : Text → Option Addr
unfolding scan_addr
parse_addr s = scan_addr s s

-- `net.ParseIP`: always 16 bytes.
unfoldable pub parse_ip : Text → Option Ip
unfolding parse_addr
parse_ip s = elim (parse_addr s) [ none ↦ none | some addr ↦ some addr.bytes ]

abbrev loopback6 : Ip
loopback6 = zeros 15 ++ 1 ∷ []

parse_ip_tests :
    (parse_ip (codes "127.0.0.1") ≡ some (v4_in_v6 (127 ∷ 0 ∷ 0 ∷ 1 ∷ [])))
    × (parse_ip (codes "::1") ≡ some loopback6)
    × (parse_ip (codes "::") ≡ some (zeros 16))
    × (parse_ip (codes "::ffff:10.0.0.20") ≡ some (v4_in_v6 (10 ∷ 0 ∷ 0 ∷ 20 ∷ [])))
    × (parse_ip (codes "1:2:3:4:5:6:7:8")
        ≡ some (0 ∷ 1 ∷ 0 ∷ 2 ∷ 0 ∷ 3 ∷ 0 ∷ 4 ∷ 0 ∷ 5 ∷ 0 ∷ 6 ∷ 0 ∷ 7 ∷ 0 ∷ 8 ∷ []))
    × (parse_ip (codes "1:2:3:4:5:6:7:8:9") ≡ none)
    × (parse_ip (codes "1::2::3") ≡ none)
    × (parse_ip (codes "fe80::1%eth0") ≡ none)
    × (parse_ip (codes "256.0.0.1") ≡ none)
    × (parse_ip (codes "1.2.3") ≡ none)
    × (parse_ip (codes "01.2.3.4") ≡ none)
    × (parse_ip (codes "1.2.3.") ≡ none)
    × (parse_ip (codes "bodycam") ≡ none)
unfolding parse_ip
parse_ip_tests = (refl, refl, refl, refl, refl, refl, refl, refl, refl, refl, refl, refl, refl)
