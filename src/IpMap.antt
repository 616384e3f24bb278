-- ===== src/IpMap.antt =====
-- src/KIpMap.cpp: addresses, their order, steps to the next one, and the blocks of a prefix. The struct
-- ip_addr is a family and four words of 32 bits, the first one alone in use for IPv4; the build has
-- KSOCKET_IPV6. The sign of a comparison is `Sign`.
pub mod Steps
pub mod Blocks
mod Tests
use kangle.Prelude.{
  ℕ, zero, suc, ◌+◌, ◌-◌, ◌*◌, ◌/◌, ◌%◌, ◌^◌, ◌≤◌, ◌<◌, Bool, true, false, not, ◌&&◌, ◌||◌, Option,
  none, some, List, [], ◌∷◌, ltb, leb, ◌==◌, if◌then◌else◌, Bytes,
}
use kangle.Prelude.Int.{ℤ, pos, negsuc}

pub record IpAddr : Type 0 where
  pub sin_family : ℕ
  pub word0 : ℕ
  pub word1 : ℕ
  pub word2 : ℕ
  pub word3 : ℕ

-- 2 ^ 32, and PF_INET.
abbrev pub word : ℕ
word = 4294967296

abbrev pub pf_inet : ℕ
pf_inet = 2

pub data Sign : Type 0 where
  less : Sign
  equal : Sign
  greater : Sign

abbrev pub compare_word : ℕ → ℕ → Sign
compare_word a b = if a == b then equal else if ltb b a then greater else less

-- `if (ret != 0) return ret;`
abbrev pub or_else : Sign → Sign → Sign
or_else equal later = later
or_else less later = less
or_else greater later = greater

-- ip_addr_cmp
pub ip_addr_cmp : IpAddr → IpAddr → Sign
ip_addr_cmp a b = or_else (compare_word a.sin_family b.sin_family) (
    if a.sin_family == pf_inet
    then compare_word a.word0 b.word0
    else or_else (compare_word a.word0 b.word0) (
        or_else (compare_word a.word1 b.word1)
          (or_else (compare_word a.word2 b.word2) (compare_word a.word3 b.word3))))

pub record RangeAddr (V : Type 0) : Type 0 where
  pub min_addr : IpAddr
  pub max_addr : IpAddr
  pub bind_data : V

-- range_addr_find_cmp
abbrev pub find_in_max : Sign → Sign
find_in_max greater = greater
find_in_max _ = equal

abbrev pub find_in_min : Sign → Sign → Sign
find_in_min less of_max = less
find_in_min _ of_max = find_in_max of_max

pub range_addr_find_cmp : {V : Type 0} → IpAddr → RangeAddr V → Sign
unfolding ip_addr_cmp
range_addr_find_cmp addr a = find_in_min (ip_addr_cmp addr a.min_addr) (ip_addr_cmp addr a.max_addr)

-- addr_add; the words are unsigned, so a sum is taken modulo 2 ^ 32.
pub addr_add : IpAddr → ℕ → IpAddr
addr_add a n =
    let w3 = (a.word3 + n) % word in
    let w2 = (a.word2 + 1) % word in
    let w1 = (a.word1 + 1) % word in
    let w0 = (a.word0 + 1) % word in
    if a.sin_family == pf_inet
    then record a { word0 = (a.word0 + n) % word }
    else if ltb w3 n
    then (if w2 == 0
        then (if w1 == 0
            then record a { word0 = w0; word1 = w1; word2 = w2; word3 = w3 }
            else record a { word1 = w1; word2 = w2; word3 = w3 })
        else record a { word2 = w2; word3 = w3 })
    else record a { word3 = w3 }

-- addr_sub; `x--` steps from 0 to 2 ^ 32 - 1.
abbrev pub minus : ℕ → ℕ → ℕ
minus x n = (x + (word - n)) % word

pub addr_sub : IpAddr → ℕ → IpAddr
addr_sub a n =
    let w3 = minus a.word3 n in
    let w2 = minus a.word2 1 in
    let w1 = minus a.word1 1 in
    let w0 = minus a.word0 1 in
    if a.sin_family == pf_inet
    then record a { word0 = minus a.word0 n }
    else if ltb a.word3 n
    then (if a.word2 == 0
        then (if a.word1 == 0
            then record a { word0 = w0; word1 = w1; word2 = w2; word3 = w3 }
            else record a { word1 = w1; word2 = w2; word3 = w3 })
        else record a { word2 = w2; word3 = w3 })
    else record a { word3 = w3 }

-- `x & ~0 << k` clears the low k bits; with these clear, `x | ~0 >> 32 - k` sets all of them.
abbrev pub clear_low : ℕ → ℕ → ℕ
clear_low x k = x / 2 ^ k * 2 ^ k

abbrev pub set_low : ℕ → ℕ → ℕ
set_low x k = x + (2 ^ k - 1)

-- get_ipv4_cidr_max_addr: the least and the greatest address.
pub get_ipv4_cidr_max_addr : ℕ → ℤ → ℕ × ℕ
get_ipv4_cidr_max_addr addr (negsuc n) = (0, word - 1)
get_ipv4_cidr_max_addr addr (pos zero) = (0, word - 1)
get_ipv4_cidr_max_addr addr (pos (suc n)) =
    if leb 32 (suc n)
    then (addr, addr)
    else (clear_low addr (32 - suc n), set_low (clear_low addr (32 - suc n)) (32 - suc n))

-- The IPv6 branch of build_cidr_addr on the word at position `i`: the words in front of word `a` are
-- kept, `b` bits of that word are, and the rest is free.
abbrev pub cidr_word : ℕ → ℕ → ℕ → ℕ → ℕ × ℕ
cidr_word a b i w =
    if ltb i a
    then (w, w)
    else if i == a
    then (if ltb 0 b
        then (clear_low w (32 - b), set_low (clear_low w (32 - b)) (32 - b))
        else (0, word - 1))
    else (0, word - 1)

abbrev pub cidr_v6 : IpAddr → ℕ → IpAddr × IpAddr
cidr_v6 addr prefix =
    let a = prefix / 32 in
    let b = prefix - prefix / 32 * 32 in
    let (min0, max0) = cidr_word a b 0 addr.word0 in
    let (min1, max1) = cidr_word a b 1 addr.word1 in
    let (min2, max2) = cidr_word a b 2 addr.word2 in
    let (min3, max3) = cidr_word a b 3 addr.word3 in
    (
      record addr { word0 = min0; word1 = min1; word2 = min2; word3 = min3 },
      record addr { word0 = max0; word1 = max1; word2 = max2; word3 = max3 },
    )

abbrev pub cidr_v4 : IpAddr → ℤ → IpAddr × IpAddr
unfolding get_ipv4_cidr_max_addr
cidr_v4 addr prefix =
    let (min, max) = get_ipv4_cidr_max_addr addr.word0 prefix in
    (record addr { word0 = min }, record addr { word0 = max })

-- build_cidr_addr; `local` is what get_local_addr makes of the text. The words of the greatest address
-- that an IPv4 prefix leaves alone are those of the caller's memory, which are not read.
abbrev pub build_cidr : IpAddr → ℤ → Option (IpAddr × IpAddr)
unfolding get_ipv4_cidr_max_addr
build_cidr addr (negsuc n) = none
build_cidr addr (pos n) =
    if addr.sin_family == pf_inet
    then (if ltb 32 n then none else some (cidr_v4 addr (pos n)))
    else (if ltb 128 n then none else some (cidr_v6 addr n))

unfoldable pub build_cidr_addr : Option IpAddr → ℤ → Option (IpAddr × IpAddr)
unfolding get_ipv4_cidr_max_addr
build_cidr_addr none prefix = none
build_cidr_addr (some addr) prefix = build_cidr addr prefix
