-- ===== src/IpMap/Steps.antt =====
-- src/KIpMap.cpp: addr_add and addr_sub are addition and subtraction of numbers, and ip_addr_cmp is
-- the order of numbers.
use kangle.Prelude.{
  ℕ, ◌+◌, ◌-◌, ◌*◌, ◌%◌, ◌<◌, true, false, ◌≡◌, refl, ap, sym, ◌∙◌, arith, ltb, ◌==◌, Bool-cases,
  inl, inr,
}
use kangle.IpMap.{
  IpAddr, word, pf_inet, addr_add, addr_sub, Sign, less, equal, greater, ip_addr_cmp, compare_word,
  or_else,
}

-- Four words that fit their 32 bits, and the number that they make.
abbrev pub IsIpv6 : IpAddr → Type 0
IsIpv6 a =
    ((a.sin_family == pf_inet) ≡ false)
    × (a.word0 < word)
    × (a.word1 < word)
    × (a.word2 < word)
    × (a.word3 < word)

abbrev pub value : IpAddr → ℕ
value a = ((a.word0 * 4294967296 + a.word1) * 4294967296 + a.word2) * 4294967296 + a.word3

abbrev pub size : ℕ
size = 340282366920938463463374607431768211456

-- addr_add on an IPv6 address adds to the number that its words make, modulo 2 ^ 128.
pub value-addr_add :
    (a : IpAddr) (n : ℕ)
    → IsIpv6 a
    → n < word
    → (IsIpv6 (addr_add a n)) × (value (addr_add a n) ≡ (value a + n) % size)
unfolding addr_add
value-addr_add a n (v6, h0, h1, h2, h3) small = elim (Bool-cases (ltb ((a.word3 + n) % word) n)) [
  | inr plain ↦ rw (v6, plain) ((v6, h0, h1, h2, omega arith), ground arith)
  | inl carry ↦ elim (Bool-cases ((a.word2 + 1) % word == 0)) [
    | inr stop2 ↦ rw (v6, carry, stop2) ((v6, h0, h1, omega arith, omega arith), ground arith)
    | inl go2 ↦ elim (Bool-cases ((a.word1 + 1) % word == 0)) [
      | inr stop1 ↦
          rw (v6, carry, go2, stop1) ((v6, h0, omega arith, omega arith, omega arith), ground arith)
      | inl go1 ↦
          rw (v6, carry, go2, go1)
            ((v6, omega arith, omega arith, omega arith, omega arith), ground arith)
    ]
  ]
]

-- addr_sub on an IPv6 address subtracts from the number that its words make, modulo 2 ^ 128.
pub value-addr_sub :
    (a : IpAddr) (n : ℕ)
    → IsIpv6 a
    → n < word
    → (IsIpv6 (addr_sub a n)) × (value (addr_sub a n) ≡ (value a + (size - n)) % size)
unfolding addr_sub
value-addr_sub a n (v6, h0, h1, h2, h3) small = elim (Bool-cases (ltb a.word3 n)) [
  | inr plain ↦ rw (v6, plain) ((v6, h0, h1, h2, omega arith), ground arith)
  | inl carry ↦ elim (Bool-cases (a.word2 == 0)) [
    | inr stop2 ↦ rw (v6, carry, stop2) ((v6, h0, h1, omega arith, omega arith), ground arith)
    | inl go2 ↦ elim (Bool-cases (a.word1 == 0)) [
      | inr stop1 ↦
          rw (v6, carry, go2, stop1) ((v6, h0, omega arith, omega arith, omega arith), ground arith)
      | inl go1 ↦
          rw (v6, carry, go2, go1)
            ((v6, omega arith, omega arith, omega arith, omega arith), ground arith)
    ]
  ]
]

compare_word-digit :
    (a b c d : ℕ)
    → c < word
    → d < word
    → or_else (compare_word a b) (compare_word c d)
      ≡ compare_word (a * 4294967296 + c) (b * 4294967296 + d)
compare_word-digit a b c d h k = ground arith

or_else_assoc : (r s t : Sign) → or_else (or_else r s) t ≡ or_else r (or_else s t)
or_else_assoc equal s t = refl
or_else_assoc less s t = refl
or_else_assoc greater s t = refl

-- The order of two IPv6 addresses is the order of their numbers.
pub ip_addr_cmp-value :
    (a b : IpAddr)
    → IsIpv6 a
    → IsIpv6 b
    → a.sin_family ≡ b.sin_family
    → ip_addr_cmp a b ≡ compare_word (value a) (value b)
unfolding ip_addr_cmp
ip_addr_cmp-value a b (v6, h0, h1, h2, h3) (w6, k0, k1, k2, k3) family =
    let same : (a.sin_family == b.sin_family) ≡ true = ground arith in
    let two = a.word0 * 4294967296 + a.word1 in
    let two' = b.word0 * 4294967296 + b.word1 in
    let three = two * 4294967296 + a.word2 in
    let three' = two' * 4294967296 + b.word2 in
    let c = compare_word in
    rw (same, v6)
      (sym (or_else_assoc (c a.word0 b.word0) (c a.word1 b.word1) _)
        ∙ ap (λ s. or_else s (or_else (c a.word2 b.word2) (c a.word3 b.word3)))
            (compare_word-digit a.word0 b.word0 a.word1 b.word1 h1 k1)
        ∙ sym (or_else_assoc (c two two') (c a.word2 b.word2) (c a.word3 b.word3))
        ∙ ap (λ s. or_else s (c a.word3 b.word3))
            (compare_word-digit two two' a.word2 b.word2 h2 k2)
        ∙ compare_word-digit three three' a.word3 b.word3 h3 k3)
