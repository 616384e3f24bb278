-- ===== src/IpMap/Blocks.antt =====
-- src/KIpMap.cpp: the block of an IPv4 prefix holds the addresses that begin with the same bits.
use kangle.Prelude.{
  ℕ, zero, suc, ◌+◌, ◌-◌, ◌*◌, ◌/◌, ◌^◌, ◌≤◌, ◌<◌, ◌≡◌, ap, sym, ◌∙◌, arith, leb, Bool-cases, inl,
  inr, ◌↔◌,
}
use native.Mathlib.Nat.{
  div-one, suc-mul, div-eq_of_lt-le, mul-div-le, lt-mul-div-succ, one-le-pow, div-eq_of_lt,
  mul_comm,
}
use kangle.Prelude.Int.{pos}
use kangle.IpMap.{word, get_ipv4_cidr_max_addr}

-- From a multiple of m to the last number in front of the next one.
block : (m a x : ℕ) → 0 < m → ((a / m * m ≤ x) × (x ≤ a / m * m + (m - 1))) ↔ (x / m ≡ a / m)
block m a x h =
    let next : (k : ℕ) → (k + 1) * m ≡ k * m + m =
      λ k. ap (λ (j : ℕ). j * m) (let e : k + 1 ≡ suc k = omega arith in e) ∙ suc-mul k m in
    (
      λ (low, high). div-eq_of_lt-le m low (rw (next (a / m)) (omega arith)),
      λ e.
          let same : x / m * m ≡ a / m * m = ap (λ (k : ℕ). k * m) e in
          let below : x / m * m ≤ x = rw (mul_comm (x / m) m) (mul-div-le x m) in
          let above : x < (x / m + 1) * m = rw (mul_comm (x / m + 1) m) (lt-mul-div-succ x h) in
          let split = next (x / m) in (omega arith, omega arith),
    )

-- For each prefix of 0 to 32 bits, an address is in the block that get_ipv4_cidr_max_addr makes, from
-- its least to its greatest address, exactly if its first `prefix` bits are those of the address
-- that the block was made of.
pub get_ipv4_cidr_max_addr-InBlock :
    (addr prefix x : ℕ)
    → prefix ≤ 32
    → addr < word
    → x < word
    → (((get_ipv4_cidr_max_addr addr (pos prefix)).0 ≤ x)
        × (x ≤ (get_ipv4_cidr_max_addr addr (pos prefix)).1))
      ↔ (x / 2 ^ (32 - prefix) ≡ addr / 2 ^ (32 - prefix))
unfolding get_ipv4_cidr_max_addr
get_ipv4_cidr_max_addr-InBlock addr zero x h small k =
    (λ inside. div-eq_of_lt k ∙ sym (div-eq_of_lt small), λ e. (omega arith, omega arith))
get_ipv4_cidr_max_addr-InBlock addr (suc p) x h small k = elim (Bool-cases (leb 32 (suc p))) [
  | inl all ↦
      let none_left : 32 - suc p ≡ 0 = ground arith in
      rw (all, none_left, div-one x, div-one addr)
        (λ inside. let (low, high) = inside in omega arith, λ e. (omega arith, omega arith))
  | inr some_left ↦
      rw some_left (block (2 ^ (32 - suc p)) addr x (one-le-pow (32 - suc p) 2 (omega arith)))
]
