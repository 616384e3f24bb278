-- ===== src/IpMap/Tests.antt =====
-- Runs of the address functions, and the theorems about them at concrete inputs.
use kangle.Prelude.{◌+◌, ◌-◌, ◌/◌, ◌%◌, ◌^◌, ◌≤◌, ◌≡◌, refl, arith, ◌↔◌}
use kangle.Prelude.Int.{pos}
use kangle.IpMap.{IpAddr, addr_add, get_ipv4_cidr_max_addr}
use kangle.IpMap.Steps.{IsIpv6, value, size, value-addr_add}
use kangle.IpMap.Blocks.{get_ipv4_cidr_max_addr-InBlock}

-- ::ffff:ffff:ffff:fffe
abbrev before_carry : IpAddr
before_carry = record {
  sin_family = 10;
  word0 = 0;
  word1 = 0;
  word2 = 4294967295;
  word3 = 4294967294;
}

abbrev after_carry : IpAddr
after_carry = record { sin_family = 10; word0 = 0; word1 = 1; word2 = 0; word3 = 1 }

carry_run : addr_add before_carry 3 ≡ after_carry
unfolding addr_add
carry_run = refl

before-IsIpv6 : IsIpv6 before_carry
before-IsIpv6 = (refl, omega arith, omega arith, omega arith, omega arith)

after-IsIpv6 : IsIpv6 after_carry
after-IsIpv6 = (refl, omega arith, omega arith, omega arith, omega arith)

value-addr_add_example :
    (IsIpv6 (addr_add before_carry 3))
    × (value (addr_add before_carry 3) ≡ (value before_carry + 3) % size)
value-addr_add_example = value-addr_add before_carry 3 before-IsIpv6 (omega arith)

-- 192.168.1.77/24 and 192.168.1.9
get_ipv4_cidr_max_addr-InBlock_example :
    (((get_ipv4_cidr_max_addr 3232235853 (pos 24)).0 ≤ 3232235785)
      × (3232235785 ≤ (get_ipv4_cidr_max_addr 3232235853 (pos 24)).1))
    ↔ (3232235785 / 2 ^ (32 - 24) ≡ 3232235853 / 2 ^ (32 - 24))
get_ipv4_cidr_max_addr-InBlock_example =
    get_ipv4_cidr_max_addr-InBlock 3232235853 24 3232235785 (omega arith) (omega arith)
      (omega arith)
