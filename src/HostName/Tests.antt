-- ===== src/HostName/Tests.antt =====
-- include/KVirtualHostContainer.h, src/KVirtualHostContainer.cpp: names of hosts, and the theorem at one.
use kangle.Prelude.{
  true, false, none, some, List, [], ◌∷◌, ◌++◌, ◌≡◌, refl, arith, map, Bytes, codes, to_lower,
}
use kangle.HostName.{revert_hostname, convert, build_domain_name}
use kangle.HostName.RoundTrip.{IsHost, shown, domain, build_domain_name-convert}

abbrev labels : List Bytes
labels = codes "WWW" ∷ codes "kangle" ∷ codes "org" ∷ []

reverted :
    revert_hostname to_lower 256 (codes "a..Bc.") ≡ some (2 ∷ b'b' ∷ b'c' ∷ 1 ∷ b'a' ∷ 0 ∷ [])
unfolding revert_hostname
reverted = refl

too_small : revert_hostname to_lower 5 (codes "a.bc") ≡ none
unfolding revert_hostname
too_small = refl

wide_name : convert to_lower 256 (codes "*.a") ≡ (true, some (1 ∷ b'a' ∷ 0 ∷ []))
unfolding convert
wide_name = refl

printed : build_domain_name (2 ∷ b'b' ∷ b'c' ∷ 1 ∷ b'a' ∷ []) true ≡ some (codes "*.a.bc")
unfolding build_domain_name
printed = refl

cut_short : build_domain_name (2 ∷ b'b' ∷ []) false ≡ none
unfolding build_domain_name
cut_short = refl

labels-IsHost : IsHost to_lower 256 labels
labels-IsHost = record {
  all = (
    (omega arith, omega arith, (refl, (refl, (refl, tt)))),
    (
      (omega arith, omega arith, (refl, (refl, (refl, (refl, (refl, (refl, tt))))))),
      ((omega arith, omega arith, (refl, (refl, (refl, tt)))), tt),
    ),
  );
  few = omega arith;
  fits = unfold domain in omega arith;
  no_star = refl;
}

build_domain_name-convert_example :
    (convert to_lower 256 (shown true labels) ≡ (true, some (domain to_lower labels ++ 0 ∷ [])))
    × (build_domain_name (domain to_lower labels) true
        ≡ some (shown true (map (map to_lower) labels)))
build_domain_name-convert_example = build_domain_name-convert to_lower 256 true labels labels-IsHost
