-- ===== src/Security/Ssrf/Ranges.antt =====
-- ufoundry/security/ssrf.py: the ranges that the networks stand for, and what passes.
use ufoundry.Base.{
  ap, subst, ℕ, ◌+◌, ◌-◌, ◌*◌, ◌/◌, ◌^◌, ◌≤◌, ◌<◌, ◌≡◌, refl, ◌≢◌, ◌↔◌, ◌⊎◌, inl, inr, Bool, true,
  false, Option, none, some, List, [], ◌∷◌, Text, text_eq, ◌==◌, nat_eq, Bool-cases, arith,
  contains, is_empty, if◌then◌else◌, lower, All, eqb_iff,
}
use ufoundry.Security.Ssrf.{
  Address, v4, v6, Network, blocked_v4, blocked_v6, blocked_hosts, SsrfError, no_host,
  metadata_endpoint, Check, is_in, check_networks, unwrap, check_unwrapped, check_addr, check_addrs,
  check_resolved, url_host, check_ssrf,
}

-- The address lies outside the range from `low` up to, and without, `high`.
abbrev pub Outside : ℕ → ℕ → ℕ → Type 0
Outside low high a = (a < low) ⊎ (high ≤ a)

-- a.b.0.0, as a number
abbrev pub pair : ℕ → ℕ → ℕ
pair a b = (a * 256 + b) * 65536

-- The ranges of private and reserved IPv4 addresses, by their ends.
abbrev pub IsPublic : ℕ → Type 0
IsPublic a =
    Outside (pair 0 0) (pair 1 0) a
    × Outside (pair 10 0) (pair 11 0) a
    × Outside (pair 100 64) (pair 100 128) a
    × Outside (pair 127 0) (pair 128 0) a
    × Outside (pair 169 254) (pair 169 255) a
    × Outside (pair 172 16) (pair 172 32) a
    × Outside (pair 192 0 + 512) (pair 192 0 + 768) a
    × Outside (pair 192 168) (pair 192 169) a
    × Outside (pair 198 51 + 25600) (pair 198 51 + 25856) a
    × Outside (pair 203 0 + 28928) (pair 203 0 + 29184) a

is_in-false :
    (width a : ℕ) (network : Network)
    → (is_in width a network ≡ false)
      ↔ (a / 2 ^ (width - network.prefix) ≢ network.base / 2 ^ (width - network.prefix))
unfolding is_in
is_in-false width a network = (λ h. ground arith, λ h. ground arith)

-- No network holds the address.
abbrev Clear : ℕ → ℕ → List Network → Type 0
Clear width a = All (λ n. a / 2 ^ (width - n.prefix) ≢ n.base / 2 ^ (width - n.prefix))

check_networks-none :
    (width : ℕ) (host : Text) (shown : Address) (a : ℕ) (networks : List Network)
    → (check_networks width host shown a networks ≡ none) ↔ Clear width a networks
unfolding check_networks
check_networks-none width host shown a [] = (λ h. tt, λ h. refl)
check_networks-none width host shown a (n ∷ networks) =
    let ih = check_networks-none width host shown a networks in
    let here = is_in-false width a n in
    elim (Bool-cases (is_in width a n)) [
      | inl e ↦ rw e ((λ h. cc), (λ h. cc (here.1 h.0)))
      | inr e ↦ rw e ((λ h. (here.0 e, ih.0 h)), (λ h. ih.1 h.1))
    ]

-- An IPv4 address passes exactly if it is public.
pub check_v4-IsPublic : (host : Text) (a : ℕ) → (check_unwrapped host (v4 a) ≡ none) ↔ IsPublic a
unfolding check_unwrapped
check_v4-IsPublic host a =
    let clear = check_networks-none 32 host (v4 a) a blocked_v4 in
    ((λ h. outside (clear.0 h)), (λ h. clear.1 (inside h)))
  where
    outside : Clear 32 a blocked_v4 → IsPublic a
    outside h = omega arith

    inside : IsPublic a → Clear 32 a blocked_v4
    inside h = omega arith

-- An IPv6 address that maps no IPv4 address passes exactly if it is neither `::` nor `::1`, nor
-- unique local (fc00::/7), nor link-local (fe80::/10).
pub check_v6-none :
    (host : Text) (a : ℕ)
    → (check_unwrapped host (v6 a) ≡ none) ↔ (
        (a ≢ 0)
        × (a ≢ 1)
        × Outside (0xfc00 * 2 ^ 112) (0xfe00 * 2 ^ 112) a
        × Outside (0xfe80 * 2 ^ 112) (0xfec0 * 2 ^ 112) a)
unfolding check_unwrapped
check_v6-none host a =
    let clear = check_networks-none 128 host (v6 a) a blocked_v6 in
    ((λ h. outside (clear.0 h)), (λ h. clear.1 (inside h)))
  where
    outside :
        Clear 128 a blocked_v6
        → (a ≢ 0)
          × (a ≢ 1)
          × Outside (0xfc00 * 2 ^ 112) (0xfe00 * 2 ^ 112) a
          × Outside (0xfe80 * 2 ^ 112) (0xfec0 * 2 ^ 112) a
    outside h = omega arith

    inside :
        (a ≢ 0)
          × (a ≢ 1)
          × Outside (0xfc00 * 2 ^ 112) (0xfe00 * 2 ^ 112) a
          × Outside (0xfe80 * 2 ^ 112) (0xfec0 * 2 ^ 112) a
        → Clear 128 a blocked_v6
    inside h = omega arith

unwrap_mapped : (a : ℕ) → a < 2 ^ 32 → unwrap (v6 (0xffff * 2 ^ 32 + a)) ≡ v4 a
unfolding unwrap
unwrap_mapped a h =
    let is_mapped : ((0xffff * 2 ^ 32 + a) / 2 ^ 32 == 0xffff) ≡ true =
      (eqb_iff ((0xffff * 2 ^ 32 + a) / 2 ^ 32) 0xffff).1 (omega arith) in
    rw is_mapped (ap v4 (omega arith))

-- An address of the form ::ffff:a.b.c.d is let through exactly if the IPv4 address a.b.c.d is
-- public.
pub check_addr-mapped :
    (ip_address : Text → Option Address) (host addr_str : Text) (a : ℕ)
    → a < 2 ^ 32
    → ip_address addr_str ≡ some (v6 (0xffff * 2 ^ 32 + a))
    → (check_addr ip_address host addr_str ≡ none) ↔ IsPublic a
unfolding check_addr
check_addr-mapped ip_address host addr_str a small parsed =
    rw (parsed, check_addr) (rw (unwrap_mapped a small) (check_v4-IsPublic host a))

-- The text is no address, or one that passes.
abbrev pub IsSafe : (Text → Option Address) → Text → Text → Type 0
IsSafe ip_address host addr_str =
    (addr : Address) → ip_address addr_str ≡ some addr → check_unwrapped host (unwrap addr) ≡ none

check_addr-none :
    (ip_address : Text → Option Address) (host addr_str : Text)
    → (check_addr ip_address host addr_str ≡ none) ↔ IsSafe ip_address host addr_str
unfolding check_addr
check_addr-none ip_address host addr_str = go (ip_address addr_str)
  where
    go :
        (parsed : Option Address)
        → ((elim parsed as (λ _. Check) [
          | none ↦ none
          | some addr ↦ check_unwrapped host (unwrap addr)
        ])
            ≡ none)
          ↔ ((addr : Address) → parsed ≡ some addr → check_unwrapped host (unwrap addr) ≡ none)
    go none = ((λ h addr e. cc), (λ h. refl))
    go (some b) = (
      (λ h addr e.
          subst (λ o. elim o [ none ↦ Unit {0} | some c ↦ check_unwrapped host (unwrap c) ≡ none ])
            e h),
      (λ h. h b refl),
    )

check_addrs-none :
    (ip_address : Text → Option Address) (host : Text) (infos : List Text)
    → (check_addrs ip_address host infos ≡ none) ↔ All (IsSafe ip_address host) infos
unfolding check_addrs
check_addrs-none ip_address host [] = ((λ h. tt), (λ h. refl))
check_addrs-none ip_address host (s ∷ infos) =
    let here = check_addr-none ip_address host s in
    let ih = check_addrs-none ip_address host infos in
    (
      (λ h. (here.0 (ground arith), ih.0 (ground arith))),
      (λ h. ground (arith, here.1 h.0, ih.1 h.1)),
    )

-- The host does not resolve, or each address that it resolves to passes.
abbrev pub ResolvesSafely : (Text → Option Address) → Text → Option (List Text) → Type 0
ResolvesSafely ip_address host none = Unit
ResolvesSafely ip_address host (some infos) = All (IsSafe ip_address host) infos

check_resolved-none :
    (ip_address : Text → Option Address) (host : Text) (resolved : Option (List Text))
    → (check_resolved ip_address host resolved ≡ none) ↔ ResolvesSafely ip_address host resolved
unfolding check_resolved
check_resolved-none ip_address host none = ((λ h. tt), (λ h. refl))
check_resolved-none ip_address host (some infos) = check_addrs-none ip_address host infos

-- The check of a URL lets the request go on exactly if the URL has a host that is no metadata
-- endpoint in any case of its letters, and either the host does not resolve or each address that
-- it resolves to passes.
pub check_ssrf-none :
    (hostname : Text → Option Text) (getaddrinfo : Text → Option (List Text))
    (ip_address : Text → Option Address) (url : Text)
    → (check_ssrf hostname getaddrinfo ip_address url ≡ none) ↔ (
        (is_empty (url_host hostname url) ≡ false)
        × (contains blocked_hosts (lower (url_host hostname url)) ≡ false)
        × ResolvesSafely ip_address (url_host hostname url) (getaddrinfo (url_host hostname url)))
unfolding check_ssrf
check_ssrf-none hostname getaddrinfo ip_address url =
    let host = url_host hostname url in
    by_tests (is_empty host) (contains blocked_hosts (lower host)) no_host (metadata_endpoint host)
      (check_resolved ip_address host (getaddrinfo host))
      (check_resolved-none ip_address host (getaddrinfo host))
  where
    by_tests :
        (b c : Bool) (e f : SsrfError) (rest : Check) {P : Type 0}
        → ((rest ≡ none) ↔ P)
        → ((if b then some e else if c then some f else rest) ≡ none)
          ↔ ((b ≡ false) × (c ≡ false) × P)
    by_tests true c e f rest p = ((λ h. cc), (λ h. cc))
    by_tests false true e f rest p = ((λ h. cc), (λ h. cc))
    by_tests false false e f rest p = ((λ h. (refl, refl, p.0 h)), (λ h. p.1 h.2))
