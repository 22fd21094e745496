-- ===== src/Security/Ssrf.antt =====
-- ufoundry/security/ssrf.py: which addresses an outgoing request may reach. An address is its
-- number: 32 bits of IPv4, 128 bits of IPv6. Parsing a URL for its host, parsing an address, and
-- resolving a name are arguments: `hostname`, `ip_address` and `getaddrinfo`. URLs on which
-- `urlparse` or `hostname` raises ValueError, and hosts that `getaddrinfo` cannot encode
-- (UnicodeError), are left out: those exceptions leave `check_ssrf` as they are.
pub mod Ranges
use ufoundry.Base.{
  ℕ, ◌+◌, ◌-◌, ◌*◌, ◌/◌, ◌%◌, ◌^◌, Bool, true, false, Option, none, some, List, [], ◌∷◌, Text,
  codes, text_eq, ◌==◌, nat_eq, contains, is_empty, if◌then◌else◌, lower,
}

pub data Address : Type 0 where
  v4 v6 : ℕ → Address

pub record Network : Type 0 where
  pub base : ℕ
  pub prefix : ℕ

abbrev quad : ℕ → ℕ → ℕ → ℕ → ℕ → Network
quad a b c d prefix = record { base = ((a * 256 + b) * 256 + c) * 256 + d; prefix = prefix }

abbrev pub blocked_v4 : List Network
blocked_v4 =
    quad 127 0 0 0 8
    ∷ quad 10 0 0 0 8
    ∷ quad 172 16 0 0 12
    ∷ quad 192 168 0 0 16
    ∷ quad 169 254 0 0 16
    ∷ quad 100 64 0 0 10
    ∷ quad 192 0 2 0 24
    ∷ quad 198 51 100 0 24
    ∷ quad 203 0 113 0 24
    ∷ quad 0 0 0 0 8
    ∷ []

abbrev pub blocked_v6 : List Network
blocked_v6 =
    record { base = 1; prefix = 128 }
    ∷ record { base = 0xfc00 * 2 ^ 112; prefix = 7 }
    ∷ record { base = 0xfe80 * 2 ^ 112; prefix = 10 }
    ∷ record { base = 0; prefix = 128 }
    ∷ []

abbrev pub blocked_hosts : List Text
blocked_hosts =
    codes "metadata.google.internal" ∷ codes "169.254.169.254" ∷ codes "instance-data" ∷ []

pub data SsrfError : Type 0 where
  no_host : SsrfError
  metadata_endpoint : Text → SsrfError
  private_address : Text → Address → Network → SsrfError

-- none: the check passes; else the error that is raised.
abbrev pub Check : Type 0
Check = Option SsrfError

-- addr in network, for addresses of `width` bits
pub is_in : ℕ → ℕ → Network → Bool
is_in width addr network =
    addr / 2 ^ (width - network.prefix) == network.base / 2 ^ (width - network.prefix)

-- The loop over the networks.
pub check_networks : ℕ → Text → Address → ℕ → List Network → Check
unfolding is_in
check_networks width host shown addr [] = none
check_networks width host shown addr (network ∷ networks) =
    let next = check_networks width host shown addr networks in
    if is_in width addr network then some (private_address host shown network) else next

-- ipv4_mapped: ::ffff:a.b.c.d stands for a.b.c.d
pub unwrap : Address → Address
unwrap (v4 a) = v4 a
unwrap (v6 a) = if a / 2 ^ 32 == 0xffff then v4 (a % 2 ^ 32) else v6 a

pub check_unwrapped : Text → Address → Check
unfolding check_networks
check_unwrapped host (v4 a) = check_networks 32 host (v4 a) a blocked_v4
check_unwrapped host (v6 a) = check_networks 128 host (v6 a) a blocked_v6

-- A text that is no address is skipped.
pub check_addr : (Text → Option Address) → Text → Text → Check
unfolding check_unwrapped unwrap
check_addr ip_address host addr_str = elim (ip_address addr_str) [
  | none ↦ none
  | some addr ↦ check_unwrapped host (unwrap addr)
]

-- The loop over `infos`: the first error is raised.
pub check_addrs : (Text → Option Address) → Text → List Text → Check
unfolding check_addr
check_addrs ip_address host [] = none
check_addrs ip_address host (addr_str ∷ rest) =
    let next = check_addrs ip_address host rest in
    elim (check_addr ip_address host addr_str) [ some e ↦ some e | none ↦ next ]

-- A failure of the resolution (none) lets the request go on.
pub check_resolved : (Text → Option Address) → Text → Option (List Text) → Check
unfolding check_addrs
check_resolved ip_address host none = none
check_resolved ip_address host (some infos) = check_addrs ip_address host infos

-- parsed.hostname or ""
abbrev pub url_host : (Text → Option Text) → Text → Text
url_host hostname url = elim (hostname url) [ none ↦ [] | some host ↦ host ]

pub check_ssrf :
    (Text → Option Text) → (Text → Option (List Text)) → (Text → Option Address) → Text → Check
unfolding check_resolved
check_ssrf hostname getaddrinfo ip_address url =
    let host = url_host hostname url in
    if is_empty host
    then some no_host
    else if contains blocked_hosts (lower host)
    then some (metadata_endpoint host)
    else check_resolved ip_address host (getaddrinfo host)
