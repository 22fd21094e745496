-- ===== src/Security/Tests.antt =====
-- The theorems on roles and addresses at concrete inputs.
use ufoundry.Base.{
  ◌≡◌, refl, ◌↔◌, ◌+◌, ◌*◌, ◌^◌, true, false, Option, none, some, List, [], ◌∷◌, Text, codes,
  text_eq, text_beq, lookup, is_empty, contains, lower,
}
use ufoundry.Security.Policy.{SecurityConfig, user_value, connector_dict, evaluate}
use ufoundry.Security.Policy.Access.{evaluate-user_entry}
use ufoundry.Security.Ssrf.{Address, v6, check_ssrf, url_host, blocked_hosts}
use ufoundry.Security.Ssrf.Ranges.{ResolvesSafely, check_ssrf-none}

-- The owner has an entry of their own; through the connector "mail" others are readers.
abbrev config : SecurityConfig
config = record {
  enabled = true;
  roles = [];
  users = (codes "u1", user_value (codes "admin")) ∷ [];
  connectors = (codes "mail", connector_dict (some (codes "readonly"))) ∷ [];
}

evaluate-user_entry_example :
    evaluate config (codes "shell.run") (codes "u1") (codes "mail")
    ≡ evaluate (record config { connectors = [] }) (codes "shell.run") (codes "u1") (codes "web")
unfolding lookup text_beq
evaluate-user_entry_example =
    evaluate-user_entry config [] (codes "shell.run") (codes "u1") (codes "mail") (codes "web")
      (user_value (codes "admin")) refl refl

abbrev parse : Text → Option Address
parse s = some (v6 (0xffff * 2 ^ 32 + 0x7f000001))

abbrev hostname : Text → Option Text
hostname url = some (codes "example.org")

abbrev getaddrinfo : Text → Option (List Text)
getaddrinfo host = some (codes "::ffff:127.0.0.1" ∷ [])

check_ssrf-none_example :
    (check_ssrf hostname getaddrinfo parse (codes "http://example.org/") ≡ none) ↔ (
      (is_empty (url_host hostname (codes "http://example.org/")) ≡ false)
      × (contains blocked_hosts (lower (url_host hostname (codes "http://example.org/"))) ≡ false)
      × ResolvesSafely parse
          (url_host hostname (codes "http://example.org/"))
          (getaddrinfo (url_host hostname (codes "http://example.org/"))))
check_ssrf-none_example = check_ssrf-none hostname getaddrinfo parse (codes "http://example.org/")
