-- ===== src/Config/Tests.antt =====
-- Texts of addresses.
use laas_reflab.Prelude.{◌≡◌, refl, arith, none, some}
use laas_reflab.Config.{HostPortPair, deserialize, to_string}
use laas_reflab.Config.RoundTrip.{deserialize-to_string}

abbrev mail : HostPortPair
mail = record { host = "mail.example.org"; port = 2525 }

test_mail : deserialize "mail.example.org:2525" ≡ some mail
test_mail = refl

test_too_large : deserialize "localhost:65536" ≡ none
test_too_large = refl

-- The text of an IPv6 host is split at its first colon.
test_ipv6 : deserialize (to_string (record { host = "::1"; port = 80 })) ≡ none
test_ipv6 = refl

deserialize-to_string_example : deserialize (to_string mail) ≡ some mail
deserialize-to_string_example = deserialize-to_string mail refl (omega arith)
