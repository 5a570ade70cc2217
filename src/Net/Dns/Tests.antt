-- ===== src/Net/Dns/Tests.antt =====
-- The name "a.bc", and a response to a query for "a".
use alephos.Prelude.{ℕ}
use alephos.Prelude.{◌≡◌, refl}
use alephos.Prelude.{none, some, List, [], ◌∷◌, arith}
use alephos.Prelude.{get_or}
use alephos.Utils.Mem.{Memory}
use alephos.Core.Process.Removal.{Yields}
use alephos.Net.Dns.{
  Dns, no_stats, default_dns_servers, dns_encode_name, dns_parse_response, response_address,
  dns_set_server, dns_init,
}
use alephos.Net.Dns.Names.{IsLabel, dns_encode_name-wire}
use alephos.Net.Dns.Responses.{Answers, dns_parse_response-Answers}

a-IsLabel : IsLabel (97 ∷ [])
a-IsLabel = record { some_letter = omega arith; short = omega arith; plain = (refl, tt) }

bc-IsLabel : IsLabel (98 ∷ 99 ∷ [])
bc-IsLabel = record { some_letter = omega arith; short = omega arith; plain = (refl, (refl, tt)) }

dns_encode_name-wire_example :
    dns_encode_name (97 ∷ 46 ∷ 98 ∷ 99 ∷ []) ≡ some (1 ∷ 97 ∷ 2 ∷ 98 ∷ 99 ∷ 0 ∷ [])
dns_encode_name-wire_example =
    dns_encode_name-wire (97 ∷ []) ((98 ∷ 99 ∷ []) ∷ []) a-IsLabel (bc-IsLabel, tt) (omega arith)

-- Flags without an error, the question "a", and its address 10.0.2.15
abbrev response_bytes : List ℕ
response_bytes =
    0 ∷ 1 ∷ 129 ∷ 128 ∷ 0 ∷ 1 ∷ 0 ∷ 1 ∷ 0 ∷ 0 ∷ 0 ∷ 0 ∷ 1 ∷ 97 ∷ 0 ∷ 0 ∷ 1 ∷ 0 ∷ 1 ∷ 192 ∷ 12 ∷ 0
    ∷ 1 ∷ 0 ∷ 1 ∷ 0 ∷ 0 ∷ 0 ∷ 60 ∷ 0 ∷ 4 ∷ 10 ∷ 0 ∷ 2 ∷ 15 ∷ []

abbrev response : Memory
response a = get_or response_bytes a 0

abbrev resolver : Dns
resolver = record { dns_servers = default_dns_servers; dns_query_id = 1; dns_statistics = no_stats }

dns_parse_response-Answers_example :
    Yields (Answers response 35 resolver) (dns_parse_response response 35 resolver)
dns_parse_response-Answers_example = dns_parse_response-Answers response 35 resolver

-- The zero byte behind the question's name is not skipped, and the address is not found.
not_found : response_address response 35 ≡ some none
unfolding response_address
not_found = refl

-- A server is not taken while the four default ones are in use.
no_room : dns_set_server 5 (dns_init resolver) ≡ dns_init resolver
unfolding dns_set_server dns_init
no_room = refl
