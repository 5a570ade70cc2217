-- ===== src/Net/Dns.antt =====
-- kernel/src/net/dns.c: names in queries, queries and responses. A name is its characters before the
-- NUL; what is written to a buffer is the list of the bytes; sockets are not part of this.
pub mod Names
pub mod Walks
pub mod Responses
mod Tests
use alephos.Prelude.{
  ℕ, zero, suc, ◌+◌, ◌-◌, ◌*◌, ◌/◌, ◌%◌, ◌^◌, ◌≤◌, ◌<◌, min, max, bit_and, bit_or, bit_xor,
}
use alephos.Prelude.{
  ◌≡◌, refl, sym, ap, ap₂, ◌∙◌, subst, ◌≢◌, ◌↔◌, ◌⊎◌, inl, inr, Bool, true, false, not, ◌&&◌, ◌||◌,
}
use alephos.Prelude.{Option, none, some, List, [], ◌∷◌, ◌++◌, append-nil, append_assoc, arith}
use alephos.Prelude.{
  ltb, leb, ◌==◌, if◌then◌else◌, is_some, Bool-cases, Option-cases, if_both, ltb→lt, ltb→le, lt→ltb,
  ==→eq, ==→ne, eq→==, ne→==,
}
use alephos.Prelude.{
  length, get_elem?, get_or, set, take, drop, replicate, length-append, length-set,
  length-replicate, length-take, length-drop, take-append-drop, get_or-set_self, get_or-set_ne,
  get_or-replicate, set-get_or, set-set, take-ge, drop-ge, take-of_append, drop-of_append,
}
use alephos.Prelude.{u8, u16, u32, u64, sub32, sub64}
use alephos.Prelude.{◌>>=◌}
use alephos.Utils.Mem.{Memory}
use alephos.Core.Elf.{read_le}

abbrev pub dns_max_name_length : ℕ
dns_max_name_length = 255

-- The characters before the first dot, and those after it if there is one (`strchr`)
pub split_dot : List ℕ → List ℕ × Option (List ℕ)
split_dot [] = ([], none)
split_dot (c ∷ cs) =
    let (label, rest) = split_dot cs in if c == 46 then ([], some cs) else (c ∷ label, rest)

-- The loop of `dns_encode_name`, after `written` bytes.
pub encode_from : ℕ → List ℕ → ℕ → Option (List ℕ)
unfolding split_dot
encode_from zero s written = none
encode_from (suc fuel) [] written = some []
encode_from (suc fuel) (c ∷ cs) written =
    let (label, rest) = split_dot (c ∷ cs) in
    let len = length label in
    let more : Option (List ℕ) = elim rest [
      | none ↦ some []
      | some r ↦ encode_from fuel r (written + len + 1)
    ] in
    if ltb 63 len || ltb dns_max_name_length (written + len + 1)
    then none
    else (more >>= λ bytes. some (len ∷ (label ++ bytes)))

-- `none` is -1; each round takes a character at least.
pub dns_encode_name : List ℕ → Option (List ℕ)
unfolding encode_from
dns_encode_name s = encode_from (suc (length s)) s 0 >>= λ bytes. some (bytes ++ (0 ∷ []))

-- `htons` and `ntohs`
pub htons : ℕ → ℕ
htons x = u16 (x % 256 * 256 + x / 256 % 256)

-- A number of 16 bits in the order of the processor
abbrev pub low_first : ℕ → List ℕ
low_first x = x % 256 ∷ (x / 256 % 256 ∷ [])

-- `dns_build_query` with the buffer of `net_resolve_dns`: the bytes and the next query's number
pub dns_build_query : List ℕ → ℕ → Option (List ℕ × ℕ)
unfolding dns_encode_name htons
dns_build_query domain query_id =
    let id = u16 (query_id + 1) in
    dns_encode_name domain >>= λ name. some (
      low_first id
          ++ (low_first (htons 256) ++ (low_first (htons 1) ++ (0 ∷ 0 ∷ 0 ∷ 0 ∷ 0 ∷ 0 ∷ [])))
          ++ (name ++ (low_first (htons 1) ++ low_first (htons 1))),
      id,
    )

-- `dns_stats_t`
pub record Stats : Type 0 where
  pub queries_sent : ℕ
  pub responses_received : ℕ
  pub errors : ℕ
  pub timeouts : ℕ

pub record Dns : Type 0 where
  pub dns_servers : List ℕ
  pub dns_query_id : ℕ
  pub dns_statistics : Stats

-- The loop that skips a name, from `cur` on.
pub skip_name : ℕ → Memory → ℕ → ℕ → Option ℕ
skip_name zero r cur end = none
skip_name (suc fuel) r cur end =
    let rest = skip_name fuel r (cur + r cur + 1) end in
    if not (ltb cur end) || (r cur == 0)
    then some cur
    else (if bit_and (r cur) 0xC0 == 0 then rest else some (cur + 2))

-- `n` questions from `cur` on: `some none` is an error.
pub skip_questions : ℕ → ℕ → Memory → ℕ → ℕ → Option (Option ℕ)
unfolding skip_name
skip_questions fuel zero r cur end = some (some cur)
skip_questions fuel (suc n) r cur end = skip_name fuel r cur end >>= λ at.
    if leb end at || ltb end (at + 4) then some none else skip_questions fuel n r (at + 4) end

-- The first address of `n` answers from `cur` on: `some none` is an error.
pub find_address : ℕ → ℕ → Memory → ℕ → ℕ → Option (Option ℕ)
unfolding skip_name htons read_le
find_address fuel zero r cur end = some none
find_address fuel (suc n) r cur end = skip_name fuel r cur end >>= λ at.
    let data_length = htons (read_le r (at + 8) 2) in
    if leb end at || ltb end (at + 10)
    then some none
    else (if (htons (read_le r at 2) == 1) && (data_length == 4)
        then some (some (read_le r (at + 10) 4))
        else find_address fuel n r (at + 10 + data_length) end)

-- `dns_parse_response` without the statistics: `some none` is an error.
pub response_address : Memory → ℕ → Option (Option ℕ)
unfolding skip_questions find_address htons read_le
response_address r len =
    let flags = htons (read_le r 2 2) in
    let body : Option (Option ℕ) =
      skip_questions (suc len) (htons (read_le r 4 2)) r 12 len >>= λ o. elim o [
        | none ↦ some none
        | some cur ↦ find_address (suc len) (htons (read_le r 6 2)) r cur len
      ] in
    if ltb len 12
    then some none
    else (if (bit_and flags 0x8000 == 0) || not (bit_and flags 0xF == 0) then some none else body)

-- The statistics of a response
pub count_response : Option ℕ → Stats → ℕ × Stats
count_response none s = (0, record s { errors = u32 (s.errors + 1) })
count_response (some ip) s = (ip, record s { responses_received = u32 (s.responses_received + 1) })

pub dns_parse_response : Memory → ℕ → Dns → Option (ℕ × Dns)
unfolding response_address count_response
dns_parse_response r len d = response_address r len >>= λ o.
    let (ip, s) = count_response o d.dns_statistics in some (ip, record d { dns_statistics = s })

abbrev pub default_dns_servers : List ℕ
default_dns_servers = 0x08080808 ∷ 0x08080404 ∷ 0x01010101 ∷ 0x01000001 ∷ []

abbrev pub no_stats : Stats
no_stats = record { queries_sent = 0; responses_received = 0; errors = 0; timeouts = 0 }

pub dns_init : Dns → Dns
dns_init d = record {
  dns_servers = default_dns_servers;
  dns_query_id = 0;
  dns_statistics = no_stats;
}

-- The servers in use; the array has four places.
pub dns_set_server : ℕ → Dns → Dns
dns_set_server ip d =
    if ltb (length d.dns_servers) 4
    then record d { dns_servers = d.dns_servers ++ (ip ∷ []) }
    else d

pub dns_reset_servers : Dns → Dns
dns_reset_servers d = record d { dns_servers = default_dns_servers }

pub dns_get_primary_server : Dns → ℕ
dns_get_primary_server d = get_or d.dns_servers 0 0
