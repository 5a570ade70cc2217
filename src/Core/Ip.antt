-- ===== src/Core/Ip.antt =====
-- kernel/src/core/drivers/net/ip.c: addresses, checksums, routes and connections. Numbers of several
-- bytes are read and written in the byte order of the processor, as the code does.
pub mod Packets
pub mod Checksum
mod Tests
use alephos.Prelude.{
  ℕ, zero, suc, ◌+◌, ◌-◌, ◌*◌, ◌/◌, ◌%◌, ◌^◌, ◌≤◌, ◌<◌, min, max, bit_and, bit_or, bit_xor,
}
use alephos.Prelude.{
  ◌≡◌, refl, sym, ap, ap₂, ◌∙◌, subst, ◌≢◌, ◌↔◌, ◌⊎◌, inl, inr, Bool, true, false, not, ◌&&◌, ◌||◌,
}
use alephos.Prelude.{Option, none, some, List, [], ◌∷◌, ◌++◌, append-nil, append_assoc, arith}
use alephos.Prelude.{
  ltb, leb, ◌==◌, if◌then◌else◌, is_some, Bool-cases, Option-cases, if_both, ltb→lt, ltb→le, lt→ltb,
  ==→eq, ==→ne, eq→==, ne→==,
}
use alephos.Prelude.{
  length, get_elem?, get_or, set, take, drop, replicate, length-append, length-set,
  length-replicate, length-take, length-drop, take-append-drop, get_or-set_self, get_or-set_ne,
  get_or-replicate, set-get_or, set-set, take-ge, drop-ge, take-of_append, drop-of_append,
}
use alephos.Prelude.{u8, u16, u32, u64, sub32, sub64}
use alephos.Prelude.{◌>>=◌}
use alephos.Utils.Mem.{Memory, put, memcpy}
use alephos.Core.Elf.{read_le}
use alephos.Allocator.{Allocator}

-- `ip_connection_state`
pub data ConnectionState : Type 0 where
  closed : ConnectionState
  listen : ConnectionState
  syn_sent : ConnectionState
  syn_received : ConnectionState
  established : ConnectionState
  fin_wait_1 : ConnectionState
  fin_wait_2 : ConnectionState
  close_wait : ConnectionState
  closing : ConnectionState
  last_ack : ConnectionState

-- `ip_interface` less its device
pub record Interface : Type 0 where
  pub ip_address : ℕ
  pub subnet_mask : ℕ
  pub gateway : ℕ
  pub is_active : Bool

-- `ip_route`; its interface by the index
pub record Route : Type 0 where
  pub network : ℕ
  pub netmask : ℕ
  pub gateway : ℕ
  pub interface : Option ℕ

-- `ip_connection`
pub record Connection : Type 0 where
  pub local_ip : ℕ
  pub remote_ip : ℕ
  pub local_port : ℕ
  pub remote_port : ℕ
  pub state : ConnectionState
  pub sequence_number : ℕ

pub record Ip : Type 0 where
  pub interfaces : List Interface
  pub routing_table : List Route
  pub connections : List Connection
  pub packet_sequence : ℕ

-- The loop of `ip_string_to_int`; `none` where it shifts by more than the width, which is not defined.
pub parse_from : List ℕ → ℕ → ℕ → ℕ → Option ℕ
parse_from [] ip octet shift = some (bit_or ip octet)
parse_from (c ∷ cs) ip octet shift =
    let digit = leb 48 c && leb c 57 in
    let point = c == 46 in
    let octet' = if digit then u8 (octet * 10 + (c - 48)) else (if point then 0 else octet) in
    let ip' = if point then bit_or ip (u32 (octet * 2 ^ shift)) else ip in
    let shift' = if point then u8 (shift + 2 ^ 8 - 8) else shift in
    let rest = parse_from cs ip' octet' shift' in if point && leb 32 shift then none else rest

-- `ip_string_to_int` of the characters before the NUL
pub ip_string_to_int : List ℕ → Option ℕ
unfolding parse_from
ip_string_to_int s = parse_from s 0 0 24

-- The sum of `n` words of 16 bits from index `i` on
pub add_words : Memory → ℕ → ℕ → ℕ → ℕ → ℕ
unfolding read_le
add_words m a zero i sum = sum
add_words m a (suc n) i sum = add_words m a n (i + 1) (u32 (sum + read_le m (a + 2 * i) 2))

-- `while (sum >> 16)`
pub fold_sum : ℕ → ℕ → Option ℕ
fold_sum zero sum = none
fold_sum (suc fuel) sum =
    let rest = fold_sum fuel (sum % 2 ^ 16 + sum / 2 ^ 16) in
    if sum / 2 ^ 16 == 0 then some sum else rest

-- The sum with the last byte of an odd length
pub sum_bytes : Memory → ℕ → ℕ → ℕ
unfolding add_words
sum_bytes m a len =
    let sum = add_words m a (len / 2) 0 0 in
    if len % 2 == 1 then u32 (sum + m (a + len - 1) * 2 ^ 8) else sum

-- Three rounds of the second loop are given.
pub ip_calculate_checksum : Memory → ℕ → ℕ → Option ℕ
unfolding sum_bytes fold_sum
ip_calculate_checksum m a len =
    fold_sum 3 (sum_bytes m a len) >>= λ sum. some (u16 (2 ^ 32 - 1 - sum))

-- `find_route` from the rest of the table on
pub find_route : List Route → ℕ → Option Route
find_route [] ip = none
find_route (r ∷ rs) ip =
    let rest = find_route rs ip in
    if is_some r.interface && (bit_and ip r.netmask == r.network) then some r else rest

pub find_interface_for_destination : Ip → ℕ → Option ℕ
unfolding find_route
find_interface_for_destination s ip = find_route s.routing_table ip >>= λ r. r.interface

abbrev pub is_closed : ConnectionState → Bool
is_closed closed = true
is_closed _ = false

-- `allocate_connection`: the index of the entry, counted from `i`, and the table
pub allocate_connection : List Connection → ℕ → Option ℕ × List Connection
allocate_connection [] i = (none, [])
allocate_connection (c ∷ cs) i =
    let (found, rest) = allocate_connection cs (i + 1) in
    if is_closed c.state then (some i, record c { state = listen } ∷ cs) else (found, c ∷ rest)

-- Whether an entry is the connection between these.
pub matches : ℕ → ℕ → ℕ → ℕ → Connection → Bool
matches local remote local_port remote_port c =
    not (is_closed c.state)
    && (c.local_ip == local)
    && (c.remote_ip == remote)
    && (c.local_port == local_port)
    && (c.remote_port == remote_port)

pub find_connection : List Connection → ℕ → ℕ → ℕ → ℕ → ℕ → Option ℕ
unfolding matches
find_connection [] i local remote local_port remote_port = none
find_connection (c ∷ cs) i local remote local_port remote_port =
    let rest = find_connection cs (i + 1) local remote local_port remote_port in
    if matches local remote local_port remote_port c then some i else rest

-- A change of one entry
pub update : (Connection → Connection) → ℕ → List Connection → List Connection
update f i [] = []
update f zero (c ∷ cs) = f c ∷ cs
update f (suc i) (c ∷ cs) = c ∷ update f i cs

-- What a segment asks for, by `flags & 0x17`
pub data Request : Type 0 where
  opens : Request
  acknowledges : Request
  closes : Request
  other : Request

pub request : ℕ → Request
request flags =
    let f = bit_and flags 23 in
    if f == 2
    then opens
    else (if f == 16 then acknowledges else (if f == 17 then closes else other))
