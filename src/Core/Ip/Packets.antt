-- ===== src/Core/Ip/Packets.antt =====
-- kernel/src/core/drivers/net/ip.c: packets that are sent and received, in memory beside the
-- allocator and the tables. The result is false for -1; the transmission itself is empty in the code.
pub mod Connections
use alephos.Prelude.{
  ℕ, zero, suc, ◌+◌, ◌-◌, ◌*◌, ◌/◌, ◌%◌, ◌^◌, ◌≤◌, ◌<◌, min, max, bit_and, bit_or, bit_xor,
}
use alephos.Prelude.{
  ◌≡◌, refl, sym, ap, ap₂, ◌∙◌, subst, ◌≢◌, ◌↔◌, ◌⊎◌, inl, inr, Bool, true, false, not, ◌&&◌, ◌||◌,
}
use alephos.Prelude.{Option, none, some, List, [], ◌∷◌, ◌++◌, append-nil, append_assoc, arith}
use alephos.Prelude.{
  ltb, leb, ◌==◌, if◌then◌else◌, is_some, Bool-cases, Option-cases, if_both, ltb→lt, ltb→le, lt→ltb,
  ==→eq, ==→ne, eq→==, ne→==,
}
use alephos.Prelude.{
  length, get_elem?, get_or, set, take, drop, replicate, length-append, length-set,
  length-replicate, length-take, length-drop, take-append-drop, get_or-set_self, get_or-set_ne,
  get_or-replicate, set-get_or, set-set, take-ge, drop-ge, take-of_append, drop-of_append,
}
use alephos.Prelude.{u8, u16, u32, u64, sub32, sub64}
use alephos.Prelude.{◌>>=◌}
use alephos.Utils.Mem.{Memory, put, memcpy}
use alephos.Core.Elf.{read_le}
use alephos.Allocator.{Allocator}
use alephos.Core.Ip.{
  Ip, Interface, Connection, ConnectionState, listen, syn_received, established, close_wait,
  Request, opens, acknowledges, closes, other, request, update, find_connection,
  allocate_connection, find_interface_for_destination, ip_calculate_checksum,
}

-- `n` bytes of a number, the low one first
pub write_le : Memory → ℕ → ℕ → ℕ → Memory
unfolding put
write_le m a zero x = m
write_le m a (suc n) x = write_le (put m a (u8 x)) (a + 1) n (x / 256)

-- `struct tcp_header`
pub record Segment : Type 0 where
  pub source_port : ℕ
  pub destination_port : ℕ
  pub sequence_number : ℕ
  pub flags : ℕ

pub segment : Memory → ℕ → Segment
unfolding read_le
segment m a = record {
  source_port = read_le m a 2;
  destination_port = read_le m (a + 2) 2;
  sequence_number = read_le m (a + 4) 4;
  flags = read_le m (a + 13) 1;
}

-- The connection that is found, or else a free entry.
pub connection_for : List Connection → ℕ → ℕ → ℕ → ℕ → Option ℕ × List Connection
unfolding find_connection allocate_connection
connection_for cs local remote local_port remote_port =
    elim (find_connection cs 0 local remote local_port remote_port) [
      | some i ↦ (some i, cs)
      | none ↦ allocate_connection cs 0
    ]

-- What a segment makes of its connection.
pub answer : Request → ℕ → ℕ → ℕ → ℕ → ℕ → Connection → Connection
answer opens local remote local_port remote_port sequence c = record {
  local_ip = local;
  remote_ip = remote;
  local_port = local_port;
  remote_port = remote_port;
  state = syn_received;
  sequence_number = sequence;
}
answer acknowledges local remote local_port remote_port sequence c = record c {
  state = established;
}
answer closes local remote local_port remote_port sequence c = record c { state = close_wait }
answer other local remote local_port remote_port sequence c = c

abbrev pub is_opening : Request → Bool
is_opening opens = true
is_opening _ = false

-- The tables after a segment: the entry of its connection, if there is one, is changed.
pub track : Request → ℕ → ℕ → ℕ → ℕ → Ip → Bool × Ip
unfolding connection_for answer update
track r local remote local_port remote_port s =
    let (found, cs) = connection_for s.connections local remote local_port remote_port in
    elim found [
      | none ↦ (false, record s { connections = cs })
      | some i ↦ (
        true,
        record s {
          connections =
              update (answer r local remote local_port remote_port s.packet_sequence) i cs;
          packet_sequence = if is_opening r then u32 (s.packet_sequence + 1) else s.packet_sequence;
        },
      )
    ]

module _ (A : Allocator) where
  open A use {State, malloc}

  pub record Net : Type 0 where
    pub bytes : Memory
    pub heap : State
    pub ip : Ip

  -- The header and the payload of a packet that is sent; the checksum's field is 0.
  packet_bytes : Memory → ℕ → ℕ → ℕ → ℕ → ℕ → ℕ → ℕ → ℕ → Memory
  unfolding put write_le memcpy
  packet_bytes m p total identification protocol source destination src len =
      let m1 = write_le (put (put m p 0x45) (p + 1) 0) (p + 2) 2 total in
      let m2 = write_le (write_le m1 (p + 4) 2 identification) (p + 6) 2 0 in
      let m3 = put (put m2 (p + 8) 64) (p + 9) protocol in
      let m4 = write_le (write_le m3 (p + 12) 4 source) (p + 16) 4 destination in
      write_le (memcpy m4 (p + 20) src len) (p + 10) 2 0

  -- `ip_send_packet` with the block that malloc gave.
  send_in : Option ℕ × State → ℕ → ℕ → ℕ → ℕ → ℕ → ℕ → Net → Option (Bool × Net)
  unfolding packet_bytes ip_calculate_checksum write_le
  send_in (none, h) total source destination protocol src len k =
      some (false, record k { heap = h })
  send_in (some p, h) total source destination protocol src len k =
      let m =
        packet_bytes k.bytes p total (u16 k.ip.packet_sequence) protocol source destination src
          len in
      ip_calculate_checksum m p 20 >>= λ c. some (
        true,
        record {
          bytes = write_le m (p + 10) 2 c;
          heap = A.free p h;
          ip = record k.ip { packet_sequence = u32 (k.ip.packet_sequence + 1) };
        },
      )

  -- `none` too where the interface of the route does not exist.
  pub ip_send_packet : ℕ → ℕ → ℕ → ℕ → Net → Option (Bool × Net)
  unfolding send_in find_interface_for_destination
  ip_send_packet destination protocol src len k =
      elim (find_interface_for_destination k.ip destination) [
        | none ↦ some (false, k)
        | some i ↦ get_elem? k.ip.interfaces i >>= λ source.
            send_in (malloc (u16 (20 + len)) k.heap) (u16 (20 + len)) source.ip_address destination
              protocol src len k
      ]

  -- The reply to an echo request, in the block that malloc gave.
  echo_in : Option ℕ × State → ℕ → ℕ → ℕ → Net → Option (Bool × Net)
  unfolding ip_send_packet ip_calculate_checksum write_le put memcpy
  echo_in (none, h) source icmp len k = some (false, record k { heap = h })
  echo_in (some q, h) source icmp len k = do
    let m = write_le (put (memcpy k.bytes q icmp len) q 0) (q + 2) 2 0
    c ← ip_calculate_checksum m q len
    r ← ip_send_packet source 1 q len (record k { bytes = write_le m (q + 2) 2 c; heap = h })
    some (true, record r.1 { heap = A.free q r.1.heap })

  -- The SYN-ACK, in the block that malloc gave; its other fields are as they were.
  syn_ack_in : Option ℕ × State → Segment → ℕ → ℕ → Net → Option (Bool × Net)
  unfolding ip_send_packet write_le put
  syn_ack_in (none, h) t sequence source k = some (false, record k { heap = h })
  syn_ack_in (some q, h) t sequence source k = do
    let m1 = write_le (write_le k.bytes q 2 t.destination_port) (q + 2) 2 t.source_port
    let m2 = write_le (write_le m1 (q + 4) 4 sequence) (q + 8) 4 (u32 (t.sequence_number + 1))
    let m = write_le (put m2 (q + 13) 0x12) (q + 14) 2 65535
    r ← ip_send_packet source 6 q 20 (record k { bytes = m; heap = h })
    some (true, record r.1 { heap = A.free q r.1.heap })

  receive_icmp : ℕ → ℕ → ℕ → Net → Option (Bool × Net)
  unfolding echo_in
  receive_icmp source icmp len k =
      if k.bytes icmp == 8 then echo_in (malloc len k.heap) source icmp len k else some (true, k)

  receive_tcp : ℕ → ℕ → ℕ → Net → Option (Bool × Net)
  unfolding syn_ack_in track segment request
  receive_tcp source destination tcp k =
      let t = segment k.bytes tcp in
      let r = request t.flags in
      let (tracked, s) = track r destination source t.destination_port t.source_port k.ip in
      let k' : Net = record k { ip = s } in
      if not tracked
      then some (false, k')
      else (if is_opening r
          then syn_ack_in (malloc 20 k.heap) t k.ip.packet_sequence source k'
          else some (true, k'))

  -- The handling by protocol, for a packet that passed the checks.
  receive_payload : ℕ → Net → Option (Bool × Net)
  unfolding receive_icmp receive_tcp read_le
  receive_payload p k =
      let m = k.bytes in
      let protocol = m (p + 9) in
      let source = read_le m (p + 12) 4 in
      let len = u16 (read_le m (p + 2) 2 + 2 ^ 16 - 20) in
      if protocol == 1
      then receive_icmp source (p + 20) len k
      else (if protocol == 6
          then receive_tcp source (read_le m (p + 16) 4) (p + 20) k
          else some (protocol == 17, k))

  -- The checksum's field stays 0 in a packet that was received.
  pub ip_receive_packet : ℕ → Net → Option (Bool × Net)
  unfolding receive_payload read_le write_le ip_calculate_checksum find_interface_for_destination
  ip_receive_packet p k =
      let m = write_le k.bytes (p + 10) 2 0 in
      let k' : Net = record k { bytes = m } in
      let good : Option (Bool × Net) = ip_calculate_checksum m p 20 >>= λ c.
      if not (read_le k.bytes (p + 10) 2 == c)
        || not (is_some (find_interface_for_destination k.ip (read_le m (p + 16) 4)))
      then some (false, k')
      else receive_payload p k' in
      if not (bit_and (k.bytes p) 0xF0 == 0x40) || not (bit_and (k.bytes p) 0x0F * 4 == 20)
      then some (false, k)
      else good
