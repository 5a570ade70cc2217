-- ===== src/Core/Ip/Tests.antt =====
-- Addresses, a checksum and a segment from a peer that is not known.
use alephos.Prelude.{ℕ, ◌+◌, ◌*◌, ◌%◌, ◌^◌, ◌<◌}
use alephos.Prelude.{◌≡◌, refl}
use alephos.Prelude.{some, [], ◌∷◌, arith}
use alephos.Utils.Mem.{Memory}
use alephos.Core.Ip.{Ip, Connection, closed, ip_string_to_int, ip_calculate_checksum, acknowledges}
use alephos.Core.Ip.Checksum.{content, ip_calculate_checksum-content}
use alephos.Core.Ip.Packets.{track}
use alephos.Core.Ip.Packets.Connections.{Tracked, track-Tracked}

-- "10.0.2.15"
parses : ip_string_to_int (49 ∷ 48 ∷ 46 ∷ 48 ∷ 46 ∷ 50 ∷ 46 ∷ 49 ∷ 53 ∷ []) ≡ some 167772687
unfolding ip_string_to_int
parses = refl

-- "300.0.0.0" is 44.0.0.0.
wraps : ip_string_to_int (51 ∷ 48 ∷ 48 ∷ 46 ∷ 48 ∷ 46 ∷ 48 ∷ 46 ∷ 48 ∷ []) ≡ some (44 * 2 ^ 24)
unfolding ip_string_to_int
wraps = refl

abbrev sevens : Memory
sevens a = 7

ip_calculate_checksum-content_example :
    (c : ℕ) × (ip_calculate_checksum sevens 100 5 ≡ some c)
    × (c < 2 ^ 16)
    × ((content sevens 100 5 + c) % 65535 ≡ 0)
ip_calculate_checksum-content_example =
    ip_calculate_checksum-content sevens 100 5 (λ a. omega arith) (omega arith)

abbrev unused : Connection
unused = record {
  local_ip = 0;
  remote_ip = 0;
  local_port = 0;
  remote_port = 0;
  state = closed;
  sequence_number = 0;
}

abbrev tables : Ip
tables = record {
  interfaces = [];
  routing_table = [];
  connections = unused ∷ unused ∷ [];
  packet_sequence = 0;
}

track-Tracked_example : Tracked 1 2 3 4 tables (track acknowledges 1 2 3 4 tables)
track-Tracked_example = track-Tracked acknowledges 1 2 3 4 tables
