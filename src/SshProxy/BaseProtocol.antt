-- ===== src/SshProxy/BaseProtocol.antt =====
-- The fields of a packet: BaseProtocol of cowrie/src/cowrie/ssh_proxy/protocols/base_protocol.py.
use vo_iphoneypot.Common.{Bool, Option, Text, [], drop, length, not, pos, take, ℕ, ℤ, ◌-ℤ◌, ◌==◌}
use vo_iphoneypot.Packing.{be_value, pack32}

pub record Packet : Type 0 where
  pub data_left : Text
  pub packet_size : ℤ

-- `extract_int`: fewer bytes than asked for make a smaller number.
unfoldable pub extract_int : ℕ → Packet → ℕ × Packet
extract_int n p = (
  be_value (take n p.data_left),
  record { data_left = drop n p.data_left; packet_size = p.packet_size -ℤ pos n },
)

-- `put_int`; `none` is OverflowError.
abbrev pub put_int : ℕ → Option Text
put_int = pack32

-- `extract_string`
unfoldable pub extract_string : Packet → Text × Packet
extract_string p =
    let (n, q) = extract_int 4 p in
    (
      take n q.data_left,
      record { data_left = drop n q.data_left; packet_size = q.packet_size -ℤ pos n },
    )

-- `extract_bool`
unfoldable pub extract_bool : Packet → Bool × Packet
extract_bool p = let (n, q) = extract_int 1 p in (not (n == 0), q)

-- `extract_data`
unfoldable pub extract_data : Packet → Text × Packet
extract_data p =
    let (n, q) = extract_int 4 p in
    (q.data_left, record { data_left = []; packet_size = pos n -ℤ pos (length q.data_left) })
