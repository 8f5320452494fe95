-- ===== src/Telnet/Ttylog.antt =====
-- The terminal logs of cowrie/src/cowrie/core/ttylog.py. A file is its bytes; a time is given as its
-- seconds and microseconds. `none` is struct.error.
use vo_iphoneypot.Common.{
  Option, Text, [], drop, if◌then◌else◌, length, ltb, none, some, suc, take, zero, ℕ, ◌%◌, ◌&&◌,
  ◌*◌, ◌++◌, ◌+◌, ◌/◌, ◌==◌, ◌∷◌,
}
use vo_iphoneypot.Packing.{◌>>=◌}

abbrev pub le32 : ℕ → Text
le32 n = (n % 256) ∷ (n / 256 % 256) ∷ (n / 0x10000 % 256) ∷ (n / 0x1000000 % 256) ∷ []

-- OP_OPEN, OP_CLOSE and OP_WRITE
abbrev pub op_open : ℕ
op_open = 1

abbrev pub op_close : ℕ
op_close = 2

abbrev pub op_write : ℕ
op_write = 3

-- TYPE_INPUT and TYPE_OUTPUT
abbrev pub type_input : ℕ
type_input = 1

abbrev pub type_output : ℕ
type_output = 2

-- `struct.pack('<iLiiLL', op, 0, length, direction, sec, usec)`; what is packed is not negative.
unfoldable pub pack_header : ℕ → ℕ → ℕ → ℕ → ℕ → Option Text
pack_header op size direction sec usec =
    if ltb op 0x80000000
      && ltb size 0x80000000
      && ltb direction 0x80000000
      && ltb sec 0x100000000
      && ltb usec 0x100000000
    then some (le32 op ++ le32 0 ++ le32 size ++ le32 direction ++ le32 sec ++ le32 usec)
    else none

-- `ttylog_open`
unfoldable pub ttylog_open : Text → ℕ → ℕ → Option Text
ttylog_open file sec usec = pack_header op_open 0 0 sec usec >>= λ t. some (file ++ t)

-- `ttylog_write`
unfoldable pub ttylog_write : Text → ℕ → ℕ → ℕ → ℕ → Text → Option Text
ttylog_write file size direction sec usec data' =
    pack_header op_write size direction sec usec >>= λ t. some (file ++ t ++ data')

-- `ttylog_close`
unfoldable pub ttylog_close : Text → ℕ → ℕ → Option Text
ttylog_close file sec usec = pack_header op_close 0 0 sec usec >>= λ t. some (file ++ t)

unfoldable pub take_le32 : Text → Option (ℕ × Text)
take_le32 (a ∷ b ∷ c ∷ d ∷ t) = some (a + 256 * b + 0x10000 * c + 0x1000000 * d, t)
take_le32 _ = none

-- `struct.unpack` of what is read: the operation, the length, the direction, and the rest of the
-- file.
unfoldable pub read_header : Text → Option (ℕ × ℕ × ℕ × Text)
read_header f = do
  (op, f1) ← take_le32 f
  (tty, f2) ← take_le32 f1
  (size, f3) ← take_le32 f2
  (direction, f4) ← take_le32 f3
  (sec, f5) ← take_le32 f4
  (usec, f6) ← take_le32 f5
  some (op, size, direction, f6)

-- `fd.read(length)`, and what is left; a number from 2^31 on is a negative length, which reads all.
abbrev pub read_data : ℕ → Text → Text
read_data size f = if ltb size 0x80000000 then take size f else f

abbrev pub rest_data : ℕ → Text → Text
rest_data size f = if ltb size 0x80000000 then drop size f else []

-- What a round does with a header: the loop ends without one.
unfoldable pub use_header : (Text → Text → Text) → Text → Option (ℕ × ℕ × ℕ × Text) → Text
use_header again acc none = acc
use_header again acc (some (op, size, direction, rest)) =
    again (rest_data size rest)
      (if op == op_write && direction == type_output then acc else acc ++ read_data size rest)

-- The loop of ttylog_inputhash; the number bounds its rounds.
unfoldable pub input_bytes : ℕ → Text → Text → Text
input_bytes zero f acc = acc
input_bytes (suc n) f acc = use_header (λ rest more. input_bytes n rest more) acc (read_header f)

-- `ttylog_inputhash`; `sha256` gives the hexadecimal digest. Every round takes bytes of the file.
unfoldable pub ttylog_inputhash : (Text → Text) → Text → Text
ttylog_inputhash sha256 file = sha256 (input_bytes (length file) file [])
