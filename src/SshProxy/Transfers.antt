-- ===== src/SshProxy/Transfers.antt =====
-- What the SFTP watcher makes of packets as a client and a server write them.
use mathlib.Core.Path.{subst}
use mathlib.Core.Option.{some-injective}
use vo_iphoneypot.Common.{
  Bool, List, Option, Text, [], ap, append_assoc, arith, codes, drop_append_left, false,
  if◌then◌else◌, length, ltb, none, pos, refl, some, suc, take_append_left, text_eq_refl, true,
  zero, ℕ, ℤ, ◌%◌, ◌++◌, ◌+◌, ◌-ℤ◌, ◌/◌, ◌<◌, ◌==◌, ◌∙◌, ◌∷◌, ◌≡◌, ◌≤◌,
}
use vo_iphoneypot.Packing.{be32, be_value_from}
use vo_iphoneypot.SshProxy.BaseProtocol.{Packet, extract_int, extract_string}
use vo_iphoneypot.SshProxy.Pieces.{be_value-be32}
use vo_iphoneypot.SshProxy.Sftp.{
  Sftp, binary_digit, bit_length, dispatch, handle_packet, is_handle, known, log_command, open_with,
  packet_layout, write_file,
}

abbrev pub string : Text → Text
string t = be32 (length t) ++ t

extract_int-be32 :
    (n : ℕ) (t : Text) (z : ℤ)
    → n < 0x100000000
    → extract_int 4 (record { data_left = be32 n ++ t; packet_size = z })
      ≡ (n, record { data_left = t; packet_size = z -ℤ pos 4 })
unfolding extract_int
extract_int-be32 n t z h = rw (be_value-be32 n h) refl

extract_string-string :
    (s t : Text) (z : ℤ)
    → length s < 0x100000000
    → extract_string (record { data_left = string s ++ t; packet_size = z })
      ≡ (s, record { data_left = t; packet_size = z -ℤ pos 4 -ℤ pos (length s) })
unfolding extract_string
extract_string-string s t z h =
    rw
      (
        append_assoc (be32 (length s)) s t,
        extract_int-be32 (length s) (s ++ t) z h,
        take_append_left s t,
        drop_append_left s t,
      )
      refl

-- A packet: its type, its id and its fields.
abbrev pub packet : ℕ → ℕ → Text → Text
packet kind number fields = kind ∷ (be32 number ++ fields)

-- The fields of a packet are read with the id and the previous id in place.
abbrev pub numbered : ℕ → Sftp → Sftp
numbered number s = record s { prev_id = s.id; id = some number }

abbrev pub fields_at : Text → Packet
fields_at fields = record { data_left = fields; packet_size = pos 0 -ℤ pos 1 -ℤ pos 4 }

extract_int-byte :
    (c : ℕ) (t : Text) (z : ℤ)
    → extract_int 1 (record { data_left = c ∷ t; packet_size = z })
      ≡ (c, record { data_left = t; packet_size = z -ℤ pos 1 })
unfolding extract_int be_value_from
extract_int-byte c t z =
    ap (λ n. (n, record { data_left = t; packet_size = z -ℤ pos 1 })) (omega arith)

handle_packet-packet :
    (utf8 : Text → Bool) (kind number : ℕ) (fields : Text) (s : Sftp)
    → number < 0x100000000
    → handle_packet utf8 (packet kind number fields) s
      ≡ known utf8 (packet_layout kind) (fields_at fields) (numbered number s)
unfolding handle_packet
handle_packet-packet utf8 kind number fields s h =
    rw
      (
        extract_int-byte kind (be32 number ++ fields) (pos 0),
        extract_int-be32 number fields (pos 0 -ℤ pos 1) h,
      )
      refl

-- The second write of an upload raises: the first made the content bytes.
pub second_write_raises :
    (utf8 : Text → Bool) (number : ℕ) (h old rest : Text) (s : Sftp)
    → number < 0x100000000
    → length h < 0x100000000
    → s.file_handle ≡ some h
    → s.the_file ≡ some old
    → handle_packet utf8 (packet 6 number (string h ++ rest)) s ≡ none
unfolding packet_layout dispatch is_handle write_file
second_write_raises utf8 number h old rest s small short open_file written =
    handle_packet-packet utf8 6 number (string h ++ rest) s small
    ∙ rw
        (
          extract_string-string h rest (pos 0 -ℤ pos 1 -ℤ pos 4) short,
          open_file,
          text_eq_refl h,
          written,
        )
        refl

-- The digits of the open flags below 256.
abbrev pow2 : ℕ → ℕ
pow2 zero = 1
pow2 (suc k) = pow2 k + pow2 k

bit_length_bound : (f k n : ℕ) → n < pow2 k → bit_length f n ≤ k
unfolding bit_length
bit_length_bound zero k n h = omega arith
bit_length_bound (suc f) zero n h = ground (arith, h)
bit_length_bound (suc f) (suc k) n h =
    ground (arith, h, bit_length_bound f k (n / 2) (omega (arith, h)))

width_eight : (b : ℕ) → b ≤ 8 → (if ltb b 8 then 8 else b) ≡ 8
width_eight b h = ground arith

flag_digits : (n : ℕ) → n < 256 → (binary_digit n 6 ≡ n / 2 % 2) × (binary_digit n 7 ≡ n % 2)
unfolding binary_digit
flag_digits n h = rw (width_eight (bit_length 32 n) (bit_length_bound 32 8 n h)) (refl, omega arith)

-- The command of an open that asks for a write, or else a read, or neither.
abbrev pub open_command : Bool → Bool → Text → Option Text → Option Text
open_command true read path before = some (codes "put " ++ path)
open_command false true path before = some (codes "get " ++ path)
open_command false false path before = before

abbrev pub Opened : Option Sftp → List Text → Text → Text → Type 0
Opened none old path c = ⊥
Opened (some s) old path c =
    (s.path ≡ some path) × (s.command ≡ some c) × (s.entered ≡ old ++ c ∷ [])

-- Opened, for a command that can be logged.
abbrev OpenedBy : (Text → Bool) → Sftp → List Text → Text → Text → Type 0
OpenedBy utf8 s old path c = utf8 c ≡ true → Opened (log_command utf8 s) old path c

log_command-Opened :
    (utf8 : Text → Bool) (w r : Bool) (path c : Text) (s : Sftp)
    → open_command w r path s.command ≡ some c
    → utf8 c ≡ true
    → Opened (log_command utf8 (open_with w r path s)) s.entered path c
unfolding log_command
log_command-Opened utf8 true r path c s e good =
    subst (OpenedBy utf8 (open_with true r path s) s.entered path)
      (some-injective (codes "put " ++ path) c e) (λ h. rw h (refl, refl, refl)) good
log_command-Opened utf8 false true path c s e good =
    subst (OpenedBy utf8 (open_with false true path s) s.entered path)
      (some-injective (codes "get " ++ path) c e) (λ h. rw h (refl, refl, refl)) good
log_command-Opened utf8 false false path c s e good = rw (e, good) (refl, refl, refl)

-- An open with flags below 256 sets the path, and logs the command that the flags ask for: `put`
-- for a write, and otherwise `get` for a read, and otherwise the last command once more.
pub open_logs :
    (utf8 : Text → Bool) (number pflags : ℕ) (path c rest : Text) (s : Sftp)
    → number < 0x100000000
    → length path < 0x100000000
    → pflags < 256
    → open_command (pflags / 2 % 2 == 1) (pflags % 2 == 1) path s.command ≡ some c
    → utf8 c ≡ true
    → Opened
        (handle_packet utf8 (packet 3 number (string path ++ (be32 pflags ++ rest))) s)
        s.entered
        path
        c
unfolding packet_layout dispatch
open_logs utf8 number pflags path c rest s small short flags e good =
    rw
      (
        handle_packet-packet utf8 3 number (string path ++ (be32 pflags ++ rest)) s small,
        extract_string-string path (be32 pflags ++ rest) (pos 0 -ℤ pos 1 -ℤ pos 4) short,
        extract_int-be32 pflags rest (pos 0 -ℤ pos 1 -ℤ pos 4 -ℤ pos 4 -ℤ pos (length path))
            (omega (arith, flags)),
        (flag_digits pflags flags).0,
        (flag_digits pflags flags).1,
      )
      (log_command-Opened utf8 (pflags / 2 % 2 == 1) (pflags % 2 == 1) path c (numbered number s) e
        good)
