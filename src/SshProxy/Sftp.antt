-- ===== src/SshProxy/Sftp.antt =====
-- The SFTP watcher: SFTP.handle_packet and parse_packet of
-- cowrie/src/cowrie/ssh_proxy/protocols/sftp.py, under Python 3. Whether bytes are UTF-8 is an
-- argument. `none` in the place of a result is an exception: KeyError, TypeError where bytes meet
-- str, AttributeError where a method of the other is called, UnicodeDecodeError.
use vo_iphoneypot.Common.{
  Bool, List, Option, Text, [], codes, false, if◌then◌else◌, leb, ltb, none, pos, some, suc,
  text_eq, true, zero, ℕ, ◌%◌, ◌&&◌, ◌++◌, ◌-◌, ◌/◌, ◌==◌, ◌^◌, ◌||◌, ◌∷◌,
}
use vo_iphoneypot.Packing.{◌>>=◌}
use vo_iphoneypot.SshProxy.BaseProtocol.{Packet, extract_data, extract_int, extract_string}
use vo_iphoneypot.SshProxy.Loops.{Parent, client, server}
use vo_iphoneypot.SshProxy.Reassembly.{feed, no_packet}
use vo_iphoneypot.SshProxy.Term.{starts}

-- The packet types that the code looks at; the others it knows do nothing.
pub data Kind : Type 0 where
  sftp_open : Kind
  sftp_close : Kind
  sftp_write : Kind
  sftp_setstat : Kind
  sftp_opendir : Kind
  sftp_readdir : Kind
  sftp_remove : Kind
  sftp_mkdir : Kind
  sftp_rmdir : Kind
  sftp_realpath : Kind
  sftp_symlink : Kind
  sftp_status : Kind
  sftp_handle : Kind
  sftp_extended : Kind
  sftp_extended_reply : Kind
  ignored : Kind

-- `packetLayout`
unfoldable pub packet_layout : ℕ → Option Kind
packet_layout n =
    if n == 3
    then some sftp_open
    else if n == 4
    then some sftp_close
    else if n == 6
    then some sftp_write
    else if n == 9
    then some sftp_setstat
    else if n == 11
    then some sftp_opendir
    else if n == 12
    then some sftp_readdir
    else if n == 13
    then some sftp_remove
    else if n == 14
    then some sftp_mkdir
    else if n == 15
    then some sftp_rmdir
    else if n == 16
    then some sftp_realpath
    else if n == 20
    then some sftp_symlink
    else if n == 101
    then some sftp_status
    else if n == 102
    then some sftp_handle
    else if n == 200
    then some sftp_extended
    else if n == 201
    then some sftp_extended_reply
    else if (leb 1 n && leb n 20) || (leb 103 n && leb n 105)
    then some ignored
    else none

-- `none` in a field is the empty str that it starts with: it is no byte string.
pub record Sftp : Type 0 where
  pub server_packet : Packet
  pub client_packet : Packet
  pub prev_id : Option ℕ
  pub id : Option ℕ
  pub file_handle : Option Text
  pub path : Option Text
  pub command : Option Text
  pub the_file : Option Text
  pub offset : ℕ
  pub entered : List Text
  pub finished : List Text

abbrev pub init : Sftp
init = record {
  server_packet = no_packet;
  client_packet = no_packet;
  prev_id = none;
  id = none;
  file_handle = none;
  path = none;
  command = none;
  the_file = none;
  offset = 0;
  entered = [];
  finished = [];
}

-- `self.command.decode()` for the log
unfoldable pub log_command : (Text → Bool) → Sftp → Option Sftp
log_command utf8 s = elim s.command [
  | none ↦ none
  | some c ↦ if utf8 c then some (record s { entered = s.entered ++ c ∷ [] }) else none
]

-- `self.handle == ...`
unfoldable pub is_handle : Option Text → Text → Bool
is_handle none t = false
is_handle (some h) t = text_eq h t

-- `b'get' in t`
unfoldable pub has_word : Text → Text → Bool
has_word word [] = text_eq word []
has_word word (c ∷ t) = starts word (c ∷ t) || has_word word t

abbrev pub get_word : Text
get_word = codes "get"

abbrev pub put_word : Text
put_word = codes "put"

-- '{0:08b}'.format(n)[i]: the number has at most 32 digits.
unfoldable pub bit_length : ℕ → ℕ → ℕ
bit_length zero n = 0
bit_length (suc f) n = let more = bit_length f (n / 2) in if n == 0 then 0 else suc more

unfoldable pub binary_digit : ℕ → ℕ → ℕ
unfolding bit_length
binary_digit n i =
    let width = if ltb (bit_length 32 n) 8 then 8 else bit_length 32 n in
    n / (2 ^ (width - 1 - i)) % 2

-- The branches of an open, by the flags for a write and for a read.
abbrev pub open_with : Bool → Bool → Text → Sftp → Sftp
open_with true read path s = record s {
  path = some path;
  command = some (codes "put " ++ path);
  the_file = none;
}
open_with false true path s = record s { path = some path; command = some (codes "get " ++ path) }
open_with false false path s = record s { path = some path }

abbrev pub opened : ℕ → Text → Sftp → Sftp
opened pflags path s = open_with (binary_digit pflags 6 == 1) (binary_digit pflags 7 == 1) path s

-- `self.theFile[:offset].encode() + data`: bytes have no `encode`.
unfoldable pub write_file : Packet → Sftp → Option Sftp
write_file p s =
    let (at, q) = extract_int 8 p in
    let (bytes, r) = extract_data q in
    elim s.the_file [
      | none ↦ some (record s { offset = at; the_file = some bytes })
      | some old ↦ none
    ]

abbrev pub list_dir : Sftp → Option Sftp
list_dir s = elim s.path [
  | none ↦ none
  | some path ↦ some (record s { command = some (codes "ls " ++ path) })
]

-- The end of a transfer: the path goes to the log.
unfoldable pub finish : (Text → Bool) → Sftp → Option Sftp
finish utf8 s = elim s.command [
  | none ↦ none
  | some c ↦
      if has_word get_word c || has_word put_word c
      then (elim s.path [
        | none ↦ none
        | some path ↦
            if utf8 path then some (record s { finished = s.finished ++ path ∷ [] }) else none
      ])
      else some s
]

-- An answer to the packet before it; the message of a failure is bytes, and cannot be put to a str.
unfoldable pub on_status : (Text → Bool) → ℕ → Sftp → Option Sftp
on_status utf8 code s =
    if code == 0 || code == 1
    then (elim s.command [
      | none ↦ none
      | some c ↦ if has_word get_word c || has_word put_word c then some s else log_command utf8 s
    ])
    else none

abbrev pub same_id : Sftp → Bool
same_id s = elim s.id [ none ↦ false | some i ↦ elim s.prev_id [ none ↦ false | some j ↦ i == j ] ]

abbrev pub name_command : Text → Packet → Sftp → Sftp
name_command word p s = record s { command = some (word ++ (extract_string p).0) }

-- One packet, behind its type and its id. `extract_attrs` returns a str, so SETSTAT cannot add the
-- path to it; the names of extended requests are compared with str, and never known.
unfoldable pub dispatch : (Text → Bool) → Kind → Packet → Sftp → Option Sftp
dispatch utf8 sftp_open p s =
    let (path, q) = extract_string p in
    let (pflags, r) = extract_int 4 q in log_command utf8 (opened pflags path s)
dispatch utf8 sftp_close p s =
    if is_handle s.file_handle (extract_string p).0 then finish utf8 s else some s
dispatch utf8 sftp_write p s =
    let (h, q) = extract_string p in if is_handle s.file_handle h then write_file q s else some s
dispatch utf8 sftp_setstat p s = none
dispatch utf8 sftp_opendir p s = some (record s { path = some (extract_string p).0 })
dispatch utf8 sftp_readdir p s =
    if is_handle s.file_handle (extract_string p).0 then list_dir s else some s
dispatch utf8 sftp_remove p s = some (name_command (codes "rm ") p s)
dispatch utf8 sftp_mkdir p s = some (name_command (codes "mkdir ") p s)
dispatch utf8 sftp_rmdir p s = some (name_command (codes "rmdir ") p s)
dispatch utf8 sftp_realpath p s =
    log_command utf8 (record (name_command (codes "cd ") p s) { path = some (extract_string p).0 })
dispatch utf8 sftp_symlink p s =
    let (a, q) = extract_string p in
    some (record s { command = some (codes "ln -s " ++ (a ++ codes " ") ++ (extract_string q).0) })
dispatch utf8 sftp_status p s = if same_id s then on_status utf8 (extract_int 4 p).0 s else some s
dispatch utf8 sftp_handle p s =
    if same_id s then some (record s { file_handle = some (extract_string p).0 }) else some s
dispatch utf8 sftp_extended p s =
    let (name, q) = extract_string p in some (record s { path = some (extract_string q).0 })
dispatch utf8 sftp_extended_reply p s = log_command utf8 s
dispatch utf8 ignored p s = some s

abbrev pub known : (Text → Bool) → Option Kind → Packet → Sftp → Option Sftp
known utf8 none p s = none
known utf8 (some kind) p s = dispatch utf8 kind p s

-- `handle_packet`; a type that is not in the layout is a KeyError.
unfoldable pub handle_packet : (Text → Bool) → Text → Sftp → Option Sftp
handle_packet utf8 body s =
    let (num, p) = extract_int 1 (record { data_left = body; packet_size = pos 0 }) in
    let (number, q) = extract_int 4 p in
    known utf8 (packet_layout num) q (record s { prev_id = s.id; id = some number })

unfoldable pub handle_all : (Text → Bool) → List Text → Sftp → Option Sftp
handle_all utf8 [] s = some s
handle_all utf8 (b ∷ bs) s = handle_packet utf8 b s >>= handle_all utf8 bs

abbrev pub put_side : Parent → Packet → Sftp → Sftp
put_side server p s = record s { server_packet = p }
put_side client p s = record s { client_packet = p }

abbrev pub side : Parent → Sftp → Packet
side server s = s.server_packet
side client s = s.client_packet

-- `parse_packet`: an exception drops the rest of the payload.
unfoldable pub parse_sftp : (Text → Bool) → Parent → Text → Sftp → Option Sftp
parse_sftp utf8 parent payload s = elim (feed payload (side parent s)) [
  | none ↦ none
  | some (p, done) ↦ handle_all utf8 done (put_side parent p s)
]
