-- ===== src/Telnet/Hashed.antt =====
-- The hash of a terminal log, in cowrie/src/cowrie/core/ttylog.py, is that of the input.
use vo_iphoneypot.Common.{
  All, Bool, List, Option, Text, [], ap, append-nil, append_assoc, ap₂, arith, drop,
  drop_append_left, false, if◌then◌else◌, length, length-append, lt→ltb, refl, some, suc, sym, take,
  take_append_left, true, zero, ℕ, ◌%◌, ◌&&◌, ◌*◌, ◌++◌, ◌+◌, ◌/◌, ◌<◌, ◌==◌, ◌∙◌, ◌∷◌, ◌≡◌, ◌≤◌,
}
use vo_iphoneypot.Packing.{◌>>=◌}
use vo_iphoneypot.Telnet.Ttylog.{
  input_bytes, le32, op_close, op_open, op_write, pack_header, read_header, take_le32, ttylog_close,
  ttylog_inputhash, ttylog_open, ttylog_write, type_output, use_header,
}

-- What is written: the direction, the time and the data.
pub record TtyRecord : Type 0 where
  pub direction : ℕ
  pub sec : ℕ
  pub usec : ℕ
  pub written : Text

-- The numbers fit into their fields.
abbrev pub Fits : TtyRecord → Type 0
Fits r =
    (length r.written < 0x80000000)
    × (r.direction < 0x80000000)
    × (r.sec < 0x100000000)
    × (r.usec < 0x100000000)

-- The records are written one behind the other.
unfoldable pub write_log : List TtyRecord → Text → Option Text
write_log [] file = some file
write_log (r ∷ rs) file =
    ttylog_write file (length r.written) r.direction r.sec r.usec r.written >>= write_log rs

-- The data of all records but those of the output.
unfoldable pub inputs_of : List TtyRecord → Text
inputs_of [] = []
inputs_of (r ∷ rs) =
    let rest = inputs_of rs in if r.direction == type_output then rest else r.written ++ rest

abbrev header_bytes : ℕ → ℕ → ℕ → ℕ → ℕ → Text
header_bytes op size direction sec usec =
    le32 op ++ le32 0 ++ le32 size ++ le32 direction ++ le32 sec ++ le32 usec

pack_header-fits :
    (op size direction sec usec : ℕ)
    → op < 0x80000000
    → size < 0x80000000
    → direction < 0x80000000
    → sec < 0x100000000
    → usec < 0x100000000
    → pack_header op size direction sec usec ≡ some (header_bytes op size direction sec usec)
unfolding pack_header
pack_header-fits op size direction sec usec a b c d e =
    rw
      (
        lt→ltb op 0x80000000 a,
        lt→ltb size 0x80000000 b,
        lt→ltb direction 0x80000000 c,
        lt→ltb sec 0x100000000 d,
        lt→ltb usec 0x100000000 e,
      )
      refl

take_le32-le32 : (n : ℕ) (t : Text) → n < 0x100000000 → take_le32 (le32 n ++ t) ≡ some (n, t)
unfolding take_le32
take_le32-le32 n t h = ap (λ (x : ℕ). some (x, t)) (value n h)
  where
    value :
        (n : ℕ)
        → n < 0x100000000
        → n % 256
            + 256 * (n / 256 % 256)
            + 0x10000 * (n / 0x10000 % 256)
            + 0x1000000 * (n / 0x1000000 % 256)
          ≡ n
    value n h = omega (arith, h)

read_header-bytes :
    (op size direction sec usec : ℕ) (t : Text)
    → op < 0x80000000
    → size < 0x80000000
    → direction < 0x80000000
    → sec < 0x100000000
    → usec < 0x100000000
    → read_header (header_bytes op size direction sec usec ++ t) ≡ some (op, size, direction, t)
unfolding read_header
read_header-bytes op size direction sec usec t a b c d e =
    rw
      (
        take_le32-le32 op (le32 0 ++ le32 size ++ le32 direction ++ le32 sec ++ le32 usec ++ t)
            (omega (arith, a)),
        take_le32-le32 0 (le32 size ++ le32 direction ++ le32 sec ++ le32 usec ++ t) (omega arith),
        take_le32-le32 size (le32 direction ++ le32 sec ++ le32 usec ++ t) (omega (arith, b)),
        take_le32-le32 direction (le32 sec ++ le32 usec ++ t) (omega (arith, c)),
        take_le32-le32 sec (le32 usec ++ t) d,
        take_le32-le32 usec t e,
      )
      refl

-- The bytes of the records.
abbrev body : List TtyRecord → Text → Text
body [] t = t
body (r ∷ rs) t =
    header_bytes op_write (length r.written) r.direction r.sec r.usec ++ r.written ++ body rs t

one_round :
    (n op size direction sec usec : ℕ) (t acc : Text)
    → op < 0x80000000
    → size < 0x80000000
    → direction < 0x80000000
    → sec < 0x100000000
    → usec < 0x100000000
    → input_bytes (suc n) (header_bytes op size direction sec usec ++ t) acc
      ≡ input_bytes n
          (drop size t)
          (if op == op_write && direction == type_output then acc else acc ++ take size t)
unfolding input_bytes use_header
one_round n op size direction sec usec t acc a b c d e =
    ap (use_header (λ rest more. input_bytes n rest more) acc)
      (read_header-bytes op size direction sec usec t a b c d e)
    ∙ ap
        (λ (x : Bool). input_bytes n (if x then drop size t else []) (
          if op == op_write && direction == type_output
          then acc
          else acc ++ (if x then take size t else t)))
        (lt→ltb size 0x80000000 b)

no_header_left : (n : ℕ) (acc : Text) → input_bytes n [] acc ≡ acc
unfolding input_bytes use_header read_header take_le32
no_header_left zero acc = refl
no_header_left (suc n) acc = refl

kept_input :
    (b : Bool) (acc w rest : Text)
    → (if b then acc else acc ++ w) ++ rest ≡ acc ++ (if b then rest else w ++ rest)
kept_input true acc w rest = refl
kept_input false acc w rest = append_assoc acc w rest

abbrev closing : ℕ → ℕ → Text
closing sec usec = header_bytes op_close 0 0 sec usec

read-All :
    (n : ℕ) (rs : List TtyRecord) (sec usec : ℕ) (acc : Text)
    → length rs < n
    → All Fits rs
    → sec < 0x100000000
    → usec < 0x100000000
    → input_bytes n (body rs (closing sec usec)) acc ≡ acc ++ inputs_of rs
unfolding inputs_of
read-All zero rs sec usec acc k h a b = absurd (omega (arith, k))
read-All (suc n) [] sec usec acc k h a b =
    ap (λ (t : Text). input_bytes (suc n) t acc) (sym (append-nil (closing sec usec)))
    ∙ one_round n op_close 0 0 sec usec [] acc (omega arith) (omega arith) (omega arith) a b
    ∙ no_header_left n (acc ++ [])
read-All (suc n) (r ∷ rs) sec usec acc k h a b =
    one_round n op_write (length r.written) r.direction r.sec r.usec
      (r.written ++ body rs (closing sec usec)) acc (omega arith) h.0.0 h.0.1 h.0.2 h.0.3
    ∙ ap₂ (λ (t u : Text). input_bytes n t (if r.direction == type_output then acc else acc ++ u))
        (drop_append_left r.written (body rs (closing sec usec)))
        (take_append_left r.written (body rs (closing sec usec)))
    ∙ read-All n rs sec usec (if r.direction == type_output then acc else acc ++ r.written)
        (omega (arith, k)) h.1 a b
    ∙ kept_input (r.direction == type_output) acc r.written (inputs_of rs)

write_log-body :
    (rs : List TtyRecord) (file : Text)
    → All Fits rs
    → write_log rs file ≡ some (file ++ body rs [])
unfolding write_log ttylog_write
write_log-body [] file h = ap (λ (t : Text). some t) (sym (append-nil file))
write_log-body (r ∷ rs) file h =
    let bytes = header_bytes op_write (length r.written) r.direction r.sec r.usec in
    ap (λ (o : Option Text). o >>= (λ t. some (file ++ t ++ r.written)) >>= write_log rs)
      (pack_header-fits op_write (length r.written) r.direction r.sec r.usec (omega arith) h.0.0
        h.0.1 h.0.2 h.0.3)
    ∙ write_log-body rs (file ++ bytes ++ r.written) h.1
    ∙ ap (λ (t : Text). some t)
        (append_assoc (file ++ bytes) r.written (body rs [])
          ∙ append_assoc file bytes (r.written ++ body rs []))

body_append : (rs : List TtyRecord) (t : Text) → body rs [] ++ t ≡ body rs t
body_append [] t = refl
body_append (r ∷ rs) t =
    append_assoc (header_bytes op_write (length r.written) r.direction r.sec r.usec)
      (r.written ++ body rs []) t
    ∙ ap (λ (x : Text). header_bytes op_write (length r.written) r.direction r.sec r.usec ++ x)
        (append_assoc r.written (body rs []) t
          ∙ ap (λ (x : Text). r.written ++ x) (body_append rs t))

rounds_enough : (rs : List TtyRecord) (t : Text) → length rs ≤ length (body rs t)
rounds_enough [] t = omega arith
rounds_enough (r ∷ rs) t = omega (
  arith,
  rounds_enough rs t,
  length-append (header_bytes op_write (length r.written) r.direction r.sec r.usec)
      (r.written ++ body rs t),
  length-append r.written (body rs t),
)

-- The record of the opening holds no data.
opened_read :
    (rs : List TtyRecord) (sec usec sec' usec' : ℕ)
    → All Fits rs
    → sec < 0x100000000
    → usec < 0x100000000
    → sec' < 0x100000000
    → usec' < 0x100000000
    → (let file = header_bytes op_open 0 0 sec usec ++ body rs (closing sec' usec') in
        input_bytes (length file) file [])
      ≡ inputs_of rs
opened_read rs sec usec sec' usec' h a b c d =
    let rest = body rs (closing sec' usec') in
    let more = length (drop 1 (header_bytes op_open 0 0 sec usec ++ rest)) in
    one_round more op_open 0 0 sec usec rest [] (omega arith) (omega arith) (omega arith) a b
    ∙ read-All more rs sec' usec' [] (omega (arith, rounds_enough rs (closing sec' usec'))) h c d

-- A log: it is opened, the records are written, and it is closed.
unfoldable pub whole_log : ℕ → ℕ → List TtyRecord → ℕ → ℕ → Option Text
whole_log sec usec rs sec' usec' =
    ttylog_open [] sec usec >>= write_log rs >>= λ file. ttylog_close file sec' usec'

-- A log that was opened, written record by record, each with the length of its data, and closed, has
-- the hash of the data of its records in their order, without those of the output, if the lengths
-- are below 2^31 and the times below 2^32.
pub ttylog_inputhash-whole_log :
    (sha256 : Text → Text) (sec usec : ℕ) (rs : List TtyRecord) (sec' usec' : ℕ)
    → All Fits rs
    → sec < 0x100000000
    → usec < 0x100000000
    → sec' < 0x100000000
    → usec' < 0x100000000
    → (file : Text) × (whole_log sec usec rs sec' usec' ≡ some file)
      × (ttylog_inputhash sha256 file ≡ sha256 (inputs_of rs))
unfolding whole_log ttylog_open ttylog_close ttylog_inputhash
ttylog_inputhash-whole_log sha256 sec usec rs sec' usec' h a b c d =
    let opening = header_bytes op_open 0 0 sec usec in
    (
      (opening ++ body rs []) ++ closing sec' usec',
      rw
          (
            pack_header-fits op_open 0 0 sec usec (omega arith) (omega arith) (omega arith) a b,
            write_log-body rs opening h,
            pack_header-fits op_close 0 0 sec' usec' (omega arith) (omega arith) (omega arith) c d,
          )
          refl,
      ap sha256 (
          ap (λ (t : Text). input_bytes (length t) t [])
            (append_assoc opening (body rs []) (closing sec' usec')
              ∙ ap (λ (t : Text). opening ++ t) (body_append rs (closing sec' usec')))
          ∙ opened_read rs sec usec sec' usec' h a b c d),
    )
