-- ===== src/Websocket.antt =====
-- apps/api/internal/wsx/websocket.go: the frames of the SSH console's connection (RFC 6455). What
-- the peer sends is a list of bytes; the reader fails with `io` at its end. Whether a write of the
-- connection succeeds is a list of answers of the network, in order; past its end every write fails.
pub mod Bounds
pub mod Upgrade
use Prim.Native.Nat.{bit_xor}
use pulse_frix.Prelude.{
  ℕ, zero, suc, ◌+◌, ◌*◌, ◌/◌, ◌%◌, ◌^◌, Bool, true, false, not, ◌&&◌, ◌||◌, Option, none, some,
  List, [], ◌∷◌, ◌++◌, Text, bytes, length, take, drop, ltb, leb, nat_eq, text_eq, ◌==◌,
  if◌then◌else◌,
}
use pulse_frix.Strings.{to_lower, trim_space}

pub data Failure : Type 0 where
  closed protocol message_size io : Failure

abbrev pub max_message : ℕ
max_message = 2 ^ 20

abbrev pub op_text : ℕ
op_text = 1

abbrev pub op_binary : ℕ
op_binary = 2

abbrev pub op_close : ℕ
op_close = 8

abbrev pub op_ping : ℕ
op_ping = 9

abbrev pub op_pong : ℕ
op_pong = 10

pub record Frame : Type 0 where
  pub fin : Bool
  pub opcode : ℕ
  pub payload : Text

-- `io.ReadFull` of `n` bytes, with what is left.
pub read_full : ℕ → Text → Option (Text × Text)
read_full n s = if ltb (length s) n then none else some (take n s, drop n s)

-- `binary.BigEndian`
big_endian : ℕ → Text → ℕ
big_endian n [] = n
big_endian n (b ∷ s) = big_endian (n * 256 + b) s

byte_at : Text → ℕ → ℕ
byte_at [] i = 0
byte_at (b ∷ s) zero = b
byte_at (b ∷ s) (suc i) = byte_at s i

-- The length of the payload: in the header, or in 2 or 8 bytes that follow.
pub extended_length : ℕ → Text → Option (ℕ × Text)
unfolding big_endian
extended_length n s =
    let ext = read_full (if n == 126 then 2 else 8) s in
    if n == 126 || n == 127
    then elim ext [ none ↦ none | some (b, s') ↦ some (big_endian 0 b, s') ]
    else some (n, s)

-- `payload[i] ^= mask[i&3]`
pub unmask : Text → ℕ → Text → Text
unfolding byte_at
unmask mask i [] = []
unmask mask i (b ∷ s) = bit_xor b (byte_at mask (i % 4)) ∷ unmask mask (i + 1) s

pub data Read : Type 0 where
  done : Frame → Text → Read
  failed : Failure → Read

-- The mask and the payload of `n` bytes.
pub read_payload : Bool → ℕ → ℕ → Text → Read
read_payload fin opcode n s = elim (read_full 4 s) [
  | none ↦ failed io
  | some (mask, s') ↦ elim (read_full n s') [
    | none ↦ failed io
    | some (data_bytes, rest) ↦
        done (record { fin = fin; opcode = opcode; payload = unmask mask 0 data_bytes }) rest
  ]
]

-- The checks on a header with the payload's length.
pub check_header : Bool → ℕ → Bool → ℕ → Text → Read
check_header fin opcode masked n s =
    if leb op_close opcode && (ltb 125 n || not fin)
    then failed protocol
    else if ltb max_message n
    then failed message_size
    else if not masked
    then failed protocol
    else read_payload fin opcode n s

pub read_header : ℕ → ℕ → Text → Read
read_header b0 b1 s =
    if b0 / 16 % 8 == 0
    then elim (extended_length (b1 % 128) s) [
      | none ↦ failed io
      | some (n, s') ↦ check_header (leb 128 b0) (b0 % 16) (leb 128 b1) n s'
    ]
    else failed protocol

pub read_frame : Text → Read
read_frame [] = failed io
read_frame (_ ∷ []) = failed io
read_frame (b0 ∷ b1 ∷ s) = read_header b0 b1 s

pub record Conn : Type 0 where
  pub input : Text
  pub output : List Text
  pub answers : List Bool
  pub is_closed : Bool

-- `binary.BigEndian.PutUint`: the last `k` bytes of a number.
put_uint : ℕ → ℕ → Text
put_uint zero n = []
put_uint (suc k) n = n / 256 ^ k % 256 ∷ put_uint k n

-- The frame that `writeFrame` builds, final and unmasked; an opcode is below 16.
pub encode : ℕ → Text → Text
unfolding put_uint
encode opcode payload =
    let n = length payload in
    if leb n 125
    then (128 + opcode) ∷ n ∷ payload
    else if leb n 65535
    then (128 + opcode) ∷ 126 ∷ (put_uint 2 n ++ payload)
    else (128 + opcode) ∷ 127 ∷ (put_uint 8 n ++ payload)

-- `conn.Write`, which the network answers.
pub write : Conn → Text → List Bool → Option Failure × Conn
write c bytes_out [] = (some io, c)
write c bytes_out (false ∷ answers) = (some io, record c { answers = answers })
write c bytes_out (true ∷ answers) =
    (none, record c { answers = answers; output = c.output ++ bytes_out ∷ [] })

pub write_frame : Conn → ℕ → Text → Option Failure × Conn
write_frame c opcode payload =
    if c.is_closed then (some closed, c) else write c (encode opcode payload) c.answers

pub close : Conn → Conn
close c = record c { is_closed = true }

pub close_with : Conn → ℕ → Text → Conn
unfolding put_uint
close_with c code reason =
    if c.is_closed then c else close (write_frame c op_close (put_uint 2 code ++ reason)).1

pub data Message : Type 0 where
  message : ℕ → Text → Message
  broken : Failure → Message
  out_of_fuel : Message

-- What the loop of `ReadMessage` does with a frame: go on with the opcode and the bytes of the
-- message so far, or return.
pub data Next : Type 0 where
  continue : ℕ → Text → Conn → Next
  return : Message → Conn → Next

-- A data frame, which gives the message so far, or an error.
pub on_data : ℕ → Text → Frame → Conn → Next
on_data op buf f c =
    if ltb max_message (length (buf ++ f.payload))
    then return (broken message_size) c
    else if f.fin
    then return (message op (buf ++ f.payload)) c
    else continue op (buf ++ f.payload) c

pub on_frame : ℕ → Text → Frame → Conn → Next
on_frame msg_op buf f c =
    let (failure, pinged) = write_frame c op_pong f.payload in
    if f.opcode == op_ping
    then elim failure [ some x ↦ return (broken x) pinged | none ↦ continue msg_op buf pinged ]
    else if f.opcode == op_pong
    then continue msg_op buf c
    else if f.opcode == op_close
    then return (broken closed) (close (write_frame c op_close f.payload).1)
    else if f.opcode == op_text || f.opcode == op_binary
    then if msg_op == 0 then on_data f.opcode buf f c else return (broken protocol) c
    else if f.opcode == 0
    then if msg_op == 0 then return (broken protocol) c else on_data msg_op buf f c
    else return (broken protocol) c

-- `ReadMessage`. The fuel bounds the number of frames.
pub read_message : ℕ → ℕ → Text → Conn → Message × Conn
read_message zero msg_op buf c = (out_of_fuel, c)
read_message (suc fuel) msg_op buf c = elim (read_frame c.input) [
  | failed x ↦ (broken x, c)
  | done f rest ↦ elim (on_frame msg_op buf f (record c { input = rest })) [
    | return m c' ↦ (m, c')
    | continue op buf' c' ↦ read_message fuel op buf' c'
  ]
]
