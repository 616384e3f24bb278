-- ===== src/AjpMessage.antt =====
-- include/KAjpMessage.h, src/KAjpMessage.cpp: the packets of the AJP protocol, how they are written
-- into a buffer of AJP_PACKAGE = 8192 bytes and how they are read. The buffer is the list of its
-- bytes; the position is an index into it.
pub mod Store
pub mod Bounds
pub mod RoundTrip
mod Tests
use kangle.Prelude.{
  ℕ, zero, suc, ◌+◌, ◌-◌, ◌*◌, ◌/◌, ◌%◌, Bool, true, false, not, ◌&&◌, ◌||◌, Option, none, some,
  List, [], ◌∷◌, ◌++◌, ltb, leb, ◌==◌, if◌then◌else◌, length, get_or, set, take, drop, Bytes,
}

pub record Message : Type 0 where
  pub buf : Bytes
  pub pos : ℕ
  pub len : ℕ
  pub has_stream : Bool
  pub valid : Bool

-- `buf[pos++] = b` for each byte, and kgl_memcpy(buf + pos, ...).
pub write_bytes : Bytes → ℕ → Bytes → Bytes
write_bytes buf pos [] = buf
write_bytes buf pos (b ∷ bs) = write_bytes (set buf pos b) (suc pos) bs

abbrev pub reset : Message → Message
reset m = record m { pos = 4 }

-- KAjpMessage(KWStream *): `fresh` is the memory that xmalloc returns.
pub new_message : Bytes → Bool → Message
new_message fresh has_stream = record {
  buf = fresh;
  pos = 4;
  len = 0;
  has_stream = has_stream;
  valid = has_stream;
}

abbrev pub check_send : Message → ℕ → Bool
check_send m len = m.valid && leb len 8188 && leb m.pos (8192 - len)

-- The common course of the put functions: `len` bytes are asked for, `bytes` are written.
pub put : Message → ℕ → Bytes → Message × Bool
unfolding write_bytes
put m len bytes =
    if check_send m len
    then (record m { buf = write_bytes m.buf m.pos bytes; pos = m.pos + length bytes }, true)
    else (record m { valid = false }, false)

-- The bytes of putShort, of putInt and of the length in putString.
abbrev pub short_bytes : ℕ → Bytes
short_bytes val = val / 256 % 256 ∷ val % 256 ∷ []

abbrev pub int_bytes : ℕ → Bytes
int_bytes val = val / 16777216 % 256 ∷ val / 65536 % 256 ∷ val / 256 % 256 ∷ val % 256 ∷ []

unfoldable pub put_byte : Message → ℕ → Message × Bool
unfolding put
put_byte m val = put m 1 (val % 256 ∷ [])

unfoldable pub put_short : Message → ℕ → Message × Bool
unfolding put
put_short m val = put m 2 (short_bytes val)

unfoldable pub put_int : Message → ℕ → Message × Bool
unfolding put
put_int m val = put m 4 (int_bytes val)

-- putString(const char *, int); `none` is the null pointer.
unfoldable pub put_string : Message → Option Bytes → Message × Bool
unfolding put
put_string m none = (record m { valid = false }, false)
put_string m (some str) =
    if leb 65535 (length str)
    then (record m { valid = false }, false)
    else put m (length str + 3) (short_bytes (length str) ++ str ++ 0 ∷ [])

-- send, over a stream: the text that write_all gets, and the result. `write_all` says whether the
-- stream takes a text.
pub send : (Bytes → Bool) → Message → Message × Option Bytes × Bool
unfolding write_bytes
send write_all m =
    let buf = write_bytes m.buf 0 (18 ∷ 52 ∷ short_bytes (m.pos - 4)) in
    let packet = take m.pos buf in
    let sent = record m { buf = buf } in
    if not m.valid || not m.has_stream || leb m.pos 4 || ltb 8192 m.pos
    then (m, none, false)
    else if write_all packet
    then (reset sent, some packet, true)
    else (sent, some packet, false)

unfoldable pub end : (Bytes → Bool) → Message → Message × Option Bytes × Bool
unfolding send
end write_all m =
    if not m.valid
    then (m, none, false)
    else if ltb 4 m.pos
    then send write_all m
    else (m, none, true)

-- KAjpMessageParser.
pub record Parser : Type 0 where
  pub text : Bytes
  pub at : ℕ
  pub size : ℕ

abbrev pub init_parser : Bytes → ℕ → Parser
init_parser buf len = record { text = buf; at = 0; size = len }

abbrev pub get_len : Parser → ℕ
get_len p = p.size - p.at

unfoldable pub peek_byte : Parser → Option ℕ
peek_byte p = if ltb (get_len p) 1 then none else some (get_or p.text p.at 0)

unfoldable pub get_byte : Parser → Parser × Option ℕ
get_byte p =
    if leb (get_len p) 0
    then (p, none)
    else (record p { at = suc p.at }, some (get_or p.text p.at 0))

unfoldable pub get_short : Parser → Parser × Option ℕ
get_short p = if ltb (get_len p) 2 then (p, none) else (
  record p { at = p.at + 2 },
  some (get_or p.text p.at 0 * 256 + get_or p.text (suc p.at) 0),
)

abbrev pub string_of : Parser → Option ℕ → Parser × Option Bytes
string_of p none = (p, none)
string_of p (some slen) =
    if slen == 65535 || ltb (get_len p) (slen + 1) || not (get_or p.text (p.at + slen) 0 == 0)
    then (p, none)
    else (record p { at = p.at + (slen + 1) }, some (take slen (drop p.at p.text)))

-- getString; `none` is the result -1.
unfoldable pub get_string : Parser → Parser × Option Bytes
unfolding get_short
get_string p = let (rest, slen) = get_short p in string_of rest slen
