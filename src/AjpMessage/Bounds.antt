-- ===== src/AjpMessage/Bounds.antt =====
-- include/KAjpMessage.h, src/KAjpMessage.cpp: writes stay inside the buffer and behind what was
-- written, and a packet is framed by its length.
use kangle.Prelude.{
  ℕ, suc, ◌+◌, ◌-◌, ◌*◌, ◌/◌, ◌%◌, ◌≤◌, ◌<◌, Bool, true, false, Option, none, some, [], ◌∷◌, ◌++◌,
  ◌≡◌, refl, ap, ◌∙◌, arith, ltb, leb, length, length-take, length-drop, take, drop, Bytes,
  Bool-cases, inl, inr, if_cases,
}
use kangle.AjpMessage.{
  Message, write_bytes, put, put_byte, put_short, put_int, put_string, short_bytes, int_bytes,
  check_send, send, end,
}
use kangle.AjpMessage.Store.{length-write_bytes, take-write_bytes, drop-write_bytes}
use kangle.AjpMessage.RoundTrip.{check_send-fits, string_bytes, length-string_bytes}

-- The buffer has its size, and the position is behind the header and not behind the end.
abbrev pub InBounds : Message → Type 0
InBounds m = (length m.buf ≡ 8192) × (4 ≤ m.pos) × (m.pos ≤ 8192)

-- The message is still in bounds, and what was written before is still there.
abbrev pub Extends : Message → Message → Type 0
Extends before after =
    InBounds after
    × (before.pos ≤ after.pos)
    × (take before.pos after.buf ≡ take before.pos before.buf)

put-Extends :
    (m : Message) (len : ℕ) (bytes : Bytes)
    → length bytes ≡ len
    → InBounds m
    → Extends m (put m len bytes).0
unfolding put
put-Extends m len bytes e (size, low, high) = elim (Bool-cases (check_send m len)) [
  | inr full ↦ rw full ((size, low, high), omega arith, refl)
  | inl room ↦
      let fits = check_send-fits m len room in
      rw room (
        (length-write_bytes m.buf m.pos bytes ∙ size, omega arith, omega arith),
        omega arith,
        take-write_bytes m.buf m.pos m.pos bytes (omega arith),
      )
]

put_string-Extends :
    (m : Message) (str : Option Bytes) → InBounds m → Extends m (put_string m str).0
unfolding put_string
put_string-Extends m none (size, low, high) = ((size, low, high), omega arith, refl)
put_string-Extends m (some str) (size, low, high) =
    if_cases (λ (r : Message × Bool). Extends m r.0) (leb 65535 (length str))
      (record m { valid = false }, false) (put m (length str + 3) (string_bytes str))
      ((size, low, high), omega arith, refl)
      (put-Extends m (length str + 3) (string_bytes str) (length-string_bytes str)
        (size, low, high))

-- Whatever is put into a message, whether there is room or not: no write goes outside the buffer's
-- 8192 bytes, the position does not go back, and the bytes that were in front of it stay.
pub puts-Extend :
    (m : Message) (n : ℕ) (str : Option Bytes)
    → InBounds m
    → Extends m (put_byte m n).0
      × Extends m (put_short m n).0
      × Extends m (put_int m n).0
      × Extends m (put_string m str).0
unfolding put_byte put_short put_int
puts-Extend m n str h = (
  put-Extends m 1 (n % 256 ∷ []) refl h,
  put-Extends m 2 (short_bytes n) refl h,
  put-Extends m 4 (int_bytes n) refl h,
  put_string-Extends m str h,
)

-- What `end` gives to the stream: the two magic bytes, the length of the payload, the payload.
abbrev pub Framed : Message → Message × Option Bytes × Bool → Type 0
Framed m (after, packet, ok) =
    (packet ≡ some (18 ∷ 52 ∷ (short_bytes (m.pos - 4) ++ take (m.pos - 4) (drop 4 m.buf))))
    × (length (take (m.pos - 4) (drop 4 m.buf)) ≡ m.pos - 4)
    × ((m.pos - 4) / 256 % 256 * 256 + (m.pos - 4) % 256 ≡ m.pos - 4)
    × (ok ≡ true → after.pos ≡ 4)

packet_text :
    (m : Message)
    → InBounds m
    → take m.pos (write_bytes m.buf 0 (18 ∷ 52 ∷ short_bytes (m.pos - 4)))
      ≡ 18 ∷ 52 ∷ (short_bytes (m.pos - 4) ++ take (m.pos - 4) (drop 4 m.buf))
packet_text m (size, low, high) =
    let header = 18 ∷ 52 ∷ short_bytes (m.pos - 4) in
    let e : m.pos ≡ suc (suc (suc (suc (m.pos - 4)))) = omega arith in
    ap (λ r. take m.pos r) (drop-write_bytes m.buf 0 header (rw size (omega arith)))
    ∙ ap (λ k. take k (header ++ drop 4 m.buf)) e

-- A valid message with something in it, over a stream, is sent as a packet whose length field is
-- the number of the payload's bytes, and after a write that succeeds the buffer is empty again.
pub end-Framed :
    (write_all : Bytes → Bool) (m : Message)
    → InBounds m
    → 4 < m.pos
    → m.valid ≡ true
    → m.has_stream ≡ true
    → Framed m (end write_all m)
unfolding end send
end-Framed write_all m (size, low, high) more ok stream =
    let some_bytes : ltb 4 m.pos ≡ true = ground arith in
    let not_empty : leb m.pos 4 ≡ false = ground arith in
    let fits : ltb 8192 m.pos ≡ false = ground arith in
    let text = packet_text m (size, low, high) in
    let payload = length-take (m.pos - 4) (drop 4 m.buf) in
    let room = length-drop 4 m.buf in
    let len : length (take (m.pos - 4) (drop 4 m.buf)) ≡ m.pos - 4 = omega arith in
    let value : (m.pos - 4) / 256 % 256 * 256 + (m.pos - 4) % 256 ≡ m.pos - 4 = omega arith in
    let packet = 18 ∷ 52 ∷ (short_bytes (m.pos - 4) ++ take (m.pos - 4) (drop 4 m.buf)) in
    rw (ok, some_bytes, stream, not_empty, fits, text)
      (if_cases (Framed m) (write_all packet) _ _ (refl, len, value, λ sent. refl)
        (refl, len, value, λ sent. absurd (ground arith)))
