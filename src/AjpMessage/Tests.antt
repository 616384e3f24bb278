-- ===== src/AjpMessage/Tests.antt =====
-- Runs of the AJP messages, and the theorems about them at concrete inputs.
use kangle.Prelude.{ℕ, true, some, [], ◌∷◌, ◌≡◌, refl, arith, length-replicate, replicate, codes}
use kangle.AjpMessage.{
  Message, write_bytes, put, put_byte, put_short, put_int, put_string, end, send, get_string,
}
use kangle.AjpMessage.RoundTrip.{reader, get_string-put_string}
use kangle.AjpMessage.Bounds.{Extends, puts-Extend, Framed, end-Framed}

-- A message of 8192 bytes that stands at `pos`.
abbrev at_pos : ℕ → Message
at_pos pos = record { buf = replicate 8192 0; pos = pos; len = 0; has_stream = true; valid = true }

-- A short buffer is enough for a run of a few bytes.
abbrev small : Message
small = record { buf = replicate 12 0; pos = 4; len = 0; has_stream = true; valid = true }

packet_run :
    (end (λ packet. true) (put_string small (some (codes "ab"))).0).1
    ≡ some (18 ∷ 52 ∷ 0 ∷ 5 ∷ 0 ∷ 2 ∷ 97 ∷ 98 ∷ 0 ∷ [])
unfolding end send put_string put write_bytes
packet_run = refl

accepted : (put_string (at_pos 4) (some (codes "ab"))).1 ≡ true
unfolding put_string put
accepted = refl

get_string-put_string_example :
    get_string (reader (at_pos 4) (put_string (at_pos 4) (some (codes "ab"))).0) ≡ (
      record (reader (at_pos 4) (put_string (at_pos 4) (some (codes "ab"))).0) {
        at = (put_string (at_pos 4) (some (codes "ab"))).0.pos;
      },
      some (codes "ab"),
    )
get_string-put_string_example =
    get_string-put_string (at_pos 4) (codes "ab") (length-replicate {A = ℕ} 8192 0) accepted

puts-Extend_example :
    Extends (at_pos 8190) (put_byte (at_pos 8190) 7).0
    × Extends (at_pos 8190) (put_short (at_pos 8190) 7).0
    × Extends (at_pos 8190) (put_int (at_pos 8190) 7).0
    × Extends (at_pos 8190) (put_string (at_pos 8190) (some (codes "ab"))).0
puts-Extend_example =
    puts-Extend (at_pos 8190) 7 (some (codes "ab"))
      (length-replicate {A = ℕ} 8192 0, omega arith, omega arith)

end-Framed_example : Framed (at_pos 300) (end (λ packet. true) (at_pos 300))
end-Framed_example =
    end-Framed (λ packet. true) (at_pos 300)
      (length-replicate {A = ℕ} 8192 0, omega arith, omega arith) (omega arith) refl refl
