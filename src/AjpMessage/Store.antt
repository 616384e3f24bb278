-- ===== src/AjpMessage/Store.antt =====
-- include/KAjpMessage.h, src/KAjpMessage.cpp: what is in the buffer after a write.
use kangle.Prelude.{
  ℕ, zero, suc, ◌+◌, ◌≤◌, [], ◌∷◌, ◌++◌, ◌≡◌, refl, ap, sym, ◌∙◌, arith, length, length-set, get_or,
  set, take, drop, Bytes,
}
use kangle.AjpMessage.{write_bytes}

pub length-write_bytes :
    (buf : Bytes) (pos : ℕ) (bs : Bytes) → length (write_bytes buf pos bs) ≡ length buf
unfolding write_bytes
length-write_bytes buf pos [] = refl
length-write_bytes buf pos (b ∷ bs) =
    length-write_bytes (set buf pos b) (suc pos) bs ∙ length-set buf pos b

take-set : (buf : Bytes) (pos k b : ℕ) → k ≤ pos → take k (set buf pos b) ≡ take k buf
take-set buf pos zero b h = refl
take-set [] pos (suc k) b h = refl
take-set (x ∷ buf) zero (suc k) b h = absurd (omega arith)
take-set (x ∷ buf) (suc pos) (suc k) b h = ap (λ r. x ∷ r) (take-set buf pos k b (omega arith))

-- What stands in front of the position stays.
pub take-write_bytes :
    (buf : Bytes) (pos k : ℕ) (bs : Bytes) → k ≤ pos → take k (write_bytes buf pos bs) ≡ take k buf
unfolding write_bytes
take-write_bytes buf pos k [] h = refl
take-write_bytes buf pos k (b ∷ bs) h =
    take-write_bytes (set buf pos b) (suc pos) k bs (omega arith) ∙ take-set buf pos k b h

write_bytes-cons :
    (x : ℕ) (buf : Bytes) (pos : ℕ) (bs : Bytes)
    → write_bytes (x ∷ buf) (suc pos) bs ≡ x ∷ write_bytes buf pos bs
unfolding write_bytes
write_bytes-cons x buf pos [] = refl
write_bytes-cons x buf pos (b ∷ bs) = write_bytes-cons x (set buf pos b) (suc pos) bs

shift-suc : (m n : ℕ) → suc (m + n) ≡ m + suc n
shift-suc m n = omega arith

suc-shift : (m n : ℕ) → suc (m + n) ≡ suc m + n
suc-shift m n = omega arith

-- Bytes that fit are what the buffer holds from `pos` on, with what stood behind them.
pub drop-write_bytes :
    (buf : Bytes) (pos : ℕ) (bs : Bytes)
    → pos + length bs ≤ length buf
    → drop pos (write_bytes buf pos bs) ≡ bs ++ drop (pos + length bs) buf
unfolding write_bytes
drop-write_bytes buf zero [] h = refl
drop-write_bytes [] (suc pos) bs h = absurd (omega arith)
drop-write_bytes [] zero (b ∷ bs) h = absurd (omega arith)
drop-write_bytes (x ∷ buf) zero (b ∷ bs) h =
    write_bytes-cons b buf 0 bs
    ∙ ap (λ r. b ∷ r) (drop-write_bytes buf zero bs (omega arith))
    ∙ ap (λ k. b ∷ (bs ++ drop k (x ∷ buf))) (shift-suc 0 (length bs))
drop-write_bytes (x ∷ buf) (suc pos) bs h =
    ap (λ r. drop (suc pos) r) (write_bytes-cons x buf pos bs)
    ∙ drop-write_bytes buf pos bs (omega arith)
    ∙ ap (λ k. bs ++ drop k (x ∷ buf)) (suc-shift pos (length bs))

pub get_or-drop : (xs : Bytes) (p k : ℕ) → get_or (drop p xs) k 0 ≡ get_or xs (p + k) 0
get_or-drop xs zero k = ap (λ (j : ℕ). get_or xs j 0) (omega arith)
get_or-drop [] (suc p) k = refl
get_or-drop (x ∷ xs) (suc p) k = get_or-drop xs p k ∙ ap (λ j. get_or (x ∷ xs) j 0) (suc-shift p k)

pub take-append : (xs ys : Bytes) → take (length xs) (xs ++ ys) ≡ xs
take-append [] ys = refl
take-append (x ∷ xs) ys = ap (λ r. x ∷ r) (take-append xs ys)

pub get_or-append : (xs ys : Bytes) (k : ℕ) → get_or (xs ++ ys) (length xs + k) 0 ≡ get_or ys k 0
get_or-append [] ys k = ap (λ (j : ℕ). get_or ys j 0) (omega arith)
get_or-append (x ∷ xs) ys k =
    ap (λ j. get_or (x ∷ (xs ++ ys)) j 0) (sym (suc-shift (length xs) k)) ∙ get_or-append xs ys k
