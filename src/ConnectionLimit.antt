-- ===== src/ConnectionLimit.antt =====
-- src/KConnectionLimit.cpp, include/KConnectionLimit.h: the limit on the requests that run at once. Each
-- thread is between two accesses to `cur_connect`; a schedule says which one makes the next access. The
-- number is an int32_t, which holds fewer than 2 ^ 31 threads, and `max_connect` is not negative.
pub mod Bound
mod Tests
use kangle.Prelude.{ℕ, zero, suc, List, [], ◌∷◌, ltb, if◌then◌else◌}

-- katom.h, which is not in the repository: katom_inc, with the new number and what it gives, and
-- katom_dec.
pub record Counter : Type 0 where
  pub inc : ℕ → ℕ × ℕ
  pub dec : ℕ → ℕ

-- Where a thread is: without a request, behind the katom_inc of addConnection, which gave `x`, or with
-- a request that addConnection let in and whose hook has not run.
pub data Place : Type 0 where
  outside : Place
  counted : ℕ → Place
  admitted : Place

abbrev pub behind_inc : ℕ × ℕ → ℕ × Place
behind_inc (cur_connect, x) = (cur_connect, counted x)

-- The next access of a thread: addConnection, and releaseConnection by the hook.
unfoldable pub advance : Counter → ℕ → ℕ → Place → ℕ × Place
advance k max_connect cur_connect outside = behind_inc (k.inc cur_connect)
advance k max_connect cur_connect (counted x) =
    if ltb max_connect x then (k.dec cur_connect, outside) else (cur_connect, admitted)
advance k max_connect cur_connect admitted = (k.dec cur_connect, outside)

-- The access of thread number `i`.
unfoldable pub advance_thread : Counter → ℕ → ℕ → ℕ → List Place → ℕ × List Place
unfolding advance
advance_thread k max i cur [] = (cur, [])
advance_thread k max zero cur (p ∷ ps) = let (cur', p') = advance k max cur p in (cur', p' ∷ ps)
advance_thread k max (suc i) cur (p ∷ ps) =
    let (cur', ps') = advance_thread k max i cur ps in (cur', p ∷ ps')

-- An interleaving of the threads.
unfoldable pub run : Counter → ℕ → List ℕ → ℕ × List Place → ℕ × List Place
unfolding advance_thread
run k max [] s = s
run k max (i ∷ schedule) s = run k max schedule (advance_thread k max i s.0 s.1)

-- KConnectionLimit(), before any request.
abbrev pub all_outside : ℕ → List Place
all_outside zero = []
all_outside (suc n) = outside ∷ all_outside n
