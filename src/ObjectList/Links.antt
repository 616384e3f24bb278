-- ===== src/ObjectList/Links.antt =====
-- src/KObjectList.cpp: chains of linked objects in the heap.
use kangle.Prelude.{
  ℕ, true, false, Option, some, List, [], ◌∷◌, ◌++◌, ◌≡◌, ◌≢◌, refl, sym, ◌∙◌, arith, ◌==◌,
  Bool-cases, inl, inr,
}
use mathlib.Core.Path.{subst}
use kangle.ObjectList.{Node, set_lnext, set_lprev, set_list_state}

-- The first object, or what is behind an empty chain; the last one, or what is in front of it.
abbrev pub first_or : Option ℕ → List ℕ → Option ℕ
first_or after [] = after
first_or after (x ∷ xs) = some x

abbrev pub last_or : Option ℕ → List ℕ → Option ℕ
last_or before [] = before
last_or before (x ∷ xs) = last_or (some x) xs

-- The objects of `xs` are linked in this order, between `before` and `after`.
abbrev pub Linked : (ℕ → Node) → Option ℕ → List ℕ → Option ℕ → Type 0
Linked heap before [] after = Unit {0}
Linked heap before (x ∷ xs) after =
    ((heap x).lprev ≡ before) × ((heap x).lnext ≡ first_or after xs) × Linked heap (some x) xs after

-- The object is not in the chain; no object is in it twice.
abbrev pub Absent : ℕ → List ℕ → Type 0
Absent m [] = Unit {0}
Absent m (x ∷ xs) = (x ≢ m) × Absent m xs

abbrev pub Distinct : List ℕ → Type 0
Distinct [] = Unit {0}
Distinct (x ∷ xs) = Absent x xs × Distinct xs

-- Links of two heaps that agree on the objects of a chain.
abbrev pub SameLinks : (ℕ → Node) → (ℕ → Node) → List ℕ → Type 0
SameLinks heap heap' [] = Unit {0}
SameLinks heap heap' (x ∷ xs) =
    ((heap' x).lprev ≡ (heap x).lprev)
    × ((heap' x).lnext ≡ (heap x).lnext)
    × SameLinks heap heap' xs

pub Linked-same :
    (heap heap' : ℕ → Node) (before after : Option ℕ) (xs : List ℕ)
    → SameLinks heap heap' xs
    → Linked heap before xs after
    → Linked heap' before xs after
Linked-same heap heap' before after [] h l = tt
Linked-same heap heap' before after (x ∷ xs) h l =
    (h.0 ∙ l.0, h.1 ∙ l.1, Linked-same heap heap' (some x) after xs h.2 l.2)

first_or-append :
    (after : Option ℕ) (xs ys : List ℕ)
    → first_or after (xs ++ ys) ≡ first_or (first_or after ys) xs
first_or-append after [] ys = refl
first_or-append after (x ∷ xs) ys = refl

-- A chain of two parts.
pub Linked-append :
    (heap : ℕ → Node) (before after : Option ℕ) (xs ys : List ℕ)
    → Linked heap before xs (first_or after ys)
    → Linked heap (last_or before xs) ys after
    → Linked heap before (xs ++ ys) after
Linked-append heap before after [] ys l r = r
Linked-append heap before after (x ∷ xs) ys l r =
    (l.0, l.1 ∙ sym (first_or-append after xs ys), Linked-append heap (some x) after xs ys l.2 r)

pub Linked-front :
    (heap : ℕ → Node) (before after : Option ℕ) (xs ys : List ℕ)
    → Linked heap before (xs ++ ys) after
    → Linked heap before xs (first_or after ys)
Linked-front heap before after [] ys l = tt
Linked-front heap before after (x ∷ xs) ys l =
    (l.0, l.1 ∙ first_or-append after xs ys, Linked-front heap (some x) after xs ys l.2)

pub Linked-back :
    (heap : ℕ → Node) (before after : Option ℕ) (xs ys : List ℕ)
    → Linked heap before (xs ++ ys) after
    → Linked heap (last_or before xs) ys after
Linked-back heap before after [] ys l = l
Linked-back heap before after (x ∷ xs) ys l = Linked-back heap (some x) after xs ys l.2

-- Writes to an object that is not in the chain.
pub set_lnext-same :
    (heap : ℕ → Node) (m : ℕ) (v : Option ℕ) (xs : List ℕ)
    → Absent m xs
    → SameLinks heap (set_lnext m v heap) xs
unfolding set_lnext
set_lnext-same heap m v [] h = tt
set_lnext-same heap m v (x ∷ xs) h =
    let other : (x == m) ≡ false = ground arith in
    (rw other refl, rw other refl, set_lnext-same heap m v xs h.1)

pub set_lprev-same :
    (heap : ℕ → Node) (m : ℕ) (v : Option ℕ) (xs : List ℕ)
    → Absent m xs
    → SameLinks heap (set_lprev m v heap) xs
unfolding set_lprev
set_lprev-same heap m v [] h = tt
set_lprev-same heap m v (x ∷ xs) h =
    let other : (x == m) ≡ false = ground arith in
    (rw other refl, rw other refl, set_lprev-same heap m v xs h.1)

-- The list's state is no link.
pub set_list_state-same :
    (heap : ℕ → Node) (m v : ℕ) (xs : List ℕ) → SameLinks heap (set_list_state m v heap) xs
unfolding set_list_state
set_list_state-same heap m v [] = tt
set_list_state-same heap m v (x ∷ xs) = elim (Bool-cases (x == m)) [
  | inl same ↦ (rw same refl, rw same refl, set_list_state-same heap m v xs)
  | inr other ↦ (rw other refl, rw other refl, set_list_state-same heap m v xs)
]

-- No object of the first chain is in the second one.
abbrev pub Apart : List ℕ → List ℕ → Type 0
Apart [] ws = Unit {0}
Apart (y ∷ ys) ws = Absent y ws × Apart ys ws

pub Absent-append : (m : ℕ) (ys ws : List ℕ) → Absent m ys → Absent m ws → Absent m (ys ++ ws)
Absent-append m [] ws h k = k
Absent-append m (y ∷ ys) ws h k = (h.0, Absent-append m ys ws h.1 k)

Absent-front : (m : ℕ) (ys ws : List ℕ) → Absent m (ys ++ ws) → Absent m ys
Absent-front m [] ws h = tt
Absent-front m (y ∷ ys) ws h = (h.0, Absent-front m ys ws h.1)

Absent-back : (m : ℕ) (ys ws : List ℕ) → Absent m (ys ++ ws) → Absent m ws
Absent-back m [] ws h = h
Absent-back m (y ∷ ys) ws h = Absent-back m ys ws h.1

pub Distinct-append :
    (ys ws : List ℕ) → Distinct ys → Distinct ws → Apart ys ws → Distinct (ys ++ ws)
Distinct-append [] ws h k a = k
Distinct-append (y ∷ ys) ws h k a = (Absent-append y ys ws h.0 a.0, Distinct-append ys ws h.1 k a.1)

pub Distinct-split :
    (ys ws : List ℕ) → Distinct (ys ++ ws) → Distinct ys × Distinct ws × Apart ys ws
Distinct-split [] ws h = (tt, h, tt)
Distinct-split (y ∷ ys) ws h =
    let (front, back, apart) = Distinct-split ys ws h.1 in
    ((Absent-front y ys ws h.0, front), back, (Absent-back y ys ws h.0, apart))

-- Read from the other side.
pub Apart-first : (w : ℕ) (ys ws : List ℕ) → Apart ys (w ∷ ws) → Absent w ys
Apart-first w [] ws a = tt
Apart-first w (y ∷ ys) ws a = ((λ e. a.0.0 (sym e)), Apart-first w ys ws a.1)

pub Apart-rest : (w : ℕ) (ys ws : List ℕ) → Apart ys (w ∷ ws) → Apart ys ws
Apart-rest w [] ws a = tt
Apart-rest w (y ∷ ys) ws a = (a.0.1, Apart-rest w ys ws a.1)

pub last-ne : (x e y : ℕ) (ys : List ℕ) → Absent x (y ∷ ys) → last_or (some y) ys ≡ some e → x ≢ e
last-ne x e y [] a last same = a.0 (ground arith)
last-ne x e y (z ∷ zs) a last same = last-ne x e z zs a.1 last same

-- A new object behind the last one of a chain, and in front of the first one.
pub set_lnext-last :
    (heap : ℕ → Node) (before after v : Option ℕ) (e x : ℕ) (xs : List ℕ)
    → Distinct (x ∷ xs)
    → last_or (some x) xs ≡ some e
    → Linked heap before (x ∷ xs) after
    → Linked (set_lnext e v heap) before (x ∷ xs) v
unfolding set_lnext
set_lnext-last heap before after v e x [] d last l =
    let same : (x == e) ≡ true = ground arith in (rw same (l.0), rw same refl, tt)
set_lnext-last heap before after v e x (y ∷ ys) d last l =
    let other : x ≢ e = last-ne x e y ys d.0 last in
    let test : (x == e) ≡ false = ground arith in
    (rw test (l.0), rw test (l.1), set_lnext-last heap (some x) after v e y ys d.1 last l.2)

pub set_lprev-first :
    (heap : ℕ → Node) (before after v : Option ℕ) (x : ℕ) (xs : List ℕ)
    → Absent x xs
    → Linked heap before (x ∷ xs) after
    → Linked (set_lprev x v heap) v (x ∷ xs) after
unfolding set_lprev
set_lprev-first heap before after v x xs d l =
    let same : (x == x) ≡ true = ground arith in
    (
      rw same refl,
      rw same (l.1),
      Linked-same heap (set_lprev x v heap) (some x) after xs (set_lprev-same heap x v xs d) l.2,
    )

pub same_links : (heap : ℕ → Node) (xs : List ℕ) → SameLinks heap heap xs
same_links heap [] = tt
same_links heap (x ∷ xs) = (refl, refl, same_links heap xs)

pub last-some : (y : ℕ) (ys : List ℕ) → (e : ℕ) × (last_or (some y) ys ≡ some e)
last-some y [] = (y, refl)
last-some y (z ∷ zs) = last-some z zs

pub Apart-last :
    (e y : ℕ) (ys zs : List ℕ) → Apart (y ∷ ys) zs → last_or (some y) ys ≡ some e → Absent e zs
Apart-last e y [] zs a last =
    let same : y ≡ e = ground arith in subst (λ (k : ℕ). Absent k zs) same a.0
Apart-last e y (x ∷ ys) zs a last = Apart-last e x ys zs a.1 last

pub last_or-append :
    (before : Option ℕ) (ys ws : List ℕ)
    → last_or before (ys ++ ws) ≡ last_or (last_or before ys) ws
last_or-append before [] ws = refl
last_or-append before (y ∷ ys) ws = last_or-append (some y) ys ws

pub Apart-one : (m : ℕ) (xs : List ℕ) → Absent m xs → Apart xs (m ∷ [])
Apart-one m [] h = tt
Apart-one m (x ∷ xs) h = (((λ e. h.0 (sym e)), tt), Apart-one m xs h.1)

-- An object after a write to it.
pub self_links :
    (heap : ℕ → Node) (m : ℕ) (before after : Option ℕ)
    → Linked (set_lprev m before (set_lnext m after heap)) before (m ∷ []) after
unfolding set_lprev set_lnext
self_links heap m before after =
    let same : (m == m) ≡ true = ground arith in (rw same refl, rw same refl, tt)

pub self_links_swapped :
    (heap : ℕ → Node) (m : ℕ) (before after : Option ℕ)
    → Linked (set_lnext m after (set_lprev m before heap)) before (m ∷ []) after
unfolding set_lprev set_lnext
self_links_swapped heap m before after =
    let same : (m == m) ≡ true = ground arith in (rw same refl, rw same refl, tt)
