-- ===== src/ObjectList/Refines.antt =====
-- src/KObjectList.cpp: the linked list is a sequence; add, remove and dead change it as they should.
use kangle.Prelude.{
  ℕ, true, false, Option, none, some, List, [], ◌∷◌, ◌++◌, ◌≡◌, refl, ap, sym, ◌∙◌, arith, ◌==◌,
  if◌then◌else◌, if_true, if_false,
}
use mathlib.Core.Path.{subst}
use kangle.ObjectList.{
  Node, ObjectList, set_lnext, set_lprev, set_list_state, set_lnext?, set_lprev?, points_to,
  link_end, add, unlink, remove, to_front, dead,
}
use kangle.ObjectList.Links.{
  first_or, last_or, Linked, Absent, Distinct, SameLinks, Linked-same, Linked-append, Linked-front,
  Linked-back, set_lnext-same, set_lprev-same, set_list_state-same, Apart, Absent-append,
  Distinct-append, Distinct-split, Apart-first, Apart-rest, set_lnext-last, set_lprev-first,
  last-ne, last-some, last_or-append, Apart-one, self_links, self_links_swapped, Apart-last,
  same_links,
}

-- The objects of the list are `xs`, in this order.
abbrev pub Represents : ObjectList → List ℕ → Type 0
Represents s xs =
    (s.l_head ≡ first_or none xs)
    × (s.l_end ≡ last_or none xs)
    × Linked s.heap none xs none
    × Distinct xs

-- The two writes of unlink, on the objects in front of `m` and behind it.
lprev?-back :
    (heap : ℕ → Node) (before v : Option ℕ) (zs : List ℕ)
    → Distinct zs
    → Linked heap before zs none
    → Linked (set_lprev? (first_or none zs) v heap) v zs none
unfolding set_lprev? set_lprev
lprev?-back heap before v [] d l = tt
lprev?-back heap before v (z ∷ zs) d l = set_lprev-first heap before none v z zs d.0 l

lprev?-same :
    (heap : ℕ → Node) (v : Option ℕ) (ys zs : List ℕ)
    → Apart ys zs
    → SameLinks heap (set_lprev? (first_or none zs) v heap) ys
unfolding set_lprev? set_lprev
lprev?-same heap v ys [] a = same_links heap ys
lprev?-same heap v ys (z ∷ zs) a = set_lprev-same heap z v ys (Apart-first z ys zs a)

lnext?-front :
    (heap : ℕ → Node) (after v : Option ℕ) (ys : List ℕ)
    → Distinct ys
    → Linked heap none ys after
    → Linked (set_lnext? (last_or none ys) v heap) none ys v
unfolding set_lnext? set_lnext
lnext?-front heap after v [] d l = tt
lnext?-front heap after v (y ∷ ys) d l =
    let (e, last) = last-some y ys in
    subst (λ (o : Option ℕ). Linked (set_lnext? o v heap) none (y ∷ ys) v) (sym last)
      (set_lnext-last heap none after v e y ys d last l)

lnext?-same :
    (heap : ℕ → Node) (v : Option ℕ) (ys zs : List ℕ)
    → Apart ys zs
    → SameLinks heap (set_lnext? (last_or none ys) v heap) zs
unfolding set_lnext? set_lnext
lnext?-same heap v [] zs a = same_links heap zs
lnext?-same heap v (y ∷ ys) zs a =
    let (e, last) = last-some y ys in
    subst (λ (o : Option ℕ). SameLinks heap (set_lnext? o v heap) zs) (sym last)
      (set_lnext-same heap e v zs (Apart-last e y ys zs a last))

-- What Represents says of the object between `ys` and `zs`.
unlink-Linked :
    (heap : ℕ → Node) (m : ℕ) (ys zs : List ℕ)
    → Distinct (ys ++ m ∷ zs)
    → Linked heap none (ys ++ m ∷ zs) none
    → Linked (unlink m heap) none (ys ++ zs) none
unfolding unlink
unlink-Linked heap m ys zs d l =
    let (dy, dmz, apart) = Distinct-split ys (m ∷ zs) d in
    let front = Linked-front heap none none ys (m ∷ zs) l in
    let back = Linked-back heap none none ys (m ∷ zs) l in
    let before = last_or none ys in
    let after = first_or none zs in
    let heap1 = set_lprev? after before heap in
    let ys_zs = Apart-rest m ys zs apart in
    let front1 =
      Linked-same heap heap1 none (some m) ys (lprev?-same heap before ys zs ys_zs) front in
    let back1 = lprev?-back heap (some m) before zs dmz.1 back.2 in
    let m_same : SameLinks heap heap1 (m ∷ []) = lprev?-same heap before (m ∷ []) zs (dmz.0, tt) in
    let heap2 = set_lnext? before after heap1 in
    let front2 = lnext?-front heap1 (some m) after ys dy front1 in
    let back2 =
      Linked-same heap1 heap2 before none zs (lnext?-same heap1 after ys zs ys_zs) back1 in
    let e1 : (heap m).lnext ≡ after = back.1 in
    let e0 : (heap m).lprev ≡ before = back.0 in
    let step1 : set_lprev? (heap m).lnext (heap m).lprev heap ≡ heap1 =
      ap (λ a. set_lprev? a (heap m).lprev heap) e1 ∙ ap (λ b. set_lprev? after b heap) e0 in
    let all2 = Linked-append heap2 none none ys zs front2 back2 in
    let f0 : (heap1 m).lprev ≡ before = m_same.0 ∙ e0 in
    let f1 : (heap1 m).lnext ≡ after = m_same.1 ∙ e1 in
    let step2 : set_lnext? (heap1 m).lprev (heap1 m).lnext heap1 ≡ heap2 =
      ap (λ a. set_lnext? a (heap1 m).lnext heap1) f0 ∙ ap (λ b. set_lnext? before b heap1) f1 in
    let step : unlink m heap ≡ heap2 =
      ap (λ (h : ℕ → Node). set_lnext? (h m).lprev (h m).lnext h) step1 ∙ step2 in
    subst (λ (h : ℕ → Node). Linked h none (ys ++ zs) none) (sym step) all2

-- l_head and l_end after remove.
head-unlinked :
    (s : ObjectList) (m : ℕ) (ys zs : List ℕ)
    → Represents s (ys ++ m ∷ zs)
    → (if points_to s.l_head m then (s.heap m).lnext else s.l_head) ≡ first_or none (ys ++ zs)
head-unlinked s m [] zs (head, end, l, d) =
    let test : points_to s.l_head m ≡ true =
      ap (λ p. points_to p m) head ∙ (let e : (m == m) ≡ true = ground arith in e) in
    if_true (λ (p : Option ℕ). p ≡ first_or none zs) (points_to s.l_head m) (s.heap m).lnext
      s.l_head test l.1
head-unlinked s m (y ∷ ys) zs (head, end, l, d) =
    let (dy, dmz, apart) = Distinct-split (y ∷ ys) (m ∷ zs) d in
    let ne = (Apart-first m (y ∷ ys) zs apart).0 in
    let test : points_to s.l_head m ≡ false =
      ap (λ p. points_to p m) head ∙ (let e : (y == m) ≡ false = ground arith in e) in
    if_false (λ (p : Option ℕ). p ≡ some y) (points_to s.l_head m) (s.heap m).lnext s.l_head test
      head

end-unlinked :
    (s : ObjectList) (m : ℕ) (ys zs : List ℕ)
    → Represents s (ys ++ m ∷ zs)
    → (if points_to s.l_end m then (s.heap m).lprev else s.l_end) ≡ last_or none (ys ++ zs)
end-unlinked s m ys [] (head, end, l, d) =
    let at_end : s.l_end ≡ some m = end ∙ last_or-append none ys (m ∷ []) in
    let test : points_to s.l_end m ≡ true =
      ap (λ p. points_to p m) at_end ∙ (let e : (m == m) ≡ true = ground arith in e) in
    let back = Linked-back s.heap none none ys (m ∷ []) l in
    if_true (λ (p : Option ℕ). p ≡ last_or none (ys ++ [])) (points_to s.l_end m) (s.heap m).lprev
      s.l_end test (back.0 ∙ sym (last_or-append none ys []))
end-unlinked s m ys (z ∷ zs) (head, end, l, d) =
    let (dy, dmz, apart) = Distinct-split ys (m ∷ z ∷ zs) d in
    let (e, last) = last-some z zs in
    let at_end : s.l_end ≡ some e = end ∙ last_or-append none ys (m ∷ z ∷ zs) ∙ last in
    let ne = last-ne m e z zs dmz.0 last in
    let test : points_to s.l_end m ≡ false =
      ap (λ p. points_to p m) at_end ∙ (let f : (e == m) ≡ false = ground arith in f) in
    if_false (λ (p : Option ℕ). p ≡ last_or none (ys ++ z ∷ zs)) (points_to s.l_end m)
      (s.heap m).lprev s.l_end test (at_end ∙ sym (last_or-append none ys (z ∷ zs) ∙ last))

Distinct-without :
    (m : ℕ) (ys zs : List ℕ) → Distinct (ys ++ m ∷ zs) → Distinct (ys ++ zs) × Absent m (ys ++ zs)
Distinct-without m ys zs d =
    let (dy, dmz, apart) = Distinct-split ys (m ∷ zs) d in
    (
      Distinct-append ys zs dy dmz.1 (Apart-rest m ys zs apart),
      Absent-append m ys zs (Apart-first m ys zs apart) dmz.0,
    )

remove-Represents :
    (s : ObjectList) (m : ℕ) (ys zs : List ℕ)
    → Represents s (ys ++ m ∷ zs)
    → Represents (remove s m) (ys ++ zs)
unfolding remove
remove-Represents s m ys zs r = (
  head-unlinked s m ys zs r,
  end-unlinked s m ys zs r,
  unlink-Linked s.heap m ys zs r.3 r.2,
  (Distinct-without m ys zs r.3).0,
)

to_front-Represents :
    (s : ObjectList) (m y : ℕ) (ys zs : List ℕ)
    → Represents s (y ∷ (ys ++ m ∷ zs))
    → Represents (to_front s m (some y)) (m ∷ y ∷ (ys ++ zs))
unfolding to_front set_lprev? set_lprev set_lnext unlink
to_front-Represents s m y ys zs r =
    let (rest, absent) = Distinct-without m (y ∷ ys) zs r.3 in
    let heap1 = unlink m s.heap in
    let heap2 = set_lprev y (some m) heap1 in
    let heap3 = set_lnext m (some y) heap2 in
    let chain1 = unlink-Linked s.heap m (y ∷ ys) zs r.3 r.2 in
    let chain2 = set_lprev-first heap1 none none (some m) y (ys ++ zs) rest.0 chain1 in
    let chain3 =
      Linked-same heap2 heap3 (some m) none (y ∷ (ys ++ zs))
        (set_lnext-same heap2 m (some y) (y ∷ (ys ++ zs)) absent) chain2 in
    let chain4 =
      Linked-same heap3 (set_lprev m none heap3) (some m) none (y ∷ (ys ++ zs))
        (set_lprev-same heap3 m none (y ∷ (ys ++ zs)) absent) chain3 in
    let self = self_links heap2 m none (some y) in
    (refl, end-unlinked s m (y ∷ ys) zs r, (self.0, self.1, chain4), (absent, rest))

dead-Represents :
    (s : ObjectList) (m : ℕ) (ys zs : List ℕ)
    → Represents s (ys ++ m ∷ zs)
    → Represents (dead s m) (m ∷ (ys ++ zs))
unfolding dead
dead-Represents s m [] zs r =
    let test : points_to s.l_head m ≡ true =
      ap (λ p. points_to p m) r.0 ∙ (let e : (m == m) ≡ true = ground arith in e) in
    if_true (λ (t : ObjectList). Represents t (m ∷ zs)) (points_to s.l_head m)
      (record s { drop_dead = true }) (to_front s m s.l_head) test r
dead-Represents s m (y ∷ ys) zs r =
    let (rest, absent) = Distinct-without m (y ∷ ys) zs r.3 in
    let ne = absent.0 in
    let test : points_to s.l_head m ≡ false =
      ap (λ p. points_to p m) r.0 ∙ (let e : (y == m) ≡ false = ground arith in e) in
    if_false (λ (t : ObjectList). Represents t (m ∷ y ∷ (ys ++ zs))) (points_to s.l_head m)
      (record s { drop_dead = true }) (to_front s m s.l_head) test
      (subst (λ (h : Option ℕ). Represents (to_front s m h) (m ∷ y ∷ (ys ++ zs))) (sym r.0)
        (to_front-Represents s m y ys zs r))

link_end-Represents :
    (s : ObjectList) (m : ℕ) (xs : List ℕ)
    → Represents s xs
    → Absent m xs
    → Represents (link_end s m (last_or none xs)) (xs ++ m ∷ [])
unfolding link_end set_lprev set_lnext
link_end-Represents s m [] r absent = (refl, refl, self_links s.heap m none none, (tt, tt))
link_end-Represents s m (x ∷ xs) r absent =
    let (e, last) = last-some x xs in
    let heap1 = set_lnext e (some m) s.heap in
    let heap2 = set_lprev m (some e) heap1 in
    let heap3 = set_lnext m none heap2 in
    let chain1 = set_lnext-last s.heap none none (some m) e x xs r.3 last r.2 in
    let chain2 =
      Linked-same heap1 heap2 none (some m) (x ∷ xs)
        (set_lprev-same heap1 m (some e) (x ∷ xs) absent) chain1 in
    let chain3 =
      Linked-same heap2 heap3 none (some m) (x ∷ xs) (set_lnext-same heap2 m none (x ∷ xs) absent)
        chain2 in
    let own : Linked heap3 (last_or none (x ∷ xs)) (m ∷ []) none =
      subst (λ (b : Option ℕ). Linked heap3 b (m ∷ []) none) (sym last)
        (self_links_swapped heap1 m (some e) none) in
    subst (λ (o : Option ℕ). Represents (link_end s m o) ((x ∷ xs) ++ m ∷ [])) (sym last)
      (
        r.0,
        sym (last_or-append none (x ∷ xs) (m ∷ [])),
        Linked-append heap3 none none (x ∷ xs) (m ∷ []) chain3 own,
        Distinct-append (x ∷ xs) (m ∷ []) r.3 (tt, tt) (Apart-one m (x ∷ xs) absent),
      )

add-Represents :
    (s : ObjectList) (m : ℕ) (xs : List ℕ)
    → Represents s xs
    → Absent m xs
    → Represents (add s m) (xs ++ m ∷ [])
unfolding add
add-Represents s m xs r absent =
    let heap = set_list_state m s.list_state s.heap in
    let t = record s { heap = heap } in
    let kept =
      Linked-same s.heap heap none none xs (set_list_state-same s.heap m s.list_state xs) r.2 in
    subst (λ (o : Option ℕ). Represents (link_end t m o) (xs ++ m ∷ [])) (sym r.1)
      (link_end-Represents t m xs (r.0, r.1, kept, r.3) absent)

-- The linked list in the heap behaves as a sequence of distinct objects: add puts a new object at the
-- end of any list, an empty one too; on any list that holds an object, remove takes it out and leaves
-- the order of the others, and dead moves it to the front. Each time head, end and all the links
-- between the objects fit together again.
pub object_list-Represents :
    (s t : ObjectList) (new m : ℕ) (xs ys zs : List ℕ)
    → Represents s xs
    → Absent new xs
    → Represents t (ys ++ m ∷ zs)
    → Represents (add s new) (xs ++ new ∷ [])
      × Represents (remove t m) (ys ++ zs)
      × Represents (dead t m) (m ∷ (ys ++ zs))
object_list-Represents s t new m xs ys zs r absent r' =
    (add-Represents s new xs r absent, remove-Represents t m ys zs r', dead-Represents t m ys zs r')
