-- ===== src/ObjectList/Tests.antt =====
-- Runs of the object list, and the theorem about it at a concrete list.
use kangle.Prelude.{ℕ, false, none, some, [], ◌∷◌, ◌++◌, ◌≡◌, refl, arith}
use kangle.ObjectList.{Node, ObjectList, add, remove, dead}
use kangle.ObjectList.Refines.{Represents, object_list-Represents}

abbrev unlinked : ℕ → Node
unlinked k = record { lnext = none; lprev = none; list_state = 255 }

abbrev empty : ObjectList
empty = record { l_head = none; l_end = none; list_state = 0; drop_dead = false; heap = unlinked }

abbrev three : ObjectList
unfolding add
three = add (add (add empty 1) 2) 3

three-Represents : Represents three (1 ∷ (2 ∷ 3 ∷ []))
unfolding add
three-Represents = (
  refl,
  refl,
  (refl, refl, (refl, refl, (refl, refl, tt))),
  (((λ e. grind arith), ((λ e. grind arith), tt)), (((λ e. grind arith), tt), (tt, tt))),
)

dead_run : (dead three 3).l_end ≡ some 2
unfolding add dead
dead_run = refl

object_list-Represents_example :
    Represents (add empty 4) ([] ++ 4 ∷ [])
    × Represents (remove three 2) ((1 ∷ []) ++ 3 ∷ [])
    × Represents (dead three 2) (2 ∷ ((1 ∷ []) ++ 3 ∷ []))
object_list-Represents_example =
    object_list-Represents empty three 4 2 [] (1 ∷ []) (3 ∷ []) (refl, refl, tt, tt) tt
      three-Represents
