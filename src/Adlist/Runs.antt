-- ===== src/Adlist/Runs.antt =====
-- The lists of struct/adlist.c at work.
use learnredis.Base.{ℕ, ◌≡◌, refl, true, none, some, [], ◌∷◌, ◌++◌, arith}
use learnredis.Base.Int.{negsuc}
use learnredis.Adlist.{
  Heap, Handle, list_insert_node, list_del_node, list_rotate, list_index, store,
}
use learnredis.Adlist.Segments.{Cells, first, last, occurs, Linked, IsList}
use learnredis.Adlist.Editing.{Frame, list_del_node-IsList}
use learnredis.Adlist.Inserting.{beside, list_insert_node-IsList}
use learnredis.Adlist.Ends.{list_rotate-IsList}
use learnredis.Adlist.Walking.{address_from, address_at, list_index_lem}

abbrev cells : Cells ℕ
cells = (1, 10) ∷ (2, 20) ∷ (3, 30) ∷ []

abbrev heap : Heap ℕ
heap =
    store
      (store (store (λ a. none) 1 (record { prev = none; next = some 2; value = 10 })) 2
        (record { prev = some 1; next = some 3; value = 20 }))
      3 (record { prev = some 2; next = none; value = 30 })

abbrev handle : Handle
handle = record { head = some 1; tail = some 3; len = 3 }

three : IsList heap handle cells
unfolding Linked first last occurs
three = record {
  linked = (refl, (refl, (refl, tt)));
  head = refl;
  tail = refl;
  len = refl;
  distinct = λ b. ground arith;
}

list_insert_node-IsList_example :
    (h' : Heap ℕ) × (l' : Handle) × (list_insert_node (some 7) heap handle (some 3) 70 true
      ≡ some (h', l', true))
    × IsList h' l' (((1, 10) ∷ (2, 20) ∷ []) ++ beside true (7, 70) (3, 30) [])
    × Frame ((7, 70) ∷ ((1, 10) ∷ (2, 20) ∷ []) ++ (3, 30) ∷ []) heap h'
unfolding occurs
list_insert_node-IsList_example =
    list_insert_node-IsList heap handle ((1, 10) ∷ (2, 20) ∷ []) [] 3 30 7 70 true three refl

list_del_node-IsList_example :
    (h' : Heap ℕ) × (l' : Handle) × (list_del_node heap handle 2 ≡ some (h', l'))
    × IsList h' l' (((1, 10) ∷ []) ++ (3, 30) ∷ [])
    × (h' 2 ≡ none)
    × Frame (((1, 10) ∷ []) ++ (2, 20) ∷ (3, 30) ∷ []) heap h'
list_del_node-IsList_example =
    list_del_node-IsList heap handle ((1, 10) ∷ []) ((3, 30) ∷ []) 2 20 three

list_rotate-IsList_example :
    (h' : Heap ℕ) × (l' : Handle) × (list_rotate heap handle ≡ some (h', l'))
    × IsList h' l' ((3, 30) ∷ (1, 10) ∷ (2, 20) ∷ [])
    × Frame (((1, 10) ∷ (2, 20) ∷ []) ++ (3, 30) ∷ []) heap h'
list_rotate-IsList_example = list_rotate-IsList heap handle ((1, 10) ∷ (2, 20) ∷ []) 3 30 three

list_index_lem_example : list_index heap handle (negsuc 1) ≡ some (address_from (negsuc 1) cells)
list_index_lem_example = list_index_lem heap handle cells three (negsuc 1)

second_last : list_index heap handle (negsuc 1) ≡ some (some 2)
unfolding address_from address_at
second_last = list_index_lem heap handle cells three (negsuc 1)
