-- ===== src/Intset/Runs.antt =====
-- Runs of struct/intset.c, and its theorems at concrete inputs.
use learnredis.Base.{ℕ, ◌+◌, ◌^◌, ◌-◌, ◌≡◌, ◌↔◌, refl, true, none, some, arith}
use learnredis.Base.Int.{pos, negsuc}
use learnredis.Base.Bytes.{read_word, write_word, memmove, realloc}
use learnredis.Intset.{
  Intset, intset_new, intset_value_encoding, intset_get_encoded, intset_set, intset_resize,
  search_loop, intset_search, upgrade_loop, intset_upgrade_and_add, intset_move_tail, insert_at,
  intset_add, remove_at, intset_remove, intset_find, intset_get, intset_blob_len,
}
use learnredis.Intset.Searching.{IsIntset, Contains, Located, intset_find_iff}
use learnredis.Intset.Ending.{IsEnd, intset_search-Ends}
use learnredis.Intset.Adding.{Adds, intset_add-Adds}
use learnredis.Intset.Removing.{Removes, intset_remove-Removes}

-- New bytes hold 170.
abbrev fresh : ℕ → ℕ
fresh i = 170

program : Unit {0}
unfolding intset_new intset_value_encoding intset_get_encoded intset_set intset_resize search_loop
    intset_search upgrade_loop intset_upgrade_and_add intset_move_tail insert_at intset_add
    remove_at intset_remove intset_find intset_get intset_blob_len read_word write_word memmove
    realloc
program = tt

abbrev five : Intset
five = (intset_add fresh intset_new (pos 5)).0

abbrev two : Intset
two = (intset_add fresh five (negsuc 70000)).0

abbrev three : Intset
three = (intset_add fresh two (pos 1)).0

-- -70001 widens the set in place, and 1 goes between.
three_gets :
    (intset_get three 0 ≡ some (negsuc 70000))
    × (intset_get three 1 ≡ some (pos 1))
    × (intset_get three 2 ≡ some (pos 5))
    × (intset_get three 3 ≡ none)
    × (intset_blob_len three ≡ 20)
unfolding program
three_gets = (refl, refl, refl, refl, refl)

two_again : intset_remove fresh three (pos 1) ≡ (two, true)
unfolding program
two_again = refl

new-IsIntset : IsIntset intset_new
unfolding intset_new
new-IsIntset = record {
  room = refl;
  bytes = λ i. omega arith;
  ascending = λ i j h k. absurd (omega arith);
}

five-IsIntset : IsIntset five
unfolding intset_new
five-IsIntset =
    (intset_add-Adds fresh intset_new (pos 5) new-IsIntset (omega arith)
      (omega arith, omega arith)).valid

five_length : five.length ≡ 1
unfolding program
five_length = refl

two-IsIntset : IsIntset two
two-IsIntset =
    (intset_add-Adds fresh five (negsuc 70000) five-IsIntset (omega (arith, five_length))
      (omega arith, omega arith)).valid

two_length : two.length ≡ 2
unfolding program
two_length = refl

intset_search-Ends_example :
    Located two (pos 1) (intset_search two (pos 1))
    × IsEnd (pos 1) (
        search_loop
          (two.length + 1)
          two
          (pos 1)
          (record { min = 0; max_next = two.length; mid = 2 ^ 32 - 1; cur = negsuc 0 }))
intset_search-Ends_example = intset_search-Ends two (pos 1) two-IsIntset (omega (arith, two_length))

intset_find_iff_example : (intset_find two (pos 5) ≡ true) ↔ Contains two (pos 5)
intset_find_iff_example = intset_find_iff two (pos 5) two-IsIntset (omega (arith, two_length))

intset_add-Adds_example :
    Adds five
      (intset_add fresh five (negsuc 70000)).0
      (negsuc 70000)
      (intset_add fresh five (negsuc 70000)).1
intset_add-Adds_example =
    intset_add-Adds fresh five (negsuc 70000) five-IsIntset (omega (arith, five_length))
      (omega arith, omega arith)

intset_remove-Removes_example :
    Removes two (intset_remove fresh two (pos 5)).0 (pos 5) (intset_remove fresh two (pos 5)).1
intset_remove-Removes_example =
    intset_remove-Removes fresh two (pos 5) two-IsIntset (omega (arith, two_length))
