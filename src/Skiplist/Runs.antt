-- ===== src/Skiplist/Runs.antt =====
-- Runs of the skip list of struct/t_zset.c on small lists, and tests.
use learnredis.Base.{
  Bool, true, ℕ, ◌≡◌, refl, false, Option, none, some, [], ◌∷◌, arith, ◌>>=◌, ltb, leb, ◌==◌,
  update,
}
use learnredis.Skiplist.{
  Heap, Zskiplist, Comparing, zskiplist_maxlevel, zsl_create, zsl_insert, zsl_get_rank,
  zsl_get_element_by_rank, zsl_random_level, get_level, set_level, set_backward, walk, descend,
  raise_loop, splice_loop, stretch_loop, link_backward, insert_at, has_obj, rank_loop, element_loop,
}
use learnredis.Skiplist.Links.{
  Cell, Cells, link, occurs, Nodes, Headed, Stored, last_addr, IsSkiplist,
}
use learnredis.Skiplist.Ordering.{IsOrder, IsSorted, insert_cell}
use learnredis.Skiplist.Ranking.{zsl_get_element_by_rank_lem}
use learnredis.Skiplist.Deleting.{
  points_to, delete_loop, unlink_backward, lower_loop, zsl_delete_node, remove_node, has_key,
  zsl_delete,
}
use learnredis.Skiplist.Deleting.Removing.{zsl_delete-IsSkiplist, zsl_delete-Lacks}
use learnredis.Skiplist.Fitting.{highest}
use learnredis.Skiplist.Finding.{zsl_get_rank_lem, zsl_get_rank-Lacks}
use learnredis.Skiplist.Inserting.{zsl_insert-IsSkiplist}

-- Scores and objects that are numbers
abbrev numbers : Comparing ℕ ℕ
numbers = record {
  less_score = ltb;
  equal_score = λ s t. s == t;
  is_nan = λ s. false;
  less_obj = ltb;
  less_eq_obj = leb;
  equal_obj = λ a b. a == b;
}

numbers-IsOrder : IsOrder numbers
numbers-IsOrder = record {
  trans = λ a b c e f. ground (arith, e, f);
  total = λ a b i j e f. ground (arith, e, f);
  equal_score_refl = λ s i. ground arith;
  equal_refl = λ a. ground arith;
  less_eq_trans = λ a b c e f. ground (arith, e, f);
  less_eq_refl = λ a i. ground arith;
  less_eq-less = λ a b e. ground (arith, e);
  less_eq-more = λ a b e. ground (arith, e);
}

abbrev low : Cell (ℕ × ℕ)
low = record { addr = 2; key = (10, 8); height = 1 }

abbrev high : Cell (ℕ × ℕ)
high = record { addr = 1; key = (20, 7); height = 3 }

abbrev cells : Cells (ℕ × ℕ)
cells = low ∷ (high ∷ [])

abbrev heap : Heap (ℕ × ℕ)
heap =
    update
      (update
        (update (λ a. none) 100
          (some (record {
            key = none;
            backward = none;
            height = zskiplist_maxlevel;
            level = λ i. link i cells;
          })))
        2
        (some (record {
          key = some (10, 8);
          backward = none;
          height = 1;
          level = λ i. link i (high ∷ []);
        })))
      1
      (some (record {
        key = some (20, 7);
        backward = some 2;
        height = 3;
        level = λ i. record { forward = none; span = 0 };
      }))

abbrev zsl : Zskiplist
zsl = record { header = 100; tail = some 1; length = 2; level = 3 }

two : IsSkiplist heap zsl cells
unfolding Headed Nodes Stored link last_addr occurs
two = record {
  header = (λ i. link i cells, refl, (λ i b. refl), (λ i b c. ground (arith, b)));
  nodes = ((_, refl, λ i b. refl), ((_, refl, λ i b. refl), tt));
  tail = refl;
  length = refl;
  heights = ((omega arith, omega arith), ((omega arith, omega arith), tt));
  levels = (omega arith, omega arith);
  distinct = λ a. ground arith;
}

two-IsSorted : IsSorted numbers cells
unfolding IsSorted
two-IsSorted = ((refl, tt), (tt, tt))

zsl_insert-IsSkiplist_example :
    (h' : Heap (ℕ × ℕ)) × (z' : Zskiplist) × (zsl_insert numbers 5 4 20 3 heap zsl ≡ some (h', z'))
    × IsSkiplist h' z' (
        insert_cell numbers (record { addr = 5; key = (20, 3); height = zsl_random_level 4 }) cells)
    × IsSorted numbers (
        insert_cell numbers (record { addr = 5; key = (20, 3); height = zsl_random_level 4 }) cells)
    × (z'.level
        ≡ highest (
            insert_cell numbers
              (record { addr = 5; key = (20, 3); height = zsl_random_level 4 })
              cells))
unfolding occurs highest
zsl_insert-IsSkiplist_example =
    zsl_insert-IsSkiplist numbers 5 4 20 3 heap zsl cells numbers-IsOrder two refl two-IsSorted
      (refl, (refl, tt)) refl (refl, (refl, tt)) refl refl

zsl_get_element_by_rank_lem_example : zsl_get_element_by_rank 2 heap zsl ≡ some (some 1)
zsl_get_element_by_rank_lem_example = zsl_get_element_by_rank_lem heap zsl (low ∷ []) high [] two

zsl_get_rank_lem_example : zsl_get_rank numbers 20 7 heap zsl ≡ some 2
zsl_get_rank_lem_example =
    zsl_get_rank_lem numbers heap zsl (low ∷ []) high [] numbers-IsOrder two two-IsSorted refl
      (refl, tt)

zsl_get_rank-Lacks_example : zsl_get_rank numbers 20 9 heap zsl ≡ some 0
zsl_get_rank-Lacks_example =
    zsl_get_rank-Lacks numbers 20 9 heap zsl cells numbers-IsOrder two two-IsSorted
      (refl, (refl, tt))

zsl_delete-IsSkiplist_example :
    (h' : Heap (ℕ × ℕ)) × (z' : Zskiplist) × (zsl_delete numbers 20 7 heap zsl
      ≡ some (h', z', true))
    × IsSkiplist h' z' (low ∷ [])
    × IsSorted numbers (low ∷ [])
    × (h' 1 ≡ none)
    × (z'.level ≡ highest (low ∷ []))
zsl_delete-IsSkiplist_example =
    zsl_delete-IsSkiplist numbers heap zsl (low ∷ []) high [] numbers-IsOrder two two-IsSorted refl

zsl_delete-Lacks_example : zsl_delete numbers 10 9 heap zsl ≡ some (heap, zsl, false)
zsl_delete-Lacks_example =
    zsl_delete-Lacks numbers 10 9 heap zsl cells numbers-IsOrder two two-IsSorted (refl, (refl, tt))

-- Two insertions into an empty list, the second in front of the first
abbrev built : Option (Heap (ℕ × ℕ) × Zskiplist)
built = do
  let (h, z) = zsl_create 100 (λ a. none)
  (h1, z1) ← zsl_insert numbers 1 2 20 7 h z
  zsl_insert numbers 2 0 10 8 h1 z1

built_rank : (built >>= λ s. zsl_get_rank numbers 20 7 s.0 s.1) ≡ some 2
unfolding get_level set_level set_backward zsl_create walk descend raise_loop splice_loop
    stretch_loop link_backward insert_at zsl_random_level has_obj zsl_insert rank_loop zsl_get_rank
built_rank = refl

built_element : (built >>= λ s. zsl_get_element_by_rank 1 s.0 s.1) ≡ some (some 2)
unfolding get_level set_level set_backward zsl_create walk descend raise_loop splice_loop
    stretch_loop link_backward insert_at zsl_random_level zsl_insert element_loop
    zsl_get_element_by_rank
built_element = refl

-- What is left when the high node goes: its rank, the levels, and the answer
abbrev shortened : Option (ℕ × ℕ × Bool)
shortened = do
  s ← built
  (h, z, found) ← zsl_delete numbers 20 7 s.0 s.1
  r ← zsl_get_rank numbers 10 8 h z
  some (r, z.level, found)

shortened_lem : shortened ≡ some (1, 1, true)
unfolding get_level set_level set_backward zsl_create walk descend raise_loop splice_loop
    stretch_loop link_backward insert_at zsl_random_level has_obj zsl_insert rank_loop zsl_get_rank
    points_to delete_loop unlink_backward lower_loop zsl_delete_node remove_node has_key zsl_delete
shortened_lem = refl
