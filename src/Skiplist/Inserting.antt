-- ===== src/Skiplist/Inserting.antt =====
-- zslInsert of struct/t_zset.c as a whole: the skip list with the new node in its place.
use learnredis.Base.{
  sym, ◌∙◌, ℕ, ◌+◌, ◌≤◌, ◌<◌, ◌≡◌, refl, inl, true, false, some, [], ◌++◌, arith, length,
  length-append, ◌==◌, update_self,
}
use learnredis.Skiplist.{
  Heap, Zskiplist, Comparing, zskiplist_maxlevel, zsl_create, zsl_random_level, zsl_insert, less,
  unset,
}
use learnredis.Skiplist.Links.{Cell, Cells, link, occurs, Nodes, Headed, last_addr, IsSkiplist}
use learnredis.Skiplist.Searching.{descend-Found}
use learnredis.Skiplist.Ranking.{Answers-keys}
use learnredis.Skiplist.Ordering.{
  Numbers, Lacks, IsOrder, IsSorted, insert_cell, insert_cell-split, insert_cell-IsSorted,
}
use learnredis.Skiplist.Fitting.{highest, highest-new}
use learnredis.Skiplist.Joining.{insert_at-IsSkiplist}

random_level :
    (draws : ℕ) → (0 < zsl_random_level draws) × (zsl_random_level draws ≤ zskiplist_maxlevel)
unfolding zsl_random_level
random_level draws = (ground arith, ground arith)

module _ {ℓ} {D O : Type ℓ} (o : Comparing D O) where
  -- On a skip list of sorted keys with its spans whose number of levels is the height of its
  -- highest node, or 1 if it is empty, with a score that is a number, scores of nodes that are
  -- numbers, an object that no node has, an address that neither a node nor the header has, and
  -- comparisons that order the keys, `zslInsert` does not fault, whatever level is drawn; the
  -- result is a skip list of the keys with the new one in its place: every forward pointer, span,
  -- backward pointer, the tail and the length are right, the number of levels is again the height
  -- of the highest node, and the keys are sorted.
  pub zsl_insert-IsSkiplist :
      (fresh draws : ℕ) (score : D) (obj : O) (h : Heap (D × O)) (z : Zskiplist)
      (xs : Cells (D × O))
      → IsOrder o
      → IsSkiplist h z xs
      → z.level ≡ highest xs
      → IsSorted o xs
      → Numbers o xs
      → o.is_nan score ≡ false
      → Lacks o obj xs
      → occurs fresh xs ≡ 0
      → (fresh == z.header) ≡ false
      → (h' : Heap (D × O)) × (z' : Zskiplist) × (zsl_insert o fresh draws score obj h z
          ≡ some (h', z'))
        × IsSkiplist h' z' (
            insert_cell o
              (record { addr = fresh; key = (score, obj); height = zsl_random_level draws })
              xs)
        × IsSorted o (
            insert_cell o
              (record { addr = fresh; key = (score, obj); height = zsl_random_level draws })
              xs)
        × (z'.level
            ≡ highest (
                insert_cell o
                  (record { addr = fresh; key = (score, obj); height = zsl_random_level draws })
                  xs))
  unfolding zsl_insert
  zsl_insert-IsSkiplist fresh draws score obj h z xs ord s exact sorted numbers number lacks free
        unlike =
      let n : Cell (D × O) = record {
        addr = fresh;
        key = (score, obj);
        height = zsl_random_level draws;
      } in
      let (pre, post, e, f, below, above) = insert_cell-split o n xs ord sorted in
      let s' : IsSkiplist h z (pre ++ post) = rw e at s in
      let (path, found_path, found, kept) =
        descend-Found (λ r k. less o k (score, obj)) h z.header z.level (z.length + 1) pre post
          s'.header s'.nodes (Answers-keys (λ k. less o k (score, obj)) true 0 pre below)
          (Answers-keys (λ k. less o k (score, obj)) false (length pre) post above) s'.levels.1
          (omega (arith, s'.length, length-append pre post)) z.level z.header 0 unset (omega arith)
          (inl (refl, refl)) in
      let (positive, low) = random_level draws in
      let (h', z', done, result, level) =
        insert_at-IsSkiplist pre post fresh (zsl_random_level draws) (score, obj) h z s' positive
          low (rw e at free) unlike path found in
      (
        h',
        z',
        rw (number, found_path) done,
        rw f result,
        insert_cell-IsSorted o n xs ord number numbers lacks sorted,
        rw f (level ∙ (rw (exact, e) (sym (highest-new pre post n)))),
      )

-- A new list is empty.
pub zsl_create-IsSkiplist {ℓ} :
    {K : Type ℓ} (header : ℕ) (h : Heap K)
    → IsSkiplist (zsl_create header h).0 (zsl_create header h).1 []
unfolding zsl_create Headed Nodes link last_addr occurs
zsl_create-IsSkiplist header h = record {
  header = (_, update_self h header _, (λ i b. refl), (λ i b c. refl));
  nodes = tt;
  tail = refl;
  length = refl;
  heights = tt;
  levels = (omega arith, omega arith);
  distinct = λ a. ground arith;
}

zsl_create_level {ℓ} :
    {K : Type ℓ} (header : ℕ) (h : Heap K) → (zsl_create header h).1.level ≡ highest {K = K} []
unfolding zsl_create highest
zsl_create_level header h = refl
