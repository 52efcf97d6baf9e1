-- ===== src/Dict/Rehash.antt =====
-- Incremental rehashing in struct/dict.c: `dictRehash` and `_dictRehashStep`.
use mathlib.Core.Option.{or_else}
use native.Mathlib.Decide.{ℕ_discrete}
use learnredis.Base.{
  ℕ, zero, suc, ◌+◌, ◌-◌, ◌≤◌, ◌<◌, ◌≡◌, ◌≢◌, refl, ap, ◌∙◌, Bool, true, false, ◌&&◌, inl, inr,
  Option, none, some, List, [], ◌∷◌, arith, length, get_or, set, drop, ltb, ◌==◌, if◌then◌else◌,
  Bool-cases, Option-cases, get_or-set_self, length-eq-zero, get_or-set_ne,
}
use learnredis.Dict.Chains
use learnredis.Dict.Chains.{DictType, Entry, Chain, ◌≈◌}
use learnredis.Dict.{
  Table, Dict, slot, empty_table, is_rehashing, move_bucket, skip_empty, rehash_loop, rehash_from,
  rehash, rehash_step,
}
use learnredis.Dict.Moves.{Moved, move_chain-Moved}
use learnredis.Dict.Invariant.{
  bucket, empty_table-IsTable, put_bucket, put_bucket-IsTable, bucket-put_bucket, IsDict, Keeps,
  Keeps-refl, Keeps-trans, view, total, length-le-total, Placed-count,
}

-- The first bucket that is not empty.
skip_empty_lem {ℓ} :
    {K V : Type ℓ} (bs : List (Chain K V)) (k : ℕ)
    → 0 < total bs
    → (n : ℕ) × (skip_empty bs k ≡ some (k + n, get_or bs n []))
      × (n < length bs)
      × (0 < length (get_or bs n []))
      × ((m : ℕ) → m < n → get_or bs m [] ≡ [])
unfolding skip_empty total
skip_empty_lem [] k h = absurd (omega arith)
skip_empty_lem ([] ∷ bs) k h =
    let (n, run, inside, filled, below) = skip_empty_lem bs (k + 1) (omega arith) in
    (
      suc n,
      run ∙ ap (λ m. some (m, get_or bs n [])) (omega arith),
      omega arith,
      filled,
      elim [ zero ↦ λ l. refl | suc m ↦ λ l. below m (omega arith) ],
    )
skip_empty_lem {K} {V} ((e ∷ c) ∷ bs) k h = (
  0,
  ap (λ m. some (m, e ∷ c)) (omega arith),
  omega arith,
  omega arith,
  λ m l. absurd (omega arith),
)

-- The same from an index below which all are empty.
skip_empty-drop {ℓ} :
    {K V : Type ℓ} (bs : List (Chain K V)) (i k : ℕ)
    → 0 < total bs
    → ((m : ℕ) → m < i → get_or bs m [] ≡ [])
    → (j n : ℕ) × (j ≡ i + n)
      × (skip_empty (drop i bs) k ≡ some (k + n, get_or bs j []))
      × (j < length bs)
      × (0 < length (get_or bs j []))
      × ((m : ℕ) → m < j → get_or bs m [] ≡ [])
unfolding total
skip_empty-drop [] i k h e = absurd (omega arith)
skip_empty-drop (b ∷ bs) zero k h e =
    let (n, run, inside, filled, below) = skip_empty_lem (b ∷ bs) k h in
    (n, n, omega arith, run, inside, filled, below)
skip_empty-drop (b ∷ bs) (suc i) k h e =
    let nothing : b ≡ [] = e 0 (omega arith) in
    let (j, n, eq, run, inside, filled, below) =
      skip_empty-drop bs i k (omega (arith, ap length nothing)) (λ m l. e (suc m) (omega arith)) in
    (
      suc j,
      n,
      omega arith,
      run,
      omega arith,
      filled,
      elim [ zero ↦ λ l. nothing | suc m ↦ λ l. below m (omega arith) ],
    )

pub or_else-none {ℓ} : {A : Type ℓ} (o : Option A) → or_else o none ≡ o
unfolding or_else
or_else-none none = refl
or_else-none (some a) = refl

module _ {ℓ} {K V : Type ℓ} ⦃dt : DictType K⦄ where
  -- The dictionary with bucket `j` moved into the table `t`.
  abbrev advanced : Dict K V → ℕ → Table K V → Dict K V
  advanced d j t = record d {
    ht0 = put_bucket d.ht0 j [] (d.ht0.used - length (get_or d.ht0.table j []));
    ht1 = t;
    rehashidx = some (j + 1);
  }

  module _ (d : Dict K V) (v : IsDict d) (j : ℕ) (t : Table K V) (inside : j < length d.ht0.table)
      (m : Moved (get_or d.ht0.table j []) d.ht1 t) where
    bucket-advanced :
        (q : K)
        → bucket q (advanced d j t).ht0
          ≡ (if slot d.ht0.sizemask q == j then [] else bucket q d.ht0)
    bucket-advanced q =
        bucket-put_bucket d.ht0 j [] (d.ht0.used - length (get_or d.ht0.table j [])) q inside

    -- A key is read where it stood, or in the second table if its bucket was the one.
    advanced-view : (q : K) → view (advanced d j t) q ≡ view d q
    unfolding view Chains.find or_else
    advanced-view q = elim (Bool-cases (slot d.ht0.sizemask q == j)) [
      | inl same ↦
          let e : j ≡ slot d.ht0.sizemask q = ground arith in
          rw (bucket-advanced q, same) (m.reads q (rw e (v.once q)) ∙ rw e refl)
      | inr differ ↦
          let none_here = Placed-count d.ht0.sizemask j q _ (v.first.placed j) (ground arith) in
          rw
            (
              bucket-advanced q,
              differ,
              m.reads q (rw none_here (omega (arith, v.once q))),
              Chains.find-eq-none q _ none_here,
            )
            refl
    ]

    advanced-once :
        (q : K) → Chains.count q (bucket q (advanced d j t).ht0) + Chains.count q (bucket q t) ≤ 1
    unfolding Chains.count
    advanced-once q = elim (Bool-cases (slot d.ht0.sizemask q == j)) [
      | inl same ↦
          let e : j ≡ slot d.ht0.sizemask q = ground arith in
          rw (bucket-advanced q, same, m.counts q) (rw e (omega (arith, v.once q)))
      | inr differ ↦
          let none_here = Placed-count d.ht0.sizemask j q _ (v.first.placed j) (ground arith) in
          rw (bucket-advanced q, differ, m.counts q, none_here) (omega (arith, v.once q))
    ]

    moved_below :
        (k : ℕ)
        → k ≡ j + 1
        → ((n : ℕ) → n < j → get_or d.ht0.table n [] ≡ [])
        → (n : ℕ) → n < k
        → get_or (set d.ht0.table j []) n [] ≡ []
    moved_below k e below n l = elim (ℕ_discrete j n) [
      | yes same ↦ rw (← same) (get_or-set_self d.ht0.table j [] [] inside)
      | no differ ↦ rw (get_or-set_ne d.ht0.table j n [] [] differ) (below n (omega arith))
    ]

    advanced-Keeps :
        (i : ℕ)
        → d.rehashidx ≡ some i
        → ((n : ℕ) → n < j → get_or d.ht0.table n [] ≡ [])
        → Keeps d (advanced d j t)
    advanced-Keeps i e below =
        let few : length (get_or d.ht0.table j []) ≤ d.ht0.used =
          omega (arith, v.first.counted, length-le-total d.ht0.table j) in
        let (pos0, pos1, within, _) = v.busy i e in
        record {
          valid = record {
            first = put_bucket-IsTable d.ht0 j [] _ v.first inside (omega arith) tt;
            second = m.valid;
            idle = λ h. cc;
            busy = λ k h. (
              pos0,
              omega (arith, m.same_size),
              ground (arith, v.first.width),
              moved_below k (ground arith) below,
            );
            once = advanced-once;
          };
          reads = advanced-view;
          same_size = omega (arith, m.used);
          same_iterators = refl;
          stays = λ h. h;
        }

  -- A round with keys left does not run off the table, and moves on by one bucket or more.
  move_bucket-Keeps :
      (d : Dict K V) (i : ℕ)
      → IsDict d
      → d.rehashidx ≡ some i
      → d.ht0.used ≢ 0
      → (j : ℕ) × (d' : Dict K V) × (move_bucket i d ≡ some (j, d'))
        × Keeps d d'
        × (d'.rehashidx ≡ some j)
        × (i < j)
        × (d'.ht0.size ≡ d.ht0.size)
  unfolding move_bucket
  move_bucket-Keeps d i v e more =
      let (pos0, pos1, within, below) = v.busy i e in
      let (j, n, at, run, inside, filled, below') =
        skip_empty-drop d.ht0.table i i (omega (arith, v.first.counted)) below in
      let (t, moved, m) =
        move_chain-Moved (get_or d.ht0.table j []) d.ht0.used d.ht1 v.second pos1 in
      let inner : ltb i d.ht0.size ≡ true = ground (arith, v.first.width) in
      (
        j + 1,
        advanced d j t,
        rw (inner, run) (rw (← at) (rw moved refl)),
        advanced-Keeps d v j t inside m i e below',
        refl,
        omega arith,
        refl,
      )

  -- With no key left the second table takes the place of the first.
  finish-Keeps :
      (d : Dict K V) (i : ℕ)
      → IsDict d
      → d.rehashidx ≡ some i
      → d.ht0.used ≡ 0
      → Keeps d (record d { ht0 = d.ht1; ht1 = empty_table; rehashidx = none })
  unfolding view Chains.find Chains.count or_else
  finish-Keeps d i v e none_left = record {
    valid = record {
      first = v.second;
      second = empty_table-IsTable;
      idle = λ h. refl;
      busy = λ k h. cc;
      once = λ q. omega (arith, v.once q);
    };
    reads = λ q. rw (nothing q) (or_else-none (Chains.find q (bucket q d.ht1)));
    same_size = omega arith;
    same_iterators = refl;
    stays = λ h. (v.busy i e).1;
  }
    where
      nothing : (q : K) → bucket q d.ht0 ≡ []
      nothing q =
          length-eq-zero _
            (omega (arith, v.first.counted, length-le-total d.ht0.table (slot d.ht0.sizemask q)))

  rehash_loop-Keeps :
      (n i : ℕ) (d : Dict K V)
      → IsDict d
      → d.rehashidx ≡ some i
      → (d' : Dict K V) × (more : Bool) × (rehash_loop n i d ≡ some (d', more))
        × Keeps d d'
        × (more ≡ is_rehashing d')
        × (d.ht0.size < n + i → more ≡ false)
  unfolding rehash_loop
  rehash_loop-Keeps zero i d v e =
      let within = (v.busy i e).2 in
      (d, true, refl, Keeps-refl d v, rw e refl, λ h. absurd (omega arith))
  rehash_loop-Keeps (suc n) i d v e = elim (Bool-cases (d.ht0.used == 0)) [
    | inl done ↦ (
      record d { ht0 = d.ht1; ht1 = empty_table; rehashidx = none },
      false,
      rw (done, rehash_loop) refl,
      finish-Keeps d i v e (ground arith),
      refl,
      λ h. refl,
    )
    | inr left ↦
        let (j, d₁, run₁, k₁, e₁, further, size) = move_bucket-Keeps d i v e (ground arith) in
        let (d₂, more, run₂, k₂, answer, ends) = rehash_loop-Keeps n j d₁ k₁.valid e₁ in
        (
          d₂,
          more,
          rw (left, rehash_loop, run₁) run₂,
          Keeps-trans d d₁ d₂ k₁ k₂,
          answer,
          λ h. ends (omega arith),
        )
  ]

  -- For any number of rounds dictRehash on a dictionary in order never runs off a table, keeps the
  -- invariant, every reading and the number of entries, and answers whether the rehash is still
  -- on; more rounds than the first table has buckets end the rehash.
  pub rehash-Keeps :
      (n : ℕ) (d : Dict K V)
      → IsDict d
      → (d' : Dict K V) × (more : Bool) × (rehash n d ≡ some (d', more))
        × Keeps d d'
        × (more ≡ is_rehashing d')
        × (d.ht0.size < n → more ≡ false)
  unfolding rehash rehash_from
  rehash-Keeps n d v = elim (Option-cases d.rehashidx) [
    | inl e ↦
        (d, false, ap (λ o. rehash_from n o d) e, Keeps-refl d v, ground (arith, e), λ h. refl)
    | inr (i, e) ↦
        let (d', more, run, k, answer, ends) = rehash_loop-Keeps n i d v e in
        (d', more, ap (λ o. rehash_from n o d) e ∙ run, k, answer, λ h. ends (omega arith))
  ]

  -- `_dictRehashStep` on a dictionary in order keeps the invariant and every reading, and does
  -- nothing while a safe iterator is registered.
  pub rehash_step-Keeps :
      (d : Dict K V)
      → IsDict d
      → (d' : Dict K V) × (rehash_step d ≡ some d') × Keeps d d' × (0 < d.iterators → d' ≡ d)
  unfolding rehash_step
  rehash_step-Keeps d v = elim (Bool-cases (is_rehashing d && d.iterators == 0)) [
    | inl free ↦
        let (d', more, run, k, _, _) = rehash-Keeps 1 d v in
        (d', rw (free, run) refl, k, λ h. absurd (ground arith))
    | inr held ↦ (d, rw held refl, Keeps-refl d v, λ h. refl)
  ]
