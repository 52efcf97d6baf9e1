-- ===== src/Dict/Moves.antt =====
-- Entries put at the head of a bucket in struct/dict.c: the inner loop of `dictRehash`, and the
-- writes of `dictAddRaw`.
use mathlib.Core.Option.{or_else}
use learnredis.Base.{
  ℕ, ◌+◌, ◌-◌, ◌≤◌, ◌<◌, ◌≡◌, refl, ap, false, inl, inr, some, [], ◌∷◌, arith, length, ◌==◌,
  if◌then◌else◌, Bool-cases, get_elem?-eq-get_or,
}
use learnredis.Dict.Chains
use learnredis.Dict.Chains.{DictType, Entry, Chain, ◌≈◌}
use learnredis.Dict.{Table, slot, insert_at, move_chain}
use learnredis.Dict.Invariant.{
  bucket, put_bucket, put_bucket-IsTable, bucket-put_bucket, IsTable, slot-lt, slot_congr,
}

module _ {ℓ} {K V : Type ℓ} ⦃dt : DictType K⦄ where
  -- The table after `insert_at`.
  abbrev pub inserted : Entry K V → Table K V → Table K V
  inserted e t = put_bucket t (slot t.sizemask e.key) (e ∷ bucket e.key t) (t.used + 1)

  module _ (e : Entry K V) (t : Table K V) (v : IsTable t) (p : 0 < t.size) where
    pub insert_at_lem : insert_at (slot t.sizemask e.key) e t ≡ some (inserted e t)
    unfolding insert_at
    insert_at_lem = rw (get_elem?-eq-get_or t.table _ [] (slot-lt t e.key v p)) refl

    pub inserted-IsTable : IsTable (inserted e t)
    inserted-IsTable =
        put_bucket-IsTable t (slot t.sizemask e.key) (e ∷ bucket e.key t) (t.used + 1) v
          (slot-lt t e.key v p) (omega arith) (refl, v.placed (slot t.sizemask e.key))

    -- Only keys equal to the new one see a change.
    bucket-inserted :
        (q : K)
        → bucket q (inserted e t)
          ≡ (if slot t.sizemask q == slot t.sizemask e.key then e ∷ bucket e.key t else bucket q t)
    bucket-inserted q =
        bucket-put_bucket t _ (e ∷ bucket e.key t) (t.used + 1) q (slot-lt t e.key v p)

    pub find-inserted :
        (q : K)
        → Chains.find q (bucket q (inserted e t))
          ≡ (if q ≈ e.key then some e.val else Chains.find q (bucket q t))
    unfolding Chains.find
    find-inserted q = elim (Bool-cases (slot t.sizemask q == slot t.sizemask e.key)) [
      | inl same ↦
          let i : slot t.sizemask q ≡ slot t.sizemask e.key = ground arith in
          rw (bucket-inserted q, same) (rw i refl)
      | inr differ ↦
          let apart : (q ≈ e.key) ≡ false = ground (arith, slot_congr t.sizemask q e.key) in
          rw (bucket-inserted q, differ, apart) refl
    ]

    pub count-inserted :
        (q : K)
        → Chains.count q (bucket q (inserted e t))
          ≡ (if q ≈ e.key then 1 else 0) + Chains.count q (bucket q t)
    unfolding Chains.count
    count-inserted q = elim (Bool-cases (slot t.sizemask q == slot t.sizemask e.key)) [
      | inl same ↦
          let i : slot t.sizemask q ≡ slot t.sizemask e.key = ground arith in
          rw (bucket-inserted q, same) (rw i refl)
      | inr differ ↦
          let apart : (q ≈ e.key) ≡ false = ground (arith, slot_congr t.sizemask q e.key) in
          rw (bucket-inserted q, differ, apart) (omega arith)
    ]

  -- `t'` is `t` with the entries of `c` moved in.
  pub record Moved (c : Chain K V) (t t' : Table K V) : Type ℓ where
    pub valid : IsTable t'
    pub same_size : t'.size ≡ t.size
    pub used : t'.used ≡ t.used + length c
    pub counts :
        (q : K) → Chains.count q (bucket q t') ≡ Chains.count q c + Chains.count q (bucket q t)
    pub reads :
        (q : K)
        → Chains.count q c + Chains.count q (bucket q t) ≤ 1
        → Chains.find q (bucket q t') ≡ or_else (Chains.find q c) (Chains.find q (bucket q t))

  moved_reads :
      (e : Entry K V) (c : Chain K V) (t : Table K V) (v : IsTable t) (p : 0 < t.size)
      (t' : Table K V)
      → ((q : K)
          → Chains.count q c + Chains.count q (bucket q (inserted e t)) ≤ 1
          → Chains.find q (bucket q t')
            ≡ or_else (Chains.find q c) (Chains.find q (bucket q (inserted e t))))
      → (q : K) → Chains.count q (e ∷ c) + Chains.count q (bucket q t) ≤ 1
      → Chains.find q (bucket q t') ≡ or_else (Chains.find q (e ∷ c)) (Chains.find q (bucket q t))
  unfolding Chains.find Chains.count or_else
  moved_reads e c t v p t' later q h =
      let step = later q (rw (count-inserted e t v p q) (omega arith)) in
      elim (Bool-cases (q ≈ e.key)) [
        | inl same ↦
            rw (step, find-inserted e t v p q, same, Chains.find-eq-none q c (ground arith)) refl
        | inr differ ↦ rw (step, find-inserted e t v p q, differ) refl
      ]

  pub move_chain-Moved :
      (c : Chain K V) (used : ℕ) (t : Table K V)
      → IsTable t
      → 0 < t.size
      → (t' : Table K V) × (move_chain c used t ≡ some (used - length c, t')) × Moved c t t'
  unfolding move_chain Chains.count
  move_chain-Moved [] used t v p = (
    t,
    ground arith,
    record {
      valid = v;
      same_size = refl;
      used = omega arith;
      counts = λ q. omega arith;
      reads = λ q h. unfold Chains.find or_else in refl;
    },
  )
  move_chain-Moved (e ∷ c) used t v p =
      let (t', run, m) =
        move_chain-Moved c (used - 1) (inserted e t) (inserted-IsTable e t v p) p in
      (
        t',
        rw (insert_at_lem e t v p, run) (ap (λ n. some (n, t')) (omega arith)),
        record {
          valid = m.valid;
          same_size = m.same_size;
          used = omega (arith, m.used);
          counts = λ q. omega (arith, m.counts q, count-inserted e t v p q);
          reads = moved_reads e c t v p t' m.reads;
        },
      )
