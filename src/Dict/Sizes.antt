-- ===== src/Dict/Sizes.antt =====
-- The sizes of tables in struct/dict.c: `_dictNextPower`, `dictExpand`, `dictResize` and
-- `_dictExpandIfNeeded`.
use Prim.Native.Nat.{max}
use native.Mathlib.Nat.{pow-suc}
use learnredis.Base.{
  ◌==◌, [], replicate, ℕ, zero, suc, ◌*◌, ◌/◌, ◌^◌, ◌≤◌, ◌<◌, ◌≡◌, refl, ap, ◌∙◌, Bool, false, not,
  ◌&&◌, ◌||◌, ◌⊎◌, inl, inr, none, some, arith, ltb, leb, if◌then◌else◌, Bool-cases,
}
use learnredis.Dict.Chains
use learnredis.Dict.Chains.{DictType, Entry, Chain}
use learnredis.Dict.{
  Status, Table, Dict, dict_ok, dict_err, long_max, next_power_loop, next_power, new_table,
  is_rehashing, dict_force_resize_ratio, expand, resize, expand_if_needed,
}
use learnredis.Dict.Invariant.{
  bucket-new_table, IsDict, Keeps, Keeps-refl, bucket_out, busy_pos, view, total, used_out,
  new_table-IsTable,
}

-- The least power of two from `i` on that is no less than `size`.
record IsPower (size i r : ℕ) : Type 0 where
  pub above : size ≤ r
  pub exponent : (k : ℕ) × (r ≡ 2 ^ k)
  pub least : (r ≡ i) ⊎ (r < 2 * size)

next_power_loop-IsPower :
    (fuel size i k : ℕ)
    → i ≡ 2 ^ k
    → 0 < i
    → size ≤ i * 2 ^ fuel
    → IsPower size i (next_power_loop fuel size i)
unfolding next_power_loop
next_power_loop-IsPower zero size i k e p h = record {
  above = omega arith;
  exponent = (k, e);
  least = inl refl;
}
next_power_loop-IsPower (suc fuel) size i k e p h = elim (Bool-cases (leb size i)) [
  | inl enough ↦
      rw (enough, next_power_loop)
        (record { above = ground arith; exponent = (k, e); least = inl refl })
  | inr more ↦
      let r =
        next_power_loop-IsPower fuel size (i * 2) (suc k) (omega arith) (omega arith)
          (omega (arith, ap (λ (t : ℕ). i * t) (pow-suc 2 fuel))) in
      rw (more, next_power_loop)
        (record { above = r.above; exponent = r.exponent; least = ground (arith, r.least) })
]

-- For a size below LONG_MAX _dictNextPower returns a power of two that is no less than the size,
-- and it is 4 or less than twice the size.
pub next_power_lem :
    (size : ℕ)
    → size < long_max
    → (size ≤ next_power size)
      × ((k : ℕ) × (next_power size ≡ 2 ^ k))
      × ((next_power size ≡ 4) ⊎ (next_power size < 2 * size))
unfolding next_power
next_power_lem size h =
    let r = next_power_loop-IsPower 64 size 4 2 refl (omega arith) (omega arith) in
    let small : leb long_max size ≡ false = ground arith in rw small (r.above, r.exponent, r.least)

pub next_power_pos : (size : ℕ) → 0 < next_power size
unfolding next_power
next_power_pos size = elim (Bool-cases (leb long_max size)) [
  | inl big ↦ rw big (omega arith)
  | inr small ↦
      let r = next_power_loop-IsPower 64 size 4 2 refl (omega arith) (ground arith) in
      let (k, e) = r.exponent in rw small (omega (arith, r.least, r.above))
]

module _ {ℓ} {K V : Type ℓ} ⦃dt : DictType K⦄ where
  -- A fresh second table starts a rehash, which changes nothing that is read.
  start-Keeps :
      (d : Dict K V) (n : ℕ)
      → IsDict d
      → 0 < n
      → 0 < d.ht0.size
      → d.rehashidx ≡ none
      → Keeps d (record d { ht1 = new_table n; rehashidx = some 0 })
  unfolding view Chains.count
  start-Keeps d n v p q e = record {
    valid = record {
      first = v.first;
      second = new_table-IsTable n;
      idle = λ h. cc;
      busy = λ i h. (q, p, ground arith, λ j l. absurd (ground arith));
      once = λ k. rw (bucket-new_table n k) (omega (arith, v.once k));
    };
    reads = λ k. rw (bucket-new_table n k, v.idle e) refl;
    same_size = rw (v.idle e) refl;
    same_iterators = refl;
    stays = λ h. h;
  }

  -- So does a first table.
  first-Keeps :
      (d : Dict K V) (n : ℕ)
      → IsDict d
      → d.ht0.size ≡ 0
      → d.rehashidx ≡ none
      → Keeps d (record d { ht0 = new_table n })
  unfolding view Chains.count total
  first-Keeps d n v z e = record {
    valid = record {
      first = new_table-IsTable n;
      second = v.second;
      idle = v.idle;
      busy = λ i h. cc;
      once = λ k. rw (bucket-new_table n k) (omega (arith, v.once k));
    };
    reads = λ k. rw (bucket-new_table n k, bucket_out d.ht0 k v.first z) refl;
    same_size = omega (arith, used_out d.ht0 v.first z);
    same_iterators = refl;
    stays = λ h. absurd (omega arith);
  }

  -- DICT_ERR comes exactly from a rehash or a size below the number of used entries.
  pub expand-Keeps :
      (d : Dict K V) (size : ℕ)
      → IsDict d
      → Keeps d (expand size d).0
        × ((expand size d).1
            ≡ (if is_rehashing d || ltb size d.ht0.used then dict_err else dict_ok))
  unfolding expand
  expand-Keeps d size v = elim (Bool-cases (is_rehashing d || ltb size d.ht0.used)) [
    | inl refused ↦ rw refused (Keeps-refl d v, refl)
    | inr allowed ↦
        let e : d.rehashidx ≡ none = ground arith in
        elim (Bool-cases (d.ht0.size == 0)) [
          | inl fresh ↦
              rw (allowed, fresh) (first-Keeps d (next_power size) v (ground arith) e, refl)
          | inr there ↦
              rw (allowed, there)
                (start-Keeps d (next_power size) v (next_power_pos size) (ground arith) e, refl)
        ]
  ]

  -- The new table of `dictExpand`: its size is the least power of two that is enough, or 4.
  pub record IsSized (size : ℕ) (t : Table K V) : Type ℓ where
    pub enough : size ≤ t.size
    pub exponent : (k : ℕ) × (t.size ≡ 2 ^ k)
    pub least : (t.size ≡ 4) ⊎ (t.size < 2 * size)
    pub vacant : (t.used ≡ 0) × (t.table ≡ replicate t.size [])

  new_table-IsSized : (size : ℕ) → size < long_max → IsSized size (new_table (next_power size))
  new_table-IsSized size h =
      let (a, e, l) = next_power_lem size h in
      record { enough = a; exponent = e; least = l; vacant = (refl, refl) }

  -- Where the new table goes, or that nothing changes
  unfoldable pub IsExpanded : ℕ → Status → Dict K V → Dict K V → Type ℓ
  IsExpanded size dict_err d d' = d' ≡ d
  IsExpanded size dict_ok d d' =
      (t : Table K V) × IsSized size t
      × (d' ≡ (
          if d.ht0.size == 0
          then record d { ht0 = t }
          else record d { ht1 = t; rehashidx = some 0 }))

  -- For a size of 2^60 at most `dictExpand` on a dictionary in order returns DICT_ERR exactly
  -- during a rehash or for a size below the number of used entries, and changes nothing then;
  -- otherwise it makes a table of empty buckets, whose number is a power of two, no less than the
  -- size, and 4 or less than twice the size, which becomes the first table if that has no buckets,
  -- and else the second, with a rehash begun; on every branch the invariant, every reading and the
  -- number of entries are kept.
  pub expand-IsExpanded :
      (d : Dict K V) (size : ℕ)
      → IsDict d
      → size ≤ 2 ^ 60
      → Keeps d (expand size d).0
        × ((expand size d).1
            ≡ (if is_rehashing d || ltb size d.ht0.used then dict_err else dict_ok))
        × IsExpanded size (expand size d).1 d (expand size d).0
  unfolding expand IsExpanded
  expand-IsExpanded d size v fits =
      let (kept, status) = expand-Keeps d size v in
      (
        kept,
        status,
        elim (Bool-cases (is_rehashing d || ltb size d.ht0.used)) [
          | inl refused ↦ rw refused refl
          | inr allowed ↦
              let t = new_table-IsSized size (omega (arith, fits)) in
              elim (Bool-cases (d.ht0.size == 0)) [
                | inl fresh ↦ rw (allowed, fresh) (new_table (next_power size), t, (rw fresh refl))
                | inr there ↦ rw (allowed, there) (new_table (next_power size), t, (rw there refl))
              ]
        ],
      )

  expand_pos :
      (d : Dict K V) (size : ℕ) → (expand size d).1 ≡ dict_ok → 0 < (expand size d).0.ht0.size
  unfolding expand
  expand_pos d size h = ground (arith, next_power_pos size)

  -- `dictResize` on a dictionary in order returns DICT_ERR exactly when resizing is disabled or a
  -- rehash goes on, and keeps the invariant and every reading on every branch.
  pub resize-Keeps :
      (can_resize : Bool) (d : Dict K V)
      → IsDict d
      → Keeps d (resize can_resize d).0
        × ((resize can_resize d).1
            ≡ (if not can_resize || is_rehashing d then dict_err else dict_ok))
  unfolding resize
  resize-Keeps can_resize d v = elim (Bool-cases (not can_resize || is_rehashing d)) [
    | inl refused ↦ rw refused (Keeps-refl d v, refl)
    | inr allowed ↦
        let (k, e) = expand-Keeps d (max d.ht0.used 4) v in rw allowed (k, e ∙ ground arith)
  ]

  -- `_dictExpandIfNeeded` never fails, and leaves a first table.
  pub expand_if_needed-Keeps :
      (can_resize : Bool) (d : Dict K V)
      → IsDict d
      → Keeps d (expand_if_needed can_resize d).0
        × ((expand_if_needed can_resize d).1 ≡ dict_ok)
        × (0 < (expand_if_needed can_resize d).0.ht0.size)
  unfolding expand_if_needed
  expand_if_needed-Keeps can_resize d v = elim (Bool-cases (is_rehashing d)) [
    | inl rehashing ↦ rw rehashing (Keeps-refl d v, refl, busy_pos d v rehashing)
    | inr idle ↦ elim (Bool-cases (d.ht0.size == 0)) [
      | inl fresh ↦
          let none_used : d.ht0.used ≡ 0 = used_out d.ht0 v.first (ground arith) in
          let (k, e) = expand-Keeps d 4 v in
          let ok : (expand 4 d).1 ≡ dict_ok = e ∙ ground (arith, none_used) in
          rw (idle, fresh) (k, ok, expand_pos d 4 ok)
      | inr there ↦
          elim (Bool-cases (
            leb d.ht0.size d.ht0.used
            && (can_resize || ltb dict_force_resize_ratio (d.ht0.used / d.ht0.size)))) [
              | inl full ↦
                  let (k, e) = expand-Keeps d (d.ht0.used * 2) v in
                  let ok : (expand (d.ht0.used * 2) d).1 ≡ dict_ok = e ∙ ground arith in
                  rw (idle, there, full) (k, ok, expand_pos d (d.ht0.used * 2) ok)
              | inr room ↦ rw (idle, there, room) (Keeps-refl d v, refl, ground arith)
            ]
    ]
  ]
