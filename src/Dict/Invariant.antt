-- ===== src/Dict/Invariant.antt =====
-- What the tables of struct/dict.c satisfy between calls, and what they mean.
use mathlib.Core.Option.{or_else}
use learnredis.Base.{
  ℕ, zero, suc, ◌+◌, ◌-◌, ◌≤◌, ◌<◌, ◌≡◌, ◌≢◌, refl, ◌∙◌, true, Option, none, some, List, [], ◌∷◌,
  arith, length, get_or, set, All, ◌==◌, if◌then◌else◌, Bool-cases, Option-cases, inl, inr,
  length-set, get_or-set_self, get_or-set_ne, get_or-replicate, length-replicate, replicate,
  get_or_out,
}
use native.Mathlib.Decide.{ℕ_discrete}
use learnredis.Base.Bits.{bit_and-le}
use learnredis.Dict.Chains
use learnredis.Dict.Chains.{DictType, Entry, Chain, ◌≈◌}
use learnredis.Dict.{Table, Dict, slot, new_table, empty_table, is_rehashing, dict_size}

module _ {ℓ} {A : Type ℓ} where
  -- The number of items in all the buckets.
  unfoldable pub total : List (List A) → ℕ
  total [] = 0
  total (c ∷ cs) = length c + total cs

  pub total-set :
      (bs : List (List A)) (i : ℕ) (c : List A)
      → i < length bs
      → total (set bs i c) + length (get_or bs i []) ≡ total bs + length c
  unfolding total
  total-set [] i c h = absurd (omega arith)
  total-set (b ∷ bs) zero c h = omega arith
  total-set (b ∷ bs) (suc i) c h = omega (arith, total-set bs i c (omega arith))

  pub total_out : (bs : List (List A)) → length bs ≡ 0 → total bs ≡ 0
  unfolding total
  total_out [] h = refl
  total_out (b ∷ bs) h = absurd (omega arith)

  pub length-le-total : (bs : List (List A)) (i : ℕ) → length (get_or bs i []) ≤ total bs
  unfolding total
  length-le-total [] i = omega arith
  length-le-total (b ∷ bs) zero = omega arith
  length-le-total (b ∷ bs) (suc i) = omega (arith, length-le-total bs i)

pub total-replicate {ℓ} : (A : Type ℓ) (n : ℕ) → total (replicate {A = List A} n []) ≡ 0
unfolding total replicate
total-replicate A zero = refl
total-replicate A (suc n) = omega (arith, total-replicate A n)

module _ {ℓ} {K : Type ℓ} ⦃dt : DictType K⦄ where
  pub slot_congr : (mask : ℕ) (a b : K) → (a ≈ b) ≡ true → slot mask a ≡ slot mask b
  unfolding slot
  slot_congr mask a b h = simp (dt.hash-compare a b h)

module _ {ℓ} {K V : Type ℓ} ⦃dt : DictType K⦄ where
  abbrev pub bucket : K → Table K V → Chain K V
  bucket q t = get_or t.table (slot t.sizemask q) []

  abbrev pub Placed : ℕ → ℕ → Chain K V → Type 0
  Placed mask i c = All (λ e. slot mask e.key ≡ i) c

  pub record IsTable (t : Table K V) : Type ℓ where
    pub width : length t.table ≡ t.size
    pub mask : t.sizemask ≡ t.size - 1
    pub counted : t.used ≡ total t.table
    pub placed : (i : ℕ) → Placed t.sizemask i (get_or t.table i [])

  pub slot-lt :
      (t : Table K V) (q : K) → IsTable t → 0 < t.size → slot t.sizemask q < length t.table
  unfolding slot
  slot-lt t q v h = omega (arith, v.mask, v.width, bit_and-le (dt.hash_function q) t.sizemask)

  pub new_table-IsTable : (n : ℕ) → IsTable (new_table {K = K} {V = V} n)
  new_table-IsTable n = record {
    width = length-replicate n [];
    mask = refl;
    counted = omega (arith, total-replicate (Entry K V) n);
    placed = λ i. rw (get_or-replicate {A = Chain K V} n i []) tt;
  }

  -- A chain holds no key of another slot.
  pub Placed-count :
      (mask i : ℕ) (q : K) (c : Chain K V)
      → Placed mask i c
      → slot mask q ≢ i
      → Chains.count q c ≡ 0
  unfolding Chains.count
  Placed-count mask i q [] h n = refl
  Placed-count mask i q (e ∷ c) h n =
      ground (arith, slot_congr mask q e.key, Placed-count mask i q c h.1 n)

  pub empty_table-IsTable : IsTable (empty_table {K = K} {V = V})
  unfolding total
  empty_table-IsTable = record { width = refl; mask = refl; counted = refl; placed = λ i. tt }

  -- A write of one bucket, with the count that goes with it.
  abbrev pub put_bucket : Table K V → ℕ → Chain K V → ℕ → Table K V
  put_bucket t i c used = record t { table = set t.table i c; used = used }

  pub put_bucket-IsTable :
      (t : Table K V) (i : ℕ) (c : Chain K V) (used : ℕ)
      → IsTable t
      → i < length t.table
      → used + length (get_or t.table i []) ≡ t.used + length c
      → Placed t.sizemask i c
      → IsTable (put_bucket t i c used)
  put_bucket-IsTable t i c used v h e p = record {
    width = omega (arith, length-set t.table i c, v.width);
    mask = v.mask;
    counted = omega (arith, total-set t.table i c h, v.counted);
    placed = λ j. elim (ℕ_discrete i j) [
      | yes same ↦ rw (← same) (rw (get_or-set_self t.table i c [] h) p)
      | no differ ↦ rw (get_or-set_ne t.table i j c [] differ) (v.placed j)
    ];
  }

  pub bucket-put_bucket :
      (t : Table K V) (i : ℕ) (c : Chain K V) (used : ℕ) (q : K)
      → i < length t.table
      → bucket q (put_bucket t i c used) ≡ (if slot t.sizemask q == i then c else bucket q t)
  bucket-put_bucket t i c used q h = elim (Bool-cases (slot t.sizemask q == i)) [
    | inl same ↦
        let e : slot t.sizemask q ≡ i = ground arith in
        rw (same, e) (get_or-set_self t.table i c [] h)
    | inr differ ↦ rw differ (get_or-set_ne t.table i (slot t.sizemask q) c [] (ground arith))
  ]

  pub bucket-new_table : (n : ℕ) (q : K) → bucket q (new_table {V = V} n) ≡ []
  bucket-new_table n q = get_or-replicate {A = Chain K V} n _ []

  pub used_out : (t : Table K V) → IsTable t → t.size ≡ 0 → t.used ≡ 0
  used_out t v h = omega (arith, v.counted, v.width, total_out t.table)

  pub bucket_out : (t : Table K V) (q : K) → IsTable t → t.size ≡ 0 → bucket q t ≡ []
  bucket_out t q v h = get_or_out t.table (slot t.sizemask q) [] (omega (arith, v.width))

  -- What `dictFind` reads: the first table, then the second.
  unfoldable pub view : Dict K V → K → Option V
  view d q = or_else (Chains.find q (bucket q d.ht0)) (Chains.find q (bucket q d.ht1))

  pub record IsDict (d : Dict K V) : Type ℓ where
    pub first : IsTable d.ht0
    pub second : IsTable d.ht1
    -- Outside a rehash the second table is not there.
    pub idle : d.rehashidx ≡ none → d.ht1 ≡ empty_table
    -- During one both are, and the buckets below `rehashidx` have been moved.
    pub busy :
        (i : ℕ)
        → d.rehashidx ≡ some i
        → (0 < d.ht0.size)
          × (0 < d.ht1.size)
          × (i ≤ d.ht0.size)
          × ((j : ℕ) → j < i → get_or d.ht0.table j [] ≡ [])
    -- A key stands in one entry at most.
    pub once : (q : K) → Chains.count q (bucket q d.ht0) + Chains.count q (bucket q d.ht1) ≤ 1

  -- `d'` is in order, and reads as `d` does.
  pub record Keeps (d d' : Dict K V) : Type ℓ where
    pub valid : IsDict d'
    pub reads : (q : K) → view d' q ≡ view d q
    pub same_size : dict_size d' ≡ dict_size d
    pub same_iterators : d'.iterators ≡ d.iterators
    pub stays : 0 < d.ht0.size → 0 < d'.ht0.size

  pub Keeps-refl : (d : Dict K V) → IsDict d → Keeps d d
  Keeps-refl d v = record {
    valid = v;
    reads = λ q. refl;
    same_size = refl;
    same_iterators = refl;
    stays = λ h. h;
  }

  pub Keeps-trans : (d e f : Dict K V) → Keeps d e → Keeps e f → Keeps d f
  Keeps-trans d e f a b = record {
    valid = b.valid;
    reads = λ q. b.reads q ∙ a.reads q;
    same_size = b.same_size ∙ a.same_size;
    same_iterators = b.same_iterators ∙ a.same_iterators;
    stays = λ h. b.stays (a.stays h);
  }

  pub view_congr : (d : Dict K V) (a b : K) → (a ≈ b) ≡ true → view d a ≡ view d b
  unfolding view
  view_congr d a b h =
      rw
        (
          slot_congr d.ht0.sizemask a b h,
          slot_congr d.ht1.sizemask a b h,
          Chains.find_congr a b (bucket b d.ht0) h,
          Chains.find_congr a b (bucket b d.ht1) h,
        )
        refl

  -- With no first table there is nothing at all.
  pub view_out : (d : Dict K V) (q : K) → IsDict d → d.ht0.size ≡ 0 → view d q ≡ none
  unfolding view or_else Chains.find
  view_out d q v z = elim (Option-cases d.rehashidx) [
    | inl e ↦ rw (bucket_out d.ht0 q v.first z, v.idle e) refl
    | inr (i, e) ↦ let (p, _, _, _) = v.busy i e in absurd (omega arith)
  ]

  pub busy_pos : (d : Dict K V) → IsDict d → is_rehashing d ≡ true → 0 < d.ht0.size
  busy_pos d v h = elim (Option-cases d.rehashidx) [
    | inl e ↦ ground arith
    | inr (i, e) ↦ (v.busy i e).0
  ]

  pub busy_pos₁ : (d : Dict K V) → IsDict d → is_rehashing d ≡ true → 0 < d.ht1.size
  busy_pos₁ d v h = elim (Option-cases d.rehashidx) [
    | inl e ↦ ground arith
    | inr (i, e) ↦ (v.busy i e).1
  ]

  pub view_there : (d : Dict K V) (q : K) (w : V) → IsDict d → view d q ≡ some w → 0 < d.ht0.size
  view_there d q w v h = elim (Bool-cases (d.ht0.size == 0)) [
    | inl z ↦ cc (view_out d q v (ground arith))
    | inr there ↦ ground arith
  ]
