-- ===== src/Dict.antt =====
-- struct/dict.c and struct/dict.h: a hash table with chaining that is rehashed a bucket at a time.
-- A function that changes the dictionary returns the new one. `none` is a read outside a table,
-- which C leaves undefined, or a failed `assert`; the null table pointer is the empty list.
-- The counts are below 2^64, since they count entries in memory, and do not wrap. An index of a
-- bucket is a natural number and `none` where `_dictKeyIndex` returns -1: that is what its `int` holds
-- as long as tables have fewer than 2^31 buckets. So is `minimal` of `dictResize`. A table of 2^61
-- buckets or more, for which the size in bytes wraps, is not modelled.
pub mod Chains
pub mod Invariant
pub mod Sizes
pub mod Moves
pub mod Rehash
pub mod Lookup
pub mod Edit
pub mod Update
pub mod Clear
mod Runs
use Prim.Native.Nat.{max}
use mathlib.Core.Option
use learnredis.Base.{
  ℕ, zero, suc, ◌+◌, ◌-◌, ◌*◌, ◌/◌, ◌^◌, bit_and, ◌≡◌, Bool, true, false, not, ◌&&◌, ◌||◌, Option,
  none, some, List, [], ◌∷◌, ◌++◌, length, get_elem?, set, drop, replicate, ltb, leb, ◌==◌,
  if◌then◌else◌, is_some, ◌>>=◌,
}
use Chains.{DictType, Entry, Chain}

-- `dictht`
pub record Table {ℓ} (K V : Type ℓ) : Type ℓ where
  pub table : List (Chain K V)
  pub size : ℕ
  pub sizemask : ℕ
  pub used : ℕ

-- `dict`; a `rehashidx` of -1 is `none`.
pub record Dict {ℓ} (K V : Type ℓ) : Type ℓ where
  pub ht0 : Table K V
  pub ht1 : Table K V
  pub rehashidx : Option ℕ
  pub iterators : ℕ

-- `DICT_OK` and `DICT_ERR`
pub data Status : Type 0 where
  dict_ok dict_err : Status

abbrev pub dict_ht_initial_size : ℕ
dict_ht_initial_size = 4

abbrev pub dict_force_resize_ratio : ℕ
dict_force_resize_ratio = 5

abbrev pub long_max : ℕ
long_max = 2 ^ 63 - 1

pub next_power_loop : ℕ → ℕ → ℕ → ℕ
next_power_loop zero size i = i
next_power_loop (suc fuel) size i = elim (leb size i) [
  | true ↦ i
  | false ↦ next_power_loop fuel size (i * 2)
]

-- The loop doubles at most 61 times, since `size` is below 2^63.
unfoldable pub next_power : ℕ → ℕ
next_power size =
    if leb long_max size then long_max else next_power_loop 64 size dict_ht_initial_size

module _ {ℓ} {K V : Type ℓ} where
  abbrev pub empty_table : Table K V
  empty_table = record { table = []; size = 0; sizemask = 0; used = 0 }

  unfoldable pub create : Dict K V
  create = record { ht0 = empty_table; ht1 = empty_table; rehashidx = none; iterators = 0 }

  abbrev pub is_rehashing : Dict K V → Bool
  is_rehashing d = is_some d.rehashidx

  abbrev pub dict_size : Dict K V → ℕ
  dict_size d = d.ht0.used + d.ht1.used

  abbrev pub new_table : ℕ → Table K V
  new_table n = record { table = replicate n []; size = n; sizemask = n - 1; used = 0 }

  unfoldable pub expand : ℕ → Dict K V → Dict K V × Status
  expand size d =
      let n = new_table (next_power size) in
      if is_rehashing d || ltb size d.ht0.used
      then (d, dict_err)
      else if d.ht0.size == 0
      then (record d { ht0 = n }, dict_ok)
      else (record d { ht1 = n; rehashidx = some 0 }, dict_ok)

  -- `dict_can_resize` is a parameter.
  unfoldable pub resize : Bool → Dict K V → Dict K V × Status
  resize can_resize d =
      if not can_resize || is_rehashing d
      then (d, dict_err)
      else expand (max d.ht0.used dict_ht_initial_size) d

  pub expand_if_needed : Bool → Dict K V → Dict K V × Status
  expand_if_needed can_resize d =
      if is_rehashing d
      then (d, dict_ok)
      else if d.ht0.size == 0
      then expand dict_ht_initial_size d
      else if leb d.ht0.size d.ht0.used
          && (can_resize || ltb dict_force_resize_ratio (d.ht0.used / d.ht0.size))
      then expand (d.ht0.used * 2) d
      else (d, dict_ok)

  -- `while(d->ht[0].table[d->rehashidx] == NULL) d->rehashidx++;` over the table from `i` on.
  pub skip_empty : List (Chain K V) → ℕ → Option (ℕ × Chain K V)
  skip_empty [] i = none
  skip_empty ([] ∷ cs) i = skip_empty cs (i + 1)
  skip_empty ((e ∷ c) ∷ cs) i = some (i, e ∷ c)

  -- The loop of `_dictClear`, which stops early when `used` is 0; it returns what it frees.
  pub clear_loop : List (Chain K V) → ℕ → List (Entry K V) × ℕ
  clear_loop [] used = ([], used)
  clear_loop (c ∷ cs) used =
      let rest = clear_loop cs (used - length c) in
      if used == 0 then ([], used) else (c ++ rest.0, rest.1)

  unfoldable pub clear : Dict K V → Dict K V × List (Entry K V)
  clear d = (
    record { ht0 = empty_table; ht1 = empty_table; rehashidx = none; iterators = 0 },
    (clear_loop d.ht0.table d.ht0.used).0 ++ (clear_loop d.ht1.table d.ht1.used).0,
  )

module _ {ℓ} {K : Type ℓ} ⦃dt : DictType K⦄ where
  -- `dictHashKey(d, key) & ht->sizemask`
  unfoldable pub slot : ℕ → K → ℕ
  slot sizemask k = bit_and (dt.hash_function k) sizemask

module _ {ℓ} {K V : Type ℓ} ⦃dt : DictType K⦄ where
  -- `entry->next = ht->table[index]; ht->table[index] = entry; ht->used++;`
  pub insert_at : ℕ → Entry K V → Table K V → Option (Table K V)
  insert_at i e t = do
    c ← get_elem? t.table i
    some (record t { table = set t.table i (e ∷ c); used = t.used + 1 })

  -- The inner loop of `dictRehash`, with `ht[0].used` beside `ht[1]`.
  pub move_chain : Chain K V → ℕ → Table K V → Option (ℕ × Table K V)
  move_chain [] used t = some (used, t)
  move_chain (de ∷ c) used t = do
    t' ← insert_at (slot t.sizemask de.key) de t
    move_chain c (used - 1) t'

  -- One round of the outer loop with keys left, at `rehashidx`.
  pub move_bucket : ℕ → Dict K V → Option (ℕ × Dict K V)
  move_bucket i d =
      if ltb i d.ht0.size
      then (do
        (j, de) ← skip_empty (drop i d.ht0.table) i
        (used, t) ← move_chain de d.ht0.used d.ht1
        let old = record d.ht0 { table = set d.ht0.table j []; used = used }
        some (j + 1, record d { ht0 = old; ht1 = t; rehashidx = some (j + 1) }))
      else none

  pub rehash_loop : ℕ → ℕ → Dict K V → Option (Dict K V × Bool)
  rehash_loop zero i d = some (d, true)
  rehash_loop (suc n) i d = elim (d.ht0.used == 0) [
    | true ↦ some (record d { ht0 = d.ht1; ht1 = empty_table; rehashidx = none }, false)
    | false ↦ do (j, d') ← move_bucket i d; rehash_loop n j d'
  ]

  pub rehash_from : ℕ → Option ℕ → Dict K V → Option (Dict K V × Bool)
  rehash_from n none d = some (d, false)
  rehash_from n (some i) d = rehash_loop n i d

  -- `true` says that keys are left to move.
  unfoldable pub rehash : ℕ → Dict K V → Option (Dict K V × Bool)
  rehash n d = rehash_from n d.rehashidx d

  -- `if (dictIsRehashing(d)) _dictRehashStep(d);`
  pub rehash_step : Dict K V → Option (Dict K V)
  rehash_step d =
      if is_rehashing d && d.iterators == 0 then (do (d', _) ← rehash 1 d; some d') else some d

  -- The search of one table.
  pub search : K → Table K V → Option (Option V)
  search k t = do c ← get_elem? t.table (slot t.sizemask k); some (Chains.find k c)

  pub search_both : K → Dict K V → Option (Option V)
  search_both k d = do
    r ← search k d.ht0
    elim r [ some v ↦ some (some v) | none ↦ if is_rehashing d then search k d.ht1 else some none ]

  -- `dictFind`, which returns the entry's value.
  unfoldable pub find : K → Dict K V → Option (Dict K V × Option V)
  find k d =
      if d.ht0.size == 0
      then some (d, none)
      else do d' ← rehash_step d; r ← search_both k d'; some (d', r)

  -- The index of the free slot for a key, or `none` for the -1 of a key that is already there.
  pub free_index : K → Dict K V → Option (Option ℕ)
  free_index k d = do
    r ← search_both k d
    let mask = if is_rehashing d then d.ht1.sizemask else d.ht0.sizemask
    some (if is_some r then none else some (slot mask k))

  pub index_after : K → Dict K V × Status → Option (Dict K V × Option ℕ)
  index_after k (d, dict_err) = some (d, none)
  index_after k (d, dict_ok) = do i ← free_index k d; some (d, i)

  -- `_dictKeyIndex`
  pub key_index : Bool → K → Dict K V → Option (Dict K V × Option ℕ)
  key_index can_resize k d = index_after k (expand_if_needed can_resize d)

  pub link : ℕ → Entry K V → Dict K V → Option (Dict K V)
  link i e d =
      if is_rehashing d
      then (do t ← insert_at i e d.ht1; some (record d { ht1 = t }))
      else (do t ← insert_at i e d.ht0; some (record d { ht0 = t }))

  pub link_new : K → V → Dict K V × Option ℕ → Option (Dict K V × Status)
  link_new k v (d, none) = some (d, dict_err)
  link_new k v (d, some i) = do
    d' ← link i (record { key = dt.key_dup k; val = v }) d
    some (d', dict_ok)

  -- `dictAddRaw` and the `dictSetVal` with which `dictAdd` fills the entry.
  unfoldable pub add : Bool → K → V → Dict K V → Option (Dict K V × Status)
  add can_resize k v d = do
    d₁ ← rehash_step d
    indexed ← key_index can_resize k d₁
    link_new k v indexed

  -- The entry of `k` in one table changed by `f`, if it is there; `used` falls by `less`.
  pub edit : (Chain K V → Chain K V) → ℕ → K → Table K V → Option (Option (Table K V))
  edit f less k t =
      let i = slot t.sizemask k in
      do
        c ← get_elem? t.table i
        let t' = record t { table = set t.table i (f c); used = t.used - less }
        some (Option.map (λ _. t') (Chains.find k c))

  pub edit_second :
      (Chain K V → Chain K V) → ℕ → K → Dict K V → Option (Table K V) → Option (Option (Dict K V))
  edit_second f less k d (some t) = some (some (record d { ht0 = t }))
  edit_second f less k d none =
      if is_rehashing d
      then (do r ← edit f less k d.ht1; some (Option.map (λ t. record d { ht1 = t }) r))
      else some none

  -- The loop over the two tables in `dictFind` and `dictGenericDelete`, with a write where it ends.
  pub edit_both : (Chain K V → Chain K V) → ℕ → K → Dict K V → Option (Option (Dict K V))
  edit_both f less k d = do r ← edit f less k d.ht0; edit_second f less k d r

  abbrev deleted : Dict K V → Option (Dict K V) → Dict K V × Status
  deleted d none = (d, dict_err)
  deleted d (some d') = (d', dict_ok)

  unfoldable pub generic_delete : K → Dict K V → Option (Dict K V × Status)
  generic_delete k d =
      if d.ht0.size == 0
      then some (d, dict_err)
      else do d' ← rehash_step d; r ← edit_both (Chains.unlink k) 1 k d'; some (deleted d' r)

  pub overwrite : K → V → Dict K V × Status → Option (Dict K V × Bool)
  overwrite k v (d, dict_ok) = some (d, true)
  overwrite k v (d, dict_err) = do
    (d', _) ← find k d
    r ← edit_both (Chains.assign k v) 0 k d'
    d'' ← r
    some (d'', false)

  -- `true` for a key added from scratch. A null entry from `dictFind` would be dereferenced.
  unfoldable pub replace : Bool → K → V → Dict K V → Option (Dict K V × Bool)
  replace can_resize k v d = do added ← add can_resize k v d; overwrite k v added
