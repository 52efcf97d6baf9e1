-- ===== src/Dict/Lookup.antt =====
-- `dictFind`, `dictFetchValue` and `_dictKeyIndex` of struct/dict.c.
use mathlib.Core.Option.{or_else}
use learnredis.Base.{
  ℕ, ◌<◌, ◌≡◌, refl, ap, ◌∙◌, Bool, inl, inr, none, some, [], arith, ◌==◌, if◌then◌else◌, is_some,
  Bool-cases, Option-cases, get_elem?-eq-get_or,
}
use learnredis.Dict.Chains
use learnredis.Dict.Chains.{DictType, Entry, Chain}
use learnredis.Dict.{
  Table, Dict, slot, is_rehashing, expand_if_needed, search, search_both, find, key_index,
  index_after, free_index,
}
use learnredis.Dict.Invariant.{
  bucket, IsTable, IsDict, Keeps, Keeps-refl, slot-lt, view, view_out, busy_pos₁,
}
use learnredis.Dict.Sizes.{expand_if_needed-Keeps}
use learnredis.Dict.Rehash.{rehash_step-Keeps}

module _ {ℓ} {K V : Type ℓ} ⦃dt : DictType K⦄ where
  search_lem :
      (k : K) (t : Table K V)
      → IsTable t
      → 0 < t.size
      → search k t ≡ some (Chains.find k (bucket k t))
  unfolding search
  search_lem k t v p = rw (get_elem?-eq-get_or t.table _ [] (slot-lt t k v p)) refl

  search_both-view :
      (k : K) (d : Dict K V) → IsDict d → 0 < d.ht0.size → search_both k d ≡ some (view d k)
  unfolding search_both view or_else Chains.find
  search_both-view k d v p = elim (Option-cases (Chains.find k (bucket k d.ht0))) [
    | inr (w, e) ↦ rw (search_lem k d.ht0 v.first p, e) refl
    | inl e ↦ elim (Bool-cases (is_rehashing d)) [
      | inl on ↦
          rw (search_lem k d.ht0 v.first p, e, on) (search_lem k d.ht1 v.second (busy_pos₁ d v on))
      | inr off ↦ rw (search_lem k d.ht0 v.first p, e, off) (rw (v.idle (ground arith)) refl)
    ]
  ]

  -- On a dictionary in order dictFind faults nowhere, also in the middle of a rehash, and returns
  -- what the dictionary holds under the key; the dictionary that its step of rehashing leaves is
  -- in order and reads the same under every key.
  pub find-view :
      (k : K) (d : Dict K V)
      → IsDict d
      → (d' : Dict K V) × (find k d ≡ some (d', view d k)) × Keeps d d'
  unfolding find
  find-view k d v = elim (Bool-cases (d.ht0.size == 0)) [
    | inl nothing ↦ (d, rw (nothing, view_out d k v (ground arith)) refl, Keeps-refl d v)
    | inr there ↦
        let (d', run, kept, _) = rehash_step-Keeps d v in
        (
          d',
          rw
              (
                there,
                run,
                search_both-view k d' kept.valid (kept.stays (ground arith)),
                kept.reads k,
              )
              refl,
          kept,
        )
  ]

  abbrev pub target_mask : Dict K V → ℕ
  target_mask d = if is_rehashing d then d.ht1.sizemask else d.ht0.sizemask

  -- The index is that of the table that new entries go to.
  pub key_index_lem :
      (can_resize : Bool) (k : K) (d : Dict K V)
      → IsDict d
      → (d' : Dict K V) × (key_index can_resize k d
          ≡ some (d', if is_some (view d k) then none else some (slot (target_mask d') k)))
        × Keeps d d'
        × (0 < d'.ht0.size)
  unfolding key_index index_after free_index
  key_index_lem can_resize k d v =
      let (kept, ok, p) = expand_if_needed-Keeps can_resize d v in
      let d' = (expand_if_needed can_resize d).0 in
      (
        d',
        ap (λ s. index_after k (d', s)) ok
            ∙ rw (search_both-view k d' kept.valid p, kept.reads k) refl,
        kept,
        p,
      )
