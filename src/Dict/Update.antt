-- ===== src/Dict/Update.antt =====
-- `dictAdd`, `dictReplace` and `dictGenericDelete` of struct/dict.c.
use mathlib.Core.Option.{or_else}
use learnredis.Base.{
  ◌^◌, ℕ, ◌<◌, ◌≡◌, refl, sym, ◌∙◌, Bool, true, inl, inr, Option, none, some, arith, not, ◌==◌,
  if◌then◌else◌, is_some, Bool-cases, Option-cases,
}
use learnredis.Dict.Chains
use learnredis.Dict.Chains.{DictType, Entry, Chain, ◌≈◌, ≈-dup}
use learnredis.Dict.{
  dict_size, Dict, dict_ok, dict_err, slot, is_rehashing, link, link_new, overwrite, add,
  generic_delete, replace,
}
use learnredis.Dict.Invariant.{
  bucket, IsDict, Keeps, Keeps-refl, Keeps-trans, slot_congr, view, view_out, view_there,
  view_congr, busy_pos₁,
}
use learnredis.Dict.Moves.{inserted, insert_at_lem, inserted-IsTable, find-inserted, count-inserted}
use learnredis.Dict.Rehash.{rehash_step-Keeps}
use learnredis.Dict.Edit.{Writes, unlink-IsEdit, assign-IsEdit, edit_both-Writes, edit_both-none}
use learnredis.Dict.Lookup.{find-view, key_index_lem, target_mask}

module _ {ℓ} {K V : Type ℓ} ⦃dt : DictType K⦄ where
  count-absent :
      (d : Dict K V) (k : K)
      → view d k ≡ none
      → (Chains.count k (bucket k d.ht0) ≡ 0) × (Chains.count k (bucket k d.ht1) ≡ 0)
  unfolding view or_else
  count-absent d k h =
      ground
        (arith, Chains.count-eq-zero k (bucket k d.ht0), Chains.count-eq-zero k (bucket k d.ht1))

  module _ (d : Dict K V) (v : IsDict d) (p : 0 < d.ht0.size) (e : Entry K V)
      (absent : view d e.key ≡ none) where
    absent_counts :
        (q : K)
        → (q ≈ e.key) ≡ true
        → (Chains.count q (bucket q d.ht0) ≡ 0) × (Chains.count q (bucket q d.ht1) ≡ 0)
    absent_counts q same = count-absent d q (view_congr d q e.key same ∙ absent)

    link_first :
        d.rehashidx ≡ none → Writes d (record d { ht0 = inserted e d.ht0 }) e.key (some e.val) 1 0
    unfolding view or_else
    link_first off = record {
      valid = record {
        first = inserted-IsTable e d.ht0 v.first p;
        second = v.second;
        idle = v.idle;
        busy = λ i h. cc;
        once = λ q.
            rw (count-inserted e d.ht0 v.first p q) (ground (arith, absent_counts q, v.once q));
      };
      reads = λ q. rw (find-inserted e d.ht0 v.first p q) (ground arith);
      sized = omega arith;
    }

    link_second :
        (on : is_rehashing d ≡ true)
        → Writes d (record d { ht1 = inserted e d.ht1 }) e.key (some e.val) 1 0
    unfolding view or_else
    link_second on =
        let p1 = busy_pos₁ d v on in
        record {
          valid = record {
            first = v.first;
            second = inserted-IsTable e d.ht1 v.second p1;
            idle = λ h. ground arith;
            busy = v.busy;
            once = λ q.
                rw (count-inserted e d.ht1 v.second p1 q)
                  (ground (arith, absent_counts q, v.once q));
          };
          reads = λ q.
              rw (find-inserted e d.ht1 v.second p1 q)
                (ground (arith, absent_counts q, Chains.find-eq-none q (bucket q d.ht0)));
          sized = omega arith;
        }

    link-Writes :
        (d' : Dict K V) × (link (slot (target_mask d) e.key) e d ≡ some d')
        × Writes d d' e.key (some e.val) 1 0
    unfolding link
    link-Writes = elim (Bool-cases (is_rehashing d)) [
      | inl on ↦ (
        record d { ht1 = inserted e d.ht1 },
        rw (on, insert_at_lem e d.ht1 v.second (busy_pos₁ d v on)) refl,
        link_second on,
      )
      | inr off ↦ (
        record d { ht0 = inserted e d.ht0 },
        rw (off, insert_at_lem e d.ht0 v.first p) refl,
        link_first (ground arith),
      )
    ]

  after-Keeps :
      (d d₁ d₂ : Dict K V) (k : K) (r : Option V) (gain loss : ℕ)
      → Keeps d d₁
      → Writes d₁ d₂ k r gain loss
      → Writes d d₂ k r gain loss
  after-Keeps d d₁ d₂ k r gain loss kept w = record {
    valid = w.valid;
    reads = λ q. rw (w.reads q, kept.reads q) refl;
    sized = omega (arith, w.sized, kept.same_size);
  }

  -- A dictionary that is kept reads at `k` as it did.
  Keeps-Writes : (d d' : Dict K V) (k : K) → Keeps d d' → Writes d d' k (view d k) 0 0
  Keeps-Writes d d' k kept = record {
    valid = kept.valid;
    reads = λ q. elim (Bool-cases (q ≈ k)) [
      | inl same ↦ rw same (kept.reads q ∙ view_congr d q k same)
      | inr differ ↦ rw differ (kept.reads q)
    ];
    sized = omega (arith, kept.same_size);
  }

  -- Two writes of one key, of which the second counts.
  Writes-trans :
      (d d₁ d₂ : Dict K V) (k : K) (r r' : Option V) (gain : ℕ)
      → Writes d d₁ k r gain 0
      → Writes d₁ d₂ k r' 0 0
      → Writes d d₂ k r' gain 0
  Writes-trans d d₁ d₂ k r r' gain w w' = record {
    valid = w'.valid;
    reads = λ q. elim (Bool-cases (q ≈ k)) [
      | inl same ↦ rw (w'.reads q, same) refl
      | inr differ ↦ rw (w'.reads q, w.reads q, differ) refl
    ];
    sized = omega (arith, w.sized, w'.sized);
  }

  -- The copy of a key is as good as the key.
  Writes-dup :
      (d d' : Dict K V) (k : K) (r : Option V)
      → Writes d d' (dt.key_dup k) r 1 0
      → Writes d d' k r 1 0
  Writes-dup d d' k r w = record {
    valid = w.valid;
    reads = λ q. rw (← ≈-dup q k) (w.reads q);
    sized = w.sized;
  }

  -- What `add` does, with buckets counted by numbers of any size
  pub add-Writes :
      (can_resize : Bool) (k : K) (x : V) (d : Dict K V)
      → IsDict d
      → (d' : Dict K V) × (add can_resize k x d
          ≡ some (d', if is_some (view d k) then dict_err else dict_ok))
        × Writes d d' k (or_else (view d k) (some x)) (if is_some (view d k) then 0 else 1) 0
  unfolding add link_new or_else
  add-Writes can_resize k x d v =
      let (d₁, run₁, kept₁, _) = rehash_step-Keeps d v in
      let (d₂, run₂, kept₂, p) = key_index_lem can_resize k d₁ kept₁.valid in
      let kept = Keeps-trans d d₁ d₂ kept₁ kept₂ in
      elim (Option-cases (view d k)) [
        | inr (w, e) ↦
            (d₂, rw (run₁, run₂, kept₁.reads k, e) refl, rw e (rw e at (Keeps-Writes d d₂ k kept)))
        | inl e ↦
            let entry : Entry K V = record { key = dt.key_dup k; val = x } in
            let absent : view d₂ entry.key ≡ none =
              sym (view_congr d₂ k (dt.key_dup k) (dt.compare-dup k)) ∙ kept.reads k ∙ e in
            let (d₃, run₃, w) = link-Writes d₂ kept₂.valid p entry absent in
            (
              d₃,
              rw
                  (
                    run₁,
                    run₂,
                    kept₁.reads k,
                    e,
                    slot_congr (target_mask d₂) k (dt.key_dup k) (dt.compare-dup k),
                    run₃,
                  )
                  refl,
              rw e (after-Keeps d d₂ d₃ k (some x) 1 0 kept (Writes-dup d₂ d₃ k (some x) w)),
            )
      ]

  -- `dictGenericDelete` on a dictionary in order succeeds exactly when the key is present;
  -- afterwards the key is absent, every other key reads as before, one entry less is counted if
  -- the key was there, and the dictionary is in order.
  pub generic_delete-Writes :
      (k : K) (d : Dict K V)
      → IsDict d
      → (d' : Dict K V) × (generic_delete k d
          ≡ some (d', if is_some (view d k) then dict_ok else dict_err))
        × Writes d d' k none 0 (if is_some (view d k) then 1 else 0)
  unfolding generic_delete
  generic_delete-Writes k d v = elim (Bool-cases (d.ht0.size == 0)) [
    | inl nothing ↦
        let e = view_out d k v (ground arith) in
        (d, rw (nothing, e) refl, rw e (rw e at (Keeps-Writes d d k (Keeps-refl d v))))
    | inr there ↦
        let (d₁, run, kept, _) = rehash_step-Keeps d v in
        let p : 0 < d₁.ht0.size = kept.stays (ground arith) in
        elim (Option-cases (view d k)) [
          | inl e ↦ (
            d₁,
            rw
                (
                  there,
                  run,
                  edit_both-none k (Chains.unlink k) 1 none (unlink-IsEdit k) d₁ kept.valid p
                      (kept.reads k ∙ e),
                  e,
                )
                refl,
            rw e (rw e at (Keeps-Writes d d₁ k kept)),
          )
          | inr (w, e) ↦
              let (d₂, run₂, wr) =
                edit_both-Writes k (Chains.unlink k) 1 none (unlink-IsEdit k) d₁ kept.valid p w
                  (kept.reads k ∙ e) in
              (d₂, rw (there, run, run₂, e) refl, rw e (after-Keeps d d₁ d₂ k none 0 1 kept wr))
        ]
  ]

  -- What `replace` does, with buckets counted by numbers of any size
  pub replace-Writes :
      (can_resize : Bool) (k : K) (x : V) (d : Dict K V)
      → IsDict d
      → (d' : Dict K V) × (replace can_resize k x d ≡ some (d', not (is_some (view d k))))
        × Writes d d' k (some x) (if is_some (view d k) then 0 else 1) 0
  unfolding replace overwrite or_else
  replace-Writes can_resize k x d v =
      let (d₁, run₁, w₁) = add-Writes can_resize k x d v in
      elim (Option-cases (view d k)) [
        | inl e ↦ (d₁, rw (run₁, e) refl, rw e (rw e at w₁))
        | inr (y, e) ↦
            let found : view d₁ k ≡ some y = rw (w₁.reads k, dt.compare_refl k, e) refl in
            let (d₂, run₂, kept) = find-view k d₁ w₁.valid in
            let p : 0 < d₂.ht0.size = view_there d₂ k y kept.valid (kept.reads k ∙ found) in
            let (d₃, run₃, w₃) =
              edit_both-Writes k (Chains.assign k x) 0 (some x) (assign-IsEdit k x) d₂ kept.valid p
                y (kept.reads k ∙ found) in
            (
              d₃,
              rw (run₁, e) (rw (run₂, run₃) refl),
              rw e (
                  Writes-trans d d₁ d₃ k (some y) (some x) 0 (rw e at w₁)
                    (after-Keeps d₁ d₂ d₃ k (some x) 0 0 kept w₃)),
            )
      ]

  -- The index of every bucket, also of a table that an addition makes, is an `int`.
  pub record IsSmall (d : Dict K V) : Type ℓ where
    pub first : d.ht0.size < 2 ^ 31
    pub second : d.ht1.size < 2 ^ 31
    pub entries : dict_size d < 2 ^ 29

  -- On a dictionary in order, with tables of fewer than 2^31 buckets and fewer than 2^29 entries,
  -- `dictAdd` fails exactly when the key is present; if it is absent the value is stored under the
  -- key and one entry more is counted; every other key reads as before, and the dictionary stays
  -- in order.
  pub add-Stores :
      (can_resize : Bool) (k : K) (x : V) (d : Dict K V)
      → IsDict d
      → IsSmall d
      → (d' : Dict K V) × (add can_resize k x d
          ≡ some (d', if is_some (view d k) then dict_err else dict_ok))
        × Writes d d' k (or_else (view d k) (some x)) (if is_some (view d k) then 0 else 1) 0
  add-Stores can_resize k x d v small = add-Writes can_resize k x d v

  -- On a dictionary in order, with tables of fewer than 2^31 buckets and fewer than 2^29 entries,
  -- `dictReplace` stores the value under the key whether or not it was present, answers whether
  -- the key is new, counts one entry more only then, and leaves every other key and the invariant
  -- as they were.
  pub replace-Stores :
      (can_resize : Bool) (k : K) (x : V) (d : Dict K V)
      → IsDict d
      → IsSmall d
      → (d' : Dict K V) × (replace can_resize k x d ≡ some (d', not (is_some (view d k))))
        × Writes d d' k (some x) (if is_some (view d k) then 0 else 1) 0
  replace-Stores can_resize k x d v small = replace-Writes can_resize k x d v
