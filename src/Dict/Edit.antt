-- ===== src/Dict/Edit.antt =====
-- A write at the entry of a key in struct/dict.c: the unlinking of `dictGenericDelete` and the
-- `dictSetVal` of `dictReplace`, as it acts on a chain, on a table and on the two tables.
use mathlib.Core.Option
use mathlib.Core.Option.{or_else}
use learnredis.Base.{
  ℕ, ◌+◌, ◌-◌, ◌≤◌, ◌<◌, ◌≡◌, ◌≢◌, refl, ap, ◌∙◌, true, false, inl, inr, Option, none, some, [],
  arith, length, get_or, ◌==◌, if◌then◌else◌, Bool-cases, Option-cases, get_elem?-eq-get_or,
  get_or-set_ne,
}
use learnredis.Dict.Chains
use learnredis.Dict.Chains.{DictType, Entry, Chain, ◌≈◌}
use learnredis.Dict.{Table, Dict, slot, is_rehashing, dict_size, edit, edit_second, edit_both}
use learnredis.Dict.Invariant.{
  bucket, put_bucket, put_bucket-IsTable, bucket-put_bucket, IsTable, IsDict, slot-lt, slot_congr,
  view, busy_pos₁, Placed, length-le-total,
}
use learnredis.Dict.Rehash.{or_else-none}

module _ {ℓ} {K V : Type ℓ} ⦃dt : DictType K⦄ where
  -- `d'` is in order and reads as `d` but for `k`, which reads as `r`; it has as many entries
  -- more as `gain`, and as many fewer as `loss`.
  pub record Writes (d d' : Dict K V) (k : K) (r : Option V) (gain loss : ℕ) : Type ℓ where
    pub valid : IsDict d'
    pub reads : (q : K) → view d' q ≡ (if q ≈ k then r else view d q)
    pub sized : dict_size d' + loss ≡ dict_size d + gain

  -- What a write at the entry of `k` does to a chain: `unlink k` or `assign k v`.
  pub record IsEdit (k : K) (f : Chain K V → Chain K V) (less : ℕ) (new : Option V) : Type ℓ where
    pub reads :
        (q : K) (c : Chain K V) (w : V)
        → Chains.find k c ≡ some w
        → Chains.count q c ≤ 1
        → Chains.find q (f c) ≡ (if q ≈ k then new else Chains.find q c)
    pub counts : (q : K) (c : Chain K V) → Chains.count q (f c) ≤ Chains.count q c
    pub sized : (c : Chain K V) (w : V) → Chains.find k c ≡ some w → length (f c) + less ≡ length c
    pub places : (mask i : ℕ) (c : Chain K V) → Placed mask i c → Placed mask i (f c)

  pub unlink-IsEdit : (k : K) → IsEdit k (Chains.unlink k) 1 none
  unlink-IsEdit k = record {
    reads = λ q c w h o. Chains.find-unlink q k c o;
    counts = λ q c. Chains.count-unlink q k c;
    sized = λ c w h. Chains.length-unlink k c w h;
    places = λ mask i c h. Chains.All-unlink (λ q. slot mask q ≡ i) k c h;
  }

  pub assign-IsEdit : (k : K) (v : V) → IsEdit k (Chains.assign k v) 0 (some v)
  assign-IsEdit k v = record {
    reads = λ q c w h o. Chains.find-assign q k v w c h;
    counts = λ q c. omega (arith, Chains.count-assign q k v c);
    sized = λ c w h. omega (arith, Chains.length-assign k v c);
    places = λ mask i c h. Chains.All-assign (λ q. slot mask q ≡ i) k v c h;
  }

  module _ (k : K) (f : Chain K V → Chain K V) (less : ℕ) (new : Option V)
      (ed : IsEdit k f less new) where
    abbrev edited : Table K V → Table K V
    edited t = put_bucket t (slot t.sizemask k) (f (bucket k t)) (t.used - less)

    module _ (t : Table K V) (v : IsTable t) (p : 0 < t.size) where
      edit_lem : edit f less k t ≡ some (Option.map (λ _. edited t) (Chains.find k (bucket k t)))
      unfolding edit
      edit_lem = rw (get_elem?-eq-get_or t.table (slot t.sizemask k) [] (slot-lt t k v p)) refl

      edited-IsTable : (w : V) → Chains.find k (bucket k t) ≡ some w → IsTable (edited t)
      edited-IsTable w h =
          put_bucket-IsTable t (slot t.sizemask k) (f (bucket k t)) (t.used - less) v
            (slot-lt t k v p)
            (omega (
              arith,
              ed.sized (bucket k t) w h,
              v.counted,
              length-le-total t.table (slot t.sizemask k),
            ))
            (ed.places t.sizemask (slot t.sizemask k) (bucket k t) (v.placed (slot t.sizemask k)))

      edited_used : (w : V) → Chains.find k (bucket k t) ≡ some w → (t.used - less) + less ≡ t.used
      edited_used w h =
          (omega (
            arith,
            ed.sized (bucket k t) w h,
            v.counted,
            length-le-total t.table (slot t.sizemask k),
          ))

      bucket-edited :
          (q : K)
          → bucket q (edited t)
            ≡ (if slot t.sizemask q == slot t.sizemask k then f (bucket k t) else bucket q t)
      bucket-edited q =
          bucket-put_bucket t (slot t.sizemask k) (f (bucket k t)) (t.used - less) q
            (slot-lt t k v p)

      count-edited : (q : K) → Chains.count q (bucket q (edited t)) ≤ Chains.count q (bucket q t)
      count-edited q = elim (Bool-cases (slot t.sizemask q == slot t.sizemask k)) [
        | inl same ↦
            let i : slot t.sizemask q ≡ slot t.sizemask k = ground arith in
            rw (bucket-edited q, same) (rw i (ed.counts q (bucket k t)))
        | inr differ ↦ rw (bucket-edited q, differ) (omega arith)
      ]

      find-edited :
          (q : K) (w : V)
          → Chains.find k (bucket k t) ≡ some w
          → Chains.count q (bucket q t) ≤ 1
          → Chains.find q (bucket q (edited t))
            ≡ (if q ≈ k then new else Chains.find q (bucket q t))
      find-edited q w h o = elim (Bool-cases (slot t.sizemask q == slot t.sizemask k)) [
        | inl same ↦
            let i : slot t.sizemask q ≡ slot t.sizemask k = ground arith in
            rw (bucket-edited q, same) (rw i (ed.reads q (bucket k t) w h (rw i at o)))
        | inr differ ↦
            let apart : (q ≈ k) ≡ false = ground (arith, slot_congr t.sizemask q k) in
            rw (bucket-edited q, differ, apart) refl
      ]

    module _ (d : Dict K V) (v : IsDict d) where
      -- A key is in one of the two tables at most.
      elsewhere :
          (w : V) (q : K)
          → Chains.find k (bucket k d.ht0) ≡ some w
          → (q ≈ k) ≡ true
          → Chains.find q (bucket q d.ht1) ≡ none
      elsewhere w q h same =
          let eq : Chains.find q (bucket q d.ht0) ≡ some w =
            rw (slot_congr d.ht0.sizemask q k same, Chains.find_congr q k (bucket k d.ht0) same)
              h in
          Chains.find-eq-none q _ (ground (arith, v.once q, Chains.find-eq-none q (bucket q d.ht0)))

      -- The chain of a key that is there is not one of the buckets that have been moved.
      still_empty :
          (i : ℕ) (w : V)
          → Chains.find k (bucket k d.ht0) ≡ some w
          → ((j : ℕ) → j < i → get_or d.ht0.table j [] ≡ [])
          → (j : ℕ) → j < i
          → get_or (edited d.ht0).table j [] ≡ []
      unfolding Chains.find
      still_empty i w h below j l =
          let apart : slot d.ht0.sizemask k ≢ j = λ e. cc (h, ap (Chains.find k) (below j l)) in
          get_or-set_ne d.ht0.table _ j _ [] apart ∙ below j l

      write_first :
          (w : V)
          → Chains.find k (bucket k d.ht0) ≡ some w
          → (q : K)
          → or_else
              (if q ≈ k then new else Chains.find q (bucket q d.ht0))
              (Chains.find q (bucket q d.ht1))
            ≡ (if q ≈ k then new else view d q)
      unfolding view or_else
      write_first w h q = elim (Bool-cases (q ≈ k)) [
        | inl same ↦ rw (same, elsewhere w q h same) (or_else-none new)
        | inr differ ↦ rw differ refl
      ]

      write_second :
          (w : V)
          → Chains.find k (bucket k d.ht0) ≡ none
          → (q : K)
          → or_else
              (Chains.find q (bucket q d.ht0))
              (if q ≈ k then new else Chains.find q (bucket q d.ht1))
            ≡ (if q ≈ k then new else view d q)
      unfolding view or_else
      write_second w h q = elim (Bool-cases (q ≈ k)) [
        | inl same ↦
            let eq : Chains.find q (bucket q d.ht0) ≡ none =
              rw (slot_congr d.ht0.sizemask q k same, Chains.find_congr q k (bucket k d.ht0) same)
                h in
            rw (same, eq) refl
        | inr differ ↦ rw differ refl
      ]

      edited_first :
          (p : 0 < d.ht0.size) (w : V)
          → Chains.find k (bucket k d.ht0) ≡ some w
          → Writes d (record d { ht0 = edited d.ht0 }) k new 0 less
      unfolding view or_else
      edited_first p w h = record {
        valid = record {
          first = edited-IsTable d.ht0 v.first p w h;
          second = v.second;
          idle = v.idle;
          busy = λ i e.
              let (p₀, p₁, within, below) = v.busy i e in (p₀, p₁, within, still_empty i w h below);
          once = λ q. omega (arith, v.once q, count-edited d.ht0 v.first p q);
        };
        reads = λ q.
            rw (find-edited d.ht0 v.first p q w h (omega (arith, v.once q))) (write_first w h q);
        sized = omega (arith, edited_used d.ht0 v.first p w h);
      }

      edited_second :
          (p : 0 < d.ht1.size) (w : V) (i : ℕ)
          → d.rehashidx ≡ some i
          → Chains.find k (bucket k d.ht0) ≡ none
          → Chains.find k (bucket k d.ht1) ≡ some w
          → Writes d (record d { ht1 = edited d.ht1 }) k new 0 less
      unfolding view or_else
      edited_second p w i e h₀ h = record {
        valid = record {
          first = v.first;
          second = edited-IsTable d.ht1 v.second p w h;
          idle = λ n. cc;
          busy = v.busy;
          once = λ q. omega (arith, v.once q, count-edited d.ht1 v.second p q);
        };
        reads = λ q.
            rw (find-edited d.ht1 v.second p q w h (omega (arith, v.once q))) (write_second w h₀ q);
        sized = omega (arith, edited_used d.ht1 v.second p w h);
      }

      pub edit_both-Writes :
          (p : 0 < d.ht0.size) (w : V)
          → view d k ≡ some w
          → (d' : Dict K V) × (edit_both f less k d ≡ some (some d')) × Writes d d' k new 0 less
      unfolding edit_both edit_second view or_else Chains.find
      edit_both-Writes p w h = elim (Option-cases (Chains.find k (bucket k d.ht0))) [
        | inr (x, e) ↦ (
          record d { ht0 = edited d.ht0 },
          rw (edit_lem d.ht0 v.first p, e) refl,
          edited_first p x e,
        )
        | inl e ↦
            let e₁ : Chains.find k (bucket k d.ht1) ≡ some w = rw e at h in
            elim (Option-cases d.rehashidx) [
              | inl off ↦ cc (ap (λ (t : Table K V). Chains.find k (bucket k t)) (v.idle off))
              | inr (i, on) ↦
                  let (_, p₁, _, _) = v.busy i on in
                  (
                    record d { ht1 = edited d.ht1 },
                    rw (edit_lem d.ht0 v.first p, e, on) (rw (edit_lem d.ht1 v.second p₁, e₁) refl),
                    edited_second p₁ w i on e e₁,
                  )
            ]
      ]

      pub edit_both-none : (p : 0 < d.ht0.size) → view d k ≡ none → edit_both f less k d ≡ some none
      unfolding edit_both edit_second view or_else
      edit_both-none p h = elim (Option-cases (Chains.find k (bucket k d.ht0))) [
        | inr (x, e) ↦ cc
        | inl e ↦
            let e₁ : Chains.find k (bucket k d.ht1) ≡ none = rw e at h in
            elim (Bool-cases (is_rehashing d)) [
              | inl on ↦
                  rw (edit_lem d.ht0 v.first p, e, on)
                    (rw (edit_lem d.ht1 v.second (busy_pos₁ d v on), e₁) refl)
              | inr off ↦ rw (edit_lem d.ht0 v.first p, e, off) refl
            ]
      ]
