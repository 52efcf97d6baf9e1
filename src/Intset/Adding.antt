-- ===== src/Intset/Adding.antt =====
-- `intsetAdd` of struct/intset.c against sets of integers.
use learnredis.Base.{
  ℕ, ◌+◌, ◌*◌, ◌^◌, ◌<◌, ◌≡◌, refl, sym, ◌∙◌, ◌⊎◌, inl, inr, ◌↔◌, Bool, true, false, not, arith,
  ltb, leb, if◌then◌else◌, Bool-cases,
}
use learnredis.Base.Int.{ℤ}
use learnredis.Intset.{
  int64, size_of, Intset, intset_value_encoding, intset_search, intset_find, intset_add,
  intset_upgrade_and_add, insert_at,
}
use learnredis.Intset.Cells.{Fits, value_encoding-Fits}
use learnredis.Intset.Searching.{
  IsIntset, Contains, Located, intset_search-Located, search_iff, intset_find_iff,
}
use learnredis.Intset.Inserting.{Inserted, Inserted-IsIntset, Inserted-Contains, insert_at-Inserted}
use learnredis.Intset.Upgrading.{upgrade-Inserted, upgrade-Located, place}

-- The set `is'` is `is` and `v`; `success` says whether that is more than `is`.
pub record Adds (is is' : Intset) (v : ℤ) (success : Bool) : Type 0 where
  pub valid : IsIntset is'
  pub contains : (u : ℤ) → Contains is' u ↔ ((u ≡ v) ⊎ Contains is u)
  pub success_iff : (success ≡ true) ↔ (Contains is v → ⊥)
  pub counted : is'.length ≡ is.length + (if success then 1 else 0)

module _ (fresh : ℕ → ℕ) (is : Intset) (v : ℤ) (s : IsIntset is)
    (small : (is.length + 1) * 8 < 2 ^ 32) (fits : Fits int64 v) where
  short : is.length < 2 ^ 31
  short = omega arith

  Inserted-Adds :
      (is' : Intset) (i : ℕ)
      → Located is v (false, i)
      → (Contains is v → ⊥)
      → Inserted is is' v i
      → Adds is is' v true
  Inserted-Adds is' i l absent n = record {
    valid = Inserted-IsIntset is is' v i s l n;
    contains = Inserted-Contains is is' v i s l n;
    success_iff = (λ h. absent, λ h. refl);
    counted = n.longer;
  }

  by_search :
      (r : Bool × ℕ)
      → Located is v r
      → ((r.0 ≡ true) ↔ Contains is v)
      → Fits is.encoding v
      → Adds is (if r.0 then is else insert_at fresh is v r.1) v (not r.0)
  by_search (true, i) l found f = record {
    valid = s;
    contains = λ u. (inr, λ w. elim w [ inl e ↦ (i, l.0, l.1 ∙ sym e) | inr c ↦ c ]);
    success_iff = (λ h. let no_success : false ≡ true = h in cc, λ h. absurd (h (i, l.0, l.1)));
    counted = omega arith;
  }
  by_search (false, i) l found f =
      Inserted-Adds (insert_at fresh is v i) i l (λ c. let no_hit : false ≡ true = found.1 c in cc)
        (insert_at-Inserted fresh is v i s small f l.0)

  absent_wide :
      ltb (size_of is.encoding) (size_of (intset_value_encoding v)) ≡ true → Contains is v → ⊥
  unfolding intset_find
  absent_wide e c =
      let found : intset_find is v ≡ true = (intset_find_iff is v s short).1 c in
      let narrow : leb (size_of (intset_value_encoding v)) (size_of is.encoding) ≡ true =
        ground (arith, found) in
      absurd (ground (arith, e, narrow))

  -- On a sorted block of distinct integers whose cells after one more, of 8 bytes each, take less
  -- than 2^32 bytes, `intsetAdd` of a 64-bit integer, which may widen all cells in place, leaves a
  -- sorted block of distinct integers that holds just the integers from before and the new one;
  -- `success` tells whether it was absent, and the length grows by one exactly then.
  pub intset_add-Adds : Adds is (intset_add fresh is v).0 v (intset_add fresh is v).1
  unfolding intset_add
  intset_add-Adds =
      let l = intset_search-Located is v s short in
      let found = search_iff is v s short in
      elim (Bool-cases (ltb (size_of is.encoding) (size_of (intset_value_encoding v)))) [
        | inl e ↦
            let wide : size_of is.encoding < size_of (intset_value_encoding v) =
              ground (arith, e) in
            rw e (
              Inserted-Adds (intset_upgrade_and_add fresh is v) (place fresh is v s small fits wide)
                (upgrade-Located fresh is v s small fits wide) (λ c. absent_wide e c)
                (upgrade-Inserted fresh is v s small fits wide))
        | inr e ↦
            let f = value_encoding-Fits v is.encoding fits (ground (arith, e)) in
            let b = by_search (intset_search is v) l found f in
            elim (Bool-cases (intset_search is v).0) [
              | inl h ↦ rw (e, h) (rw h at b)
              | inr h ↦ rw (e, h) (rw h at b)
            ]
      ]
