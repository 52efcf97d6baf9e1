-- ===== src/Intset/Searching.antt =====
-- `intsetSearch` of struct/intset.c on a sorted set: it ends, and it finds a value or its place.
use learnredis.Base.{
  ℕ, zero, suc, ◌+◌, ◌-◌, ◌*◌, ◌/◌, ◌%◌, ◌^◌, ◌≤◌, ◌<◌, ◌≡◌, refl, sym, ◌⊎◌, inl, inr, ◌↔◌, Bool,
  true, false, ◌&&◌, arith, length, ltb, leb, ◌==◌, ==_iff, Bool-cases,
}
use learnredis.Base.Int.{ℤ, negsuc, ◌<ℤ◌, parts_eq, ltb_ℤ, eqb_ℤ}
use learnredis.Base.Bytes.{AreBytes}
use learnredis.Intset.{
  size_of, Intset, Probe, intset_value_encoding, intset_get_at, search_loop, search_end,
  intset_search, intset_find,
}
use learnredis.Intset.Cells.{Fits, get_encoded-Fits, value_encoding-le}

-- The block has the size of its cells, and the integers in it ascend.
pub record IsIntset (is : Intset) : Type 0 where
  pub room : length is.contents ≡ is.length * size_of is.encoding
  pub bytes : AreBytes is.contents
  pub ascending : (i j : ℕ) → i < j → j < is.length → intset_get_at is i <ℤ intset_get_at is j

abbrev pub Contains : Intset → ℤ → Type 0
Contains is v = (i : ℕ) × (i < is.length) × (intset_get_at is i ≡ v)

-- What `intsetSearch` promises of its result and `*pos`
abbrev pub Located : Intset → ℤ → Bool × ℕ → Type 0
Located is v (true, i) = (i < is.length) × (intset_get_at is i ≡ v)
Located is v (false, i) =
    (i ≤ is.length)
    × ((j : ℕ) → j < i → intset_get_at is j <ℤ v)
    × ((j : ℕ) → i ≤ j → j < is.length → v <ℤ intset_get_at is j)

module _ (is : Intset) (v : ℤ) (s : IsIntset is) (short : is.length < 2 ^ 31) where
  at_most : (i j : ℕ) → i ≤ j → j < is.length → intset_get_at is j <ℤ v → intset_get_at is i <ℤ v
  at_most i j h l m = elim (Bool-cases (i == j)) [
    | inl e ↦ rw ((==_iff i j).0 e) m
    | inr e ↦ omega (arith, s.ascending i j (ground (arith, h, e)) l, m)
  ]

  at_least : (i j : ℕ) → i ≤ j → j < is.length → v <ℤ intset_get_at is i → v <ℤ intset_get_at is j
  at_least i j h l m = elim (Bool-cases (i == j)) [
    | inl e ↦ rw (sym ((==_iff i j).0 e)) m
    | inr e ↦ omega (arith, s.ascending i j (ground (arith, h, e)) l, m)
  ]

  -- Between rounds: the value is in the range if it is anywhere.
  record IsProbe (p : Probe) : Type 0 where
    ordered : p.min ≤ p.max_next
    inside : p.max_next ≤ is.length
    less : (j : ℕ) → j < p.min → intset_get_at is j <ℤ v
    more : (j : ℕ) → p.max_next ≤ j → j < is.length → v <ℤ intset_get_at is j
    missed : (p.min < p.max_next) ⊎ (eqb_ℤ v p.cur ≡ false)

  search_end-miss :
      (p : Probe) → IsProbe p → ltb p.min p.max_next ≡ false → Located is v (search_end v p)
  search_end-miss p k h = elim k.missed [
    | inl l ↦ absurd (ground (arith, h, l))
    | inr e ↦ rw e (
      omega (arith, k.ordered, k.inside),
      k.less,
      λ j l m. k.more j (ground (arith, h, l, k.ordered)) m,
    )
  ]

  pub mid_lem :
      (lo hi : ℕ)
      → lo < hi
      → hi ≤ is.length
      → (lo ≤ (lo + (hi - 1)) % 2 ^ 32 / 2) × ((lo + (hi - 1)) % 2 ^ 32 / 2 < hi)
  mid_lem lo hi h k = (omega arith, omega arith)

  search_loop-Located :
      (n : ℕ) (p : Probe)
      → IsProbe p
      → p.max_next - p.min < n
      → Located is v (search_end v (search_loop n is v p))
  unfolding search_loop
  search_loop-Located zero p k h = absurd (omega arith)
  search_loop-Located (suc n) p k h = elim (Bool-cases (ltb p.min p.max_next)) [
    | inr e ↦ rw (e, search_loop) (search_end-miss p k e)
    | inl e ↦
        let mid = (p.min + (p.max_next - 1)) % 2 ^ 32 / 2 in
        let cur = intset_get_at is mid in
        let range : p.min < p.max_next = ground (arith, e) in
        let (above, below) = mid_lem p.min p.max_next range k.inside in
        elim (Bool-cases (ltb_ℤ cur v)) [
          | inl f ↦
              let lower : cur <ℤ v = ground (arith, f) in
              let q = record p { min = mid + 1; mid = mid; cur = cur } in
              rw (e, search_loop)
                (rw f (
                  search_loop-Located n q
                    (record {
                      ordered = omega arith;
                      inside = k.inside;
                      less = λ j l. at_most j mid (omega arith) (omega (arith, k.inside)) lower;
                      more = k.more;
                      missed = inr (ground (arith, lower));
                    })
                    (omega arith)))
          | inr f ↦ elim (Bool-cases (ltb_ℤ v cur)) [
            | inl g ↦
                let higher : v <ℤ cur = ground (arith, g) in
                let q = record p { max_next = mid; mid = mid; cur = cur } in
                rw (e, search_loop)
                  (rw (f, g)
                    (search_loop-Located n q
                      (record {
                        ordered = omega arith;
                        inside = omega (arith, k.inside);
                        less = k.less;
                        more = λ j l m. at_least mid j l m higher;
                        missed = inr (ground (arith, higher));
                      })
                      (omega arith)))
            | inr g ↦
                let same : eqb_ℤ v cur ≡ true = ground (arith, f, g) in
                rw (e, search_loop)
                  (rw (f, g)
                    (rw same (omega (arith, k.inside), parts_eq cur v (ground (arith, f, g)))))
          ]
        ]
  ]

  -- What the search finds, where the loop gives it
  pub intset_search-Located : Located is v (intset_search is v)
  unfolding intset_search
  intset_search-Located = elim (Bool-cases (is.length == 0)) [
    | inl e ↦
        let empty : is.length ≡ 0 = (==_iff is.length 0).0 e in
        rw e (omega arith, λ j l. absurd (omega arith), λ j l m. absurd (omega arith))
    | inr e ↦
        let full : 0 < is.length = ground (arith, e) in
        elim (Bool-cases (ltb_ℤ (intset_get_at is (is.length - 1)) v)) [
          | inl f ↦
              rw (e, f)
                (
                  omega arith,
                  λ j l. at_most j (is.length - 1) (omega arith) (omega arith) (ground (arith, f)),
                  λ j l m. absurd (omega arith),
                )
          | inr f ↦ elim (Bool-cases (ltb_ℤ v (intset_get_at is 0))) [
            | inl g ↦
                rw (e, f, g)
                  (
                    omega arith,
                    λ j l. absurd (omega arith),
                    λ j l m. at_least 0 j (omega arith) m (ground (arith, g)),
                  )
            | inr g ↦
                let p : Probe = record {
                  min = 0;
                  max_next = is.length;
                  mid = 2 ^ 32 - 1;
                  cur = negsuc 0;
                } in
                rw (e, f, g)
                  (search_loop-Located (is.length + 1) p
                    (record {
                      ordered = omega arith;
                      inside = omega arith;
                      less = λ j l. absurd (omega arith);
                      more = λ j l m. absurd (omega arith);
                      missed = inl full;
                    })
                    (omega arith))
          ]
        ]
  ]

  outside : (i : ℕ) → Located is v (false, i) → Contains is v → ⊥
  outside i l (j, m, e) = elim (Bool-cases (ltb j i)) [
    | inl f ↦
        let k : intset_get_at is j <ℤ v = l.1 j (ground (arith, f)) in
        let k' : v <ℤ v = rw e at k in omega arith
    | inr f ↦
        let k : v <ℤ intset_get_at is j = l.2 j (ground (arith, f)) m in
        let k' : v <ℤ v = rw e at k in omega arith
  ]

  Located-iff : (r : Bool × ℕ) → Located is v r → (r.0 ≡ true) ↔ Contains is v
  Located-iff (true, i) l = (λ h. (i, l.0, l.1), λ c. refl)
  Located-iff (false, i) l = (λ h. let f : false ≡ true = h in cc, λ c. absurd (outside i l c))

  contained-Fits : Contains is v → Fits is.encoding v
  contained-Fits (i, l, e) = rw (sym e) (get_encoded-Fits is i is.encoding s.bytes)

  found_fits :
      Contains is v → (leb (size_of (intset_value_encoding v)) (size_of is.encoding) && true) ≡ true
  found_fits c = ground (arith, value_encoding-le v is.encoding (contained-Fits c))

  -- The result of a search says whether the value is there.
  pub search_iff : ((intset_search is v).0 ≡ true) ↔ Contains is v
  search_iff = Located-iff (intset_search is v) intset_search-Located

  -- On a sorted block of fewer than 2^31 integers `intsetFind` answers yes exactly when some cell
  -- of the block holds the value.
  pub intset_find_iff : (intset_find is v ≡ true) ↔ Contains is v
  unfolding intset_find
  intset_find_iff = (λ h. search_iff.0 (ground (arith, h)), λ c. rw (search_iff.1 c) (found_fits c))
