-- ===== src/Intset/Ending.antt =====
-- The loop of `intsetSearch` of struct/intset.c stops by itself, within the rounds it is given.
use learnredis.Base.{
  ℕ, zero, suc, ◌+◌, ◌-◌, ◌/◌, ◌%◌, ◌^◌, ◌≤◌, ◌<◌, ◌≡◌, ◌⊎◌, inl, inr, true, false, arith, ltb,
  Bool-cases,
}
use learnredis.Base.Int.{ℤ, negsuc, ltb_ℤ, eqb_ℤ}
use learnredis.Intset.{Intset, Probe, intset_get_at, search_loop, intset_search}
use learnredis.Intset.Searching.{IsIntset, Located, mid_lem, intset_search-Located}

-- Where the loop stops by itself: its test fails, or it leaves by the break with the value found.
abbrev pub IsEnd : ℤ → Probe → Type 0
IsEnd v p = (ltb p.min p.max_next ≡ false) ⊎ (eqb_ℤ v p.cur ≡ true)

module _ (is : Intset) (v : ℤ) (s : IsIntset is) (short : is.length < 2 ^ 31) where
  search_loop-IsEnd :
      (n : ℕ) (p : Probe)
      → p.max_next ≤ is.length
      → p.max_next - p.min < n
      → IsEnd v (search_loop n is v p)
  unfolding search_loop
  search_loop-IsEnd zero p k h = absurd (omega arith)
  search_loop-IsEnd (suc n) p k h = elim (Bool-cases (ltb p.min p.max_next)) [
    | inr e ↦ rw (e, search_loop) (inl e)
    | inl e ↦
        let mid = (p.min + (p.max_next - 1)) % 2 ^ 32 / 2 in
        let cur = intset_get_at is mid in
        let range : p.min < p.max_next = ground (arith, e) in
        let (above, below) = mid_lem is v s short p.min p.max_next range k in
        elim (Bool-cases (ltb_ℤ cur v)) [
          | inl f ↦
              rw (e, search_loop)
                (rw f (
                  search_loop-IsEnd n (record p { min = mid + 1; mid = mid; cur = cur }) k
                    (omega arith)))
          | inr f ↦ elim (Bool-cases (ltb_ℤ v cur)) [
            | inl g ↦
                rw (e, search_loop)
                  (rw (f, g)
                    (search_loop-IsEnd n (record p { max_next = mid; mid = mid; cur = cur })
                      (omega (arith, k)) (omega arith)))
            | inr g ↦ rw (e, search_loop) (rw (f, g) (inr (ground (arith, f, g))))
          ]
        ]
  ]

  -- On a sorted block of fewer than 2^31 integers `intsetSearch` answers 1 with a position where
  -- the value stands, or 0 with the position up to which all integers are less and from which all
  -- are greater; within one round more than the length its loop stops by itself, as its test fails
  -- or at the break with the value in `cur`, never for want of rounds.
  pub intset_search-Ends :
      Located is v (intset_search is v)
      × IsEnd v (
          search_loop
            (is.length + 1)
            is
            v
            (record { min = 0; max_next = is.length; mid = 2 ^ 32 - 1; cur = negsuc 0 }))
  intset_search-Ends = (
    intset_search-Located is v s short,
    search_loop-IsEnd (is.length + 1)
        (record { min = 0; max_next = is.length; mid = 2 ^ 32 - 1; cur = negsuc 0 }) (omega arith)
        (omega arith),
  )
