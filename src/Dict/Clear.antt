-- ===== src/Dict/Clear.antt =====
-- `dictCreate`, `_dictClear` and `dictEmpty` of struct/dict.c.
use mathlib.Core.List.{flatten}
use mathlib.Core.Option.{or_else}
use learnredis.Base.{
  ℕ, ◌-◌, ◌≡◌, refl, ap, inl, inr, none, List, [], ◌∷◌, ◌++◌, arith, length, ◌==◌, Bool-cases,
  length-eq-zero,
}
use learnredis.Dict.Chains
use learnredis.Dict.Chains.{DictType, Entry, Chain}
use learnredis.Dict.{Dict, create, clear, clear_loop}
use learnredis.Dict.Invariant.{IsDict, view, total, empty_table-IsTable}

module _ {ℓ} {A : Type ℓ} where
  flatten-nil : (bs : List (List A)) → total bs ≡ 0 → flatten bs ≡ []
  unfolding total flatten
  flatten-nil [] h = refl
  flatten-nil (b ∷ bs) h = rw (length-eq-zero b (omega arith), flatten-nil bs (omega arith)) refl

module _ {ℓ} {K V : Type ℓ} where
  -- With `used` in step the early exit skips empty buckets only.
  clear_loop-flatten :
      (bs : List (Chain K V)) (used : ℕ) → used ≡ total bs → clear_loop bs used ≡ (flatten bs, 0)
  unfolding clear_loop total flatten
  clear_loop-flatten [] used h = ap (λ n. ([], n)) h
  clear_loop-flatten (c ∷ cs) used h = elim (Bool-cases (used == 0)) [
    | inl done ↦
        let z : used ≡ 0 = ground arith in
        let all : flatten (c ∷ cs) ≡ [] = flatten-nil (c ∷ cs) (omega arith) in
        rw (done, all, z) refl
    | inr left ↦ rw (left, clear_loop-flatten cs (used - length c) (omega arith)) refl
  ]

module _ {ℓ} {K V : Type ℓ} ⦃dt : DictType K⦄ where
  pub create-IsDict : IsDict (create {K = K} {V = V})
  unfolding create Chains.count
  create-IsDict = record {
    first = empty_table-IsTable;
    second = empty_table-IsTable;
    idle = λ h. refl;
    busy = λ i h. cc;
    once = λ q. omega arith;
  }

  -- `dictEmpty` on a dictionary in order frees the entries of both tables, each once, in spite of
  -- the early exit of its loop, and leaves a dictionary in order that holds nothing.
  pub clear-IsDict :
      (d : Dict K V)
      → IsDict d
      → ((clear d).1 ≡ flatten d.ht0.table ++ flatten d.ht1.table)
        × IsDict (clear d).0
        × ((q : K) → view (clear d).0 q ≡ none)
  unfolding clear view or_else Chains.find create
  clear-IsDict d v = (
    rw
        (
          clear_loop-flatten d.ht0.table d.ht0.used v.first.counted,
          clear_loop-flatten d.ht1.table d.ht1.used v.second.counted,
        )
        refl,
    create-IsDict,
    λ q. refl,
  )
