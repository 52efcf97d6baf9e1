-- ===== src/Base/Maps.antt =====
-- Dictionaries as their clients see them: the view of dictFind, dictAdd and
-- dictDelete, as a list of bindings, and functions on numbers that are changed at one place.
use learnredis.Base.Tests.{if◌then◌else◌, ◌==◌, ==_iff, Bool-cases}
use Prim.Native.Nat.{ℕ}
use mathlib.Core.Path.{fun_ext, ◌≡◌, refl}
use mathlib.Core.Logic.{inl, inr}
use mathlib.Core.Bool.{Bool, true}
use mathlib.Core.Option.{Option, none, some}
use mathlib.Core.List.{List, [], ◌∷◌}
use native.Mathlib.Omega.{arith}

-- Keys with a test for equality, as `equalStringObjects` is for strings.
pub record KeyType {ℓ} (K : Type ℓ) : Type ℓ where
  pub same : K → K → Bool
  pub same_refl : (a : K) → same a a ≡ true
  pub same-eq : (a b : K) → same a b ≡ true → a ≡ b

abbrev pub Map {ℓ κ} : Type ℓ → Type κ → Type (ℓ ⊔ κ)
Map K V = List (K × V)

module _ {ℓ κ} {K : Type ℓ} {V : Type κ} ⦃kt : KeyType K⦄ where
  abbrev pub fetch : K → Map K V → Option V
  fetch q [] = none
  fetch q ((k, v) ∷ m) = if kt.same q k then some v else fetch q m

  unfoldable pub put : K → V → Map K V → Map K V
  put k v [] = (k, v) ∷ []
  put k v ((k', v') ∷ m) = if kt.same k k' then (k', v) ∷ m else (k', v') ∷ put k v m

  unfoldable pub remove : K → Map K V → Map K V
  remove k [] = []
  remove k ((k', v') ∷ m) = if kt.same k k' then remove k m else (k', v') ∷ remove k m

  pub fetch-put :
      (q k : K) (v : V) (m : Map K V)
      → fetch q (put k v m) ≡ (if kt.same q k then some v else fetch q m)
  unfolding put
  fetch-put q k v [] = refl
  fetch-put q k v ((k', v') ∷ m) = elim (Bool-cases (kt.same k k')) [
    | inl e ↦ rw (e, kt.same-eq k k' e) (ground arith)
    | inr e ↦ elim (Bool-cases (kt.same q k')) [
      | inl f ↦
          rw (kt.same-eq q k' f)
            (ground (arith, e, kt.same_refl k', kt.same-eq k' k, kt.same_refl k))
      | inr f ↦ rw (e, f) (fetch-put q k v m)
    ]
  ]

  pub fetch-remove :
      (q k : K) (m : Map K V) → fetch q (remove k m) ≡ (if kt.same q k then none else fetch q m)
  unfolding remove
  fetch-remove q k [] = ground arith
  fetch-remove q k ((k', v') ∷ m) = elim (Bool-cases (kt.same k k')) [
    | inl e ↦ rw (e, fetch-remove q k m, kt.same-eq k k' e) (ground arith)
    | inr e ↦ elim (Bool-cases (kt.same q k')) [
      | inl f ↦
          rw (e, kt.same-eq q k' f)
            (ground (arith, e, kt.same_refl k', kt.same-eq k' k, kt.same_refl k))
      | inr f ↦ rw (e, f) (fetch-remove q k m)
    ]
  ]

module _ {ℓ} {A : Type ℓ} where
  abbrev pub update : (ℕ → A) → ℕ → A → ℕ → A
  update f i v j = if j == i then v else f j

  pub update_self : (f : ℕ → A) (i : ℕ) (v : A) → update f i v i ≡ v
  update_self f i v = rw ((==_iff i i).1 refl) refl

  pub update_twice : (f : ℕ → A) (i : ℕ) (v w : A) → update (update f i v) i w ≡ update f i w
  update_twice f i v w =
      fun_ext (λ j. elim (Bool-cases (j == i)) [ inl e ↦ rw e refl | inr e ↦ rw e refl ])

  pub update_same : (f : ℕ → A) (i : ℕ) → update f i (f i) ≡ f
  update_same f i = fun_ext (λ j. elim (Bool-cases (j == i)) [
    | inl e ↦ rw (e, (==_iff j i).0 e) refl
    | inr e ↦ rw e refl
  ])
