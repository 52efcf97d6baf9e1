-- ===== src/Dict/Chains.antt =====
-- The chains of struct/dict.h and struct/dict.c: the lists of entries that hang from a bucket.
-- A chain is the list of the entries that `next` leads to. `DictType` holds the functions of
-- `dictType`, which the users of a dictionary supply (no user
-- supplies a `valDup`, so a value is stored as it is given), and what the dictionary relies on: keys are
-- compared by an equivalence that the hash function respects, and a copied key is an equal key.
use learnredis.Base.{
  ℕ, ◌+◌, ◌≤◌, ◌≡◌, refl, Bool, true, false, Option, none, some, List, [], ◌∷◌, arith, length, All,
  if◌then◌else◌,
}

pub record DictType {ℓ} (K : Type ℓ) : Type ℓ where
  pub hash_function : K → ℕ
  pub key_compare : K → K → Bool
  pub key_dup : K → K
  pub compare_refl : (a : K) → key_compare a a ≡ true
  pub compare_symm : (a b : K) → key_compare a b ≡ key_compare b a
  pub compare_trans :
      (a b c : K) → key_compare a b ≡ true → key_compare b c ≡ true → key_compare a c ≡ true
  pub hash-compare : (a b : K) → key_compare a b ≡ true → hash_function a ≡ hash_function b
  pub compare-dup : (a : K) → key_compare a (key_dup a) ≡ true

pub record Entry {ℓ} (K V : Type ℓ) : Type ℓ where
  pub key : K
  pub val : V

abbrev pub Chain {ℓ} : Type ℓ → Type ℓ → Type ℓ
Chain K V = List (Entry K V)

module _ {ℓ} {K : Type ℓ} ⦃dt : DictType K⦄ where
  infix 50 ◌≈◌
  abbrev pub ◌≈◌ : K → K → Bool
  a ≈ b = dt.key_compare a b

  pub ≈_left : (a b c : K) → (a ≈ b) ≡ true → (a ≈ c) ≡ (b ≈ c)
  ≈_left a b c e =
      ground (arith, dt.compare_symm a b, dt.compare_trans a b c, dt.compare_trans b a c)

  pub ≈_right : (a b c : K) → (b ≈ c) ≡ true → (a ≈ b) ≡ (a ≈ c)
  ≈_right a b c e =
      ground (arith, dt.compare_symm b c, dt.compare_trans a b c, dt.compare_trans a c b)

  pub ≈-dup : (q k : K) → (q ≈ dt.key_dup k) ≡ (q ≈ k)
  ≈-dup q k = ground (arith, ≈_right q k (dt.key_dup k), dt.compare-dup k)

module _ {ℓ} {K V : Type ℓ} ⦃dt : DictType K⦄ where
  -- The loop `while(he) { if (dictCompareKeys(d, key, he->key)) ...; he = he->next; }`.
  unfoldable pub find : K → Chain K V → Option V
  find k [] = none
  find k (he ∷ next) = if k ≈ he.key then some he.val else find k next

  -- The same loop, which unlinks the entry that it finds.
  unfoldable pub unlink : K → Chain K V → Chain K V
  unlink k [] = []
  unlink k (he ∷ next) = if k ≈ he.key then next else he ∷ unlink k next

  -- `dictSetVal` at the entry that the loop finds.
  unfoldable pub assign : K → V → Chain K V → Chain K V
  assign k v [] = []
  assign k v (he ∷ next) = if k ≈ he.key then record he { val = v } ∷ next else he ∷ assign k v next

  -- How many entries of a chain have the key.
  unfoldable pub count : K → Chain K V → ℕ
  count q [] = 0
  count q (he ∷ next) = (if q ≈ he.key then 1 else 0) + count q next

  pub find-eq-none : (q : K) (c : Chain K V) → count q c ≡ 0 → find q c ≡ none
  unfolding count find
  find-eq-none q [] h = refl
  find-eq-none q (he ∷ next) h = ground (arith, find-eq-none q next)

  pub count-eq-zero : (q : K) (c : Chain K V) → find q c ≡ none → count q c ≡ 0
  unfolding count find
  count-eq-zero q [] h = refl
  count-eq-zero q (he ∷ next) h = ground (arith, count-eq-zero q next)

  pub count_congr : (q k : K) (c : Chain K V) → (q ≈ k) ≡ true → count q c ≡ count k c
  unfolding count
  count_congr q k [] h = refl
  count_congr q k (he ∷ next) h = ground (arith, count_congr q k next, ≈_left q k he.key)

  pub find_congr : (q k : K) (c : Chain K V) → (q ≈ k) ≡ true → find q c ≡ find k c
  unfolding find
  find_congr q k [] h = refl
  find_congr q k (he ∷ next) h = ground (arith, find_congr q k next, ≈_left q k he.key)

  pub count-unlink : (q k : K) (c : Chain K V) → count q (unlink k c) ≤ count q c
  unfolding count unlink
  count-unlink q k [] = omega arith
  count-unlink q k (he ∷ next) = ground (arith, count-unlink q k next)

  pub find-unlink :
      (q k : K) (c : Chain K V)
      → count q c ≤ 1
      → find q (unlink k c) ≡ (if q ≈ k then none else find q c)
  unfolding count unlink find
  find-unlink q k [] h = ground arith
  find-unlink q k (he ∷ next) h =
      ground
        (arith, find-unlink q k next, find-eq-none q next, ≈_left q k he.key, ≈_right q k he.key)

  pub length-unlink :
      (k : K) (c : Chain K V) (v : V) → find k c ≡ some v → length (unlink k c) + 1 ≡ length c
  unfolding unlink find
  length-unlink k [] v h = ground arith
  length-unlink k (he ∷ next) v h = ground (arith, length-unlink k next v)

  pub count-assign : (q k : K) (v : V) (c : Chain K V) → count q (assign k v c) ≡ count q c
  unfolding count assign
  count-assign q k v [] = refl
  count-assign q k v (he ∷ next) = ground (arith, count-assign q k v next)

  pub find-assign :
      (q k : K) (v w : V) (c : Chain K V)
      → find k c ≡ some w
      → find q (assign k v c) ≡ (if q ≈ k then some v else find q c)
  unfolding assign find
  find-assign q k v w [] h = ground arith
  find-assign q k v w (he ∷ next) h =
      ground (arith, find-assign q k v w next, ≈_left q k he.key, ≈_right q k he.key)

  pub length-assign : (k : K) (v : V) (c : Chain K V) → length (assign k v c) ≡ length c
  unfolding assign
  length-assign k v [] = refl
  length-assign k v (he ∷ next) = ground (arith, length-assign k v next)

  module _ {κ} (P : K → Type κ) where
    pub All-unlink :
        (k : K) (c : Chain K V) → All (λ he. P he.key) c → All (λ he. P he.key) (unlink k c)
    unfolding unlink
    All-unlink k [] h = h
    All-unlink k (he ∷ next) h =
        elim (k ≈ he.key) as (λ b. All (λ f. P f.key) (if b then next else he ∷ unlink k next)) [
          | true ↦ h.1
          | false ↦ (h.0, All-unlink k next h.1)
        ]

    pub All-assign :
        (k : K) (v : V) (c : Chain K V)
        → All (λ he. P he.key) c
        → All (λ he. P he.key) (assign k v c)
    unfolding assign
    All-assign k v [] h = h
    All-assign k v (he ∷ next) h =
        elim (k ≈ he.key)
          as (λ b.
            All (λ f. P f.key) (if b then record he { val = v } ∷ next else he ∷ assign k v next)) [
              | true ↦ h
              | false ↦ (h.0, All-assign k v next h.1)
            ]
