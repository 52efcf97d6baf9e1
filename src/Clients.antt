-- ===== src/Clients.antt =====
-- Lists of clients under a key, as data/multi.c keeps them for the watched keys and wrapper/pubsub.c
-- for the channels. A client is the number that stands for its pointer.
use learnredis.Base.{
  ℕ, ◌+◌, ◌≡◌, ◌<◌, refl, sym, ap, ◌∙◌, inl, inr, Option, none, some, List, [], ◌∷◌, ◌++◌, arith,
  length, length-append, ◌==◌, if◌then◌else◌, ◌>>=◌, Bool-cases, KeyType, Map, fetch, put, remove,
  fetch-put, fetch-remove,
}

-- The list of clients under a key, or the new list that `listCreate` makes.
abbrev pub clients_of : Option (List ℕ) → List ℕ
clients_of none = []
clients_of (some l) = l

-- `listDelNode(clients, listSearchKey(clients, c))`
unfoldable pub delete_client : ℕ → List ℕ → Option (List ℕ)
delete_client c [] = none
delete_client c (d ∷ l) = if d == c then some l else (do l' ← delete_client c l; some (d ∷ l'))

unfoldable pub count : ℕ → List ℕ → ℕ
count c [] = 0
count c (d ∷ l) = (if d == c then 1 else 0) + count c l

pub live-append :
    (o : Option (List ℕ)) (l w : List ℕ) (c : ℕ)
    → o ≡ some (w ++ c ∷ [])
    → o ≡ some l
    → 0 < length l
live-append o l w c p q =
    omega (arith, length-append w (c ∷ []), ap (λ x. length (clients_of x)) (sym p ∙ q))

pub count-append :
    (c : ℕ) (l : List ℕ) (d : ℕ) → count c (l ++ d ∷ []) ≡ count c l + (if d == c then 1 else 0)
unfolding count
count-append c [] d = omega arith
count-append c (e ∷ l) d = rw (count-append c l d) (omega arith)

pub delete_client_lem :
    (c : ℕ) (l : List ℕ)
    → 0 < count c l
    → (left : List ℕ) × (delete_client c l ≡ some left)
      × ((d : ℕ) → count d left + (if d == c then 1 else 0) ≡ count d l)
unfolding count delete_client
delete_client_lem c [] h = absurd (omega arith)
delete_client_lem c (e ∷ l) h = elim (Bool-cases (e == c)) [
  | inl same ↦ (l, rw same refl, λ d. ground (arith, same))
  | inr other ↦
      let (left, eq, counts) = delete_client_lem c l (ground (arith, other)) in
      (e ∷ left, rw (other, eq) refl, λ d. ground (arith, counts d))
]

pub count-nil : (c : ℕ) → count c [] ≡ 0
unfolding count
count-nil c = refl

module _ {ℓ} {K : Type ℓ} ⦃kt : KeyType K⦄ where
  -- `if (listLength(clients) == 0) dictDelete(...)`
  unfoldable pub store_clients : K → List ℕ → Map K (List ℕ) → Map K (List ℕ)
  store_clients key [] m = remove key m
  store_clients key (d ∷ l) m = put key (d ∷ l) m

  pub fetch-store_clients :
      (q key : K) (left : List ℕ) (m : Map K (List ℕ))
      → clients_of (fetch q (store_clients key left m))
        ≡ (if kt.same q key then left else clients_of (fetch q m))
  unfolding store_clients
  fetch-store_clients q key [] m = rw (fetch-remove q key m) (ground arith)
  fetch-store_clients q key (d ∷ l) m = rw (fetch-put q key (d ∷ l) m) (ground arith)

  pub store_clients-live :
      (q key : K) (left l : List ℕ) (m : Map K (List ℕ))
      → ((l' : List ℕ) → fetch q m ≡ some l' → 0 < length l')
      → fetch q (store_clients key left m) ≡ some l
      → 0 < length l
  unfolding store_clients
  store_clients-live q key [] l m old h = elim (Bool-cases (kt.same q key)) [
    | inl e ↦ let no : none ≡ some l = sym (fetch-remove q key m ∙ rw e refl) ∙ h in cc
    | inr e ↦ old l (sym (fetch-remove q key m ∙ rw e refl) ∙ h)
  ]
  store_clients-live q key (d ∷ left) l m old h = elim (Bool-cases (kt.same q key)) [
    | inl e ↦
        let p : fetch q (put key (d ∷ left) m) ≡ some (d ∷ left) =
          fetch-put q key (d ∷ left) m ∙ rw e refl in
        omega (arith, ap (λ x. length (clients_of x)) (sym p ∙ h))
    | inr e ↦ old l (sym (fetch-put q key (d ∷ left) m ∙ rw e refl) ∙ h)
  ]
