-- ===== src/Base/Bytes.antt =====
-- Blocks of memory as lists of bytes: little-endian words, `memmove` and `realloc` of the C library.
use native.Mathlib.Nat.{pow-suc}
use Prim.Native.Nat.{ℕ, zero, suc, ◌+◌, ◌-◌, ◌*◌, ◌/◌, ◌%◌, ◌^◌, ◌≤◌, ◌<◌}
use mathlib.Core.Path.{◌≡◌, refl, sym, ap, ◌∙◌}
use mathlib.Core.Logic.{◌⊎◌, inl, inr}
use mathlib.Core.List.{List, [], ◌∷◌, ◌++◌}
use native.Mathlib.Omega.{arith}
use learnredis.Base.Tests.{ltb, Bool-cases}
use learnredis.Base.Lists.{
  length, get_or, set, take, drop, length-set, length-append, get_or-set_self, get_or-set_ne,
}

-- The word of `w` bytes at `off`, the lowest byte first
unfoldable pub read_word : List ℕ → ℕ → ℕ → ℕ
read_word b off zero = 0
read_word b off (suc w) = get_or b off 0 + 256 * read_word b (off + 1) w

unfoldable pub write_word : List ℕ → ℕ → ℕ → ℕ → List ℕ
write_word b off zero v = b
write_word b off (suc w) v = set (write_word b (off + 1) w (v / 256)) off (v % 256)

-- What `memmove(b + dst, b + src, n)` leaves
unfoldable pub memmove : List ℕ → ℕ → ℕ → ℕ → List ℕ
memmove b dst src n = take dst b ++ (take n (drop src b) ++ drop (dst + n) b)

-- `realloc` to `n` bytes; the bytes that are new are `fresh`, whatever they are.
unfoldable pub realloc : (ℕ → ℕ) → ℕ → List ℕ → List ℕ
realloc fresh zero b = []
realloc fresh (suc n) [] = (fresh n % 256) ∷ realloc fresh n []
realloc fresh (suc n) (x ∷ b) = x ∷ realloc fresh n b

abbrev pub AreBytes : List ℕ → Type 0
AreBytes b = (i : ℕ) → get_or b i 0 < 256

pub length-write_word : (b : List ℕ) (off w v : ℕ) → length (write_word b off w v) ≡ length b
unfolding write_word
length-write_word b off zero v = refl
length-write_word b off (suc w) v =
    length-set (write_word b (off + 1) w (v / 256)) off (v % 256)
    ∙ length-write_word b (off + 1) w (v / 256)

pub get_or-write_word :
    (b : List ℕ) (off w v i : ℕ)
    → (i < off) ⊎ (off + w ≤ i)
    → get_or (write_word b off w v) i 0 ≡ get_or b i 0
unfolding write_word
get_or-write_word b off zero v i h = refl
get_or-write_word b off (suc w) v i h =
    get_or-set_ne (write_word b (off + 1) w (v / 256)) off i (v % 256) 0
      (λ e. elim h [ inl l ↦ omega arith | inr r ↦ omega arith ])
    ∙ get_or-write_word b (off + 1) w (v / 256) i
        (elim h [ inl l ↦ inl (omega arith) | inr r ↦ inr (omega arith) ])

-- Equal bytes make equal words, wherever they stand.
pub read_word_congr :
    (b b' : List ℕ) (off off' w : ℕ)
    → ((k : ℕ) → k < w → get_or b (off + k) 0 ≡ get_or b' (off' + k) 0)
    → read_word b off w ≡ read_word b' off' w
unfolding read_word
read_word_congr b b' off off' zero h = refl
read_word_congr b b' off off' (suc w) h =
    let first : get_or b off 0 ≡ get_or b' off' 0 =
      ap (λ i. get_or b i 0) (omega arith)
      ∙ h 0 (omega arith)
      ∙ ap (λ i. get_or b' i 0) (omega arith) in
    let rest = read_word_congr b b' (off + 1) (off' + 1) w (λ k l.
      ap (λ i. get_or b i 0) (omega arith)
      ∙ h (k + 1) (omega arith)
      ∙ ap (λ i. get_or b' i 0) (omega arith)) in
    omega (arith, first, rest)

pub read_word-write_word :
    (b : List ℕ) (off w v : ℕ)
    → off + w ≤ length b
    → v < 256 ^ w
    → read_word (write_word b off w v) off w ≡ v
unfolding read_word write_word
read_word-write_word b off zero v fits h = omega arith
read_word-write_word b off (suc w) v fits h =
    let b' = write_word b (off + 1) w (v / 256) in
    let first =
      get_or-set_self b' off (v % 256) 0
        (omega (arith, length-write_word b (off + 1) w (v / 256))) in
    let rest =
      read_word_congr (set b' off (v % 256)) b' (off + 1) (off + 1) w
        (λ k l. get_or-set_ne b' off (off + 1 + k) (v % 256) 0 (λ e. omega arith)) in
    let ih =
      read_word-write_word b (off + 1) w (v / 256) (omega arith) (omega (arith, pow-suc 256 w)) in
    omega (arith, first, rest, ih)

pub read_word-lt : (b : List ℕ) (off w : ℕ) → AreBytes b → read_word b off w < 256 ^ w
unfolding read_word
read_word-lt b off zero h = omega arith
read_word-lt b off (suc w) h = omega (arith, h off, read_word-lt b (off + 1) w h, pow-suc 256 w)

pub set-AreBytes : (b : List ℕ) (i v : ℕ) → v < 256 → AreBytes b → AreBytes (set b i v)
set-AreBytes [] i v l h j = h j
set-AreBytes (x ∷ b) zero v l h zero = l
set-AreBytes (x ∷ b) zero v l h (suc j) = h (suc j)
set-AreBytes (x ∷ b) (suc i) v l h zero = h 0
set-AreBytes (x ∷ b) (suc i) v l h (suc j) = set-AreBytes b i v l (λ k. h (suc k)) j

pub write_word-AreBytes : (b : List ℕ) (off w v : ℕ) → AreBytes b → AreBytes (write_word b off w v)
unfolding write_word
write_word-AreBytes b off zero v h = h
write_word-AreBytes b off (suc w) v h =
    set-AreBytes (write_word b (off + 1) w (v / 256)) off (v % 256) (omega arith)
      (write_word-AreBytes b (off + 1) w (v / 256) h)

suc_plus : (n i : ℕ) → suc n + i ≡ suc (n + i)
suc_plus n i = omega arith

length-take_le : (n : ℕ) (b : List ℕ) → n ≤ length b → length (take n b) ≡ n
length-take_le zero b h = refl
length-take_le (suc n) [] h = absurd (omega arith)
length-take_le (suc n) (x ∷ b) h = ap suc (length-take_le n b (omega arith))

length-drop : (n : ℕ) (b : List ℕ) → length (drop n b) ≡ length b - n
length-drop zero b = omega arith
length-drop (suc n) [] = omega arith
length-drop (suc n) (x ∷ b) = omega (arith, length-drop n b)

get_or-take : (n : ℕ) (b : List ℕ) (i : ℕ) → i < n → get_or (take n b) i 0 ≡ get_or b i 0
get_or-take zero b i h = absurd (omega arith)
get_or-take (suc n) [] i h = refl
get_or-take (suc n) (x ∷ b) zero h = refl
get_or-take (suc n) (x ∷ b) (suc i) h = get_or-take n b i (omega arith)

get_or-drop : (n : ℕ) (b : List ℕ) (i : ℕ) → get_or (drop n b) i 0 ≡ get_or b (n + i) 0
get_or-drop zero b i = ap (λ k. get_or b k 0) (omega arith)
get_or-drop (suc n) [] i = refl
get_or-drop (suc n) (x ∷ b) i =
    get_or-drop n b i ∙ ap (λ k. get_or (x ∷ b) k 0) (sym (suc_plus n i))

get_or-append_left : (a b : List ℕ) (i : ℕ) → i < length a → get_or (a ++ b) i 0 ≡ get_or a i 0
get_or-append_left [] b i h = absurd (omega arith)
get_or-append_left (x ∷ a) b zero h = refl
get_or-append_left (x ∷ a) b (suc i) h = get_or-append_left a b i (omega arith)

get_or-append_right : (a b : List ℕ) (i : ℕ) → get_or (a ++ b) (length a + i) 0 ≡ get_or b i 0
get_or-append_right [] b i = ap (λ k. get_or b k 0) (omega arith)
get_or-append_right (x ∷ a) b i =
    ap (λ k. get_or (x ∷ (a ++ b)) k 0) (suc_plus (length a) i) ∙ get_or-append_right a b i

module _ (b : List ℕ) (dst src n : ℕ) (to : dst + n ≤ length b) (from : src + n ≤ length b) where
  moved_length : length (take n (drop src b)) ≡ n
  moved_length = length-take_le n (drop src b) (omega (arith, length-drop src b))

  pub length-memmove : length (memmove b dst src n) ≡ length b
  unfolding memmove
  length-memmove = omega (
    arith,
    length-append (take dst b) (take n (drop src b) ++ drop (dst + n) b),
    length-append (take n (drop src b)) (drop (dst + n) b),
    moved_length,
    length-take_le dst b (omega arith),
    length-drop (dst + n) b,
  )

  pub memmove_before : (i : ℕ) → i < dst → get_or (memmove b dst src n) i 0 ≡ get_or b i 0
  unfolding memmove
  memmove_before i h =
      get_or-append_left (take dst b) (take n (drop src b) ++ drop (dst + n) b) i
        (omega (arith, length-take_le dst b (omega arith)))
      ∙ get_or-take dst b i h

  after_dst :
      (i : ℕ)
      → get_or (memmove b dst src n) (dst + i) 0
        ≡ get_or (take n (drop src b) ++ drop (dst + n) b) i 0
  unfolding memmove
  after_dst i =
      ap (λ k. get_or (memmove b dst src n) (k + i) 0) (sym (length-take_le dst b (omega arith)))
      ∙ get_or-append_right (take dst b) (take n (drop src b) ++ drop (dst + n) b) i

  pub memmove_inside :
      (i : ℕ) → i < n → get_or (memmove b dst src n) (dst + i) 0 ≡ get_or b (src + i) 0
  memmove_inside i h =
      after_dst i
      ∙ get_or-append_left (take n (drop src b)) (drop (dst + n) b) i (omega (arith, moved_length))
      ∙ get_or-take n (drop src b) i h
      ∙ get_or-drop src b i

  pub memmove_after :
      (i : ℕ) → get_or (memmove b dst src n) (dst + n + i) 0 ≡ get_or b (dst + n + i) 0
  memmove_after i =
      ap (λ k. get_or (memmove b dst src n) k 0) (omega arith)
      ∙ after_dst (n + i)
      ∙ ap (λ k. get_or (take n (drop src b) ++ drop (dst + n) b) (k + i) 0) (sym moved_length)
      ∙ get_or-append_right (take n (drop src b)) (drop (dst + n) b) i
      ∙ get_or-drop (dst + n) b i

  pub memmove-AreBytes : AreBytes b → AreBytes (memmove b dst src n)
  memmove-AreBytes h i = elim (Bool-cases (ltb i dst)) [
    | inl e ↦ omega (arith, h i, memmove_before i (ground (arith, e)))
    | inr e ↦ elim (Bool-cases (ltb (i - dst) n)) [
      | inl f ↦
          let p : i ≡ dst + (i - dst) = ground (arith, e) in
          rw p (omega (arith, h (src + (i - dst)), memmove_inside (i - dst) (ground (arith, f))))
      | inr f ↦
          let p : i ≡ dst + n + (i - dst - n) = ground (arith, e, f) in
          rw p (omega (arith, h (dst + n + (i - dst - n)), memmove_after (i - dst - n)))
    ]
  ]

pub length-realloc : (fresh : ℕ → ℕ) (n : ℕ) (b : List ℕ) → length (realloc fresh n b) ≡ n
unfolding realloc
length-realloc fresh zero b = refl
length-realloc fresh (suc n) [] = ap suc (length-realloc fresh n [])
length-realloc fresh (suc n) (x ∷ b) = ap suc (length-realloc fresh n b)

pub get_or-realloc :
    (fresh : ℕ → ℕ) (n : ℕ) (b : List ℕ) (i : ℕ)
    → i < n
    → i < length b
    → get_or (realloc fresh n b) i 0 ≡ get_or b i 0
unfolding realloc
get_or-realloc fresh zero b i h k = absurd (omega arith)
get_or-realloc fresh (suc n) [] i h k = absurd (omega arith)
get_or-realloc fresh (suc n) (x ∷ b) zero h k = refl
get_or-realloc fresh (suc n) (x ∷ b) (suc i) h k =
    get_or-realloc fresh n b i (omega arith) (omega arith)

pub realloc-AreBytes :
    (fresh : ℕ → ℕ) (n : ℕ) (b : List ℕ) → AreBytes b → AreBytes (realloc fresh n b)
unfolding realloc
realloc-AreBytes fresh zero b h i = omega arith
realloc-AreBytes fresh (suc n) [] h zero = omega arith
realloc-AreBytes fresh (suc n) [] h (suc i) = realloc-AreBytes fresh n [] h i
realloc-AreBytes fresh (suc n) (x ∷ b) h zero = h 0
realloc-AreBytes fresh (suc n) (x ∷ b) h (suc i) = realloc-AreBytes fresh n b (λ k. h (suc k)) i
