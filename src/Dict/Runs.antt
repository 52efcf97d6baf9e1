-- ===== src/Dict/Runs.antt =====
-- Runs of the dictionary of struct/dict.c, and its theorems at concrete inputs. The keys are
-- numbers that hash to themselves.
use mathlib.Core.List.{flatten}
use mathlib.Core.Option.{or_else}
use learnredis.Base.{
  sym, ap, ◌∙◌, ℕ, ◌*◌, ◌<◌, ◌≡◌, refl, Bool, true, false, not, ◌||◌, Option, none, some, List, [],
  ◌∷◌, ◌++◌, arith, ◌==◌, if◌then◌else◌, is_some, ◌>>=◌, replicate, ltb,
}
use learnredis.Dict.Chains
use learnredis.Dict.Chains.{DictType}
use learnredis.Dict.{
  empty_table, Status, Dict, dict_ok, dict_err, create, next_power_loop, next_power, expand,
  expand_if_needed, insert_at, move_chain, skip_empty, move_bucket, rehash_loop, rehash_from,
  rehash, rehash_step, search, search_both, find, free_index, index_after, key_index, link,
  link_new, add, edit, edit_second, edit_both, generic_delete, overwrite, replace, clear, slot,
  is_rehashing, dict_size,
}
use learnredis.Dict.Invariant.{IsDict, Keeps, view}
use learnredis.Dict.Edit.{Writes}
use learnredis.Dict.Sizes.{IsExpanded, expand-IsExpanded}
use learnredis.Dict.Rehash.{rehash-Keeps}
use learnredis.Dict.Lookup.{find-view}
use learnredis.Dict.Update.{add-Writes, generic_delete-Writes, IsSmall, add-Stores, replace-Stores}
use learnredis.Dict.Clear.{create-IsDict, clear-IsDict}

number_hash_compare : (a b : ℕ) → (a == b) ≡ true → a ≡ b
number_hash_compare a b h = ground arith

number_trans : (a b c : ℕ) → (a == b) ≡ true → (b == c) ≡ true → (a == c) ≡ true
number_trans a b c h k = ground arith

number_refl : (a : ℕ) → (a == a) ≡ true
number_refl a = ground arith

number_symm : (a b : ℕ) → (a == b) ≡ (b == a)
number_symm a b = ground arith

instance abbrev number_type : DictType ℕ
number_type = record {
  hash_function = λ a. a;
  key_compare = ◌==◌;
  key_dup = λ a. a;
  compare_refl = number_refl;
  compare_symm = number_symm;
  compare_trans = number_trans;
  hash-compare = number_hash_compare;
  compare-dup = number_refl;
}

-- What a run computes with.
program : Unit {0}
unfolding create next_power_loop next_power expand expand_if_needed insert_at move_chain skip_empty
    move_bucket rehash_loop rehash_from rehash rehash_step search search_both find free_index
    index_after key_index link link_new add edit edit_second edit_both generic_delete overwrite
    replace slot Chains.find Chains.unlink Chains.assign replicate
program = tt

abbrev add_all : List ℕ → Dict ℕ ℕ → Option (Dict ℕ ℕ)
add_all [] d = some d
add_all (k ∷ ks) d = add true k (k * 10) d >>= λ r. add_all ks r.0

abbrev five_keys : List ℕ
five_keys = 1 ∷ 5 ∷ 2 ∷ 9 ∷ 3 ∷ []

abbrev search_run : Option (Bool × Option ℕ)
search_run = do d ← add_all five_keys create; (d', r) ← find 5 d; some (is_rehashing d', r)

abbrev delete_run : Option (ℕ × Option ℕ)
delete_run = do
  d ← add_all five_keys create
  (d', _) ← generic_delete 5 d
  (_, r) ← find 5 d'
  some (dict_size d', r)

-- Five keys fill a table of four and start a rehash, which the later searches carry on.
find_through_rehash : search_run ≡ some (true, some 50)
unfolding program
find_through_rehash = refl

find_after_delete : delete_run ≡ some (4, none)
unfolding program
find_after_delete = refl

abbrev start : Dict ℕ ℕ
start = create

-- The key 7 in a table of four
abbrev one : Dict ℕ ℕ
one = record {
  ht0 = record {
    table = [] ∷ ([] ∷ ([] ∷ ((record { key = 7; val = 70 } ∷ []) ∷ [])));
    size = 4;
    sizemask = 3;
    used = 1;
  };
  ht1 = empty_table;
  rehashidx = none;
  iterators = 0;
}

one_lem : add true 7 70 start ≡ some (one, dict_ok)
unfolding program
one_lem = refl

first_of : Dict ℕ ℕ → Option (Dict ℕ ℕ × Status) → Dict ℕ ℕ
first_of d none = d
first_of d (some r) = r.0

one-IsDict : IsDict one
unfolding first_of
one-IsDict =
    let (d, run, w) = add-Writes true 7 70 start create-IsDict in
    let same : d ≡ one = ap (first_of start) (sym run ∙ one_lem) in rw same at w.valid

one-IsSmall : IsSmall one
one-IsSmall = record { first = omega arith; second = omega arith; entries = omega arith }

add-Stores_example :
    (d' : Dict ℕ ℕ) × (add true 3 30 one
      ≡ some (d', if is_some (view one 3) then dict_err else dict_ok))
    × Writes one d' 3 (or_else (view one 3) (some 30)) (if is_some (view one 3) then 0 else 1) 0
add-Stores_example = add-Stores true 3 30 one one-IsDict one-IsSmall

-- The five keys again, with the proof that the dictionary stays in order.
abbrev grow : List ℕ → (d : Dict ℕ ℕ) × IsDict d → (d : Dict ℕ ℕ) × IsDict d
grow [] s = s
grow (k ∷ ks) s = let r = add-Writes true k (k * 10) s.0 s.1 in grow ks (r.0, r.2.valid)

abbrev grown : (d : Dict ℕ ℕ) × IsDict d
grown = grow five_keys (start, create-IsDict)

abbrev sample : Dict ℕ ℕ
sample = grown.0

sample-IsDict : IsDict sample
sample-IsDict = grown.1

find-view_example : (d' : Dict ℕ ℕ) × (find 5 sample ≡ some (d', view sample 5)) × Keeps sample d'
find-view_example = find-view 5 sample sample-IsDict

rehash-Keeps_example :
    (d' : Dict ℕ ℕ) × (more : Bool) × (rehash 9 sample ≡ some (d', more))
    × Keeps sample d'
    × (more ≡ is_rehashing d')
    × (sample.ht0.size < 9 → more ≡ false)
rehash-Keeps_example = rehash-Keeps 9 sample sample-IsDict

generic_delete-Writes_example :
    (d' : Dict ℕ ℕ) × (generic_delete 5 sample
      ≡ some (d', if is_some (view sample 5) then dict_ok else dict_err))
    × Writes sample d' 5 none 0 (if is_some (view sample 5) then 1 else 0)
generic_delete-Writes_example = generic_delete-Writes 5 sample sample-IsDict

replace-Stores_example :
    (d' : Dict ℕ ℕ) × (replace true 7 71 one ≡ some (d', not (is_some (view one 7))))
    × Writes one d' 7 (some 71) (if is_some (view one 7) then 0 else 1) 0
replace-Stores_example = replace-Stores true 7 71 one one-IsDict one-IsSmall

expand-IsExpanded_example :
    Keeps sample (expand 64 sample).0
    × ((expand 64 sample).1
        ≡ (if is_rehashing sample || ltb 64 sample.ht0.used then dict_err else dict_ok))
    × IsExpanded 64 (expand 64 sample).1 sample (expand 64 sample).0
expand-IsExpanded_example = expand-IsExpanded sample 64 sample-IsDict (omega arith)

clear-IsDict_example :
    ((clear sample).1 ≡ flatten sample.ht0.table ++ flatten sample.ht1.table)
    × IsDict (clear sample).0
    × ((q : ℕ) → view (clear sample).0 q ≡ none)
clear-IsDict_example = clear-IsDict sample sample-IsDict
