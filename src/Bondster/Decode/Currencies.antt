-- ===== src/Bondster/Decode/Currencies.antt =====
-- The currencies of a profile.
use bondster_bco.Base.{
  ◌∙◌, ◌≡◌, refl, ap, Bool, true, false, ◌||◌, List, [], ◌∷◌, arith, if◌then◌else◌, if_cases, All,
}
use bondster_bco.Base.Text.{Bytes, str_eq, eq_of_str_eq}
use bondster_bco.Base.Sorting.{str_lt, str_lt_trans, str_lt_total}
use bondster_bco.Bondster.Decode.{put, sorted_keys}

-- Each key comes before all later ones, so that none is there twice.
abbrev pub Ascending : List Bytes → Type 0
Ascending [] = Unit
Ascending (k ∷ ks) = All (λ j. str_lt k j ≡ true) ks × Ascending ks

-- Whether a key is in a list.
abbrev pub has_key : Bytes → List Bytes → Bool
has_key x [] = false
has_key x (y ∷ ys) = str_eq y x || has_key x ys

abbrev Above : Bytes → List Bytes → Type 0
Above x = All (λ j. str_lt x j ≡ true)

put-Above : (x k : Bytes) (js : List Bytes) → str_lt x k ≡ true → Above x js → Above x (put k js)
unfolding put
put-Above x k [] h a = (h, tt)
put-Above x k (j ∷ js) h a =
    if_cases (Above x) (str_lt k j) (k ∷ j ∷ js) (if str_lt j k then j ∷ put k js else j ∷ js)
      (λ _. (h, a))
      (λ _.
        if_cases (Above x) (str_lt j k) (j ∷ put k js) (j ∷ js) (λ _. (a.0, put-Above x k js h a.1))
          (λ _. a))

Above-trans : (x k : Bytes) (js : List Bytes) → str_lt x k ≡ true → Above k js → Above x js
Above-trans x k [] h a = tt
Above-trans x k (j ∷ js) h a = (str_lt_trans x k j h a.0, Above-trans x k js h a.1)

put-Ascending : (k : Bytes) (js : List Bytes) → Ascending js → Ascending (put k js)
unfolding put
put-Ascending k [] a = (tt, tt)
put-Ascending k (j ∷ js) a =
    if_cases Ascending (str_lt k j) (k ∷ j ∷ js) (if str_lt j k then j ∷ put k js else j ∷ js)
      (λ e. ((e, Above-trans k j js e a.0), a))
      (λ _.
        if_cases Ascending (str_lt j k) (j ∷ put k js) (j ∷ js)
          (λ e. (put-Above j k js e a.0, put-Ascending k js a.1)) (λ _. a))

has_key-put : (x k : Bytes) (js : List Bytes) → has_key x (put k js) ≡ (str_eq k x || has_key x js)
unfolding put
has_key-put x k [] = refl
has_key-put x k (j ∷ js) = ground (arith, has_key-put x k js, str_lt_total k j, eq_of_str_eq k j)

sorted_keys-Ascending : (ks : List Bytes) → Ascending (sorted_keys ks)
unfolding sorted_keys
sorted_keys-Ascending [] = tt
sorted_keys-Ascending (k ∷ ks) = put-Ascending k (sorted_keys ks) (sorted_keys-Ascending ks)

has_key-sorted_keys : (x : Bytes) (ks : List Bytes) → has_key x (sorted_keys ks) ≡ has_key x ks
unfolding sorted_keys
has_key-sorted_keys x [] = refl
has_key-sorted_keys x (k ∷ ks) =
    has_key-put x k (sorted_keys ks) ∙ ap (λ b. str_eq k x || b) (has_key-sorted_keys x ks)

-- The sorted keys of an object are its keys, in ascending order and without repetition.
pub sorted_keys_lem :
    (ks : List Bytes)
    → Ascending (sorted_keys ks) × ((x : Bytes) → has_key x (sorted_keys ks) ≡ has_key x ks)
sorted_keys_lem ks = (sorted_keys-Ascending ks, λ x. has_key-sorted_keys x ks)
