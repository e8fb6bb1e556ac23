-- ===== src/Storage/Memory.antt =====
-- A storage in memory that meets the laws: files by their paths, a directory as an empty file.
use mathlib.Core.Path.{subst}
use bondster_bco.Base.{
  ◌≡◌, refl, Bool, true, false, ◌||◌, none, some, List, [], ◌∷◌, ◌++◌, arith, is_some,
  if◌then◌else◌, ◌==◌, All, if_cases, Option-cases, inl, inr,
}
use bondster_bco.Base.Text.{Bytes, codes, str_eq, str_eq_refl, strip_prefix, Lacks, eq_of_str_eq}
use bondster_bco.Base.Dict.{Dict, lookup, insert, lookup-insert}
use bondster_bco.Storage.{Storage, StorageLaws, TouchLaws}

abbrev pub Files : Type 0
Files = Dict Bytes

-- The name up to the next slash.
segment : Bytes → Bytes
segment [] = []
segment (c ∷ s) = let rest = segment s in if c == b'/' then [] else c ∷ rest

member : Bytes → List Bytes → Bool
member x [] = false
member x (y ∷ ys) = str_eq x y || member x ys

add_new : Bytes → List Bytes → List Bytes
add_new x ys = if member x ys then ys else x ∷ ys

-- The names right below a directory.
unfoldable pub children : Bytes → Files → List Bytes
unfolding segment member add_new strip_prefix
children p [] = []
children p ((j, v) ∷ m) =
    let rest = children p m in
    elim (strip_prefix (p ++ codes "/") j) [
      | some below ↦ add_new (segment below) rest
      | none ↦ rest
    ]

unfoldable pub remove_under : Bytes → Files → Files
unfolding strip_prefix
remove_under p [] = []
remove_under p ((j, v) ∷ m) =
    let rest = remove_under p m in
    if str_eq j p || is_some (strip_prefix (p ++ codes "/") j) then rest else (j, v) ∷ rest

unfoldable pub in_files : Files → Bytes → Bool
in_files d p = is_some (lookup p d)

unfoldable pub write_new : Files → Bytes → Bytes → Files × Bool
write_new d p v = if in_files d p then (d, false) else (insert p v d, true)

unfoldable pub touch : Files → Bytes → Files × Bool
touch d p = if in_files d p then (d, true) else (insert p [] d, true)

abbrev pub memory : Storage
memory = record {
  Disk = Files;
  exists = λ d p. some (in_files d p);
  list_directory = λ d p. some (children p d);
  read_file_fully = λ d p. lookup p d;
  write_file = λ d p v. (insert p v d, true);
  write_file_exclusive = write_new;
  touch_file = touch;
  mkdir = touch;
  delete = λ d p. (remove_under p d, true);
}

lookup-remove_under : (p : Bytes) (d : Files) → lookup p (remove_under p d) ≡ none
unfolding lookup remove_under
lookup-remove_under p [] = refl
lookup-remove_under p ((j, v) ∷ m) = ground (arith, lookup-remove_under p m)

lookup-insert_self : (p v : Bytes) (d : Files) → lookup p (insert p v d) ≡ some v
lookup-insert_self p v d = rw (lookup-insert p p v d, str_eq_refl p)

pub memory_laws : StorageLaws memory
unfolding write_new touch in_files
memory_laws = record {
  write_exists = λ d p v h. ground (arith, lookup-insert_self p v d);
  write_read = λ d p v h. ground (arith, lookup-insert_self p v d);
  write_fresh = λ d p v h. ground arith;
  touch_exists = λ d p h. ground (arith, lookup-insert_self p [] d);
  touch_keeps = λ d p q h. ground (arith, lookup-insert p q [] d);
  delete_gone = λ d p h. rw (lookup-remove_under p d);
  delete_failed = λ d p h. cc;
}

str_eq-apart : (p q : Bytes) → strip_prefix q p ≡ none → str_eq p q ≡ false
unfolding strip_prefix
str_eq-apart [] [] h = cc
str_eq-apart [] (b ∷ q) h = refl
str_eq-apart (a ∷ p) [] h = refl
str_eq-apart (a ∷ p) (b ∷ q) h = ground (arith, str_eq-apart p q)

lookup-touch :
    (d : Files) (p q : Bytes) → strip_prefix q p ≡ none → lookup q (touch d p).0 ≡ lookup q d
unfolding touch
lookup-touch d p q h = ground (arith, lookup-insert p q [] d, str_eq-apart p q h)

children-insert :
    (d : Files) (p q : Bytes)
    → strip_prefix (q ++ codes "/") p ≡ none
    → children q (insert p [] d) ≡ children q d
unfolding children insert
children-insert [] p q h = rw (h, children) refl
children-insert ((j, v) ∷ m) p q h = ground (arith, children-insert m p q h, eq_of_str_eq j p)

children-touch :
    (d : Files) (p q : Bytes)
    → strip_prefix (q ++ codes "/") p ≡ none
    → children q (touch d p).0 ≡ children q d
unfolding touch
children-touch d p q h = ground (arith, children-insert d p q h)

segment-Lacks : (s : Bytes) → Lacks b'/' (segment s)
unfolding segment
segment-Lacks [] = tt
segment-Lacks (c ∷ s) = ground (arith, segment-Lacks s)

add_new-Lacks :
    (x : Bytes) (ys : List Bytes)
    → Lacks b'/' x
    → All (Lacks b'/') ys
    → All (Lacks b'/') (add_new x ys)
unfolding add_new
add_new-Lacks x ys h k =
    if_cases (All (Lacks b'/')) (member x ys) ys (x ∷ ys) (λ q. k) (λ q. (h, k))

children-Lacks : (p : Bytes) (d : Files) → All (Lacks b'/') (children p d)
unfolding children
children-Lacks p [] = tt
children-Lacks p ((j, v) ∷ m) = elim (Option-cases (strip_prefix (p ++ codes "/") j)) [
  | inl q ↦ rw (q, children) (children-Lacks p m)
  | inr (below, q) ↦
      rw (q, children)
        (add_new-Lacks (segment below) (children p m) (segment-Lacks below) (children-Lacks p m))
]

pub memory_touch_laws : TouchLaws memory
unfolding in_files
memory_touch_laws = record {
  exists_apart = λ d p q h. rw (lookup-touch d p q h);
  read_apart = λ d p q h. lookup-touch d p q h;
  list_apart = λ d p q h. rw (children-touch d p q h);
  list_names =
      λ d p h. let e : children p d ≡ _ = cc in subst (All (Lacks b'/')) e (children-Lacks p d);
}

pub memory_touches : (d : Files) (p : Bytes) → (touch d p).1 ≡ true
unfolding touch
memory_touches d p = ground arith
