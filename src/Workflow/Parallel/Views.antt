-- ===== src/Workflow/Parallel/Views.antt =====
-- What a goroutine of the workflow reads of a storage, and what of it the mark of a statement, by
-- this goroutine or by another, changes.
use bondster_bco.Base.{
  ◌≡◌, refl, Bool, true, false, Option, none, some, List, [], ◌∷◌, ◌++◌, arith, inl, inr,
  Bool-cases, if◌then◌else◌, ◌||◌, ◌==◌,
}
use bondster_bco.Base.Text.{Bytes, Lacks, str_eq}
use bondster_bco.Storage.{Storage}
use bondster_bco.Workflow.{statements_path, statement_path, data_path}

-- The file of a statement that says that it has been dealt with.
abbrev pub marked_path : Bytes → Bytes → Bytes → Bytes → Bytes
marked_path name token_id currency id = statement_path token_id currency id ++ b'/' ∷ name

-- What a goroutine reads: the names in its directory before it has listed them, and the two files
-- of a name.
pub record View : Type 0 where
  pub names : Option (List Bytes)
  pub acked : Bytes → Option Bool
  pub text : Bytes → Option Bytes

-- The names are seen until they have been listed.
unfoldable pub while_unlisted : Bool → Option (List Bytes) → Option (List Bytes)
while_unlisted true names = names
while_unlisted false names = none

has_slash : Bytes → Bool
has_slash [] = false
has_slash (c ∷ s) = c == b'/' || has_slash s

-- A name with a slash is none.
unfoldable pub of_name {ℓ} : {A : Type ℓ} → Bytes → Option A → Option A
unfolding has_slash
of_name id o = if has_slash id then none else o

unfoldable pub mark : Bytes → (Bytes → Option Bool) → Bytes → Option Bool
mark id acked j = if str_eq id j then some true else acked j

has_slash-Lacks : (s : Bytes) → has_slash s ≡ false → Lacks b'/' s
unfolding has_slash
has_slash-Lacks [] h = tt
has_slash-Lacks (c ∷ s) h = ground (arith, has_slash-Lacks s)

Lacks-has_slash : (s : Bytes) → Lacks b'/' s → has_slash s ≡ false
unfolding has_slash
Lacks-has_slash [] h = refl
Lacks-has_slash (c ∷ s) h = ground (arith, Lacks-has_slash s)

pub of_name-Lacks {ℓ} : {A : Type ℓ} (id : Bytes) (o : Option A) → Lacks b'/' id → of_name id o ≡ o
unfolding of_name
of_name-Lacks id o h = rw (Lacks-has_slash id h)

-- What agrees if the name has no slash agrees.
pub of_name_cong {ℓ} :
    {A : Type ℓ} (j : Bytes) (x y : Option A) → (Lacks b'/' j → x ≡ y) → of_name j x ≡ of_name j y
unfolding of_name
of_name_cong j x y same = elim (Bool-cases (has_slash j)) [
  | inl e ↦ rw e refl
  | inr e ↦ rw e (same (has_slash-Lacks j e))
]

unfoldable pub seen_of : (s : Storage) → Bytes → Bytes → Bytes → Bool → s.Disk → View
seen_of s name token_id c unlisted d = record {
  names = while_unlisted unlisted (s.list_directory d (statements_path token_id c));
  acked = λ id. of_name id (s.exists d (marked_path name token_id c id));
  text = λ id. of_name id (s.read_file_fully d (data_path token_id c id));
}
