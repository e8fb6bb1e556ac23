-- ===== src/Workflow/Parallel/Touched.antt =====
-- What the mark of a statement changes of the views of the goroutines.
use mathlib.Core.Path.{subst}
use bondster_bco.Base.{
  ◌≡◌, ◌≢◌, refl, sym, ap, ◌∙◌, Bool, true, false, Option, none, some, List, inl, inr, Bool-cases,
}
use bondster_bco.Base.Text.{Bytes, codes, Lacks, str_eq, eq_of_str_eq, str_eq_refl, strip_prefix}
use bondster_bco.Storage.{Storage, StorageLaws, TouchLaws}
use bondster_bco.Workflow.{statements_path, data_path}
use bondster_bco.Workflow.Parallel.Views.{
  View, marked_path, while_unlisted, of_name, mark, seen_of, of_name-Lacks, of_name_cong,
}
use bondster_bco.Workflow.Parallel.Apart.{other_list, other_mark, other_data, own_mark, own_data}

View_eq :
    {n m : Option (List Bytes)} {a b : Bytes → Option Bool} {x y : Bytes → Option Bytes}
    → n ≡ m
    → ((j : Bytes) → a j ≡ b j)
    → ((j : Bytes) → x j ≡ y j)
    → ◌≡◌ {A = View}
        (record { names = n; acked = a; text = x })
        (record { names = m; acked = b; text = y })
View_eq p q r = λ i. record { names = p i; acked = λ j. q j i; text = λ j. r j i }

module _ (s : Storage) (laws : StorageLaws s) (touches : TouchLaws s)
    (written : (d : s.Disk) (p : Bytes) → (s.touch_file d p).1 ≡ true) (name t : Bytes) where
  -- The mark of a statement in its own view.
  mark_acked :
      (c id : Bytes) (d : s.Disk)
      → Lacks b'/' id
      → (j : Bytes)
      → of_name j (s.exists (s.touch_file d (marked_path name t c id)).0 (marked_path name t c j))
        ≡ mark id (λ j. of_name j (s.exists d (marked_path name t c j))) j
  unfolding mark
  mark_acked c id d h j = elim (Bool-cases (str_eq id j)) [
    | inl e ↦ rw e (
        subst
          (λ k.
            of_name k
              (s.exists (s.touch_file d (marked_path name t c id)).0 (marked_path name t c k))
            ≡ some true)
          (eq_of_str_eq id j e)
          (of_name-Lacks id _ h
            ∙ laws.touch_exists d (marked_path name t c id) (written d (marked_path name t c id))))
    | inr e ↦ rw e (
        of_name_cong j _ _ λ k.
          touches.exists_apart d (marked_path name t c id) (marked_path name t c j)
            (own_mark name t c id j h k (λ r. cc (str_eq_refl j))))
  ]

  pub own_touch :
      (c id : Bytes) (d : s.Disk)
      → strip_prefix (codes "data") name ≡ none
      → Lacks b'/' id
      → let x = seen_of s name t c false d in
        seen_of s name t c false (s.touch_file d (marked_path name t c id)).0
        ≡ record x { acked = mark id x.acked }
  unfolding seen_of while_unlisted
  own_touch c id d apart h = View_eq refl (mark_acked c id d h) (λ j. of_name_cong j _ _ λ k.
      touches.read_apart d (marked_path name t c id) (data_path t c j)
        (own_data name t c id j h k apart))

  pub other_touch :
      (c e id : Bytes) (unlisted : Bool) (d : s.Disk)
      → Lacks b'/' c
      → Lacks b'/' e
      → c ≢ e
      → seen_of s name t e unlisted (s.touch_file d (marked_path name t c id)).0
        ≡ seen_of s name t e unlisted d
  unfolding seen_of
  other_touch c e id unlisted d h k ne =
      let apart : e ≢ c = λ r. ne (sym r) in
      View_eq
        (ap (while_unlisted unlisted) (
          touches.list_apart d (marked_path name t c id) (statements_path t e)
            (other_list name t c e h k apart id)))
        (λ j. ap (of_name j) (
          touches.exists_apart d (marked_path name t c id) (marked_path name t e j)
            (other_mark name t c e h k apart id j)))
        (λ j. ap (of_name j) (
          touches.read_apart d (marked_path name t c id) (data_path t e j)
            (other_data name t c e h k apart id j)))
