-- ===== src/Workflow/Parallel/Apart.antt =====
-- The paths of different currencies, and of different statements, are not on the way to each other.
use bondster_bco.Base.{
  ◌≡◌, ◌≢◌, refl, none, [], ◌∷◌, ◌++◌, ◌==◌, arith, append_assoc, ◌∙◌, ℕ, Bool-cases, inl, inr,
  ==_iff,
}
use bondster_bco.Base.Text.{Bytes, codes, Lacks, strip_prefix, str_eq, eq_of_str_eq, str_eq_refl}
use bondster_bco.Workflow.Parallel.Views.{marked_path}
use bondster_bco.Workflow.{statements_path, statement_path, data_path}

strip_same : (p q r : Bytes) → strip_prefix (p ++ q) (p ++ r) ≡ strip_prefix q r
unfolding strip_prefix
strip_same [] q r = refl
strip_same (a ∷ p) q r = ground (arith, strip_same p q r)

ap2_cons : {x y : ℕ} {a b : Bytes} → x ≡ y → a ≡ b → ◌≡◌ {A = Bytes} (x ∷ a) (y ∷ b)
ap2_cons e q = cc

strip_segment :
    (a b q r : Bytes)
    → Lacks b'/' a
    → Lacks b'/' b
    → a ≢ b
    → strip_prefix (a ++ b'/' ∷ q) (b ++ b'/' ∷ r) ≡ none
unfolding strip_prefix
strip_segment [] [] q r h k ne = absurd (ne refl)
strip_segment [] (y ∷ b) q r h k ne = ground arith
strip_segment (x ∷ a) [] q r h k ne = ground arith
strip_segment (x ∷ a) (y ∷ b) q r h k ne = elim (Bool-cases (x == y)) [
  | inl e ↦ rw e (strip_segment a b q r h.1 k.1 (λ same. ne (ap2_cons ((==_iff x y).0 e) same)))
  | inr e ↦ rw e refl
]

-- A path below the directory of a currency.
abbrev below : Bytes → Bytes → Bytes → Bytes
below t c rest = codes "token/" ++ (t ++ (codes "/statements/" ++ (c ++ b'/' ∷ rest)))

below_path : (t c id rest : Bytes) → statement_path t c id ++ rest ≡ below t c (id ++ rest)
below_path t c id rest = simp append_assoc

list_path : (t c : Bytes) → statements_path t c ++ codes "/" ≡ below t c []
list_path t c = simp append_assoc

strip_below : (t c q r : Bytes) → strip_prefix (below t c q) (below t c r) ≡ strip_prefix q r
strip_below t c q r =
    strip_same (codes "token/") (t ++ (codes "/statements/" ++ (c ++ b'/' ∷ q)))
      (t ++ (codes "/statements/" ++ (c ++ b'/' ∷ r)))
    ∙ (strip_same t (codes "/statements/" ++ (c ++ b'/' ∷ q))
          (codes "/statements/" ++ (c ++ b'/' ∷ r))
        ∙ (strip_same (codes "/statements/") (c ++ b'/' ∷ q) (c ++ b'/' ∷ r)
            ∙ (strip_same c (b'/' ∷ q) (b'/' ∷ r) ∙ strip_same (b'/' ∷ []) q r)))

strip_currencies :
    (t c e q r : Bytes)
    → Lacks b'/' c
    → Lacks b'/' e
    → e ≢ c
    → strip_prefix (below t e q) (below t c r) ≡ none
strip_currencies t c e q r h k ne =
    strip_same (codes "token/") (t ++ (codes "/statements/" ++ (e ++ b'/' ∷ q)))
      (t ++ (codes "/statements/" ++ (c ++ b'/' ∷ r)))
    ∙ (strip_same t (codes "/statements/" ++ (e ++ b'/' ∷ q))
          (codes "/statements/" ++ (c ++ b'/' ∷ r))
        ∙ (strip_same (codes "/statements/") (e ++ b'/' ∷ q) (c ++ b'/' ∷ r)
            ∙ strip_segment e c q r k h ne))

-- The file `name` of a statement is not on the way to one of another currency or statement.
module _ (name t c e : Bytes) (h : Lacks b'/' c) (k : Lacks b'/' e) (ne : e ≢ c) (id : Bytes) where
  pub other_list : strip_prefix (statements_path t e ++ codes "/") (marked_path name t c id) ≡ none
  other_list =
      rw (below_path t c id (b'/' ∷ name), list_path t e)
        (strip_currencies t c e [] (id ++ b'/' ∷ name) h k ne)

  pub other_mark :
      (j : Bytes) → strip_prefix (marked_path name t e j) (marked_path name t c id) ≡ none
  other_mark j =
      rw (below_path t c id (b'/' ∷ name), below_path t e j (b'/' ∷ name))
        (strip_currencies t c e (j ++ b'/' ∷ name) (id ++ b'/' ∷ name) h k ne)

  pub other_data : (j : Bytes) → strip_prefix (data_path t e j) (marked_path name t c id) ≡ none
  other_data j =
      rw (below_path t c id (b'/' ∷ name), below_path t e j (codes "/data"))
        (strip_currencies t c e (j ++ codes "/data") (id ++ b'/' ∷ name) h k ne)

strip_files :
    (name : Bytes) {j id : Bytes}
    → strip_prefix (codes "data") name ≡ none
    → j ≡ id
    → strip_prefix (j ++ codes "/data") (id ++ b'/' ∷ name) ≡ none
strip_files name {j} {id} d e =
    rw e (
      strip_same id (codes "/data") (b'/' ∷ name)
      ∙ (strip_same (b'/' ∷ []) (codes "data") name ∙ d))

module _ (name t c id j : Bytes) (h : Lacks b'/' id) (k : Lacks b'/' j) where
  pub own_mark : j ≢ id → strip_prefix (marked_path name t c j) (marked_path name t c id) ≡ none
  own_mark ne =
      rw (below_path t c id (b'/' ∷ name), below_path t c j (b'/' ∷ name))
        (strip_below t c (j ++ b'/' ∷ name) (id ++ b'/' ∷ name)
          ∙ strip_segment j id name name k h ne)

  pub own_data :
      strip_prefix (codes "data") name ≡ none
      → strip_prefix (data_path t c j) (marked_path name t c id) ≡ none
  own_data d =
      rw (below_path t c id (b'/' ∷ name), below_path t c j (codes "/data"))
        (strip_below t c (j ++ codes "/data") (id ++ b'/' ∷ name)
          ∙ elim (Bool-cases (str_eq j id)) [
            | inl e ↦ strip_files name d (eq_of_str_eq j id e)
            | inr e ↦ strip_segment j id (codes "data") name k h (λ q. cc (str_eq_refl j))
          ])
