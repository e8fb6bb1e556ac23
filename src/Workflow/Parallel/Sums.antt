-- ===== src/Workflow/Parallel/Sums.antt =====
-- Sums over the currencies.
use mathlib.Core.Path.{subst}
use bondster_bco.Base.{ℕ, ◌+◌, ◌≡◌, refl, ◌∙◌, sym, ◌≢◌, inl, inr, List, [], ◌∷◌, All, arith}
use bondster_bco.Base.Text.{Bytes}
use bondster_bco.Workflow.Parallel.{Among, Absent, Distinct}

unfoldable pub sum : List Bytes → (Bytes → ℕ) → ℕ
sum [] f = 0
sum (c ∷ cs) f = f c + sum cs f

pub sum_none : (cs : List Bytes) → sum cs (λ c. 0) ≡ 0
unfolding sum
sum_none [] = refl
sum_none (c ∷ cs) = omega (arith, sum_none cs)

pub Among-All {κ} : (P : Bytes → Type κ) (cs : List Bytes) (c : Bytes) → All P cs → Among c cs → P c
Among-All P [] c h m = absurd m
Among-All P (x ∷ xs) c h (inl q) = subst P q h.0
Among-All P (x ∷ xs) c h (inr m) = Among-All P xs c h.1 m

pub sum_cong :
    (cs : List Bytes) (f h : Bytes → ℕ)
    → ((e : Bytes) → Among e cs → f e ≡ h e)
    → sum cs f ≡ sum cs h
unfolding sum
sum_cong [] f h same = refl
sum_cong (x ∷ xs) f h same =
    omega (arith, same x (inl refl), sum_cong xs f h (λ e m. same e (inr m)))

sum-same :
    (cs : List Bytes) (c : Bytes) (f h : Bytes → ℕ)
    → Absent c cs
    → ((e : Bytes) → Among e cs → c ≢ e → f e ≡ h e)
    → sum cs f ≡ sum cs h
unfolding sum
sum-same [] c f h a same = refl
sum-same (x ∷ xs) c f h a same =
    omega
      (arith, same x (inl refl) (λ q. a.0 (sym q)), sum-same xs c f h a.1 (λ e m. same e (inr m)))

pub Among-ne : (xs : List Bytes) (x c : Bytes) → Absent x xs → Among c xs → c ≢ x
Among-ne [] x c a among = absurd among
Among-ne (y ∷ ys) x c a (inl q) = λ r. a.0 (q ∙ r)
Among-ne (y ∷ ys) x c a (inr among) = Among-ne ys x c a.1 among

pub sum-more :
    (cs : List Bytes) (c : Bytes) (d : ℕ) (f h : Bytes → ℕ)
    → Distinct cs
    → Among c cs
    → f c ≡ d + h c
    → ((e : Bytes) → Among e cs → c ≢ e → f e ≡ h e)
    → sum cs f ≡ d + sum cs h
unfolding sum
sum-more [] c d f h distinct among more same = absurd among
sum-more (x ∷ xs) c d f h distinct (inl q) more same =
    let e : f x ≡ d + h x = rw q more in
    let k : (e : Bytes) → Among e xs → x ≢ e → f e ≡ h e =
      λ e m ne. same e (inr m) (λ r. ne (q ∙ r)) in
    omega (arith, e, sum-same xs x f h distinct.0 k)
sum-more (x ∷ xs) c d f h distinct (inr among) more same = omega (
  arith,
  same x (inl refl) (Among-ne xs x c distinct.0 among),
  sum-more xs c d f h distinct.1 among more (λ e m. same e (inr m)),
)
