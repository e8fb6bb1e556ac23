-- ===== src/Rest/Units/Bags.antt =====
-- The tenants without their order: what the list of tenants depends on
-- (services/bondster-bco-rest/system/system.go under services/bondster-bco-rest/api/tenant.go).
use mathlib.Core.Quot
use mathlib.Core.Quot.{Quot}
use bondster_bco.Base.{◌≤◌, ◌≡◌, refl, sym, ap, ◌∙◌, some, false, List, [], ◌∷◌, arith}
use bondster_bco.Base.Text.{Bytes, str_eq, str_eq_refl, eq_of_str_eq}
use bondster_bco.Base.Sorting.{
  str_lt, str_lt_total, sorted, Sorted, sorted-Sorted, count_of, count_of-sorted, NotBefore,
}
use bondster_bco.Rest.{status}
use bondster_bco.Rest.Tenants.{list_tenants, lines, listed}
use bondster_bco.Rest.Units.{UnitEntry, Dbus, list_units, listing, new_system_control}
use bondster_bco.Rest.Units.Listing.{Runs, Runs-shown}

-- The same tenants, each as often.
abbrev pub SameTenants : List Bytes → List Bytes → Type 0
SameTenants xs ys = (x : Bytes) → count_of x xs ≡ count_of x ys

abbrev pub Bag : Type 0
Bag = Quot SameTenants

NotBefore-count :
    (x k : Bytes) (ys : List Bytes) → NotBefore k ys → 1 ≤ count_of x ys → str_lt x k ≡ false
NotBefore-count x k [] h c = absurd (omega arith)
NotBefore-count x k (y ∷ ys) h c = ground (arith, h.0, NotBefore-count x k ys h.1, eq_of_str_eq y x)

no_count-nil : (x : Bytes) (xs : List Bytes) → SameTenants (x ∷ xs) [] → [] ≡ x ∷ xs
no_count-nil x xs h = ground (arith, h x, str_eq_refl x)

str_lt_irrefl : (x : Bytes) → str_lt x x ≡ false
unfolding str_lt
str_lt_irrefl [] = refl
str_lt_irrefl (c ∷ x) = ground (arith, str_lt_irrefl x)

-- Of two sorted lists with the same contents, the first string of one does not come before that of
-- the other.
head-NotBefore :
    (x y : Bytes) (xs ys : List Bytes)
    → NotBefore y ys
    → SameTenants (x ∷ xs) (y ∷ ys)
    → str_lt x y ≡ false
head-NotBefore x y xs ys t h =
    NotBefore-count x y (y ∷ ys) (str_lt_irrefl y, t) (ground (arith, h x, str_eq_refl x))

tail-SameTenants :
    (x y : Bytes) (xs ys : List Bytes) → x ≡ y → SameTenants (x ∷ xs) (y ∷ ys) → SameTenants xs ys
tail-SameTenants x y xs ys e h z = ground (arith, h z, ap (λ k. str_eq k z) e)

-- A sorted list is determined by what is in it.
Sorted-unique : (xs ys : List Bytes) → Sorted xs → Sorted ys → SameTenants xs ys → xs ≡ ys
Sorted-unique [] [] s t h = refl
Sorted-unique [] (y ∷ ys) s t h = no_count-nil y ys (λ x. sym (h x))
Sorted-unique (x ∷ xs) [] s t h = sym (no_count-nil x xs h)
Sorted-unique (x ∷ xs) (y ∷ ys) s t h =
    let e : x ≡ y = eq_of_str_eq x y (
      str_lt_total x y (head-NotBefore x y xs ys t.0 h)
        (head-NotBefore y x ys xs s.0 (λ z. sym (h z)))) in
    let rest = Sorted-unique xs ys s.1 t.1 (tail-SameTenants x y xs ys e h) in rw (e, rest) refl

sorted-SameTenants : (xs ys : List Bytes) → SameTenants xs ys → sorted xs ≡ sorted ys
sorted-SameTenants xs ys h =
    Sorted-unique (sorted xs) (sorted ys) (sorted-Sorted xs) (sorted-Sorted ys)
      (λ x. count_of-sorted x xs ∙ (h x ∙ sym (count_of-sorted x ys)))

-- The list of the tenants in a bag.
pub sorted_bag : Bag → List Bytes
sorted_bag = Quot.lift (hlevel) sorted sorted-SameTenants

-- Where systemd answers with the services of some tenants, among units of other names and entries of
-- unit files that are gone, the list of tenants is written with status 200, and it is a function of
-- the bag of these tenants, whatever the order in which systemd names them: the tenants of the bag,
-- each as often as it is there, in the order of their names.
pub list_tenants-Bag :
    (d : Dbus) (m : d.Manager) {us : List UnitEntry} {ts : List Bytes}
    → d.list_units m ≡ some us
    → Runs us ts
    → (list_tenants (new_system_control d) m ≡ status 200 (lines (sorted_bag (Quot.mk ts))))
      × Sorted (sorted_bag (Quot.mk ts))
      × ((x : Bytes) → count_of x (sorted_bag (Quot.mk ts)) ≡ count_of x ts)
unfolding list_tenants listed list_units listing sorted_bag
list_tenants-Bag d m {us} {ts} e r =
    (rw (e, Runs-shown r) refl, sorted-Sorted ts, λ x. count_of-sorted x ts)
