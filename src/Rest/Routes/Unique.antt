-- ===== src/Rest/Routes/Unique.antt =====
-- That the routes leave a router no choice.
use mathlib.Core.Path.{subst, fun_ext}
use bondster_bco.Base.{
  ==_iff, ℕ, ◌≡◌, refl, sym, ap, ◌∙◌, Bool, true, false, not, Option, some, List, [], ◌∷◌, ◌==◌,
  ◌&&◌, ◌||◌, inl, inr, arith, ◌⊎◌,
}
use bondster_bco.Base.Text.{Bytes, str_eq, str_eq_refl, eq_of_str_eq, split}
use bondster_bco.Calendar.{Time}
use bondster_bco.Storage.{Storage}
use bondster_bco.Rest.Relay.{Sent}
use bondster_bco.Rest.Tenants.{Control}
use bondster_bco.Rest.Routes.{
  Method, get, head, post, delete, Route, routes, Segments, is_parameter, fits_segment, fits,
  captured, Found, Router, Request, Service, handle, dispatch, serve,
}

-- Two patterns that no path fits both: one is longer, or they have different texts at one place.
apart : Segments → Segments → Bool
apart [] [] = false
apart [] (q ∷ qs) = true
apart (p ∷ ps) [] = true
apart (p ∷ ps) (q ∷ qs) =
    (not (is_parameter p) && not (is_parameter q) && not (str_eq p q)) || apart ps qs

fits-apart : (ps qs ss : Segments) → apart ps qs ≡ true → fits ps ss ≡ true → fits qs ss ≡ true → ⊥
unfolding apart fits fits_segment
fits-apart [] [] ss a h k = cc
fits-apart [] (q ∷ qs) [] a h k = cc
fits-apart [] (q ∷ qs) (s ∷ ss) a h k = cc
fits-apart (p ∷ ps) [] [] a h k = cc
fits-apart (p ∷ ps) [] (s ∷ ss) a h k = cc
fits-apart (p ∷ ps) (q ∷ qs) [] a h k = cc
fits-apart (p ∷ ps) (q ∷ qs) (s ∷ ss) a h k =
    ground (arith, fits-apart ps qs ss, eq_of_str_eq p s, eq_of_str_eq q s, str_eq_refl s)

rank : Method → ℕ
rank get = 0
rank head = 1
rank post = 2
rank delete = 3

parts : Route → Segments
parts r = split b'/' r.pattern

conflict : Route → Route → Bool
conflict a b = rank a.method == rank b.method && not (apart (parts a) (parts b))

free_of : Route → List Route → Bool
free_of a [] = true
free_of a (b ∷ rs) = not (conflict a b) && (not (conflict b a) && free_of a rs)

free : List Route → Bool
free [] = true
free (a ∷ rs) = free_of a rs && free rs

routes_free : free routes ≡ true
unfolding free free_of conflict apart rank parts split is_parameter
routes_free = refl

abbrev pub Registered : Route → List Route → Type 0
Registered r [] = ⊥
Registered r (x ∷ xs) = (x ≡ r) ⊎ Registered r xs

-- What the framework documents of a route that it finds.
pub record IsRouter (router : Router) : Type 0 where
  pub registered :
      (m : Method) (path : Bytes) (f : Found) → router m path ≡ some f → Registered f.route routes
  pub same_method :
      (m : Method) (path : Bytes) (f : Found) → router m path ≡ some f → f.route.method ≡ m
  pub fitting :
      (m : Method) (path : Bytes) (f : Found)
      → router m path ≡ some f
      → fits (split b'/' f.route.pattern) (split b'/' path) ≡ true
  pub parameters :
      (m : Method) (path : Bytes) (f : Found) (name : Bytes)
      → router m path ≡ some f
      → f.param name ≡ captured name (split b'/' f.route.pattern) (split b'/' path)

free_of-Registered :
    (a b : Route) (rs : List Route)
    → free_of a rs ≡ true
    → Registered b rs
    → (conflict a b ≡ false) × (conflict b a ≡ false)
unfolding free_of
free_of-Registered a b [] h r = absurd r
free_of-Registered a b (x ∷ xs) h (inl e) =
    subst (λ y. (conflict a y ≡ false) × (conflict y a ≡ false)) e (ground arith)
free_of-Registered a b (x ∷ xs) h (inr r) =
    let k : free_of a xs ≡ true = ground arith in free_of-Registered a b xs k r

conflict_lem :
    (a b : Route) (path : Segments)
    → conflict a b ≡ false
    → a.method ≡ b.method
    → fits (parts a) path ≡ true
    → fits (parts b) path ≡ true
    → ⊥
unfolding conflict
conflict_lem a b path c m h k =
    let same : (rank a.method == rank b.method) ≡ true =
      (==_iff (rank a.method) (rank b.method)).1 (ap rank m) in
    let far : apart (parts a) (parts b) ≡ true = ground arith in
    fits-apart (parts a) (parts b) path far h k

unique :
    (rs : List Route) (a b : Route) (path : Segments)
    → free rs ≡ true
    → Registered a rs
    → Registered b rs
    → a.method ≡ b.method
    → fits (parts a) path ≡ true
    → fits (parts b) path ≡ true
    → a ≡ b
unfolding free
unique [] a b path f r q m h k = absurd r
unique (x ∷ xs) a b path f (inl e) (inl d) m h k = sym e ∙ d
unique (x ∷ xs) a b path f (inl e) (inr q) m h k =
    let g : free_of x xs ≡ true = ground arith in
    let g' = subst (λ y. free_of y xs ≡ true) e g in
    absurd (conflict_lem a b path (free_of-Registered a b xs g' q).0 m h k)
unique (x ∷ xs) a b path f (inr r) (inl d) m h k =
    let g : free_of x xs ≡ true = ground arith in
    let g' = subst (λ y. free_of y xs ≡ true) d g in
    absurd (conflict_lem a b path (free_of-Registered b a xs g' r).1 m h k)
unique (x ∷ xs) a b path f (inr r) (inr q) m h k =
    let g : free xs ≡ true = ground arith in unique xs a b path g r q m h k

module _ (r : Router) (law : IsRouter r) (t : Router) (law' : IsRouter t) where
  same_route :
      (m : Method) (path : Bytes) (f g : Found)
      → r m path ≡ some f
      → t m path ≡ some g
      → f.route ≡ g.route
  unfolding parts
  same_route m path f g h k =
      unique routes f.route g.route (split b'/' path) routes_free (law.registered m path f h)
        (law'.registered m path g k)
        (law.same_method m path f h ∙ sym (law'.same_method m path g k)) (law.fitting m path f h)
        (law'.fitting m path g k)

  same_param :
      (m : Method) (path : Bytes) (f g : Found)
      → r m path ≡ some f
      → t m path ≡ some g
      → f.param ≡ g.param
  same_param m path f g h k = fun_ext λ name.
      law.parameters m path f name h
      ∙ (ap (λ (x : Route). captured name (split b'/' x.pattern) (split b'/' path))
            (same_route m path f g h k)
          ∙ sym (law'.parameters m path g name k))

  -- The answer to a request does not hang on the router: two routers that keep to what is
  -- documented of them, and find a route for the request, call one handler with the same
  -- parameters, and so the answer and the units of systemd afterwards are the same.
  pub serve_determined :
      (exchange : Sent → Option Bytes) (c : Control) (s : Storage)
      (parse_rfc3339 : Bytes → Option Time) (marshal : Bytes → Option Bytes) (q : Request)
      (v : Service c s) (f g : Found)
      → r q.method q.path ≡ some f
      → t q.method q.path ≡ some g
      → serve exchange c s parse_rfc3339 marshal r q v
        ≡ serve exchange c s parse_rfc3339 marshal t q v
  unfolding serve dispatch
  serve_determined exchange c s parse marshal q v f g h k =
      ap (λ o. dispatch exchange c s parse marshal o q v) h
      ∙ (ap some (λ i.
            handle exchange c s parse marshal (same_route q.method q.path f g h k i).handler
              (same_param q.method q.path f g h k i) q v)
          ∙ ap (λ o. dispatch exchange c s parse marshal o q v) (sym k))
