-- ===== src/Workflow/Accounts/Goroutine/Local.antt =====
-- A step of a goroutine is told by its own view, and leaves the views of the others alone.
use bondster_bco.Base.{
  ◌≡◌, ◌≢◌, refl, sym, ap, ◌∙◌, Bool, true, false, Option, none, some, List, [], ◌∷◌, All,
  All-append, if_cases, arith,
}
use bondster_bco.Base.Text.{Bytes, codes, Lacks, strip_prefix}
use bondster_bco.Entities.{Account}
use bondster_bco.Storage.{Storage, StorageLaws, TouchLaws}
use bondster_bco.Bondster.{Statement}
use bondster_bco.Workflow.{Services, Codec, World, statements_path, data_path, ack_account_path}
use bondster_bco.Workflow.Requests.{account_request}
use bondster_bco.Workflow.Parallel.{Goroutines, Laws}
use bondster_bco.Workflow.Parallel.Views.{View, seen_of, while_unlisted, of_name-Lacks}
use bondster_bco.Workflow.Parallel.Touched.{own_touch, other_touch}
use bondster_bco.Workflow.Accounts.{Found, read_data, note, is_empty}
use bondster_bco.Workflow.Accounts.Goroutine.{
  Place, starting, rounds, reading, creating, confirming, over, listed, tested, answered,
  is_starting, decided, step, view, local,
}

-- The names ahead have no slash.
abbrev pub Proper : Place → Type 0
Proper starting = Unit
Proper (rounds ids f) = All (Lacks b'/') ids × All (Lacks b'/') f.ids
Proper (reading id ids f) = Lacks b'/' id × (All (Lacks b'/') ids × All (Lacks b'/') f.ids)
Proper (creating names ids) = All (Lacks b'/') ids
Proper (confirming ids) = All (Lacks b'/') ids
Proper over = Unit

account_apart : strip_prefix (codes "data") (codes "ack_account") ≡ none
unfolding strip_prefix
account_apart = refl

tested-Proper :
    (id : Bytes) (ids : List Bytes) (f : Found) (o : Option Bool)
    → Lacks b'/' id × (All (Lacks b'/') ids × All (Lacks b'/') f.ids)
    → Proper (tested id ids f o)
unfolding tested
tested-Proper id ids f none h = h.1
tested-Proper id ids f (some true) h = h.1
tested-Proper id ids f (some false) h = h

answered-Proper :
    (names ids : List Bytes) (b : Bool) → All (Lacks b'/') ids → Proper (answered names ids b)
unfolding answered
answered-Proper names ids true h = h
answered-Proper names ids false h = tt

listed-begun : (o : Option (List Bytes)) → is_starting (listed o) ≡ false
unfolding listed is_starting
listed-begun none = refl
listed-begun (some ids) = refl

tested-begun :
    (id : Bytes) (ids : List Bytes) (f : Found) (o : Option Bool)
    → is_starting (tested id ids f o) ≡ false
unfolding tested is_starting
tested-begun id ids f none = refl
tested-begun id ids f (some true) = refl
tested-begun id ids f (some false) = refl

answered-begun : (names ids : List Bytes) (b : Bool) → is_starting (answered names ids b) ≡ false
unfolding answered is_starting
answered-begun names ids true = refl
answered-begun names ids false = refl

module _ (s : Storage) (laws : StorageLaws s) (touches : TouchLaws s)
    (written : (d : s.Disk) (p : Bytes) → (s.touch_file d p).1 ≡ true) (v : Services)
    (verdict : Account → Bool)
    (judges : (net : v.Net) (r : Account) → (v.create_account net r).1 ≡ verdict r) (codec : Codec)
    (tenant : Bytes) where
  abbrev one : Bytes → Place → World s v → Place × World s v
  one = step s v codec tenant

  abbrev look : Bytes → Place → World s v → View
  look = view s v codec tenant

  listed-Proper :
      (d : s.Disk) (p : Bytes) (o : Option (List Bytes))
      → s.list_directory d p ≡ o
      → Proper (listed o)
  unfolding listed
  listed-Proper d p none h = tt
  listed-Proper d p (some ids) h = (touches.list_names d p h, tt)

  decided-Proper :
      (c : Bytes) (f : Found) → All (Lacks b'/') f.ids → Proper (decided s v codec tenant c f)
  unfolding decided
  decided-Proper c f h =
      if_cases Proper (is_empty s v codec tenant c f.ids) over _ (λ e. tt) (λ e. h)

  decided-begun : (c : Bytes) (f : Found) → is_starting (decided s v codec tenant c f) ≡ false
  unfolding decided is_starting
  decided-begun c f =
      if_cases (λ p. is_starting p ≡ false) (is_empty s v codec tenant c f.ids) over _ (λ e. refl)
        (λ e. refl)

  note-Lacks :
      (c id : Bytes) (o : Option Statement) (f : Found)
      → Lacks b'/' id
      → All (Lacks b'/') f.ids
      → All (Lacks b'/') (note s v codec tenant c id o f).ids
  unfolding note
  note-Lacks c id none f h k = k
  note-Lacks c id (some st) f h k = All-append (Lacks b'/') f.ids (id ∷ []) k (h, tt)

  stays_Proper : (c : Bytes) (p : Place) (w : World s v) → Proper p → Proper (one c p w).0
  unfolding step
  stays_Proper c starting w h = listed-Proper w.plaintext (statements_path w.token.id c) _ refl
  stays_Proper c (rounds [] f) w h = decided-Proper c f h.1
  stays_Proper c (rounds (id ∷ ids) f) w h = tested-Proper id ids f _ (h.0.0, (h.0.1, h.1))
  stays_Proper c (reading id ids f) w h = (h.1.0, note-Lacks c id _ f h.0 h.1.1)
  stays_Proper c (creating [] ids) w h = h
  stays_Proper c (creating (name ∷ names) ids) w h = answered-Proper names ids _ h
  stays_Proper c (confirming []) w h = tt
  stays_Proper c (confirming (id ∷ ids)) w h = h.1
  stays_Proper c over w h = tt

  -- A place that is behind the listing, with what is seen there.
  begun :
      (c : Bytes) (p : Place) (w : World s v)
      → is_starting p ≡ false
      → ◌≡◌ {A = Place × View}
          (p, look c p w)
          (p, seen_of s (codes "ack_account") w.token.id c false w.plaintext)
  unfolding view
  begun c p w e = λ i. (p, seen_of s (codes "ack_account") w.token.id c (e i) w.plaintext)

  is_local :
      (c : Bytes) (p : Place) (w : World s v)
      → Proper p
      → ◌≡◌ {A = Place × View}
          ((one c p w).0, look c (one c p w).0 (one c p w).1)
          (local s v codec tenant verdict c p (look c p w))
  unfolding step local view seen_of while_unlisted is_starting
  is_local c starting w h = begun c (listed _) w (listed-begun _)
  is_local c (rounds [] f) w h = begun c (decided s v codec tenant c f) w (decided-begun c f)
  is_local c (rounds (id ∷ ids) f) w h =
      begun c (tested id ids f _) w (tested-begun id ids f _)
      ∙ ap (λ o. (tested id ids f o, look c (rounds (id ∷ ids) f) w))
          (sym (of_name-Lacks id (s.exists w.plaintext (ack_account_path w.token.id c id)) h.0.0))
  is_local c (reading id ids f) w h =
      ap
        (λ o. (
          rounds ids (note s v codec tenant c id (read_data s v codec tenant c o) f),
          look c (reading id ids f) w,
        ))
        (sym (of_name-Lacks id (s.read_file_fully w.plaintext (data_path w.token.id c id)) h.0))
  is_local c (creating [] ids) w h = refl
  is_local c (creating (name ∷ names) ids) w h =
      begun c (answered names ids _)
        (record w { net = (v.create_account w.net (account_request tenant c name)).0 })
        (answered-begun names ids _)
      ∙ ap (λ b. (answered names ids b, look c (creating (name ∷ names) ids) w))
          (judges w.net (account_request tenant c name))
  is_local c (confirming []) w h = refl
  is_local c (confirming (id ∷ ids)) w h =
      ap (λ (x : View). (confirming ids, x))
        (own_touch s laws touches written (codes "ack_account") w.token.id c id w.plaintext
          account_apart h.0)
  is_local c over w h = refl

  frame :
      (c e : Bytes) (p q : Place) (w : World s v)
      → Lacks b'/' c
      → Lacks b'/' e
      → c ≢ e
      → look e q (one c p w).1 ≡ look e q w
  unfolding step view
  frame c e starting q w h k ne = refl
  frame c e (rounds [] f) q w h k ne = refl
  frame c e (rounds (id ∷ ids) f) q w h k ne = refl
  frame c e (reading id ids f) q w h k ne = refl
  frame c e (creating [] ids) q w h k ne = refl
  frame c e (creating (name ∷ names) ids) q w h k ne = refl
  frame c e (confirming []) q w h k ne = refl
  frame c e (confirming (id ∷ ids)) q w h k ne =
      other_touch s laws touches written (codes "ack_account") w.token.id c e id (is_starting q)
        w.plaintext h k ne
  frame c e over q w h k ne = refl

  abbrev pub goroutines : Goroutines
  goroutines = record {
    Place = Place;
    World = World s v;
    View = View;
    over = over;
    step = step s v codec tenant;
    view = view s v codec tenant;
    local = local s v codec tenant verdict;
    gain = λ c p x. 0;
    count = λ w. 0;
    Named = Lacks b'/';
    Proper = Proper;
  }

  pub goroutines-Laws : Laws goroutines
  unfolding local
  goroutines-Laws = record {
    is_local = λ c p w n h. is_local c p w h;
    frame = frame;
    counts = λ c p w. omega arith;
    stays_Proper = stays_Proper;
    rests = λ c x. refl;
    gains_none = λ c x. refl;
  }
