-- ===== src/Workflow/Booking/Goroutine/Local.antt =====
-- A step of a goroutine is told by its own view, and leaves the views of the others alone.
use bondster_bco.Base.{
  false, ℕ, ◌+◌, ◌≡◌, ◌≢◌, refl, sym, ap, ◌∙◌, Bool, true, Option, none, some, List, [], ◌∷◌,
}
use bondster_bco.Base.Text.{Bytes, codes, Lacks, strip_prefix}
use bondster_bco.Entities.{Transaction}
use bondster_bco.Storage.{Storage, StorageLaws, TouchLaws}
use bondster_bco.Workflow.{Services, Codec, World, statements_path, data_path, ack_transfer_path}
use bondster_bco.Workflow.Requests.{transaction_request}
use bondster_bco.Workflow.Booking.{read_data}
use bondster_bco.Workflow.Parallel.{Goroutines, Laws}
use bondster_bco.Workflow.Booking.Goroutine.{
  Place, starting, rounds, reading, sending, counting, marking, over, listed, tested, decoded,
  answered, step,
}
use bondster_bco.Workflow.Booking.Goroutine.View.{is_starting, view, local}
use bondster_bco.Workflow.Parallel.Views.{View, seen_of, while_unlisted, of_name-Lacks}
use bondster_bco.Workflow.Parallel.Touched.{own_touch, other_touch}
use bondster_bco.Workflow.Booking.Goroutine.Places.{
  Proper, added, tested-Proper, decoded-Proper, answered-Proper, listed-begun, tested-begun,
  decoded-begun, answered-begun,
}

transfer_apart : strip_prefix (codes "data") (codes "ack_transfer") ≡ none
unfolding strip_prefix
transfer_apart = refl

module _ (s : Storage) (laws : StorageLaws s) (touches : TouchLaws s)
    (written : (d : s.Disk) (p : Bytes) → (s.touch_file d p).1 ≡ true) (v : Services)
    (verdict : Transaction → Bool)
    (judges : (net : v.Net) (r : Transaction) → (v.create_transaction net r).1 ≡ verdict r)
    (codec : Codec) (tenant : Bytes) where
  abbrev one : Bytes → Place → World s v → Place × World s v
  one = step s v codec tenant

  abbrev look : Bytes → Place → World s v → View
  look = view s v codec tenant

  listed-Proper :
      (d : s.Disk) (p : Bytes) (o : Option (List Bytes))
      → s.list_directory d p ≡ o
      → Proper (listed o)
  unfolding listed
  listed-Proper d p none h = tt
  listed-Proper d p (some ids) h = touches.list_names d p h

  stays_Proper : (c : Bytes) (p : Place) (w : World s v) → Proper p → Proper (one c p w).0
  unfolding step
  stays_Proper c starting w h = listed-Proper w.plaintext (statements_path w.token.id c) _ refl
  stays_Proper c (rounds []) w h = tt
  stays_Proper c (rounds (id ∷ ids)) w h = tested-Proper id ids _ h
  stays_Proper c (reading id ids) w h = decoded-Proper id ids _ h
  stays_Proper c (sending id st ids) w h = answered-Proper id ids _ h
  stays_Proper c (counting id ids) w h = h
  stays_Proper c (marking id ids) w h = h.1
  stays_Proper c over w h = tt

  -- A place that is behind the listing, with what is seen there.
  begun :
      (c : Bytes) (p : Place) (w : World s v)
      → is_starting p ≡ false
      → ◌≡◌ {A = Place × View}
          (p, look c p w)
          (p, seen_of s (codes "ack_transfer") w.token.id c false w.plaintext)
  unfolding view
  begun c p w e = λ i. (p, seen_of s (codes "ack_transfer") w.token.id c (e i) w.plaintext)

  is_local :
      (c : Bytes) (p : Place) (w : World s v)
      → Proper p
      → ◌≡◌ {A = Place × View}
          ((one c p w).0, look c (one c p w).0 (one c p w).1)
          (local s v codec tenant verdict c p (look c p w))
  unfolding step local view seen_of while_unlisted is_starting
  is_local c starting w h = begun c (listed _) w (listed-begun _)
  is_local c (rounds []) w h = refl
  is_local c (rounds (id ∷ ids)) w h =
      begun c (tested id ids _) w (tested-begun id ids _)
      ∙ ap (λ o. (tested id ids o, look c (rounds (id ∷ ids)) w))
          (sym (of_name-Lacks id (s.exists w.plaintext (ack_transfer_path w.token.id c id)) h.0))
  is_local c (reading id ids) w h =
      begun c (decoded id ids _) w (decoded-begun id ids _)
      ∙ ap (λ o. (decoded id ids (read_data s v codec tenant c o), look c (reading id ids) w))
          (sym (of_name-Lacks id (s.read_file_fully w.plaintext (data_path w.token.id c id)) h.0))
  is_local c (sending id st ids) w h =
      begun c (answered id ids _)
        (record w { net = (v.create_transaction w.net (transaction_request codec tenant st)).0 })
        (answered-begun id ids _)
      ∙ ap (λ b. (answered id ids b, look c (sending id st ids) w))
          (judges w.net (transaction_request codec tenant st))
  is_local c (counting id ids) w h = refl
  is_local c (marking id ids) w h =
      ap (λ (x : View). (rounds ids, x))
        (own_touch s laws touches written (codes "ack_transfer") w.token.id c id w.plaintext
          transfer_apart h.0)
  is_local c over w h = refl

  frame :
      (c e : Bytes) (p q : Place) (w : World s v)
      → Lacks b'/' c
      → Lacks b'/' e
      → c ≢ e
      → look e q (one c p w).1 ≡ look e q w
  unfolding step view
  frame c e starting q w h k ne = refl
  frame c e (rounds []) q w h k ne = refl
  frame c e (rounds (id ∷ ids)) q w h k ne = refl
  frame c e (reading id ids) q w h k ne = refl
  frame c e (sending id st ids) q w h k ne = refl
  frame c e (counting id ids) q w h k ne = refl
  frame c e (marking id ids) q w h k ne =
      other_touch s laws touches written (codes "ack_transfer") w.token.id c e id (is_starting q)
        w.plaintext h k ne
  frame c e over q w h k ne = refl

  module _ (count : World s v → ℕ)
      (counted : (c : Bytes) (p : Place) (w : World s v)
        → count (one c p w).1 ≡ added p + count w) where
    abbrev pub goroutines : Goroutines
    goroutines = record {
      Place = Place;
      World = World s v;
      View = View;
      over = over;
      step = step s v codec tenant;
      view = view s v codec tenant;
      local = local s v codec tenant verdict;
      gain = λ c p x. added p;
      count = count;
      Named = Lacks b'/';
      Proper = Proper;
    }

    pub goroutines-Laws : Laws goroutines
    unfolding local
    goroutines-Laws = record {
      is_local = λ c p w n h. is_local c p w h;
      frame = frame;
      counts = counted;
      stays_Proper = stays_Proper;
      rests = λ c x. refl;
      gains_none = λ c x. refl;
    }
