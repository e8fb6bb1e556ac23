-- ===== src/Workflow/Parallel/Alone.antt =====
-- The goroutines one after the other, which is one of the schedules.
use mathlib.Core.Path.{subst}
use bondster_bco.Base.{◌≡◌, refl, ap, ◌∙◌, sym, inl, inr, List, [], ◌∷◌, ◌++◌, All, All-append}
use bondster_bco.Base.Text.{Bytes}
use bondster_bco.Workflow.Parallel.{
  Among, Absent, Distinct, Goroutines, update, run, update_self, update_other,
}

module _ (g : Goroutines) where
  -- A goroutine that nobody interrupts is over with `u`.
  pub data Alone (c : Bytes) : g.Place → g.World → g.World → Type 0 where
    ends : {p : g.Place} {w u : g.World} → p ≡ g.over → w ≡ u → Alone c p w u
    goes :
        {p : g.Place} {w u : g.World} → Alone c (g.step c p w).0 (g.step c p w).1 u → Alone c p w u

  abbrev Places : Type 0
  Places = Bytes → g.Place

  -- What a schedule comes to that is only about some of the goroutines.
  pub record Comes (cs : List Bytes) (ps : Places) (w u : g.World) : Type 0 where
    pub schedule : List Bytes
    pub within : All (λ c. Among c cs) schedule
    pub over_all : (c : Bytes) → Among c cs → (run g.step schedule ps w).0 c ≡ g.over
    pub others : (c : Bytes) → Absent c cs → (run g.step schedule ps w).0 c ≡ ps c
    pub world : (run g.step schedule ps w).1 ≡ u

  turn :
      (c : Bytes) (ps : Places) (w u : g.World)
      → Comes (c ∷ []) (update ps c (g.step c (ps c) w).0) (g.step c (ps c) w).1 u
      → Comes (c ∷ []) ps w u
  unfolding run
  turn c ps w u r = record {
    schedule = c ∷ r.schedule;
    within = (inl refl, r.within);
    over_all = r.over_all;
    others = λ e a. r.others e a ∙ update_other ps c e (g.step c (ps c) w).0 a.0;
    world = r.world;
  }

  Alone-Comes :
      (c : Bytes) {p : g.Place} {w u : g.World} (ps : Places)
      → Alone c p w u
      → ps c ≡ p
      → Comes (c ∷ []) ps w u
  unfolding run
  Alone-Comes c {p} {w} ps (ends e q) k = record {
    schedule = [];
    within = tt;
    over_all = λ x m. elim m [ inl r ↦ subst (λ y. ps y ≡ g.over) r (k ∙ e) | inr z ↦ absurd z ];
    others = λ x a. refl;
    world = q;
  }
  Alone-Comes c {p} {w} {u} ps (goes r) k = turn c ps w u (
      subst (λ x. Comes (c ∷ []) (update ps c (g.step c x w).0) (g.step c x w).1 u) (sym k)
        (Alone-Comes c (update ps c (g.step c p w).0) r (update_self ps c (g.step c p w).0)))

  run-append :
      (cs es : List Bytes) (ps : Places) (w : g.World)
      → run g.step (cs ++ es) ps w ≡ run g.step es (run g.step cs ps w).0 (run g.step cs ps w).1
  unfolding run
  run-append [] es ps w = refl
  run-append (c ∷ cs) es ps w =
      run-append cs es (update ps c (g.step c (ps c) w).0) (g.step c (ps c) w).1

  All-later :
      (c : Bytes) (all cs : List Bytes)
      → All (λ x. Among x all) cs
      → All (λ x. Among x (c ∷ all)) cs
  All-later c all [] h = tt
  All-later c all (x ∷ xs) h = (inr h.0, All-later c all xs h.1)

  All-first :
      (c : Bytes) (all cs : List Bytes)
      → All (λ x. Among x (c ∷ [])) cs
      → All (λ x. Among x (c ∷ all)) cs
  All-first c all [] h = tt
  All-first c all (x ∷ xs) h =
      (elim h.0 [ inl q ↦ inl q | inr z ↦ absurd z ], All-first c all xs h.1)

  joined :
      (c : Bytes) (cs : List Bytes) (ps : Places) (w v u : g.World)
      → Absent c cs
      → (r : Comes (c ∷ []) ps w v) → Comes cs (run g.step r.schedule ps w).0 v u
      → Comes (c ∷ cs) ps w u
  joined c cs ps w v u absent r t =
      let whole : run g.step (r.schedule ++ t.schedule) ps w
          ≡ run g.step t.schedule (run g.step r.schedule ps w).0 v =
        run-append r.schedule t.schedule ps w
        ∙ ap (run g.step t.schedule (run g.step r.schedule ps w).0) r.world in
      record {
        schedule = r.schedule ++ t.schedule;
        within =
            All-append (λ x. Among x (c ∷ cs)) r.schedule t.schedule
              (All-first c cs r.schedule r.within) (All-later c cs t.schedule t.within);
        over_all = λ x m. ap (λ (z : Places × g.World). z.0 x) whole ∙ elim m [
          | inl q ↦ t.others x (subst (λ y. Absent y cs) q absent) ∙ r.over_all x (inl q)
          | inr n ↦ t.over_all x n
        ];
        others = λ x a.
            ap (λ (z : Places × g.World). z.0 x) whole ∙ (t.others x a.1 ∙ r.others x (a.0, tt));
        world = ap (λ (z : Places × g.World). z.1) whole ∙ t.world;
      }

  module _ (start : g.Place) (f : Bytes → g.World → g.World)
      (alone : (c : Bytes) (w : g.World) → Alone c start w (f c w)) where
    abbrev pub in_turn : List Bytes → g.World → g.World
    in_turn [] w = w
    in_turn (c ∷ cs) w = in_turn cs (f c w)

    All-started :
        (c : Bytes) (cs all : List Bytes) (ps : Places) (w v : g.World)
        → Absent c cs
        → All (λ x. ps x ≡ start) cs
        → (r : Comes (c ∷ []) ps w v) → All (λ x. (run g.step r.schedule ps w).0 x ≡ start) cs
    All-started c [] all ps w v a h r = tt
    All-started c (x ∷ xs) all ps w v a h r =
        (r.others x ((λ q. a.0 (sym q)), tt) ∙ h.0, All-started c xs all ps w v a.1 h.1 r)

    pub in_turn-Comes :
        (cs : List Bytes) (ps : Places) (w : g.World)
        → Distinct cs
        → All (λ c. ps c ≡ start) cs
        → Comes cs ps w (in_turn cs w)
    unfolding run
    in_turn-Comes [] ps w d h = record {
      schedule = [];
      within = tt;
      over_all = λ x m. absurd m;
      others = λ x a. refl;
      world = refl;
    }
    in_turn-Comes (c ∷ cs) ps w d h =
        let r = Alone-Comes c ps (alone c w) h.0 in
        joined c cs ps w (f c w) (in_turn cs (f c w)) d.0 r (
          in_turn-Comes cs (run g.step r.schedule ps w).0 (f c w) d.1
            (All-started c cs cs ps w (f c w) d.0 h.1 r))
