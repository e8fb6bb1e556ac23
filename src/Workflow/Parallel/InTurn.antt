-- ===== src/Workflow/Parallel/InTurn.antt =====
-- Goroutines in any interleaving against the same goroutines one after the other.
use bondster_bco.Base.{◌≡◌, refl, ap, ◌∙◌, List, [], ◌∷◌, All, inl, inr, if_cases}
use bondster_bco.Base.Text.{Bytes, str_eq, str_eq_refl}
use bondster_bco.Workflow.Parallel.{Among, Distinct, Goroutines, Laws, run, started}
use bondster_bco.Workflow.Parallel.Order.{any_order}
use bondster_bco.Workflow.Parallel.Sums.{Among-All}
use bondster_bco.Workflow.Parallel.Alone.{Alone, Comes, in_turn, in_turn-Comes}

All_of : (P : Bytes → Type 0) (cs : List Bytes) → ((c : Bytes) → Among c cs → P c) → All P cs
All_of P [] h = tt
All_of P (c ∷ cs) h = (h c (inl refl), All_of P cs (λ e m. h e (inr m)))

module _ (g : Goroutines) (laws : Laws g) (start : g.Place) (f : Bytes → g.World → g.World)
    (alone : (c : Bytes) (w : g.World) → Alone g c start w (f c w)) (start_proper : g.Proper start)
    (over_proper : g.Proper g.over) where
  abbrev from_start : List Bytes → Bytes → g.Place
  from_start = started start g.over

  started-Among : (cs : List Bytes) (c : Bytes) → Among c cs → from_start cs c ≡ start
  unfolding started
  started-Among [] c m = absurd m
  started-Among (x ∷ xs) c (inl q) = rw q (rw (str_eq_refl c) refl)
  started-Among (x ∷ xs) c (inr m) =
      if_cases (λ p. p ≡ start) (str_eq x c) start (from_start xs c) (λ e. refl)
        (λ e. started-Among xs c m)

  started-Proper : (cs : List Bytes) (c : Bytes) → g.Proper (from_start cs c)
  unfolding started
  started-Proper [] c = over_proper
  started-Proper (x ∷ xs) c =
      if_cases g.Proper (str_eq x c) start (from_start xs c) (λ e. start_proper)
        (λ e. started-Proper xs c)

  -- A schedule in which every goroutine comes to its end before the next one starts.
  sequential :
      (cs : List Bytes) (w : g.World)
      → Distinct cs
      → Comes g cs (from_start cs) w (in_turn g start f alone cs w)
  sequential cs w d =
      in_turn-Comes g start f alone cs (from_start cs) w d
        (All_of (λ c. from_start cs c ≡ start) cs (started-Among cs))

  -- When all are over, each sees what it sees where they ran one after the other.
  pub same_as_in_turn :
      (cs es : List Bytes) (w : g.World)
      → Distinct cs
      → All g.Named cs
      → All (λ c. Among c cs) es
      → All (λ c. (run g.step es (from_start cs) w).0 c ≡ g.over) cs
      → ((c : Bytes)
          → Among c cs
          → g.view c g.over (run g.step es (from_start cs) w).1
            ≡ g.view c g.over (in_turn g start f alone cs w))
        × (g.count (run g.step es (from_start cs) w).1 ≡ g.count (in_turn g start f alone cs w))
  same_as_in_turn cs es w d n a h =
      let r = sequential cs w d in
      let (views, counts) =
        any_order g laws cs es r.schedule (from_start cs) w d n a r.within (started-Proper cs)
          (λ c m. Among-All (λ e. (run g.step es (from_start cs) w).0 e ≡ g.over) cs c h m)
          r.over_all in
      ((λ c m. views c m ∙ ap (g.view c g.over) r.world), counts ∙ ap g.count r.world)
