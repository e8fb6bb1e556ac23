-- ===== src/Workflow/Parallel/Order.antt =====
-- That the schedule makes no difference once all goroutines are over.
use mathlib.Core.Path.{subst}
use bondster_bco.Base.{
  ℕ, zero, suc, ◌+◌, ◌≡◌, refl, ap, ◌∙◌, sym, ◌≢◌, inl, inr, false, List, [], ◌∷◌, All, arith,
  if◌then◌else◌, Bool-cases, if_cases,
}
use bondster_bco.Base.Text.{Bytes, str_eq, str_eq_refl, str_eq_ne, eq_of_str_eq}
use bondster_bco.Workflow.Parallel.{
  Among, Distinct, turns, Goroutines, local_step, Laws, update, run, update_self, update_other,
}
use bondster_bco.Workflow.Parallel.Sums.{sum, sum_none, Among-All, sum_cong, sum-more}

ne_of_str_eq : (c e : Bytes) → str_eq c e ≡ false → c ≢ e
ne_of_str_eq c e q r = cc (str_eq_refl c)

module _ (g : Goroutines) (laws : Laws g) where
  abbrev Local : Type 0
  Local = g.Place × g.View

  -- A goroutine's own steps, and what they add.
  steps : ℕ → Bytes → Local → Local
  steps zero c s = s
  steps (suc n) c s = steps n c (local_step g c s)

  gains : ℕ → Bytes → Local → ℕ
  gains zero c s = 0
  gains (suc n) c s = g.gain c s.0 s.1 + gains n c (local_step g c s)

  steps-over : (n : ℕ) (c : Bytes) (x : g.View) → steps n c (g.over, x) ≡ (g.over, x)
  unfolding steps
  steps-over zero c x = refl
  steps-over (suc n) c x = rw (laws.rests c x) (steps-over n c x)

  gains-over : (n : ℕ) (c : Bytes) (x : g.View) → gains n c (g.over, x) ≡ 0
  unfolding gains
  gains-over zero c x = refl
  gains-over (suc n) c x =
      rw (laws.rests c x) (omega (arith, laws.gains_none c x, gains-over n c x))

  rested : (m : ℕ) (c : Bytes) (s : Local) → s.0 ≡ g.over → (s ≡ steps m c s) × (0 ≡ gains m c s)
  rested m c (p, x) e = rw e (sym (steps-over m c x), sym (gains-over m c x))

  -- Two runs of one goroutine to its end come to the same.
  agree :
      (n m : ℕ) (c : Bytes) (s : Local)
      → (steps n c s).0 ≡ g.over
      → (steps m c s).0 ≡ g.over
      → (steps n c s ≡ steps m c s) × (gains n c s ≡ gains m c s)
  unfolding steps gains
  agree zero m c s h k = rested m c s h
  agree (suc n) zero c s h k = let (a, b) = rested (suc n) c s k in (sym a, sym b)
  agree (suc n) (suc m) c s h k =
      let (a, b) = agree n m c (local_step g c s) h k in (a, ap (λ (t : ℕ). g.gain c s.0 s.1 + t) b)

  all_Named : (all cs : List Bytes) → All g.Named all → All (λ c. Among c all) cs → All g.Named cs
  all_Named all [] n a = tt
  all_Named all (c ∷ cs) n a = (Among-All g.Named all c n a.0, all_Named all cs n a.1)

  -- A goroutine in a world.
  abbrev here : (Bytes → g.Place) → g.World → Bytes → Local
  here ps w e = (ps e, g.view e (ps e) w)

  abbrev pub AllProper : (Bytes → g.Place) → Type 0
  AllProper ps = (e : Bytes) → g.Proper (ps e)

  update-AllProper :
      (ps : Bytes → g.Place) (w : g.World) (c : Bytes)
      → AllProper ps
      → AllProper (update ps c (g.step c (ps c) w).0)
  unfolding update
  update-AllProper ps w c h e =
      if_cases g.Proper (str_eq c e) (g.step c (ps c) w).0 (ps e)
        (λ q. laws.stays_Proper c (ps c) w (h c)) (λ q. h e)

  moved : (Bytes → g.Place) → g.World → Bytes → Bytes → Local
  moved ps w c e = here (update ps c (g.step c (ps c) w).0) (g.step c (ps c) w).1 e

  moved_self :
      (ps : Bytes → g.Place) (w : g.World) (c : Bytes)
      → g.Named c
      → g.Proper (ps c)
      → moved ps w c c ≡ local_step g c (here ps w c)
  unfolding moved
  moved_self ps w c n h = rw (update_self ps c (g.step c (ps c) w).0) (laws.is_local c (ps c) w n h)

  moved_other :
      (ps : Bytes → g.Place) (w : g.World) (c e : Bytes)
      → g.Named c
      → g.Named e
      → c ≢ e
      → moved ps w c e ≡ (here ps w e)
  unfolding moved
  moved_other ps w c e n k ne =
      rw (update_other ps c e (g.step c (ps c) w).0 ne, laws.frame c e (ps c) (ps e) w n k ne)

  own_turn :
      (n : ℕ) (ps : Bytes → g.Place) (w : g.World) (c : Bytes)
      → g.Named c
      → g.Proper (ps c)
      → (steps (suc n) c (here ps w c) ≡ steps n c (moved ps w c c))
        × (gains (suc n) c (here ps w c)
            ≡ g.gain c (ps c) (g.view c (ps c) w) + gains n c (moved ps w c c))
  unfolding steps gains
  own_turn n ps w c k h = rw (moved_self ps w c k h) (refl, refl)

  -- The first turn of a schedule, and the others.
  first_turn :
      (n : ℕ) (ps : Bytes → g.Place) (w : g.World) (c e : Bytes)
      → g.Named c
      → g.Named e
      → g.Proper (ps c)
      → steps (if str_eq c e then suc n else n) e (here ps w e) ≡ steps n e (moved ps w c e)
  first_turn n ps w c e nc ne h = elim (Bool-cases (str_eq c e)) [
    | inl q ↦ rw q (
        subst (λ x. steps (suc n) x (here ps w x) ≡ steps n x (moved ps w c x)) (eq_of_str_eq c e q)
          (own_turn n ps w c nc h).0)
    | inr q ↦ rw q (rw (moved_other ps w c e nc ne (ne_of_str_eq c e q)) refl)
  ]

  -- In any schedule a goroutine takes its own steps, as often as it has its turn.
  steps-run :
      (cs : List Bytes) (ps : Bytes → g.Place) (w : g.World) (e : Bytes)
      → All g.Named cs
      → g.Named e
      → AllProper ps
      → steps (turns e cs) e (here ps w e) ≡ here (run g.step cs ps w).0 (run g.step cs ps w).1 e
  unfolding steps run moved
  steps-run [] ps w e named n h = refl
  steps-run (c ∷ cs) ps w e named n h =
      first_turn (turns e cs) ps w c e named.0 n (h c)
      ∙ steps-run cs (update ps c (g.step c (ps c) w).0) (g.step c (ps c) w).1 e named.1 n
          (update-AllProper ps w c h)

  -- The counter grows by what the goroutines add.
  count-run :
      (all cs : List Bytes) (ps : Bytes → g.Place) (w : g.World)
      → Distinct all
      → All g.Named all
      → All g.Named cs
      → All (λ c. Among c all) cs
      → AllProper ps
      → g.count (run g.step cs ps w).1
        ≡ sum all (λ e. gains (turns e cs) e (here ps w e)) + g.count w
  unfolding gains run moved
  count-run all [] ps w d n k a h = omega (arith, sum_none all)
  count-run all (c ∷ cs) ps w d n k a h =
      let w' = (g.step c (ps c) w).1 in
      let rest =
        count-run all cs (update ps c (g.step c (ps c) w).0) w' d n k.1 a.1
          (update-AllProper ps w c h) in
      omega (
        arith,
        rest,
        laws.counts c (ps c) w,
        sum-more all c (g.gain c (ps c) (g.view c (ps c) w))
            (λ e. gains (turns e (c ∷ cs)) e (here ps w e))
            (λ e. gains (turns e cs) e (moved ps w c e)) d a.0
            (rw (str_eq_refl c) (own_turn (turns c cs) ps w c k.0 (h c)).1)
            (λ e m ne.
              rw (str_eq_ne c e ne)
                (rw (moved_other ps w c e k.0 (Among-All g.Named all e n m) ne) refl)),
      )

  module _ (all cs es : List Bytes) (n : All g.Named all) (ps : Bytes → g.Place) (w : g.World)
      (named : All g.Named cs) (named' : All g.Named es) (proper : AllProper ps)
      (ends : (c : Bytes) → Among c all → (run g.step cs ps w).0 c ≡ g.over)
      (ends' : (c : Bytes) → Among c all → (run g.step es ps w).0 c ≡ g.over) where
    both :
        (c : Bytes)
        → Among c all
        → (steps (turns c cs) c (here ps w c) ≡ steps (turns c es) c (here ps w c))
          × (gains (turns c cs) c (here ps w c) ≡ gains (turns c es) c (here ps w c))
    both c m =
        let k = Among-All g.Named all c n m in
        agree (turns c cs) (turns c es) c (here ps w c)
          (ap (λ (x : Local). x.0) (steps-run cs ps w c named k proper) ∙ ends c m)
          (ap (λ (x : Local). x.0) (steps-run es ps w c named' k proper) ∙ ends' c m)

    same_views :
        (c : Bytes)
        → Among c all
        → g.view c g.over (run g.step cs ps w).1 ≡ g.view c g.over (run g.step es ps w).1
    same_views c m =
        let k = Among-All g.Named all c n m in
        (λ i. g.view c (sym (ends c m) i) (run g.step cs ps w).1)
        ∙ (ap (λ (x : Local). x.1)
              (sym (steps-run cs ps w c named k proper)
                ∙ ((both c m).0 ∙ steps-run es ps w c named' k proper))
            ∙ (λ i. g.view c (ends' c m i) (run g.step es ps w).1))

  -- Two schedules after which all goroutines are over end in worlds that no goroutine tells apart,
  -- with the same count.
  pub any_order :
      (all cs es : List Bytes) (ps : Bytes → g.Place) (w : g.World)
      → Distinct all
      → All g.Named all
      → All (λ c. Among c all) cs
      → All (λ c. Among c all) es
      → AllProper ps
      → ((c : Bytes) → Among c all → (run g.step cs ps w).0 c ≡ g.over)
      → ((c : Bytes) → Among c all → (run g.step es ps w).0 c ≡ g.over)
      → ((c : Bytes)
          → Among c all
          → g.view c g.over (run g.step cs ps w).1 ≡ g.view c g.over (run g.step es ps w).1)
        × (g.count (run g.step cs ps w).1 ≡ g.count (run g.step es ps w).1)
  any_order all cs es ps w d n a b proper h k =
      let x : All g.Named cs = all_Named all cs n a in
      let y : All g.Named es = all_Named all es n b in
      let z =
        sum_cong all (λ e. gains (turns e cs) e (here ps w e))
          (λ e. gains (turns e es) e (here ps w e))
          (λ e m. (both all cs es n ps w x y proper h k e m).1) in
      (
        same_views all cs es n ps w x y proper h k,
        omega
            (arith, count-run all cs ps w d n x a proper, count-run all es ps w d n y b proper, z),
      )
