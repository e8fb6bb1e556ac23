-- ===== src/Workflow/Parallel.antt =====
-- Goroutines that share a world, one for each currency: a goroutine takes its steps in its own
-- order, and a schedule says whose turn it is.
pub mod Sums
pub mod Order
pub mod Alone
pub mod InTurn
pub mod Views
pub mod Apart
pub mod Touched
use bondster_bco.Base.{
  ℕ, zero, suc, ◌+◌, ◌≡◌, refl, ap, ◌∙◌, sym, ◌≢◌, ◌⊎◌, inl, inr, Bool, true, false, List, [], ◌∷◌,
  All, arith, if◌then◌else◌, Bool-cases,
}
use bondster_bco.Base.Text.{Bytes, str_eq, str_eq_refl, str_eq_ne, eq_of_str_eq}

abbrev pub Among : Bytes → List Bytes → Type 0
Among c [] = ⊥
Among c (x ∷ xs) = (x ≡ c) ⊎ Among c xs

abbrev pub Absent : Bytes → List Bytes → Type 0
Absent c = All (λ x. x ≢ c)

abbrev pub Distinct : List Bytes → Type 0
Distinct [] = Unit
Distinct (x ∷ xs) = Absent x xs × Distinct xs

-- How often it is a goroutine's turn.
abbrev pub turns : Bytes → List Bytes → ℕ
turns c [] = 0
turns c (x ∷ xs) = let n = turns c xs in if str_eq x c then suc n else n

module _ {Place : Type 0} where
  -- The places of all goroutines after one of them has moved.
  unfoldable pub update : (Bytes → Place) → Bytes → Place → Bytes → Place
  update ps c p e = if str_eq c e then p else ps e

  pub update_self : (ps : Bytes → Place) (c : Bytes) (p : Place) → update ps c p c ≡ p
  unfolding update
  update_self ps c p = rw (str_eq_refl c)

  pub update_other : (ps : Bytes → Place) (c e : Bytes) (p : Place) → c ≢ e → update ps c p e ≡ ps e
  unfolding update
  update_other ps c e p ne = rw (str_eq_ne c e ne)

-- A goroutine is started for each currency; no other is there.
module _ {Place : Type 0} (start over : Place) where
  unfoldable pub started : List Bytes → Bytes → Place
  started [] e = over
  started (c ∷ cs) e = if str_eq c e then start else started cs e

-- The goroutines of a schedule take a step each, in its order.
module _ {Place World : Type 0} (step : Bytes → Place → World → Place × World) where
  unfoldable pub run : List Bytes → (Bytes → Place) → World → (Bytes → Place) × World
  run [] ps w = (ps, w)
  run (c ∷ cs) ps w = let (p, w') = step c (ps c) w in run cs (update ps c p) w'

-- What a goroutine does is told by its own place and its own view of the world, which no other
-- goroutine changes; and a counter of the world grows by what each goroutine adds.
pub record Goroutines : Type 1 where
  pub Place : Type 0
  pub World : Type 0
  pub View : Type 0
  pub over : Place
  pub step : Bytes → Place → World → Place × World
  pub view : Bytes → Place → World → View
  pub local : Bytes → Place → View → Place × View
  pub gain : Bytes → Place → View → ℕ
  pub count : World → ℕ
  pub Named : Bytes → Type 0
  pub Proper : Place → Type 0

module _ (g : Goroutines) where
  abbrev pub local_step : Bytes → g.Place × g.View → g.Place × g.View
  local_step c s = g.local c s.0 s.1

  abbrev pub seen : Bytes → g.Place × g.World → g.Place × g.View
  seen c s = (s.0, g.view c s.0 s.1)

  pub record Laws : Type 0 where
    pub is_local :
        (c : Bytes) (p : g.Place) (w : g.World)
        → g.Named c
        → g.Proper p
        → seen c (g.step c p w) ≡ g.local c p (g.view c p w)
    pub frame :
        (c e : Bytes) (p q : g.Place) (w : g.World)
        → g.Named c
        → g.Named e
        → c ≢ e
        → g.view e q (g.step c p w).1 ≡ g.view e q w
    pub counts :
        (c : Bytes) (p : g.Place) (w : g.World)
        → g.count (g.step c p w).1 ≡ g.gain c p (g.view c p w) + g.count w
    pub stays_Proper :
        (c : Bytes) (p : g.Place) (w : g.World) → g.Proper p → g.Proper (g.step c p w).0
    pub rests : (c : Bytes) (x : g.View) → g.local c g.over x ≡ (g.over, x)
    pub gains_none : (c : Bytes) (x : g.View) → g.gain c g.over x ≡ 0
