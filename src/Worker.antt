-- ===== src/Worker.antt =====
-- services/bondster-bco-import/integration/worker.go: which tokens the worker has synchronized.
pub mod Round
use bondster_bco.Base.{
  ◌≡◌, if_cases, Bool, false, ◌||◌, Option, none, some, List, [], ◌∷◌, arith, if◌then◌else◌,
}
use bondster_bco.Base.Text.{Bytes, str_eq, eq_of_str_eq}
use bondster_bco.Calendar.{Time}
use bondster_bco.Token.{Token}
use bondster_bco.Storage.{Storage}
use bondster_bco.Persistence.{load_tokens}

-- The keys of the map `visited`.
visited_has : Bytes → List Bytes → Bool
visited_has x [] = false
visited_has x (y ∷ ys) = str_eq y x || visited_has x ys

-- The tokens whose IDs the loop appends to `uniq`.
unfoldable pub first_of_each : List Bytes → List Token → List Token
unfolding visited_has
first_of_each visited [] = []
first_of_each visited (t ∷ ts) =
    let skipped = first_of_each visited ts in
    let taken = first_of_each (t.username ∷ visited) ts in
    if visited_has t.username visited then skipped else t ∷ taken

abbrev pub ids : List Token → List Bytes
ids [] = []
ids (t ∷ ts) = t.id ∷ ids ts

module _ (s : Storage) (parse_rfc3339 : Bytes → Option Time) where
  uniq : Option (List Token) → Option (List Bytes)
  unfolding first_of_each
  uniq none = none
  uniq (some tokens) = some (ids (first_of_each [] tokens))

  unfoldable pub get_active_tokens : s.Disk → s.Disk × Option (List Bytes)
  unfolding uniq
  get_active_tokens d = let (d', tokens) = load_tokens s parse_rfc3339 d in (d', uniq tokens)

  called : Option (List Bytes) → List Bytes
  called none = []
  called (some tokens) = tokens

  -- `Work`: the storage, and the calls of `callback` in their order.
  unfoldable pub work : s.Disk → s.Disk × List Bytes
  unfolding called
  work d = let (d', tokens) = get_active_tokens d in (d', called tokens)

-- The tokens with the user name `u`, and the first of them alone.
abbrev pub of_user : Bytes → List Token → List Token
of_user u [] = []
of_user u (t ∷ ts) = if str_eq t.username u then t ∷ of_user u ts else of_user u ts

abbrev pub first_of_user : Bytes → List Token → List Token
first_of_user u [] = []
first_of_user u (t ∷ ts) = if str_eq t.username u then t ∷ [] else first_of_user u ts

-- Tokens taken from a list in its order.
pub data Taken : List Token → List Token → Type 0 where
  end : Taken [] []
  take : (t : Token) {xs ys : List Token} → Taken xs ys → Taken (t ∷ xs) (t ∷ ys)
  pass : (t : Token) {xs ys : List Token} → Taken xs ys → Taken xs (t ∷ ys)

of_user-visited :
    (u : Bytes) (visited : List Bytes) (ts : List Token)
    → of_user u (first_of_each visited ts)
      ≡ (if visited_has u visited then [] else first_of_user u ts)
unfolding first_of_each visited_has
of_user-visited u visited [] = ground arith
of_user-visited u visited (t ∷ ts) = ground (
  arith,
  of_user-visited u visited ts,
  of_user-visited u (t.username ∷ visited) ts,
  eq_of_str_eq t.username u,
)

-- Of the tokens of each user name the first is taken, and no other.
pub of_user-first_of_each :
    (u : Bytes) (ts : List Token) → of_user u (first_of_each [] ts) ≡ first_of_user u ts
unfolding visited_has
of_user-first_of_each u ts = of_user-visited u [] ts

pub first_of_each-Taken :
    (visited : List Bytes) (ts : List Token) → Taken (first_of_each visited ts) ts
unfolding first_of_each
first_of_each-Taken visited [] = end
first_of_each-Taken visited (t ∷ ts) =
    if_cases (λ xs. Taken xs (t ∷ ts)) (visited_has t.username visited) (first_of_each visited ts)
      (t ∷ first_of_each (t.username ∷ visited) ts) (λ e. pass t (first_of_each-Taken visited ts))
      (λ e. take t (first_of_each-Taken (t.username ∷ visited) ts))
