-- ===== src/Workflow/Sync/Monotone.antt =====
-- The sync times before and after a synchronization.
use native.Mathlib.Nat.{le_refl}
use bondster_bco.Base.{
  ◌≤◌, ◌≡◌, refl, ap, ◌∙◌, Bool, true, false, Option, none, some, List, [], ◌∷◌, arith, ltb→le,
  if_cases,
}
use bondster_bco.Base.Text.{Bytes, str_eq, str_eq_refl}
use bondster_bco.Base.Dict.{lookup-insert}
use bondster_bco.Calendar.{Time, stamp, before}
use bondster_bco.Timeshift.{TimeRange, partition_interval}
use bondster_bco.Token.{get_last_synced_time, set_last_synced_time}
use bondster_bco.Storage.{Storage}
use bondster_bco.Workflow.{Services, Codec, World, statement_path}
use bondster_bco.Workflow.Download.{download_statements}
use bondster_bco.Workflow.Sync.{
  make_known, discover_ids, discover_listed, discover_intervals, store_time, download_batches,
  downloads, intervals, synchronize, download_statements_for_currency,
}

module _ (s : Storage) (v : Services) (codec : Codec) (parse_rfc3339 : Bytes → Option Time)
    (currency : Bytes) where
  abbrev time_of : Bytes → World s v → Option Time
  time_of c w = get_last_synced_time (some w.token) c

  abbrev store : Time → World s v → World s v
  store = store_time s v codec parse_rfc3339 currency

  -- A time is there, and it is not before `t`.
  abbrev pub NotBefore : Time → Option Time → Type 0
  NotBefore t none = ⊥
  NotBefore t (some u) = stamp t ≤ stamp u

  store_own : (t : Time) (w : World s v) → time_of currency (store t w) ≡ some t
  unfolding store_time get_last_synced_time set_last_synced_time
  store_own t w = rw (lookup-insert currency currency t w.token.last_synced, str_eq_refl currency)

  store_other :
      (c : Bytes) (t : Time) (w : World s v)
      → str_eq currency c ≡ false
      → time_of c (store t w) ≡ time_of c w
  unfolding store_time get_last_synced_time set_last_synced_time
  store_other c t w h = rw (lookup-insert currency c t w.token.last_synced, h)

  batch_token :
      (ids : List Bytes) (w : World s v)
      → (download_statements s v codec currency ids w).0.token ≡ w.token
  unfolding download_statements
  batch_token [] w = refl
  batch_token (id ∷ ids) w = ground arith

  NotBefore-trans :
      (t u : Time) (o : Option Time) → stamp t ≤ stamp u → NotBefore u o → NotBefore t o
  NotBefore-trans t u none h k = k
  NotBefore-trans t u (some x) h k = omega arith

  abbrev batches : List (List Bytes) → Time → World s v → World s v
  batches = download_batches s v codec parse_rfc3339 currency

  abbrev after_batch : List Bytes → World s v → World s v
  after_batch ids w = (download_statements s v codec currency ids w).0

  abbrev batch_time : List Bytes → World s v → Time
  batch_time ids w = (download_statements s v codec currency ids w).1

  batches-NotBefore :
      (bs : List (List Bytes)) (last : Time) (w : World s v)
      → NotBefore last (time_of currency w)
      → NotBefore last (time_of currency (batches bs last w))
  unfolding download_batches
  batches-NotBefore [] last w h = h
  batches-NotBefore (ids ∷ rest) last w h =
      let new = batch_time ids w in
      let w' = after_batch ids w in
      if_cases (λ u. NotBefore last (time_of currency u)) (before new last) _ _
        (λ older. batches-NotBefore rest last w' (rw (batch_token ids w) h))
        (λ newer.
          NotBefore-trans last new _ (ltb→le (stamp new) (stamp last) newer) (
            batches-NotBefore rest new (store new w')
              (rw (store_own new w') (le_refl (stamp new)))))

  batches_other :
      (c : Bytes) (bs : List (List Bytes)) (last : Time) (w : World s v)
      → str_eq currency c ≡ false
      → time_of c (batches bs last w) ≡ time_of c w
  unfolding download_batches
  batches_other c [] last w h = refl
  batches_other c (ids ∷ rest) last w h =
      let new = batch_time ids w in
      let w' = after_batch ids w in
      let same = ap (λ t. get_last_synced_time (some t) c) (batch_token ids w) in
      if_cases (λ u. time_of c u ≡ time_of c w) (before new last) _ _
        (λ older. batches_other c rest last w' h ∙ same)
        (λ newer. batches_other c rest new (store new w') h ∙ store_other c new w' h ∙ same)

  known_token :
      (w : World s v) (id : Bytes) (o : Option Bool)
      → (make_known s v codec parse_rfc3339 currency w id o).0.token ≡ w.token
  unfolding make_known
  known_token w id none = refl
  known_token w id (some true) = refl
  known_token w id (some false) = refl

  ids_token :
      (ids : List Bytes) (w : World s v)
      → (discover_ids s v codec parse_rfc3339 currency ids w).0.token ≡ w.token
  unfolding discover_ids
  ids_token [] w = refl
  ids_token (id ∷ ids) w =
      let o = s.exists w.plaintext (statement_path w.token.id currency id) in
      let known = make_known s v codec parse_rfc3339 currency w id o in
      if_cases (λ (r : World s v × Bool). r.0.token ≡ w.token) known.1 _ _
        (λ _. ids_token ids known.0 ∙ known_token w id o) (λ _. known_token w id o)

  listed_token :
      (w : World s v) (o : Option (List Bytes))
      → (discover_listed s v codec parse_rfc3339 currency w o).0.token ≡ w.token
  unfolding discover_listed
  listed_token w none = refl
  listed_token w (some ids) = ids_token ids w

  intervals_token :
      (rs : List TimeRange) (w : World s v)
      → (discover_intervals s v codec parse_rfc3339 currency rs w).0.token ≡ w.token
  unfolding discover_intervals
  intervals_token [] w = refl
  intervals_token (r ∷ rs) w =
      let (net', ids) = v.get_statement_ids_in_interval w.net currency r in
      let found = discover_listed s v codec parse_rfc3339 currency (record w { net = net' }) ids in
      let same = listed_token (record w { net = net' }) ids in
      if_cases (λ (x : World s v × Bool). x.0.token ≡ w.token) found.1 _ _
        (λ _. intervals_token rs found.0 ∙ same) (λ _. same)

  abbrev Kept : Bytes → Time → World s v → World s v → Type 0
  Kept c t w w' = NotBefore t (time_of currency w') × (time_of c w' ≡ time_of c w)

  downloads-Kept :
      (c : Bytes) (t : Time) (w : World s v) (go_on : Bool)
      → NotBefore t (time_of currency w)
      → str_eq currency c ≡ false
      → Kept c t w (downloads s v codec parse_rfc3339 currency t w go_on)
  unfolding downloads
  downloads-Kept c t w false h ne = (h, refl)
  downloads-Kept c t w true h ne = (batches-NotBefore _ t w h, batches_other c _ t w ne)

  synchronize-Kept :
      (c : Bytes) (t : Time) (w : World s v)
      → time_of currency w ≡ some t
      → str_eq currency c ≡ false
      → Kept c t w (synchronize s v codec parse_rfc3339 currency w (some t))
  unfolding synchronize
  synchronize-Kept c t w h ne =
      let rs = intervals s v codec parse_rfc3339 currency (partition_interval t (v.now w.net)) in
      let found = discover_intervals s v codec parse_rfc3339 currency rs w in
      let same = intervals_token rs w in
      let own = ap (λ x. get_last_synced_time (some x) currency) same in
      let (fresh, others) =
        downloads-Kept c t found.0 found.1 (rw (own, h) (le_refl (stamp t))) ne in
      (fresh, others ∙ ap (λ x. get_last_synced_time (some x) c) same)

  -- A synchronization never moves the sync time of its currency back, where the token has one,
  -- whatever the gateway answers, and leaves the time of any other currency as it is.
  pub download_statements_for_currency-NotBefore :
      (w : World s v) (t : Time) (c : Bytes)
      → get_last_synced_time (some w.token) currency ≡ some t
      → str_eq currency c ≡ false
      → NotBefore t (
          get_last_synced_time
            (some (download_statements_for_currency s v codec parse_rfc3339 currency w).token)
            currency)
        × (get_last_synced_time
              (some (download_statements_for_currency s v codec parse_rfc3339 currency w).token)
              c
            ≡ get_last_synced_time (some w.token) c)
  unfolding download_statements_for_currency
  download_statements_for_currency-NotBefore w t c h ne = rw h (synchronize-Kept c t w h ne)
