-- ===== src/Workflow/Accounts/Goroutine/Sequential.antt =====
-- The goroutine of a currency that is alone does what `importAccountsFromStatemets` does in one.
use bondster_bco.Base.{
  ◌≡◌, refl, Bool, true, false, Option, none, some, List, [], ◌∷◌, if◌then◌else◌,
}
use bondster_bco.Base.Text.{Bytes}
use bondster_bco.Entities.{Account}
use bondster_bco.Storage.{Storage, StorageLaws, TouchLaws}
use bondster_bco.Workflow.{Services, Codec, World, account_name, nostro, ack_account_path}
use bondster_bco.Workflow.Requests.{account_request}
use bondster_bco.Workflow.Accounts
use bondster_bco.Workflow.Accounts.{
  Found, add_key, is_empty, discover, unconfirmed, unconfirmed_statement, note, create_each,
  confirm_each, confirm, ensure, ensure_found, import_accounts_from_statements,
}
use bondster_bco.Workflow.Accounts.Goroutine.{
  starting, rounds, creating, confirming, over, listed, tested, answered, decided, step,
}
use bondster_bco.Workflow.Accounts.Goroutine.Local.{goroutines}
use bondster_bco.Workflow.Parallel.{Goroutines}
use bondster_bco.Workflow.Parallel.Alone.{Alone, ends, goes}

module _ (s : Storage) (laws : StorageLaws s) (touches : TouchLaws s)
    (written : (d : s.Disk) (p : Bytes) → (s.touch_file d p).1 ≡ true) (v : Services)
    (verdict : Account → Bool)
    (judges : (net : v.Net) (r : Account) → (v.create_account net r).1 ≡ verdict r) (codec : Codec)
    (tenant : Bytes) where
  abbrev g : Goroutines
  g = goroutines s laws touches written v verdict judges codec tenant

  alone_confirming :
      (c : Bytes) (ids : List Bytes) (w : World s v)
      → Alone g c (confirming ids) w (confirm s v codec tenant c w ids true)
  unfolding confirm confirm_each step
  alone_confirming c [] w = goes (ends refl refl)
  alone_confirming c (id ∷ ids) w = goes (
      alone_confirming c ids
        (record w { plaintext = (s.touch_file w.plaintext (ack_account_path w.token.id c id)).0 }))

  -- The rest of the loop over the accounts, and what follows it.
  abbrev created : Bytes → List Bytes → List Bytes → World s v → World s v
  created c names ids w =
      let (net', done) = create_each s v codec tenant c w.net names in
      confirm s v codec tenant c (record w { net = net' }) ids done

  after_answer :
      (c : Bytes) (names ids : List Bytes) (w : World s v) (b : Bool)
      → ((u : World s v) → Alone g c (creating names ids) u (created c names ids u))
      → Alone g c (answered names ids b) w (
          let rest = create_each s v codec tenant c w.net names in
          let (net', done) = if b then rest else (w.net, false) in
          confirm s v codec tenant c (record w { net = net' }) ids done)
  unfolding answered confirm
  after_answer c names ids w true h = h w
  after_answer c names ids w false h = ends refl refl

  alone_creating :
      (c : Bytes) (names ids : List Bytes) (w : World s v)
      → Alone g c (creating names ids) w (created c names ids w)
  unfolding create_each step
  alone_creating c [] ids w = goes (alone_confirming c ids w)
  alone_creating c (name ∷ names) ids w =
      let (net', done) = v.create_account w.net (account_request tenant c name) in
      goes (after_answer c names ids (record w { net = net' }) done (alone_creating c names ids))

  after_choice :
      (c : Bytes) (f : Found) (w : World s v) (b : Bool)
      → Alone g c
          (if b then over else creating (add_key (account_name c nostro) f.accounts) f.ids)
          w
          (if b then w else ensure s v codec tenant c w f)
  unfolding ensure
  after_choice c f w true = ends refl refl
  after_choice c f w false = alone_creating c (add_key (account_name c nostro) f.accounts) f.ids w

  after_rounds :
      (c : Bytes) (f : Found) (w : World s v)
      → Alone g c (decided s v codec tenant c f) w (ensure_found s v codec tenant c w f)
  unfolding decided ensure_found
  after_rounds c f w = after_choice c f w (is_empty s v codec tenant c f.ids)

  module _ (c id : Bytes) (ids : List Bytes)
      (rest : (f : Found) (w : World s v)
        → Alone g c (rounds ids f) w (
            ensure_found s v codec tenant c w
              (discover s v codec tenant c w.plaintext w.token.id ids f))) where
    after_test :
        (f : Found) (w : World s v) (o : Option Bool)
        → Alone g c (tested id ids f o) w (
            ensure_found s v codec tenant c w (
              discover s v codec tenant c w.plaintext w.token.id ids (
                note s v codec tenant c id
                  (unconfirmed s v codec tenant c w.plaintext w.token.id id o)
                  f)))
    unfolding tested unconfirmed note step
    after_test f w none = rest f w
    after_test f w (some true) = rest f w
    after_test f w (some false) = goes (rest _ w)

  alone_each :
      (c : Bytes) (ids : List Bytes) (f : Found) (w : World s v)
      → Alone g c (rounds ids f) w (
          ensure_found s v codec tenant c w
            (discover s v codec tenant c w.plaintext w.token.id ids f))
  unfolding discover unconfirmed_statement step
  alone_each c [] f w = goes (after_rounds c f w)
  alone_each c (id ∷ ids) f w = goes (after_test c id ids (alone_each c ids) f w _)

  after_listing :
      (c : Bytes) (w : World s v) (o : Option (List Bytes))
      → Alone g c (listed o) w (Accounts.listed s v codec tenant c w o)
  unfolding listed Accounts.listed
  after_listing c w none = ends refl refl
  after_listing c w (some ids) = alone_each c ids _ w

  pub alone :
      (c : Bytes) (w : World s v)
      → Alone g c starting w (import_accounts_from_statements s v codec tenant c w)
  unfolding import_accounts_from_statements step
  alone c w = goes (after_listing c w _)
