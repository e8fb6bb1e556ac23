-- ===== src/Workflow/Import/AnyAccounts.antt =====
-- `CreateAccounts` with its goroutines, one for each currency, in any interleaving.
use bondster_bco.Base.{◌≡◌, refl, sym, ap, ◌∙◌, Bool, true, Option, some, List, [], ◌∷◌, All}
use bondster_bco.Base.Text.{Bytes, Lacks}
use bondster_bco.Calendar.{Time}
use bondster_bco.Entities.{Account}
use bondster_bco.Token.{get_currencies}
use bondster_bco.Storage.{Storage, StorageLaws, TouchLaws}
use bondster_bco.Workflow.{Services, Codec, World, ack_account_path}
use bondster_bco.Workflow.Accounts.{import_accounts_from_statements}
use bondster_bco.Workflow.Accounts.Goroutine.{Place, starting, over, step, view}
use bondster_bco.Workflow.Accounts.Goroutine.Local.{goroutines, goroutines-Laws}
use bondster_bco.Workflow.Accounts.Goroutine.Sequential.{alone}
use bondster_bco.Workflow.Parallel.{Among, Distinct, Goroutines, run, started}
use bondster_bco.Workflow.Parallel.Views.{View, seen_of, of_name-Lacks}
use bondster_bco.Workflow.Parallel.InTurn.{same_as_in_turn}
use bondster_bco.Workflow.Parallel.Alone.{in_turn}
use bondster_bco.Workflow.Import.{accounts_each, create_accounts}

-- Whether the account of a statement is confirmed.
abbrev pub confirmed : (s : Storage) (v : Services) → World s v → Bytes → Bytes → Option Bool
confirmed s v w c id = s.exists w.plaintext (ack_account_path w.token.id c id)

module _ (s : Storage) (laws : StorageLaws s) (touches : TouchLaws s)
    (written : (d : s.Disk) (p : Bytes) → (s.touch_file d p).1 ≡ true) (v : Services)
    (verdict : Account → Bool)
    (judges : (net : v.Net) (r : Account) → (v.create_account net r).1 ≡ verdict r) (codec : Codec)
    (parse_rfc3339 : Bytes → Option Time) (tenant : Bytes) where
  abbrev one : Bytes → Place → World s v → Place × World s v
  one = step s v codec tenant

  abbrev g : Goroutines
  g = goroutines s laws touches written v verdict judges codec tenant

  in_turn_lem :
      (cs : List Bytes) (w : World s v)
      → in_turn g starting
          (λ c u. import_accounts_from_statements s v codec tenant c u)
          (alone s laws touches written v verdict judges codec tenant)
          cs
          w
        ≡ accounts_each s v codec parse_rfc3339 tenant cs w
  unfolding accounts_each
  in_turn_lem [] w = refl
  in_turn_lem (c ∷ cs) w = in_turn_lem cs (import_accounts_from_statements s v codec tenant c w)

  -- Where the storage keeps the laws and no touch fails, and the vault judges a request by itself:
  -- in whatever order the goroutines of `CreateAccounts`, one for each currency, take their
  -- steps, when all are over the accounts of the same statements are confirmed as if the
  -- currencies were looked at one after the other. The currencies are distinct and have no slash.
  pub create_accounts_any_order :
      (w : World s v) (schedule : List Bytes)
      → Distinct (get_currencies (some w.token))
      → All (Lacks b'/') (get_currencies (some w.token))
      → All (λ c. Among c (get_currencies (some w.token))) schedule
      → All
          (λ c.
            (run one schedule (started starting over (get_currencies (some w.token))) w).0 c ≡ over)
          (get_currencies (some w.token))
      → (c id : Bytes) → Among c (get_currencies (some w.token))
      → Lacks b'/' id
      → confirmed s v
          (run one schedule (started starting over (get_currencies (some w.token))) w).1
          c
          id
        ≡ confirmed s v (create_accounts s v codec parse_rfc3339 tenant w) c id
  unfolding create_accounts view seen_of
  create_accounts_any_order w schedule d n a h c id m k =
      let cs = get_currencies (some w.token) in
      let (views, counts) =
        same_as_in_turn g (goroutines-Laws s laws touches written v verdict judges codec tenant)
          starting (λ c u. import_accounts_from_statements s v codec tenant c u)
          (alone s laws touches written v verdict judges codec tenant) tt tt cs schedule w d n a
          h in
      sym (of_name-Lacks id _ k)
      ∙ (ap (λ (x : View). x.acked id) (views c m)
          ∙ (of_name-Lacks id _ k
              ∙ ap (λ (u : World s v). confirmed s v u c id) (in_turn_lem cs w)))
