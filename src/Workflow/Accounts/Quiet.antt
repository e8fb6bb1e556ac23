-- ===== src/Workflow/Accounts/Quiet.antt =====
-- What the import of accounts leaves alone.
use bondster_bco.Base.{refl, Bool, true, false, Option, none, some, List, if_cases}
use bondster_bco.Base.Text.{Bytes}
use bondster_bco.Storage.{Storage}
use bondster_bco.Workflow.{Services, Codec, World, Quiet, Quiet-refl}
use bondster_bco.Workflow.Accounts.{
  Found, confirm, ensure, ensure_found, listed, import_accounts_from_statements,
}

module _ (s : Storage) (v : Services) (codec : Codec) (tenant currency : Bytes) where
  confirm-Quiet :
      (net : v.Net) (w : World s v) (ids : List Bytes) (b : Bool)
      → Quiet s v w (confirm s v codec tenant currency (record w { net = net }) ids b)
  unfolding confirm
  confirm-Quiet net w ids true = record {
    token_same = refl;
    encrypted_same = refl;
    downloaded_same = refl;
  }
  confirm-Quiet net w ids false = record {
    token_same = refl;
    encrypted_same = refl;
    downloaded_same = refl;
  }

  ensure_found-Quiet :
      (w : World s v) (f : Found) → Quiet s v w (ensure_found s v codec tenant currency w f)
  unfolding ensure_found ensure
  ensure_found-Quiet w f =
      if_cases (λ (u : World s v). Quiet s v w u) _ w (ensure s v codec tenant currency w f)
        (λ e. Quiet-refl s v w) (λ e. confirm-Quiet _ w f.ids _)

  listed-Quiet :
      (w : World s v) (o : Option (List Bytes)) → Quiet s v w (listed s v codec tenant currency w o)
  unfolding listed
  listed-Quiet w none = Quiet-refl s v w
  listed-Quiet w (some ids) = search ensure_found-Quiet

  pub import_accounts_from_statements-Quiet :
      (w : World s v) → Quiet s v w (import_accounts_from_statements s v codec tenant currency w)
  unfolding import_accounts_from_statements
  import_accounts_from_statements-Quiet w = search listed-Quiet
