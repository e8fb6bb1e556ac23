-- ===== src/Tests.antt =====
-- Concrete runs: data, and the theorems applied to it.
pub mod Model
pub mod Actors
pub mod Network
pub mod Flow
pub mod Parallel
pub mod EndToEnd
pub mod Daemons
pub mod Platform
use bondster_bco.Base.{
  ℕ, suc, ◌≡◌, refl, arith, Bool, true, false, Option, none, some, List, [], ◌∷◌, ◌+◌, ◌*◌, ◌-◌,
}
use bondster_bco.Base.Text.{Bytes, codes}
use bondster_bco.Calendar.{Time, IsValid, date, days_in_bounds}
use bondster_bco.Token.{Token}
use bondster_bco.Messages.{Coordinates, Message}
use bondster_bco.Bondster.{Statement}
use bondster_bco.Workflow.{Services, Codec, World, data_path}
use bondster_bco.Storage.Memory.{memory, Files}

-- A parser that reads the day of a printed time.
abbrev pub parse_day : Bytes → Option Time
parse_day (a ∷ b ∷ c ∷ d ∷ _ ∷ e ∷ f ∷ _ ∷ g ∷ h ∷ _) = some (
    date ((a - b'0') * 1000 + (b - b'0') * 100 + (c - b'0') * 10 + (d - b'0'))
      ((e - b'0') * 10 + (f - b'0')) ((g - b'0') * 10 + (h - b'0')))
parse_day _ = none

abbrev pub january : Time
january = date 2020 1 5

abbrev pub march : Time
march = date 2020 3 9

pub january-IsValid : IsValid january
january-IsValid = record {
  year_lt = omega arith;
  month_pos = omega arith;
  month_le = omega arith;
  day_pos = omega arith;
  day_le = let low = (days_in_bounds 2020 1).0 in omega arith;
  nanos_lt = omega arith;
}

pub march-IsValid : IsValid march
march-IsValid = record {
  year_lt = omega arith;
  month_pos = omega arith;
  month_le = omega arith;
  day_pos = omega arith;
  day_le = let low = (days_in_bounds 2020 3).0 in omega arith;
  nanos_lt = omega arith;
}

abbrev pub crowns : Bytes
crowns = codes "CZK"

abbrev pub euros : Bytes
euros = codes "EUR"

abbrev pub synced : Token
synced = record {
  id = codes "t";
  username = codes "joe";
  password = codes "secret";
  created_at = january;
  last_synced = (crowns, january) ∷ (euros, march) ∷ [];
}

abbrev pub client_at : Coordinates
client_at = record { region = codes "BondsterRest"; name = codes "relay/1" }

abbrev pub actor_at : Coordinates
actor_at = record { region = codes "BondsterImport/demo"; name = codes "t" }

abbrev pub payment : Statement
payment = record {
  id_transaction = codes "s1";
  id_transfer = codes "f1";
  kind = codes "INTEREST";
  direction = codes "CREDIT";
  loan_id = none;
  value_date = march;
  originator = none;
  external = none;
  amount = record { value = codes "12.5"; currency = crowns };
  is_storno = false;
}

-- Services that accept what they are asked, and count the requests.
abbrev pub accepting : Services
accepting = record {
  Net = ℕ;
  now = λ n. march;
  create_account = λ n a. (suc n, true);
  create_transaction = λ n t. (suc n, true);
  get_currencies = λ n. (suc n, some (crowns ∷ []));
  get_statement_ids_in_interval = λ n c r. (suc n, some (codes "s1" ∷ []));
  get_statements = λ n c ids. (suc n, some (payment ∷ []));
}

-- Services that refuse.
abbrev pub refusing : Services
refusing = record {
  Net = ℕ;
  now = λ n. march;
  create_account = λ n a. (suc n, false);
  create_transaction = λ n t. (suc n, false);
  get_currencies = λ n. (suc n, none);
  get_statement_ids_in_interval = λ n c r. (suc n, none);
  get_statements = λ n c ids. (suc n, none);
}

abbrev pub one_payment : Codec
one_payment = record {
  marshal = λ st. some st.id_transaction;
  unmarshal = λ text. some payment;
  format_amount = λ text. text;
}

-- The data of one statement.
abbrev pub downloaded : Files
downloaded = (data_path (codes "t") crowns (codes "s1"), codes "s1") ∷ []

abbrev pub world_of : (v : Services) → v.Net → World memory v
world_of v net = record {
  plaintext = downloaded;
  encrypted = [];
  token = synced;
  net = net;
  imported_transactions = 0;
  imported_transfers = 0;
  downloaded_statements = 0;
}
