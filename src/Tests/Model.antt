-- ===== src/Tests/Model.antt =====
-- Dates, the token's text and its persistence.
use mathlib.Core.Bool.{true≢false}
use bondster_bco.Base.{◌≡◌, refl, ap, arith, true, Option, none, some, List, [], ◌∷◌, ◌++◌}
use bondster_bco.Base.Text.{Bytes, codes, str_eq}
use bondster_bco.Calendar.{format_date, format_rfc3339, parse_date, parse_date-format_date}
use bondster_bco.Timeshift.{TimeRange, slice_by_months, partition_interval}
use bondster_bco.Timeshift.Months.{month_slices, slice_by_months-month_slices}
use bondster_bco.Timeshift.Partition.{Leads, partition_interval-Leads, partition_interval_within}
use bondster_bco.Token.{new_token, serialize, deserialize, sync_lines, sync_line}
use bondster_bco.Token.RoundTrip.{IsStorable, midnights}
use bondster_bco.Storage.Memory.{memory, Files, memory_laws, write_new, in_files}
use bondster_bco.Base.Dict.{lookup, insert}
use bondster_bco.Persistence.{create_token, load_token, delete_token, token_path}
use bondster_bco.Persistence.Laws.{load_token-delete_token}
use bondster_bco.Persistence.Restored.{
  deserialize-serialize_restores, load_token-create_token_restores, created_listed,
}
use bondster_bco.Calendar.{Time}
use bondster_bco.Calendar.Rfc3339.{parse_rfc3339}
use bondster_bco.Rest.Tokens
use bondster_bco.Rest.Tokens.Stored.{rest_deserialize-serialize}
use bondster_bco.Tests.{january, january-IsValid, march, march-IsValid, euros, synced, parse_day}

parse_date-format_date_example : parse_date (format_date january) ≡ some january
parse_date-format_date_example = parse_date-format_date january january-IsValid

slice_by_months-month_slices_example : slice_by_months january march ≡ some (month_slices 2020 1 3)
slice_by_months-month_slices_example =
    slice_by_months-month_slices january march january-IsValid march-IsValid

partition_interval-Leads_example :
    (ts : List TimeRange) × (partition_interval january march ≡ some ts)
    × Leads 2020 1 january ts march
partition_interval-Leads_example =
    partition_interval-Leads january march january-IsValid march-IsValid refl

partition_interval_within_example :
    partition_interval january january
    ≡ some (record { start_time = january; end_time = january } ∷ [])
partition_interval_within_example =
    partition_interval_within january january january-IsValid january-IsValid refl refl refl

synced-IsStorable : IsStorable synced
synced-IsStorable = record {
  username_line = omega arith;
  password_line = omega arith;
  entries = ((refl, omega arith, january-IsValid), ((refl, omega arith, march-IsValid), tt));
  distinct = ((λ h. true≢false (ap (str_eq euros) h), tt), (tt, tt));
}

january_parsed : parse_day (format_rfc3339 january) ≡ some january
unfolding format_rfc3339
january_parsed = refl

abbrev synced_text : Bytes
synced_text = format_rfc3339 january ++ codes "\njoe\nsecret\nCZK 05/01/2020\nEUR 09/03/2020"

synced_serialized : serialize (some synced) ≡ some synced_text
unfolding serialize format_rfc3339 format_date sync_lines sync_line
synced_serialized = refl

abbrev others : Bytes → Option Time
others s = none

created_at_second :
    (create_token memory
      (parse_rfc3339 others)
      january
      []
      (codes "t")
      (codes "joe")
      (codes "secret")).1
    ≡ true
unfolding create_token serialize write_new in_files lookup
created_at_second = refl

load_token-create_token_restores_example :
    (load_token memory
      (parse_rfc3339 others)
      (create_token memory
        (parse_rfc3339 others)
        january
        []
        (codes "t")
        (codes "joe")
        (codes "secret")).0
      (codes "t")).1
    ≡ some (record synced { last_synced = [] })
load_token-create_token_restores_example =
    load_token-create_token_restores others memory memory_laws january [] (codes "t") (codes "joe")
      (codes "secret") january-IsValid (omega arith) (omega arith) created_at_second

deserialize-serialize_restores_example :
    deserialize (parse_rfc3339 others) (some synced) synced_text
    ≡ (some (record synced { last_synced = midnights synced.last_synced }), true)
deserialize-serialize_restores_example =
    deserialize-serialize_restores others synced synced synced_text synced-IsStorable
      january-IsValid synced_serialized

-- The storage of the REST service with the file of the token of the tenant `acme`.
abbrev shared : Files
shared =
    (codes "t_acme/import/bondster/token/t/value", format_rfc3339 january ++ codes "\njoe\nsecret")
    ∷ []

same_file :
    memory.read_file_fully shared (codes "t_acme/import/bondster/token/t/value")
    ≡ memory.read_file_fully
        (create_token memory
          (parse_rfc3339 others)
          january
          []
          (codes "t")
          (codes "joe")
          (codes "secret")).0
        (codes "token/t/value")
unfolding create_token serialize write_new in_files lookup insert new_token parse_rfc3339
    format_rfc3339
same_file = refl

created_listed_example :
    Tokens.hydrate_token memory (parse_rfc3339 others) shared (codes "acme") (codes "t")
    ≡ some (record { id = codes "t"; created_at = january })
created_listed_example =
    created_listed others memory memory_laws memory shared january [] (codes "acme") (codes "t")
      (codes "joe") (codes "secret") january-IsValid (λ h. cc) (λ h. cc) created_at_second same_file

deleted_once : (delete_token memory parse_day [] (codes "t")).1 ≡ true
unfolding delete_token
deleted_once = refl

load_token-delete_token_example :
    load_token memory parse_day (delete_token memory parse_day [] (codes "t")).0 (codes "t") ≡ (
      (memory.delete (delete_token memory parse_day [] (codes "t")).0 (token_path (codes "t"))).0,
      none,
    )
load_token-delete_token_example =
    load_token-delete_token memory memory_laws parse_day [] (codes "t") deleted_once

rest_deserialize-serialize_example :
    Tokens.deserialize memory parse_day synced_text ≡ parse_day (format_rfc3339 january)
rest_deserialize-serialize_example =
    rest_deserialize-serialize memory parse_day synced synced_text synced_serialized
