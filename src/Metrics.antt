-- ===== src/Metrics.antt =====
-- services/bondster-bco-import/metrics/metrics.go: counters that a worker reads out.
--
-- A counter is an int64 that is added to atomically, kept as its bit pattern. `Work` reads the
-- counters one by one, and subtracts what it read afterwards; others may add in between.
pub mod Lossless
use bondster_bco.Base.{ℕ, ◌+◌, ◌-◌, ◌%◌, ◌^◌, List, [], ◌∷◌}

abbrev pub word : ℕ
word = 2 ^ 64

-- `atomic.AddInt64`
abbrev pub add_word : ℕ → ℕ → ℕ
add_word a b = (a + b) % word

-- `-n`
abbrev pub neg_word : ℕ → ℕ
neg_word n = (word - n) % word

pub record Metrics : Type 0 where
  pub created_tokens : ℕ
  pub deleted_tokens : ℕ
  pub imported_transactions : ℕ
  pub imported_transfers : ℕ
  pub downloaded_statements : ℕ

unfoldable pub new_metrics : Metrics
new_metrics = record {
  created_tokens = 0;
  deleted_tokens = 0;
  imported_transactions = 0;
  imported_transfers = 0;
  downloaded_statements = 0;
}

unfoldable pub token_created : Metrics → Metrics
token_created m = record m { created_tokens = add_word m.created_tokens 1 }

unfoldable pub token_deleted : Metrics → Metrics
token_deleted m = record m { deleted_tokens = add_word m.deleted_tokens 1 }

unfoldable pub transaction_imported : ℕ → Metrics → Metrics
transaction_imported transfers m = record m {
  imported_transactions = add_word m.imported_transactions 1;
  imported_transfers = add_word m.imported_transfers transfers;
}

unfoldable pub statements_imported : ℕ → Metrics → Metrics
statements_imported n m = record m { downloaded_statements = add_word m.downloaded_statements n }

-- The second half of `Work`: what was read, `seen`, is taken off, and reported.
unfoldable pub take_off : Metrics → Metrics → Metrics
take_off seen m = record {
  created_tokens = add_word m.created_tokens (neg_word seen.created_tokens);
  deleted_tokens = add_word m.deleted_tokens (neg_word seen.deleted_tokens);
  imported_transactions = add_word m.imported_transactions (neg_word seen.imported_transactions);
  imported_transfers = add_word m.imported_transfers (neg_word seen.imported_transfers);
  downloaded_statements = add_word m.downloaded_statements (neg_word seen.downloaded_statements);
}

-- One call of another goroutine.
pub data Call : Type 0 where
  created deleted : Call
  imported : ℕ → Call
  downloaded : ℕ → Call

unfoldable pub call : Call → Metrics → Metrics
unfolding token_created token_deleted transaction_imported statements_imported
call created m = token_created m
call deleted m = token_deleted m
call (imported n) m = transaction_imported n m
call (downloaded n) m = statements_imported n m

unfoldable pub calls : List Call → Metrics → Metrics
calls [] m = m
calls (c ∷ cs) m = calls cs (call c m)

-- The calls of others behind each of the five reads. Those that fall between two of the
-- subtractions, each of one counter, can be counted as made before all of them.
pub record Gaps : Type 0 where
  pub after_created : List Call
  pub after_deleted : List Call
  pub after_transactions : List Call
  pub after_transfers : List Call
  pub after_statements : List Call

-- The counters when all calls are made, and none is taken off.
abbrev pub all_calls : Gaps → Metrics → Metrics
all_calls g m = calls g.after_statements (
    calls g.after_transfers
      (calls g.after_transactions (calls g.after_deleted (calls g.after_created m))))

-- The first half of `Work`: the counters are read one behind the other.
unfoldable pub seen_by : Gaps → Metrics → Metrics
seen_by g m =
    let b = calls g.after_created m in
    let c = calls g.after_deleted b in
    let d = calls g.after_transactions c in
    let e = calls g.after_transfers d in
    record {
      created_tokens = m.created_tokens;
      deleted_tokens = b.deleted_tokens;
      imported_transactions = c.imported_transactions;
      imported_transfers = d.imported_transfers;
      downloaded_statements = e.downloaded_statements;
    }

-- `Work`: what it reports, and the counters after it.
unfoldable pub work : Gaps → Metrics → Metrics × Metrics
unfolding take_off seen_by
work g m = (seen_by g m, take_off (seen_by g m) (all_calls g m))
