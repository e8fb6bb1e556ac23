-- ===== src/Metrics/Lossless.antt =====
-- What the worker reports of the counters, and what it leaves in them.
use bondster_bco.Base.{ℕ, ◌<◌, ◌≡◌, List, [], ◌∷◌, arith}
use bondster_bco.Metrics.{
  word, add_word, neg_word, Metrics, Call, created, deleted, imported, downloaded, call, calls,
  Gaps, all_calls, seen_by, work,
}

-- All counters are int64 words.
pub record IsWords (m : Metrics) : Type 0 where
  pub created_lt : m.created_tokens < word
  pub deleted_lt : m.deleted_tokens < word
  pub transactions_lt : m.imported_transactions < word
  pub transfers_lt : m.imported_transfers < word
  pub statements_lt : m.downloaded_statements < word

-- Two sets of counters, added counter by counter.
unfoldable pub plus : Metrics → Metrics → Metrics
plus a b = record {
  created_tokens = add_word a.created_tokens b.created_tokens;
  deleted_tokens = add_word a.deleted_tokens b.deleted_tokens;
  imported_transactions = add_word a.imported_transactions b.imported_transactions;
  imported_transfers = add_word a.imported_transfers b.imported_transfers;
  downloaded_statements = add_word a.downloaded_statements b.downloaded_statements;
}

pub call-IsWords : (c : Call) (m : Metrics) → IsWords m → IsWords (call c m)
unfolding call
call-IsWords created m h = omega arith
call-IsWords deleted m h = omega arith
call-IsWords (imported n) m h = omega arith
call-IsWords (downloaded n) m h = omega arith

pub calls-IsWords : (cs : List Call) (m : Metrics) → IsWords m → IsWords (calls cs m)
unfolding calls
calls-IsWords [] m h = h
calls-IsWords (c ∷ cs) m h = calls-IsWords cs (call c m) (call-IsWords c m h)

take_off_word :
    (seen now : ℕ) → seen < word → now < word → add_word seen (add_word now (neg_word seen)) ≡ now
take_off_word seen now h k = omega arith

-- Where the counters are 64-bit words, what the worker reports and what it leaves add up to the
-- counters with all calls made: the calls before it, and those made while it works, behind any of
-- its reads.
pub work-plus :
    (g : Gaps) (m : Metrics) → IsWords m → plus (work g m).0 (work g m).1 ≡ all_calls g m
unfolding work plus seen_by
work-plus g m h =
    let b = calls g.after_created m in
    let c = calls g.after_deleted b in
    let d = calls g.after_transactions c in
    let e = calls g.after_transfers d in
    let n = calls g.after_statements e in
    let hb = calls-IsWords g.after_created m h in
    let hc = calls-IsWords g.after_deleted b hb in
    let hd = calls-IsWords g.after_transactions c hc in
    let he = calls-IsWords g.after_transfers d hd in
    let k = calls-IsWords g.after_statements e he in
    λ i. record {
      created_tokens = take_off_word m.created_tokens n.created_tokens h.created_lt k.created_lt i;
      deleted_tokens = take_off_word b.deleted_tokens n.deleted_tokens hb.deleted_lt k.deleted_lt i;
      imported_transactions =
          take_off_word c.imported_transactions n.imported_transactions hc.transactions_lt
            k.transactions_lt i;
      imported_transfers =
          take_off_word d.imported_transfers n.imported_transfers hd.transfers_lt k.transfers_lt i;
      downloaded_statements =
          take_off_word e.downloaded_statements n.downloaded_statements he.statements_lt
            k.statements_lt i;
    }
