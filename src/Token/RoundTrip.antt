-- ===== src/Token/RoundTrip.antt =====
-- `Deserialize` on what `Serialize` writes.
use bondster_bco.Base.{
  ◌≡◌, ◌≢◌, refl, sym, ap, ◌∙◌, true, Option, some, List, [], ◌∷◌, ◌++◌, append-nil, append_assoc,
  arith, length, length-append, take, drop, All, All-append,
}
use bondster_bco.Base.Text.{Bytes, Lacks, split, split_append, split-Lacks}
use bondster_bco.Base.Dict.{Dict, insert, Without, Distinct, insert-Without}
use mathlib.Core.Option.{some-injective}
use mathlib.Core.Path.{subst}
use bondster_bco.Calendar.{
  Time, IsValid, midnight, format_date, format_rfc3339, parse_date-format_date,
}
use bondster_bco.Token.{
  Token, sync_line, sync_lines, serialize, hydrate_line, hydrate_lines, hydrate, deserialize,
}

-- A currency code of three bytes, and a date that the layout can print.
abbrev pub IsEntry : Bytes × Time → Type 0
IsEntry e = (length e.0 ≡ 3) × Lacks b'\n' e.0 × IsValid e.1

-- What a token's fields may hold, so that the lines of its file can be told apart.
pub record IsStorable (t : Token) : Type 0 where
  pub username_line : Lacks b'\n' t.username
  pub password_line : Lacks b'\n' t.password
  pub entries : All IsEntry t.last_synced
  pub distinct : Distinct t.last_synced

-- Every sync time, at midnight of its day.
unfoldable pub midnights : Dict Time → Dict Time
midnights [] = []
midnights ((c, t) ∷ m) = (c, midnight t) ∷ midnights m

lines_of : Dict Time → List Bytes
lines_of [] = []
lines_of ((c, t) ∷ m) = sync_line c t ∷ lines_of m

pub format_date-Lacks : (t : Time) → Lacks b'\n' (format_date t)
unfolding format_date
format_date-Lacks t = omega arith

pub format_rfc3339-Lacks : (t : Time) → Lacks b'\n' (format_rfc3339 t)
unfolding format_rfc3339
format_rfc3339-Lacks t = omega arith

length-format_date : (t : Time) → length (format_date t) ≡ 10
unfolding format_date
length-format_date t = refl

sync_line-Lacks : (c : Bytes) (t : Time) → Lacks b'\n' c → Lacks b'\n' (sync_line c t)
unfolding sync_line
sync_line-Lacks c t h = All-append _ c (b' ' ∷ format_date t) h (omega arith, format_date-Lacks t)

-- The three slices of a line of `Deserialize`.
drop_line : (c : Bytes) (s : Bytes) → length c ≡ 3 → drop 4 (c ++ b' ' ∷ s) ≡ s
drop_line (x ∷ y ∷ z ∷ []) s h = refl
drop_line [] s h = absurd (omega arith)
drop_line (x ∷ []) s h = absurd (omega arith)
drop_line (x ∷ y ∷ []) s h = absurd (omega arith)
drop_line (x ∷ y ∷ z ∷ w ∷ c) s h = absurd (omega arith)

take_line : (c : Bytes) (s : Bytes) → length c ≡ 3 → take 3 (c ++ s) ≡ c
take_line (x ∷ y ∷ z ∷ []) s h = refl
take_line [] s h = absurd (omega arith)
take_line (x ∷ []) s h = absurd (omega arith)
take_line (x ∷ y ∷ []) s h = absurd (omega arith)
take_line (x ∷ y ∷ z ∷ w ∷ c) s h = absurd (omega arith)

hydrate_line-sync_line :
    (c : Bytes) (t : Time) (m : Dict Time)
    → IsEntry (c, t)
    → hydrate_line (sync_line c t) m ≡ insert c (midnight t) m
unfolding hydrate_line sync_line
hydrate_line-sync_line c t m e =
    rw
      (
        drop_line c (format_date t) e.0,
        parse_date-format_date t e.2,
        take_line c (b' ' ∷ format_date t) e.0,
      )
      (ground (arith, length-append c (b' ' ∷ format_date t), length-format_date t))

-- The first line of what is left to split, and the lines of the entries behind it.
split-sync_lines :
    (p : Bytes) (m : Dict Time)
    → Lacks b'\n' p
    → All IsEntry m
    → split b'\n' (p ++ sync_lines m) ≡ p ∷ lines_of m
unfolding sync_lines lines_of
split-sync_lines p [] h es = rw append-nil (split-Lacks b'\n' p h)
split-sync_lines p ((c, t) ∷ m) h (e, es) =
    split_append b'\n' p _ h
    ∙ ap (◌∷◌ p) (split-sync_lines (sync_line c t) m (sync_line-Lacks c t e.1) es)

Without-append :
    (k : Bytes) (j : Bytes) (v : Time) (m : Dict Time)
    → j ≢ k
    → Without k m
    → Without k (m ++ (j, v) ∷ [])
Without-append k j v [] ne h = (ne, tt)
Without-append k j v ((i, w) ∷ m) ne h = (h.0, Without-append k j v m ne h.1)

-- No key of `es` is a key of `m`.
abbrev Apart : Dict Time → Dict Time → Type 0
Apart m [] = Unit
Apart m ((c, t) ∷ es) = Without c m × Apart m es

Apart-append :
    (m : Dict Time) (c : Bytes) (t : Time) (es : Dict Time)
    → Without c es
    → Apart m es
    → Apart (m ++ (c, t) ∷ []) es
Apart-append m c t [] w h = tt
Apart-append m c t ((d, u) ∷ es) w h =
    (Without-append d c t m (λ e. w.0 (sym e)) h.0, Apart-append m c t es w.1 h.1)

hydrate_lines_cons :
    (line : Bytes) (lines : List Bytes) (m : Dict Time)
    → hydrate_lines (line ∷ lines) m ≡ hydrate_lines lines (hydrate_line line m)
unfolding hydrate_lines
hydrate_lines_cons line lines m = refl

hydrate_lines_nil : (m : Dict Time) → hydrate_lines [] m ≡ m
unfolding hydrate_lines
hydrate_lines_nil m = refl

hydrate_lines-lines_of :
    (es m : Dict Time)
    → All IsEntry es
    → Distinct es
    → Apart m es
    → hydrate_lines (lines_of es) m ≡ m ++ midnights es
unfolding lines_of midnights
hydrate_lines-lines_of [] m hs ds apart = hydrate_lines_nil m ∙ sym (append-nil m)
hydrate_lines-lines_of ((c, t) ∷ es) m (h, hs) (d, ds) (a, apart) =
    rw (hydrate_lines_cons, hydrate_line-sync_line c t m h, insert-Without c (midnight t) m a)
      (hydrate_lines-lines_of es (m ++ (c, midnight t) ∷ []) hs ds
          (Apart-append m c (midnight t) es d apart)
        ∙ append_assoc m ((c, midnight t) ∷ []) (midnights es))

Apart-nil : (es : Dict Time) → Apart [] es
Apart-nil [] = tt
Apart-nil ((c, t) ∷ es) = (tt, Apart-nil es)

hydrate_lem :
    (parse_rfc3339 : Bytes → Option Time) (entity : Token) (line u w : Bytes) (rest : List Bytes)
    {c : Time} {m : Dict Time}
    → parse_rfc3339 line ≡ some c
    → hydrate_lines rest [] ≡ m
    → hydrate parse_rfc3339 entity (line ∷ u ∷ w ∷ rest)
      ≡ (some (record entity { username = u; password = w; created_at = c; last_synced = m }), true)
unfolding hydrate
hydrate_lem parse entity line u w rest h k = ground arith

deserialize_text :
    (parse_rfc3339 : Bytes → Option Time) (t blank : Token) {c : Time}
    → IsStorable t
    → parse_rfc3339 (format_rfc3339 t.created_at) ≡ some c
    → deserialize parse_rfc3339 (some blank) (
        format_rfc3339 t.created_at
        ++ b'\n' ∷ (t.username ++ b'\n' ∷ (t.password ++ sync_lines t.last_synced)))
      ≡ (
        some (record t { id = blank.id; created_at = c; last_synced = midnights t.last_synced }),
        true,
      )
unfolding deserialize
deserialize_text parse t blank s p =
    rw
      (
        split_append b'\n' (format_rfc3339 t.created_at) _ (format_rfc3339-Lacks t.created_at),
        split_append b'\n' t.username _ s.username_line,
        split-sync_lines t.password t.last_synced s.password_line s.entries,
      )
      (hydrate_lem parse blank _ _ _ (lines_of t.last_synced) p
        (hydrate_lines-lines_of t.last_synced [] s.entries s.distinct (Apart-nil t.last_synced)))

-- The text of a storable token, read into any entity, gives that entity the token's user name,
-- password, and sync times at midnight, and the creation time that the parser reads.
pub deserialize-serialize :
    (parse_rfc3339 : Bytes → Option Time) (t blank : Token) (text : Bytes) {created : Time}
    → IsStorable t
    → serialize (some t) ≡ some text
    → parse_rfc3339 (format_rfc3339 t.created_at) ≡ some created
    → deserialize parse_rfc3339 (some blank) text ≡ (
      some
          (record t { id = blank.id; created_at = created; last_synced = midnights t.last_synced }),
      true,
    )
unfolding serialize
deserialize-serialize parse t blank text {created} s e p =
    subst
      (λ x. deserialize parse (some blank) x ≡ (
        some (record t {
          id = blank.id;
          created_at = created;
          last_synced = midnights t.last_synced;
        }),
        true,
      ))
      (some-injective _ _ e) (deserialize_text parse t blank s p)
