-- ===== src/Workflow/Accounts/Ensured.antt =====
-- Which accounts are ensured, and when statements are confirmed.
use mathlib.Core.List.{Memᴰ}
use mathlib.Core.Bool.{false≢true}
use mathlib.Core.Option.{some-injective}
use bondster_bco.Base.{
  ◌≡◌, sym, ap, ◌∙◌, true, Option, none, some, List, [], ◌∷◌, ◌++◌, arith, Bool-cases, ◌⊎◌, inl,
  inr,
}
use bondster_bco.Base.Text.{Bytes, codes, str_eq, str_eq_refl}
use bondster_bco.Storage.{Storage}
use bondster_bco.Bondster.{Statement}
use bondster_bco.Workflow.{Services, Codec, World, account_name, nostro}
use bondster_bco.Workflow.Requests.{account_request, credit_name, debit_name}
use bondster_bco.Workflow.Accounts.{
  member, add_key, Found, unconfirmed_statement, note, discover, create_each, ensure_found,
}

member-append :
    (x y : Bytes) (ys : List Bytes) → member x ys ≡ true → member x (ys ++ y ∷ []) ≡ true
unfolding member
member-append x y [] h = cc
member-append x y (z ∷ ys) h = ground (arith, member-append x y ys)

member_last : (x : Bytes) (ys : List Bytes) → member x (ys ++ x ∷ []) ≡ true
unfolding member
member_last x [] = ground (arith, str_eq_refl x)
member_last x (y ∷ ys) = ground (arith, member_last x ys)

member-add_key :
    (x y : Bytes) (ys : List Bytes) → member x ys ≡ true → member x (add_key y ys) ≡ true
unfolding add_key
member-add_key x y ys h = ground (arith, member-append x y ys h)

member-add_key_self : (x : Bytes) (ys : List Bytes) → member x (add_key x ys) ≡ true
unfolding add_key
member-add_key_self x ys = ground (arith, member_last x ys)

module _ (s : Storage) (v : Services) (codec : Codec) (tenant currency : Bytes) where
  abbrev found : s.Disk → Bytes → List Bytes → Found → Found
  found = discover s v codec tenant currency

  note-member :
      (x id : Bytes) (o : Option Statement) (f : Found)
      → member x f.accounts ≡ true
      → member x (note s v codec tenant currency id o f).accounts ≡ true
  unfolding note
  note-member x id none f h = h
  note-member x id (some st) f h = member-add_key x (account_name currency st.kind) f.accounts h

  found-member :
      (d : s.Disk) (t x : Bytes) (ids : List Bytes) (f : Found)
      → member x f.accounts ≡ true
      → member x (found d t ids f).accounts ≡ true
  unfolding discover
  found-member d t x [] f h = h
  found-member d t x (id ∷ ids) f h =
      found-member d t x ids _
        (note-member x id (unconfirmed_statement s v codec tenant currency d t id) f h)

  note_self :
      (id : Bytes) (o : Option Statement) (st : Statement) (f : Found)
      → o ≡ some st
      → member (account_name currency st.kind) (note s v codec tenant currency id o f).accounts
        ≡ true
  unfolding note
  note_self id none st f e = cc
  note_self id (some q) st f e =
      rw (ap (λ (x : Statement). account_name currency x.kind) (sym (some-injective _ _ e)))
        (member-add_key_self (account_name currency q.kind) f.accounts)

  found_each :
      (d : s.Disk) (t id : Bytes) (ids : List Bytes) (f : Found) (st : Statement)
      → Memᴰ id ids
      → unconfirmed_statement s v codec tenant currency d t id ≡ some st
      → member (account_name currency st.kind) (found d t ids f).accounts ≡ true
  unfolding discover
  found_each d t id [] f st m h = elim m [ ]
  found_each d t id (j ∷ ids) f st (Memᴰ.head e) h =
      found-member d t (account_name currency st.kind) ids _ (
        note_self j (unconfirmed_statement s v codec tenant currency d t j) st f
          (ap (unconfirmed_statement s v codec tenant currency d t) (sym e) ∙ h))
  found_each d t id (j ∷ ids) f st (Memᴰ.tail m) h = found_each d t id ids _ st m h

  -- Every account that the transaction of a listed statement names is among those that are asked
  -- for, if the statement is not yet confirmed and its amount is in the currency of its directory.
  pub accounts_of_transactions :
      (d : s.Disk) (t id : Bytes) (ids : List Bytes) (f : Found) (st : Statement)
      → Memᴰ id ids
      → unconfirmed_statement s v codec tenant currency d t id ≡ some st
      → st.amount.currency ≡ currency
      → (member (credit_name st) (
            add_key
              (account_name currency nostro)
              (discover s v codec tenant currency d t ids f).accounts)
          ≡ true)
        × (member (debit_name st) (
              add_key
                (account_name currency nostro)
                (discover s v codec tenant currency d t ids f).accounts)
            ≡ true)
  unfolding credit_name debit_name
  accounts_of_transactions d t id ids f st m h e =
      let kind =
        member-add_key _ (account_name currency nostro) _ (found_each d t id ids f st m h) in
      let own = member-add_key_self (account_name currency nostro) (found d t ids f).accounts in
      rw e (elim (Bool-cases (str_eq st.direction (codes "CREDIT"))) [
        | inl credit ↦ rw credit (own, kind)
        | inr debit ↦ rw debit (kind, own)
      ])

  -- The vault answered each of the requests, one after the other, without an error.
  abbrev pub Created : v.Net → List Bytes → Type 0
  Created net [] = Unit
  Created net (name ∷ names) =
      ((v.create_account net (account_request tenant currency name)).1 ≡ true)
      × Created (v.create_account net (account_request tenant currency name)).0 names

  create_each-Created :
      (net : v.Net) (names : List Bytes)
      → (create_each s v codec tenant currency net names).1 ≡ true
      → Created net names
  unfolding create_each
  create_each-Created net [] h = tt
  create_each-Created net (name ∷ names) h =
      elim (Bool-cases (v.create_account net (account_request tenant currency name)).1) [
        | inl done ↦ (
          done,
          create_each-Created (v.create_account net (account_request tenant currency name)).0 names
              (rw done at h),
        )
        | inr refused ↦ absurd (false≢true (rw refused at h))
      ]

  -- Statements are confirmed only if all accounts were created: the storage stays as it was, or
  -- every request for an account, that of the nostro account included, was answered with success.
  pub ensure_found-Created :
      (w : World s v) (f : Found)
      → ((ensure_found s v codec tenant currency w f).plaintext ≡ w.plaintext)
        ⊎ Created w.net (add_key (account_name currency nostro) f.accounts)
  unfolding ensure_found
  ensure_found-Created w f =
      elim (Bool-cases
        (create_each s v codec tenant currency w.net
          (add_key (account_name currency nostro) f.accounts)).1) [
            | inl done ↦ inr (create_each-Created w.net _ done)
            | inr refused ↦ inl (ground arith)
          ]
