-- ===== src/Rest/Tokens/Shown.antt =====
-- What the list of tokens shows.
use mathlib.Core.Path.{subst}
use mathlib.Core.Option.{some-injective}
use bondster_bco.Base.{
  ℕ, Bool, ◌&&◌, ◌||◌, leb, arith, none, All, ◌≡◌, refl, ap, ◌∙◌, Option, some, List, [], ◌∷◌, ◌++◌,
  append_assoc, true, sym, Option-cases, inl, inr,
}
use bondster_bco.Base.Text.{Bytes, codes}
use bondster_bco.Calendar.{Time}
use bondster_bco.Storage.{Storage}
use bondster_bco.Rest.{status, tenant_parameter}
use bondster_bco.Rest.Tokens.{
  Listed, import_path, hydrate_token, keep, hydrate_each, load_listed, load_found, load_tokens,
  marshal_listed, write_chunk, print, hydrated, deserialize, write_tokens, get_for,
  handle_get_tokens,
}

-- A text that stands somewhere in another.
abbrev pub Within : Bytes → Bytes → Type 0
Within part text = (before : Bytes) × (after : Bytes) × (text ≡ before ++ (part ++ after))

Within-behind : (lead part text : Bytes) → Within part text → Within part (lead ++ text)
Within-behind lead part text (before, after, e) = (
  lead ++ before,
  after,
  ap (λ (t : Bytes). lead ++ t) e ∙ sym (append_assoc lead before (part ++ after)),
)

-- IDs are drawn as digits and letters.
abbrev is_alphanumeric : ℕ → Bool
is_alphanumeric c = leb b'0' c && leb c b'9' || leb b'a' c && leb c b'z' || leb b'A' c && leb c b'Z'

abbrev pub IsPlain : Bytes → Type 0
IsPlain = All (λ c. is_alphanumeric c ≡ true)

module _ (s : Storage) (parse : Bytes → Option Time) where
  hydrated-id :
      (id : Bytes) (o : Option Bytes) (t : Listed) → hydrated s parse id o ≡ some t → t.id ≡ id
  unfolding hydrated
  hydrated-id id none t h = cc
  hydrated-id id (some text) t h = elim (Option-cases (deserialize s parse text)) [
    | inl n ↦ cc (rw n at h)
    | inr (u, n) ↦ sym (ap (λ (x : Listed). x.id) (some-injective _ _ (rw n at h)))
  ]

  hydrate_token-id :
      (d : s.Disk) (tenant id : Bytes) (t : Listed)
      → hydrate_token s parse d tenant id ≡ some t
      → t.id ≡ id
  unfolding hydrate_token
  hydrate_token-id d tenant id t h = ground (
    arith,
    hydrated-id id
        (s.read_file_fully d (import_path tenant ++ (codes "/" ++ (id ++ codes "/value")))) t,
  )

  hydrate_each-append :
      (d : s.Disk) (tenant : Bytes) (xs : List Bytes) (id : Bytes) (ys : List Bytes) (t : Listed)
      → All IsPlain xs
      → hydrate_token s parse d tenant id ≡ some t
      → (before : List Listed) × (after : List Listed) × (hydrate_each s parse d tenant
            (xs ++ id ∷ ys)
          ≡ before ++ t ∷ after)
        × All (λ t. IsPlain t.id) before
  unfolding hydrate_each keep
  hydrate_each-append d tenant [] id ys t a h =
      ([], hydrate_each s parse d tenant ys, rw h refl, tt)
  hydrate_each-append d tenant (x ∷ xs) id ys t a h =
      let (before, after, e, all) = hydrate_each-append d tenant xs id ys t a.1 h in
      elim (Option-cases (hydrate_token s parse d tenant x)) [
        | inl n ↦ (before, after, rw n e, all)
        | inr (u, n) ↦ (
          u ∷ before,
          after,
          rw n (ap (λ ls. u ∷ ls) e),
          (subst IsPlain (sym (hydrate_token-id d tenant x u n)) a.0, all),
        )
      ]

  module _ (marshal : Bytes → Option Bytes) where
    -- The encoder leaves the text of a token as it is.
    abbrev pub Kept : Listed → Type 0
    Kept t = marshal (marshal_listed s parse t) ≡ some (marshal_listed s parse t)

    chunk-Within :
        (x : Listed) (t : Listed) (rest : Bytes)
        → Kept x
        → Within (marshal_listed s parse t) rest
        → Within
            (marshal_listed s parse t)
            (write_chunk s parse marshal (marshal (marshal_listed s parse x)) rest)
    unfolding write_chunk
    chunk-Within x t rest k h =
        rw k (Within-behind (marshal_listed s parse x) (marshal_listed s parse t) rest h)

    own-Within :
        (t : Listed) (rest : Bytes)
        → Kept t
        → Within
            (marshal_listed s parse t)
            (write_chunk s parse marshal (marshal (marshal_listed s parse t)) rest)
    unfolding write_chunk
    own-Within t rest k = rw k ([], rest, refl)

    print-Within :
        (xs : List Listed) (t : Listed) (ys : List Listed)
        → All Kept xs
        → Kept t
        → Within (marshal_listed s parse t) (print s parse marshal (xs ++ t ∷ ys))
    unfolding print
    print-Within [] t [] a k = own-Within t [] k
    print-Within [] t (u ∷ ys) a k = own-Within t (b'\n' ∷ print s parse marshal (u ∷ ys)) k
    print-Within (x ∷ []) t ys a k =
        chunk-Within x t _ a.0
          (Within-behind (b'\n' ∷ []) (marshal_listed s parse t) _ (print-Within [] t ys tt k))
    print-Within (x ∷ y ∷ xs) t ys a k =
        chunk-Within x t _ a.0 (
          Within-behind (b'\n' ∷ []) (marshal_listed s parse t) _
            (print-Within (y ∷ xs) t ys a.1 k))

    each-Kept :
        ((x : Listed) → IsPlain x.id → Kept x)
        → (ts : List Listed) → All (λ t. IsPlain t.id) ts
        → All Kept ts
    each-Kept keeps [] h = tt
    each-Kept keeps (t ∷ ts) h = (keeps t h.0, each-Kept keeps ts h.1)

    -- A token that can be read from the directory is in the answer, if the encoder keeps the tokens
    -- of plain IDs, as this one is and those that are listed before it.
    pub handle_get_tokens-Within :
        (d : s.Disk) (raw tenant : Bytes) (xs : List Bytes) (id : Bytes) (ys : List Bytes)
        (t : Listed)
        → ((x : Listed) → IsPlain x.id → Kept x)
        → All IsPlain xs
        → IsPlain id
        → tenant_parameter raw ≡ some tenant
        → s.exists d (import_path tenant) ≡ some true
        → s.list_directory d (import_path tenant) ≡ some (xs ++ id ∷ ys)
        → hydrate_token s parse d tenant id ≡ some t
        → (text : Bytes) × (handle_get_tokens s parse marshal d raw ≡ status 200 text)
          × Within (marshal_listed s parse t) text
    unfolding handle_get_tokens get_for load_tokens load_found load_listed write_tokens
    handle_get_tokens-Within d raw tenant xs id ys t keeps plain own p e l h =
        let (before, after, q, all) = hydrate_each-append d tenant xs id ys t plain h in
        (
          print s parse marshal (before ++ t ∷ after),
          rw (p, e, l, q) refl,
          print-Within before t after (each-Kept keeps before all)
              (keeps t (subst IsPlain (sym (hydrate_token-id d tenant id t h)) own)),
        )
