-- ===== src/Actor/Lifecycle/Done.antt =====
-- Which call of the storage stands behind the confirmation of a creation.
use mathlib.Core.Bool.{true≢false}
use bondster_bco.Base.{ap, sym, ◌∙◌, ◌≡◌, ◌≢◌, refl, Bool, true, false, Option, none, some}
use bondster_bco.Base.Text.{Bytes, str_eq, str_eq_refl}
use bondster_bco.Calendar.{Time}
use bondster_bco.Messages.{
  Message, resp_create_token, resp_delete_token, resp_synchronize_token, resp_token_does_not_exist,
  fatal_error,
}
use bondster_bco.Token.{Token}
use bondster_bco.Storage.{Storage}
use bondster_bco.Persistence
use bondster_bco.Actor.Lifecycle.{
  State, nil, non_exist, exist, synchronizing, Context, creation, deletion, nil_loaded, receive,
  nil_token, non_exist_token, exist_token, synchronizing_token,
}
use bondster_bco.Actor.Lifecycle.Backed.{answer}

other_code : (b r : Bytes) → str_eq b r ≡ false → some b ≢ some r
other_code b r e h =
    let q : b ≡ r = cc in true≢false (sym (str_eq_refl r) ∙ (ap (λ x. str_eq x r) (sym q) ∙ e))

module _ (s : Storage) (parse : Bytes → Option Time) (now : Time) (id : Bytes) (d : s.Disk) where
  -- The storage is that of a creation that returned no error.
  abbrev pub Done : s.Disk → Type 0
  Done d' =
      (username : Bytes) × (password : Bytes) × ((Persistence.create_token s parse now d id username
          password).1
        ≡ true)
      × (d' ≡ (Persistence.create_token s parse now d id username password).0)

  creation_done :
      (c : Context) (u p : Bytes) (made : Bool)
      → (Persistence.create_token s parse now d id u p).1 ≡ made
      → answer (creation s parse c (Persistence.create_token s parse now d id u p).0 made).effects
        ≡ some resp_create_token
      → Done (creation s parse c (Persistence.create_token s parse now d id u p).0 made).disk
  unfolding creation
  creation_done c u p true e h = (u, p, e, refl)
  creation_done c u p false e h = absurd (other_code fatal_error resp_create_token refl h)

  deletion_other :
      (kept : State) (c : Context) (d' : s.Disk) (gone : Bool)
      → answer (deletion s parse kept c d' gone).effects ≢ some resp_create_token
  unfolding deletion
  deletion_other kept c d' true h = other_code resp_delete_token resp_create_token refl h
  deletion_other kept c d' false h = other_code fatal_error resp_create_token refl h

  nil_other :
      (c : Context) (d' : s.Disk) (o : Option Token)
      → answer (nil_loaded s parse c d' o).effects ≢ some resp_create_token
  unfolding nil_loaded
  nil_other c d' none h = cc
  nil_other c d' (some t) h = cc

  non_exist_done :
      (c : Context) (m : Message)
      → answer (non_exist_token s parse now id d c m).effects ≡ some resp_create_token
      → Done (non_exist_token s parse now id d c m).disk
  unfolding non_exist_token
  non_exist_done c Message.synchronization_done h = cc
  non_exist_done c (Message.create_token _ u p) h = creation_done c u p _ refl h
  non_exist_done c (Message.delete_token _) h =
      absurd (other_code resp_token_does_not_exist resp_create_token refl h)
  non_exist_done c Message.synchronize_token h =
      absurd (other_code resp_token_does_not_exist resp_create_token refl h)
  non_exist_done c Message.other h = absurd (other_code fatal_error resp_create_token refl h)

  exist_other :
      (c : Context) (m : Message)
      → answer (exist_token s parse id d c m).effects ≢ some resp_create_token
  unfolding exist_token
  exist_other c Message.synchronization_done h = cc
  exist_other c (Message.create_token _ u p) h = other_code fatal_error resp_create_token refl h
  exist_other c (Message.delete_token _) h = deletion_other exist c _ _ h
  exist_other c Message.synchronize_token h =
      other_code resp_synchronize_token resp_create_token refl h
  exist_other c Message.other h = other_code fatal_error resp_create_token refl h

  synchronizing_other :
      (c : Context) (m : Message)
      → answer (synchronizing_token s parse id d c m).effects ≢ some resp_create_token
  unfolding synchronizing_token
  synchronizing_other c Message.synchronization_done h = cc
  synchronizing_other c (Message.create_token _ u p) h =
      other_code fatal_error resp_create_token refl h
  synchronizing_other c (Message.delete_token _) h = deletion_other synchronizing c _ _ h
  synchronizing_other c Message.synchronize_token h =
      other_code resp_synchronize_token resp_create_token refl h
  synchronizing_other c Message.other h = other_code fatal_error resp_create_token refl h

  -- Only a creation that returned no error is confirmed as one.
  pub receive_done :
      (state : State) (c : Context)
      → answer (receive s parse now id state d c).effects ≡ some resp_create_token
      → Done (receive s parse now id state d c).disk
  unfolding receive nil_token
  receive_done nil c h = absurd (nil_other c _ _ h)
  receive_done non_exist c h = non_exist_done c c.data_ h
  receive_done exist c h = absurd (exist_other c c.data_ h)
  receive_done synchronizing c h = absurd (synchronizing_other c c.data_ h)
