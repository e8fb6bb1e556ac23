-- ===== src/Actor/Lifecycle/Flights.antt =====
-- How many synchronizations of one token run at a time.
use bondster_bco.Base.{ℕ, suc, ◌+◌, ◌≤◌, ◌≡◌, refl, ap, true, Option, List, [], ◌∷◌, arith}
use bondster_bco.Base.Text.{Bytes}
use bondster_bco.Calendar.{Time}
use bondster_bco.Messages.{Message, Coordinates}
use bondster_bco.Storage.{Storage}
use bondster_bco.Persistence.{create_token, delete_token}
use bondster_bco.Actor.Lifecycle.{
  State, nil, non_exist, exist, synchronizing, Effect, synchronize, Context, receive,
}

-- The goroutines that the effects start.
abbrev pub started : List Effect → ℕ
started [] = 0
started (synchronize ∷ rest) = suc (started rest)
started (e ∷ rest) = started rest

-- A message that is neither a deletion nor the end of a synchronization.
abbrev pub LeavesAlone : Message → Type 0
LeavesAlone Message.synchronization_done = ⊥
LeavesAlone (Message.delete_token x) = ⊥
LeavesAlone m = Unit

abbrev pub flights : State → ℕ
flights synchronizing = 1
flights _ = 0

module _ (s : Storage) (parse_rfc3339 : Bytes → Option Time) (id : Bytes) where
  -- One actor with the goroutines that it started: those that still run, and those whose
  -- `SynchornizationDone` waits in the mailbox.
  pub record Flight : Type 0 where
    pub disk : s.Disk
    pub state : State
    pub running : ℕ
    pub landed : ℕ

  -- The actor takes a message.
  unfoldable pub take_message : Time → Context → Flight → Flight
  take_message now c w =
      let o = receive s parse_rfc3339 now id w.state w.disk c in
      record {
        disk = o.disk;
        state = o.state;
        running = w.running + started o.effects;
        landed = w.landed;
      }

  -- What may happen next: a message that is neither a deletion nor the end of a synchronization,
  -- a goroutine that ends, with whatever it did to the storage, or the actor hearing of that.
  pub data Next (w : Flight) : Flight → Type 0 where
    message : (now : Time) (c : Context) → LeavesAlone c.data_ → Next w (take_message now c w)
    land :
        {n : ℕ} (d : s.Disk)
        → w.running ≡ suc n
        → Next w (record w { disk = d; running = n; landed = suc w.landed })
    hear :
        {n : ℕ} (now : Time) (c : Context)
        → w.landed ≡ suc n
        → c.data_ ≡ Message.synchronization_done
        → Next w (take_message now c (record w { landed = n }))

  pub data Reach (w : Flight) : Flight → Type 0 where
    here : Reach w w
    next : {u v : Flight} → Reach w u → Next u v → Reach w v

  -- The actor synchronizes exactly while one goroutine runs or waits to be heard of.
  abbrev pub IsSteady : Flight → Type 0
  IsSteady w = w.running + w.landed ≡ flights w.state

  flights-receive :
      (now : Time) (state : State) (d : s.Disk) (c : Context)
      → LeavesAlone c.data_
      → flights state + started (receive s parse_rfc3339 now id state d c).effects
        ≡ flights (receive s parse_rfc3339 now id state d c).state
  unfolding receive
  flights-receive now nil d c h = ground arith
  flights-receive now non_exist d c h = ground arith
  flights-receive now exist d c h = ground arith
  flights-receive now synchronizing d c h = ground arith

  hear_flights :
      (now : Time) (state : State) (d : s.Disk) (c : Context)
      → state ≡ synchronizing
      → c.data_ ≡ Message.synchronization_done
      → (started (receive s parse_rfc3339 now id state d c).effects ≡ 0)
        × (flights (receive s parse_rfc3339 now id state d c).state ≡ 0)
  unfolding receive
  hear_flights now state d c e h = ground arith

  one_landed : (w : Flight) {n : ℕ} → IsSteady w → w.landed ≡ suc n → w.state ≡ synchronizing
  one_landed w h e = ground arith

  Next-IsSteady : {w v : Flight} → IsSteady w → Next w v → IsSteady v
  unfolding take_message
  Next-IsSteady {w} h (message now c alone) =
      omega (arith, flights-receive now w.state w.disk c alone)
  Next-IsSteady h (land d e) = omega arith
  Next-IsSteady {w} h (hear {n} now c e done) =
      let sync = one_landed w h e in
      omega (arith, hear_flights now w.state w.disk c sync done, ap flights sync)

  Reach-IsSteady : {w v : Flight} → IsSteady w → Reach w v → IsSteady v
  Reach-IsSteady h here = h
  Reach-IsSteady h (next r step) = Next-IsSteady (Reach-IsSteady h r) step

  flights_le : (state : State) → flights state ≤ 1
  flights_le state = ground arith

  -- From where one synchronization runs or waits to be heard of exactly if the actor is
  -- synchronizing, and as long as no deletion is asked for, at most one synchronization of a
  -- token runs at a time, however requests, ends of synchronizations and changes to the storage
  -- interleave.
  pub Reach-running-le :
      {w v : Flight} → w.running + w.landed ≡ flights w.state → Reach w v → v.running ≤ 1
  Reach-running-le {w} {v} h r = omega (arith, Reach-IsSteady h r, flights_le v.state)

  abbrev told : Message → Coordinates → Context
  told m client = record { data_ = m; receiver = client; sender = client }

  take-synchronize :
      (now : Time) (client : Coordinates) (w : Flight)
      → w.state ≡ exist
      → take_message now (told Message.synchronize_token client) w
        ≡ record w { state = synchronizing; running = w.running + 1 }
  unfolding take_message receive
  take-synchronize now client w e = ground arith

  take-delete :
      (now : Time) (client : Coordinates) (x : Bytes) (w : Flight)
      → w.state ≡ synchronizing
      → (delete_token s parse_rfc3339 w.disk id).1 ≡ true
      → take_message now (told (Message.delete_token x) client) w
        ≡ record w { disk = (delete_token s parse_rfc3339 w.disk id).0; state = non_exist }
  unfolding take_message receive
  take-delete now client x w e gone = ground arith

  take-create :
      (now : Time) (client : Coordinates) (x u p : Bytes) (w : Flight)
      → w.state ≡ non_exist
      → (create_token s parse_rfc3339 now w.disk id u p).1 ≡ true
      → take_message now (told (Message.create_token x u p) client) w
        ≡ record w { disk = (create_token s parse_rfc3339 now w.disk id u p).0; state = exist }
  unfolding take_message receive
  take-create now client x u p w e made = ground arith

  -- An existing token that is asked to synchronize, deleted and created again with success, and
  -- asked to synchronize once more, is synchronized twice at a time.
  pub two_at_a_time :
      (now : Time) (client : Coordinates) (x u p : Bytes) (w : Flight)
      → w.state ≡ exist
      → (delete_token s parse_rfc3339 w.disk id).1 ≡ true
      → (create_token s parse_rfc3339 now (delete_token s parse_rfc3339 w.disk id).0 id u p).1
        ≡ true
      → (take_message now (told Message.synchronize_token client) (
          take_message now (told (Message.create_token x u p) client) (
            take_message now
              (told (Message.delete_token x) client)
              (take_message now (told Message.synchronize_token client) w)))).running
        ≡ w.running + 2
  two_at_a_time now client x u p w e gone made = rw (take-synchronize now client w e) (
      rw
        (take-delete now client x (record w { state = synchronizing; running = w.running + 1 }) refl
          gone)
        (rw
          (take-create now client x u p
            (record w {
              disk = (delete_token s parse_rfc3339 w.disk id).0;
              state = non_exist;
              running = w.running + 1;
            })
            refl made)
          (rw
            (take-synchronize now client
              (record w {
                disk =
                    (create_token s parse_rfc3339 now (delete_token s parse_rfc3339 w.disk id).0 id
                      u p).0;
                state = exist;
                running = w.running + 1;
              })
              refl)
            (omega arith))))
