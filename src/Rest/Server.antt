-- ===== src/Rest/Server.antt =====
-- services/bondster-bco-rest/api/server.go: the worker that its daemon runs, over the server of the
-- standard library. Setup and construction are in Boot.
use bondster_bco.Base.{
  ℕ, ◌*◌, ◌≡◌, refl, ap, ◌∙◌, Bool, true, Option, none, some, List, [], ◌∷◌, if◌then◌else◌,
}
use bondster_bco.Base.Text.{Bytes, str_eq, str_eq_refl}
use bondster_bco.Calendar.{second_nanos}
use bondster_bco.Tls.{Config, server_config}

abbrev pub connection_read_timeout : ℕ
connection_read_timeout = 5 * second_nanos

abbrev pub connection_write_timeout : ℕ
connection_write_timeout = 5 * second_nanos

-- The server of the standard library: what a call of `Serve` on a listener with TLS comes to, with
-- the text of its error, and a call of `Shutdown` with the time it may take.
pub record HttpServer : Type 1 where
  pub Listener : Type 0
  pub Life : Type 0
  pub error_server_closed : Bytes
  pub serve : Life → Config → Listener → Life × Option Bytes
  pub shutdown : Life → ℕ → Life

module _ (h : HttpServer) where
  pub record Server : Type 0 where
    pub underlying : h.Life
    -- The one that `Setup` has made.
    pub listener : h.Listener

  -- What is logged of the error with which `Serve` ends.
  unfoldable pub logged : Option Bytes → List Bytes
  logged none = []
  logged (some e) = if str_eq e h.error_server_closed then [] else e ∷ []

  -- `Server.Done`: whether the channel is closed.
  unfoldable pub done : Option Server → Bool
  done s = true

  -- `Server.Cancel`
  unfoldable pub cancel : Option Server → Option Server
  cancel none = none
  cancel (some s) =
      some (record s { underlying = h.shutdown s.underlying connection_write_timeout })

  -- `Server.Work`, up to the end of `Serve`, with what it logs as an error.
  unfoldable pub work : Option Server → Option Server × List Bytes
  unfolding logged
  work none = (none, [])
  work (some s) =
      let (life, e) = h.serve s.underlying server_config s.listener in
      (some (record s { underlying = life }), logged e)

  -- What the library documents: `Serve` ends at once on a server that was shut down.
  pub record IsClosing : Type 0 where
    pub serve_closed :
        (l : h.Life) (t : ℕ) (c : Config) (k : h.Listener)
        → h.serve (h.shutdown l t) c k ≡ (h.shutdown l t, some h.error_server_closed)

  -- A worker that is cancelled before it works ends at once, with no error logged, and is left as
  -- it was when it was cancelled; one that was never made does nothing at all.
  pub work-cancel : IsClosing → (s : Option Server) → work (cancel s) ≡ (cancel s, [])
  unfolding work cancel logged
  work-cancel law none = refl
  work-cancel law (some s) =
      let c = server_config in
      ap (λ (x : h.Life × Option Bytes). (some (record s { underlying = x.0 }), logged x.1))
        (law.serve_closed s.underlying connection_write_timeout c s.listener)
      ∙ rw (str_eq_refl h.error_server_closed) refl
