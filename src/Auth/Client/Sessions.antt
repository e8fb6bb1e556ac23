-- ===== src/Auth/Client/Sessions.antt =====
-- What an authorized request can rely on.
use bondster_bco.Base.{
  ℕ, zero, suc, ◌≡◌, ◌≢◌, refl, Bool, true, false, Option, none, some, if_cases, is_some, arith,
  ◌&&◌,
}
use bondster_bco.Base.Text.{Bytes}
use bondster_bco.Token.{Token}
use bondster_bco.Http.{Request, Response, HttpClient}
use bondster_bco.Auth.{
  ValueWithExpiration, Session, WebToken, is_ssid_expired, ssid_expired, clear, authorize,
}
use bondster_bco.Auth.Client.{
  State, Answer, responded, login, ensure_session, do_authorized, logged_in, validate, login_again,
  finish,
}

-- Both tokens of the session are there.
abbrev pub has_tokens : Session → Bool
has_tokens s = is_some s.jwt && is_some s.ssid

ssid_fresh_lem :
    (t : ℕ) (jwt ssid : Option ValueWithExpiration)
    → ssid_expired t jwt ssid ≡ false
    → (is_some jwt && is_some ssid) ≡ true
unfolding ssid_expired
ssid_fresh_lem t jwt ssid h = ground arith

ssid_fresh : (t : ℕ) (s : Session) → is_ssid_expired t s ≡ false → has_tokens s ≡ true
unfolding is_ssid_expired
ssid_fresh t s h = ssid_fresh_lem t s.jwt s.ssid h

-- A result whose session has both tokens if no error is returned.
abbrev Ready : (c : HttpClient) → State c × Bool → Type 0
Ready c r = r.1 ≡ true → has_tokens r.0.session ≡ true

module _ (c : HttpClient) (now : c.Net → ℕ) (parse_instant : Bytes → Option ℕ) (gateway : Bytes)
    (token : Token) where
  logged_in-Ready :
      (st : State c) (t : Option WebToken)
      → Ready c (logged_in c now parse_instant gateway token st t)
  unfolding logged_in
  logged_in-Ready st none = λ h. cc
  logged_in-Ready st (some t) = λ h. refl

  validate-Ready :
      (st : State c) (b : Bool) → Ready c (validate c now parse_instant gateway token st b)
  unfolding validate
  validate-Ready st false = λ h. cc
  validate-Ready st true = search logged_in-Ready

  login-Ready : (st : State c) → Ready c (login c now parse_instant gateway token st)
  unfolding login
  login-Ready st = search validate-Ready

  login_again-Ready :
      (r : State c × Bool) → Ready c (login_again c now parse_instant gateway token r)
  unfolding login_again
  login_again-Ready (st, prolonged) =
      if_cases (λ (x : State c × Bool). Ready c x) _ _ _ (λ _. login-Ready st)
        (λ e. λ _. ssid_fresh (now st.net) st.session (ground arith))

  -- Where `Do` gets to send a request, its session holds a web token and a session ID.
  pub ensure_session_tokens :
      (st : State c)
      → (ensure_session c now parse_instant gateway token st).1 ≡ true
      → has_tokens (ensure_session c now parse_instant gateway token st).0.session ≡ true
  unfolding ensure_session
  ensure_session_tokens st = search login_again-Ready

  abbrev Accepted : State c × Answer → Type 0
  Accepted x =
      (r : Response) → x.1 ≡ responded r → (r.status_code ≢ 401) × (has_tokens x.0.session ≡ true)

  finish-Accepted :
      (st : State c) (resp : Option Response) (again : State c × Answer)
      → has_tokens st.session ≡ true
      → Accepted again
      → Accepted (finish c now parse_instant gateway token st resp again)
  unfolding finish
  finish-Accepted st none again h k = λ r e. cc
  finish-Accepted st (some r) again h k =
      if_cases (λ (x : State c × Answer). Accepted x) _ _ _ (λ _. k) (λ e r' q. (ground arith, h))

  -- Whatever the gateway answers, a response that `Do` returns is never a refused authorization,
  -- and leaves a session with both tokens.
  pub do_authorized_responded :
      (fuel : ℕ) (st : State c) (req : Request) (r : Response)
      → (do_authorized c now parse_instant gateway token fuel st req).1 ≡ responded r
      → (r.status_code ≢ 401)
        × (has_tokens (do_authorized c now parse_instant gateway token fuel st req).0.session
            ≡ true)
  unfolding do_authorized
  do_authorized_responded zero st req = λ r e. cc
  do_authorized_responded (suc fuel) st req =
      let st' = (ensure_session c now parse_instant gateway token st).0 in
      let sent = authorize gateway st'.session req in
      let (net', resp) = c.do_ st'.net sent in
      let retry : State c = record { session = clear st'.session; net = net' } in
      if_cases (λ (x : State c × Answer). Accepted x) _ _ _
        (λ e.
          finish-Accepted (record st' { net = net' }) resp
            (do_authorized c now parse_instant gateway token fuel retry sent)
            (ensure_session_tokens st e) (do_authorized_responded fuel retry sent))
        (λ _ r e. cc)
