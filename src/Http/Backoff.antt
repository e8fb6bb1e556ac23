-- ===== src/Http/Backoff.antt =====
-- The delays between attempts.
use native.Mathlib.Nat.{pow-suc}
use Prim.Native.Nat.{min}
use bondster_bco.Base.{ℕ, suc, ◌*◌, ◌^◌, ◌≤◌, ◌≡◌, ap, none, arith}
use bondster_bco.Http.{Reply, requested_delay, default_backoff}

-- A delay that the server did not ask for is the first one doubled for each attempt, up to the
-- longest.
pub default_backoff-min :
    (shortest longest attempt : ℕ) (r : Reply)
    → requested_delay r ≡ none
    → default_backoff shortest longest attempt r ≡ min (shortest * 2 ^ attempt) longest
unfolding default_backoff
default_backoff-min shortest longest attempt r h = rw h (ground arith)

-- A delay that the server did not ask for never passes the longest delay, and from one attempt to
-- the next it never falls.
pub default_backoff_bounds :
    (shortest longest attempt : ℕ) (r q : Reply)
    → requested_delay r ≡ none
    → requested_delay q ≡ none
    → (default_backoff shortest longest attempt r ≤ longest)
      × (default_backoff shortest longest attempt r
          ≤ default_backoff shortest longest (suc attempt) q)
default_backoff_bounds shortest longest attempt r q h k = omega (
  arith,
  default_backoff-min shortest longest attempt r h,
  default_backoff-min shortest longest (suc attempt) q k,
  ap (λ (t : ℕ). shortest * t) (pow-suc 2 attempt),
)

-- A delay that the server did not ask for is the first one doubled for each attempt, up to the
-- longest; it never passes the longest, and from one attempt to the next it never falls.
pub default_backoff_lem :
    (shortest longest attempt : ℕ) (r q : Reply)
    → requested_delay r ≡ none
    → requested_delay q ≡ none
    → (default_backoff shortest longest attempt r ≡ min (shortest * 2 ^ attempt) longest)
      × (default_backoff shortest longest attempt r ≤ longest)
      × (default_backoff shortest longest attempt r
          ≤ default_backoff shortest longest (suc attempt) q)
default_backoff_lem shortest longest attempt r q h k =
    let (le, grows) = default_backoff_bounds shortest longest attempt r q h k in
    (default_backoff-min shortest longest attempt r h, le, grows)
