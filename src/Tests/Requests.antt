-- ===== src/Tests/Requests.antt =====
-- The checks on requests that write, the login limit and the grants at concrete inputs.
use xx_drive.Prelude.{
  ℕ, Bool, true, false, ◌||◌, ◌≡◌, ◌≢◌, ◌≤◌, ◌<◌, ◌⊎◌, refl, List, [], ◌∷◌, Option, none, some, ltb,
  suc, length, All, bytes_eq, ℕ_discrete, ◌+◌, arith,
}
use xx_drive.Prelude.Bytes.{Bytes, bytes, has_prefix, trim_prefix}
use xx_drive.Store.Rows.{Share}
use xx_drive.Api.Auth.{Request, parse_origin, host_of, same_origin, mutating_allowed, credential}
use xx_drive.Api.Auth.Csrf.{named_origin, mutating_allowed-cookie}
use xx_drive.Api.Limiter.{login_allowed, window_length}
use xx_drive.Api.Limiter.Blocked.{fail_all, login_allowed-fail_all}
use xx_drive.Api.Grants.{Grant, max_entries, issue_grant}
use xx_drive.Api.Grants.Bounded.{issue_grant_bounded}

abbrev no_port : Bytes → Option Bytes
no_port h = none

abbrev request : Bytes → Bytes → Request
request authorization origin = record {
  authorization = authorization;
  cookie = some (bytes "c");
  origin = origin;
  referer = [];
  csrf_header = [];
  host = bytes "drive";
}

unfoldable runs : Request → Bool
unfolding mutating_allowed same_origin parse_origin credential has_prefix trim_prefix bytes_eq
    ℕ_discrete
runs = mutating_allowed no_port

request_runs :
    (mutating_allowed no_port (request [] (bytes "https://drive/x")) ≡ true)
    × (mutating_allowed no_port (request [] (bytes "https://evil")) ≡ false)
    × (mutating_allowed no_port (request [] []) ≡ false)
unfolding runs
request_runs = (refl, refl, refl)

abbrev own : Request
own = request [] (bytes "https://drive")

mutating_allowed-cookie_example :
    ((o : Bytes) × (parse_origin (named_origin own) ≡ some o)
      × ((o ≡ own.host) ⊎ (o ≡ host_of no_port own.host)))
    ⊎ ((own.origin ≡ []) × (own.referer ≡ []) × (own.csrf_header ≢ []))
unfolding runs
mutating_allowed-cookie_example = mutating_allowed-cookie no_port own refl refl

-- A header of another scheme lets a request with a cookie write from elsewhere.
other_scheme :
    (mutating_allowed no_port (request (bytes "Basic x") (bytes "https://evil")) ≡ true)
    × (credential (request (bytes "Basic x") (bytes "https://evil")) ≡ bytes "c")
unfolding runs
other_scheme = (refl, refl)

abbrev later : List ℕ
later = 6 ∷ 7 ∷ 8 ∷ 9 ∷ 10 ∷ 11 ∷ 12 ∷ 13 ∷ 14 ∷ []

login_allowed-fail_all_example :
    ((login_allowed (fail_all [] (bytes "amy") (5 ∷ later)) (bytes "amy") 20).0
      ≡ (ltb (5 + window_length) 20 || ltb (suc (length later)) 10))
    × ((other : Bytes)
        → bytes "amy" ≢ other
        → (login_allowed (fail_all [] (bytes "amy") (5 ∷ later)) other 20).0
          ≡ (login_allowed [] other 20).0)
login_allowed-fail_all_example = login_allowed-fail_all [] (bytes "amy") 5 20 later refl (
  ground arith,
  (
    ground arith,
    (
      ground arith,
      (
        ground arith,
        (ground arith, (ground arith, (ground arith, (ground arith, (ground arith, tt))))),
      ),
    ),
  ),
)

abbrev share : Share
share = record {
  id = 1;
  token_hash = bytes "s";
  user_id = 1;
  path = bytes "/a";
  has_password = true;
  password_hash = bytes "p";
  allow_download = true;
  expires_at = 0;
  created_at = 50;
  revoked = false;
}

issue_grant_bounded_example :
    (length (issue_grant [] share (bytes "g") 50) ≤ max_entries)
    × All (λ (g : Grant). 50 < g.expires) (issue_grant [] share (bytes "g") 50)
issue_grant_bounded_example = issue_grant_bounded [] share (bytes "g") 50
