-- ===== src/Api/Auth/Csrf.antt =====
-- Which requests may write.
use xx_drive.Prelude.{
  true, ◌≡◌, ◌≢◌, ◌⊎◌, inl, inr, [], Option, some, if◌then◌else◌, ◌==◌, bytes_eq, arith, Bool-cases,
  Option-cases,
}
use xx_drive.Prelude.Bytes.{Bytes}
use xx_drive.Api.Auth.{Request, parse_origin, host_of, same_origin, mutating_allowed}

-- The page that the browser names, in the Origin header or else in the Referer.
abbrev pub named_origin : Request → Bytes
named_origin r = if r.origin == [] then r.referer else r.origin

module _ (split_host_port : Bytes → Option Bytes) where
  same_origin-host :
      (r : Request)
      → same_origin split_host_port r ≡ true
      → (o : Bytes) × (parse_origin (named_origin r) ≡ some o)
        × ((o ≡ r.host) ⊎ (o ≡ host_of split_host_port r.host))
  unfolding same_origin
  same_origin-host r h = elim (Option-cases (parse_origin (named_origin r))) [
    | inl bad ↦ absurd (ground arith)
    | inr (o, parsed) ↦ elim (Bool-cases (o == r.host)) [
      | inl here ↦ (o, parsed, inl (ground arith))
      | inr elsewhere ↦ (o, parsed, inr (ground arith))
    ]
  ]

  -- A request without an Authorization header, so one with ambient cookies, writes only if its Origin,
  -- or else its Referer, names the host that it is sent to, with or without the port, or if it has
  -- neither and marks itself by the custom header.
  pub mutating_allowed-cookie :
      (r : Request)
      → r.authorization ≡ []
      → mutating_allowed split_host_port r ≡ true
      → ((o : Bytes) × (parse_origin (named_origin r) ≡ some o)
          × ((o ≡ r.host) ⊎ (o ≡ host_of split_host_port r.host)))
        ⊎ ((r.origin ≡ []) × (r.referer ≡ []) × (r.csrf_header ≢ []))
  unfolding mutating_allowed
  mutating_allowed-cookie r none_given h = elim (Bool-cases (same_origin split_host_port r)) [
    | inl same ↦ inl (same_origin-host r same)
    | inr other ↦ inr (ground arith, ground arith, λ e. ground arith)
  ]
