-- ===== src/Token/Claims.antt =====
-- What is read back from the tokens of internal/util/token.go.
use crater_backend.Prelude.{
  ℕ, ◌+◌, ◌*◌, ◌≡◌, refl, none, some, String, if◌then◌else◌, ltb, Bool-cases, Option-cases, inl,
  inr, arith,
}
use crater_backend.Token.{
  Jwt, TokenManager, JwtMessage, claims_of, create_token, create_tokens, check_token,
}

module _ (jwt : Jwt) (tm : TokenManager) (now later : ℕ) (msg : JwtMessage) where
  check-create_token :
      (ttl : ℕ) {t : String}
      → create_token jwt tm now msg ttl ≡ some t
      → check_token jwt tm later t ≡ (if ltb later (now + ttl * 3600) then some msg else none)
  unfolding create_token check_token
  check-create_token ttl h =
      let read = jwt.parse_sign later tm.secret_key (claims_of msg (now + ttl * 3600)) h in
      rw read
        (elim (Bool-cases (ltb later (now + ttl * 3600))) [ inl e ↦ rw e refl | inr e ↦ rw e refl ])

  -- A token that was made for a message reads back as exactly that message until its hours are over,
  -- and is refused from then on; so do both tokens of a pair.
  pub check-create_tokens :
      {access refresh : String}
      → create_tokens jwt tm now msg ≡ some (access, refresh)
      → (check_token jwt tm later access
          ≡ (if ltb later (now + tm.access_token_ttl * 3600) then some msg else none))
        × (check_token jwt tm later refresh
            ≡ (if ltb later (now + tm.refresh_token_ttl * 3600) then some msg else none))
  unfolding create_tokens
  check-create_tokens h = elim (Option-cases (create_token jwt tm now msg tm.access_token_ttl)) [
    | inl e ↦ absurd (ground arith)
    | inr (a, e) ↦ elim (Option-cases (create_token jwt tm now msg tm.refresh_token_ttl)) [
      | inl f ↦ absurd (ground arith)
      | inr (r, f) ↦ (
        check-create_token tm.access_token_ttl (ground arith),
        check-create_token tm.refresh_token_ttl (ground arith),
      )
    ]
  ]
