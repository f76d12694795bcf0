-- ===== src/Http/Endpoints/Answers.antt =====
-- What the answers of the token endpoint tell.
use idpico.Prelude.{
  ℕ, String, Bool, true, false, ◌≡◌, refl, ap, ◌∙◌, ◌⊎◌, ◌==◌, eq_iff, Bool-cases, inl, inr,
  if◌then◌else◌,
}
use idpico.Errors.{
  code_unauthorized_client, code_invalid_scope, code_invalid_grant, Error, is_code,
  code_unauthorized,
}
use idpico.World.{World}
use idpico.Exec.{Exec, Result, ok, err}
use idpico.Oidc.Types.{TokenRequest, TokenResponse}
use idpico.Oidc.TokenService.Exchange.{handle_authorization_code}
use idpico.Oidc.TokenService.Exchanged.{Exchanged, handle_authorization_code-ok}
use idpico.Oidc.TokenService.Refresh.{handle_refresh_token}
use idpico.Oidc.TokenService.Refreshed.{Refreshed, handle_refresh_token-ok}
use idpico.Http.Requests.{FormRequest, parse_token_request}
use idpico.Http.Endpoints.{
  message_of, Response, OidcHandler, tokens, token_error, token_answer, error_code, error_status,
  answered, serve_grant, token,
}

-- An answer of the token endpoint: tokens, or an error whose status is that of its code.
pub data IsAnswer (a : Response) : Type 0 where
  granted : (resp : TokenResponse) → a.body ≡ tokens resp → a.status ≡ 200 → IsAnswer a
  refused :
      (code description : String)
      → a.body ≡ token_error code description
      → ((code ≡ "invalid_client" × a.status ≡ 401)
          ⊎ ((code == "invalid_client") ≡ false × (a.status ≡ 400 ⊎ a.status ≡ 405)))
      → IsAnswer a

other_code :
    (a b c : Bool)
    → ((if a
          then "invalid_grant"
          else if b
          then "invalid_scope"
          else if c
          then "unauthorized_client"
          else "invalid_request")
        == "invalid_client")
      ≡ false
other_code true b c = refl
other_code false true c = refl
other_code false false true = refl
other_code false false false = refl

token_answer-IsAnswer : (r : Result TokenResponse) → IsAnswer (token_answer r)
unfolding token_answer error_code error_status
token_answer-IsAnswer (ok resp) = granted resp refl refl
token_answer-IsAnswer (err e) = refused _ _ refl (split (is_code e code_unauthorized))
  where
    split :
        (b : Bool)
        → let code : String =
            if b
            then "invalid_client"
            else (if is_code e code_invalid_grant
                then "invalid_grant"
                else if is_code e code_invalid_scope
                then "invalid_scope"
                else if is_code e code_unauthorized_client
                then "unauthorized_client"
                else "invalid_request") in
          let status : ℕ = if b then 401 else 400 in
          (code ≡ "invalid_client" × status ≡ 401)
          ⊎ ((code == "invalid_client") ≡ false × (status ≡ 400 ⊎ status ≡ 405))
    split true = inl (refl, refl)
    split false = inr (other_code _ _ _, inl refl)

serve_grant-IsAnswer :
    (h : OidcHandler) (req : TokenRequest) (w : World) → IsAnswer (serve_grant h req w).0
unfolding serve_grant
serve_grant-IsAnswer h req w = elim (Bool-cases (req.grant_type == "authorization_code")) [
  | inl on ↦ rw on (token_answer-IsAnswer (handle_authorization_code h.tokens req w).0)
  | inr off ↦ elim (Bool-cases (req.grant_type == "refresh_token")) [
    | inl on ↦ rw (off, on) (token_answer-IsAnswer (handle_refresh_token h.tokens req w).0)
    | inr other ↦
        rw (off, other)
          (refused "unsupported_grant_type" "grant_type not supported" refl (inr (refl, inl refl)))
  ]
]

Result-cases {ℓ} :
    {A : Type ℓ} (r : Result A) → ((a : A) × (r ≡ ok a)) ⊎ ((e : Error) × (r ≡ err e))
Result-cases (ok a) = inl (a, refl)
Result-cases (err e) = inr (e, refl)

-- Whatever the request and whatever files fail, the token endpoint answers with tokens and 200, or
-- with an error and 400, 401 or 405; and it says `invalid_client` exactly with 401.
pub token-IsAnswer : (h : OidcHandler) (r : FormRequest) (w : World) → IsAnswer (token h r w).0
unfolding token
token-IsAnswer h r w = elim (Bool-cases (r.method == "POST")) [
  | inr other ↦ rw other (refused "invalid_request" _ refl (inr (refl, inr refl)))
  | inl post ↦ elim (Result-cases (parse_token_request h.decode_base64 r)) [
    | inl (req, e) ↦ rw (post, e) (serve_grant-IsAnswer h req w)
    | inr (x, e) ↦ rw (post, e) (refused "invalid_request" _ refl (inr (refl, inl refl)))
  ]
]

-- The request that tokens were given for.
pub record Granted (h : OidcHandler) (r : FormRequest) (w : World) (resp : TokenResponse)
    (w' : World) : Type 0 where
  pub request : TokenRequest
  pub parsed : parse_token_request h.decode_base64 r ≡ ok request
  pub by :
      ((request.grant_type ≡ "authorization_code") × Exchanged h.tokens request w resp w')
      ⊎ ((request.grant_type ≡ "refresh_token") × Refreshed h.tokens request w resp w')

token_answer-tokens :
    (r : Result TokenResponse) {resp : TokenResponse}
    → (token_answer r).body ≡ tokens resp
    → r ≡ ok resp
unfolding token_answer
token_answer-tokens (ok x) h = cc
token_answer-tokens (err e) h = absurd (cc)

-- An operation whose answer carries tokens has succeeded with them.
granted_by :
    (m : Exec TokenResponse) (w : World) {a : Response} {resp : TokenResponse} {w' : World}
    → answered token_answer m w ≡ (a, w')
    → a.body ≡ tokens resp
    → m w ≡ (ok resp, w')
granted_by m w {a} {resp} {w'} h b =
    let body : (token_answer (m w).0).body ≡ tokens resp =
      ap (λ (x : Response × World). x.0.body) h ∙ b in
    whole (m w) (token_answer-tokens (m w).0 body) (ap (λ (x : Response × World). x.1) h)
  where
    whole : (q : Result TokenResponse × World) → q.0 ≡ ok resp → q.1 ≡ w' → q ≡ (ok resp, w')
    whole (x, v) e f = cc

serve_grant-tokens :
    (h : OidcHandler) (req : TokenRequest) (w : World) {a : Response} {resp : TokenResponse}
    {w' : World}
    → serve_grant h req w ≡ (a, w')
    → a.body ≡ tokens resp
    → ((req.grant_type ≡ "authorization_code") × Exchanged h.tokens req w resp w')
      ⊎ ((req.grant_type ≡ "refresh_token") × Refreshed h.tokens req w resp w')
unfolding serve_grant
serve_grant-tokens h req w {a} {resp} {w'} q b =
    elim (Bool-cases (req.grant_type == "authorization_code")) [
      | inl on ↦ inl (
        (eq_iff req.grant_type "authorization_code").0 on,
        handle_authorization_code-ok h.tokens req w
            (granted_by (handle_authorization_code h.tokens req) w (rw on at q) b),
      )
      | inr off ↦ elim (Bool-cases (req.grant_type == "refresh_token")) [
        | inl on ↦ inr (
          (eq_iff req.grant_type "refresh_token").0 on,
          handle_refresh_token-ok h.tokens req w
              (granted_by (handle_refresh_token h.tokens req) w (rw (off, on) at q) b),
        )
        | inr other ↦
            let e : token_error "unsupported_grant_type" "grant_type not supported" ≡ tokens resp =
              ap (λ (x : Response × World). x.0.body) (rw (off, other) at q) ∙ b in
            absurd (cc e)
      ]
    ]

-- The token endpoint gives tokens only to a POST request that can be read, and only for a code under
-- all the conditions of the code exchange, or for a refresh token under all those of the refresh.
pub token-tokens :
    (h : OidcHandler) (r : FormRequest) (w : World) {a : Response} {resp : TokenResponse}
    {w' : World}
    → token h r w ≡ (a, w')
    → a.body ≡ tokens resp
    → (r.method ≡ "POST") × Granted h r w resp w'
unfolding token
token-tokens h r w {a} {resp} {w'} q b = elim (Bool-cases (r.method == "POST")) [
  | inr other ↦
      let e : token_error "invalid_request" "method must be POST" ≡ tokens resp =
        ap (λ (x : Response × World). x.0.body) (rw other at q) ∙ b in
      absurd (cc e)
  | inl post ↦ elim (Result-cases (parse_token_request h.decode_base64 r)) [
    | inr (x, e) ↦
        let f : token_error "invalid_request" (message_of x) ≡ tokens resp =
          ap (λ (y : Response × World). y.0.body) (rw (post, e) at q) ∙ b in
        absurd (cc f)
    | inl (req, e) ↦
        let by = serve_grant-tokens h req w (rw (post, e) at q) b in
        ((eq_iff r.method "POST").0 post, record { request = req; parsed = e; by = by })
  ]
]
