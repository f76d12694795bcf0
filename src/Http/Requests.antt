-- ===== src/Http/Requests.antt =====
-- The `Parse` functions of internal/oidc/token.go, over what net/http gives of a request.
use idpico.Prelude.{String, Bool, Option, none, some, ◌==◌, cut, split_first, if◌then◌else◌}
use idpico.Prelude.Table.{Table, get_at}
use idpico.Errors.{invalid_input}
use idpico.Exec.{Result, ok, err}
use idpico.Oidc.Types.{TokenRequest, RevocationRequest}
use idpico.Oidc.TokenService.Introspection.{IntrospectionRequest}

-- `form` is the parsed form with the first value of each name, or `none` where `ParseForm` fails, and
-- `post_form` the part of it that the body gives. `content_type` is whether the header begins with
-- `application/x-www-form-urlencoded`.
pub record FormRequest : Type 0 where
  pub method : String
  pub form : Option (Table String)
  pub post_form : Table String
  pub authorization : String
  pub content_type : Bool

abbrev or_empty : Option String → String
or_empty none = ""
or_empty (some value) = value

-- `r.FormValue(name)`
abbrev pub form_value : Table String → String → String
form_value form name = or_empty (get_at form name)

module _ (decode_base64 : String → Option String) where
  credentials_in : Option String → String × String → String × String
  credentials_in none given = given
  credentials_in (some text) given = parts (split_first 58 text)
    where
      parts : Option (String × String) → String × String
      parts none = given
      parts (some pair) = pair

  decoded : Option String → Option String
  decoded none = none
  decoded (some text) = decode_base64 text

  -- The client's name and secret: those of the Basic header where it holds any, else those of the form.
  unfoldable pub credentials : Table String → String → String × String
  unfolding credentials_in decoded
  credentials form authorization =
      credentials_in (decoded (cut "Basic " authorization))
        (form_value form "client_id", form_value form "client_secret")

  token_request : Table String → String → TokenRequest
  token_request form authorization =
      let (id, secret) = credentials form authorization in
      record {
        grant_type = form_value form "grant_type";
        code = form_value form "code";
        redirect_uri = form_value form "redirect_uri";
        client_id = id;
        client_secret = secret;
        code_verifier = form_value form "code_verifier";
        refresh_token = form_value form "refresh_token";
        scope = form_value form "scope";
      }

  unfoldable pub parse_token_request : FormRequest → Result TokenRequest
  unfolding token_request
  parse_token_request r = elim r.form [
    | none ↦ err (invalid_input "invalid form data")
    | some form ↦
        if form_value form "grant_type" == ""
        then err (invalid_input "grant_type is required")
        else ok (token_request form r.authorization)
  ]

  unfoldable pub parse_revocation_request : FormRequest → Result RevocationRequest
  parse_revocation_request r = elim r.form [
    | none ↦ err (invalid_input "invalid form data")
    | some form ↦
        let (id, secret) = credentials form r.authorization in
        if form_value form "token" == ""
        then err (invalid_input "token is required")
        else ok (record {
          token = form_value form "token";
          token_type_hint = form_value form "token_type_hint";
          client_id = id;
          client_secret = secret;
        })
  ]

  unfoldable pub parse_introspection_request : FormRequest → Result IntrospectionRequest
  parse_introspection_request r = elim r.form [
    | none ↦ err (invalid_input "invalid form data")
    | some form ↦
        let (id, secret) = credentials form r.authorization in
        if form_value form "token" == ""
        then err (invalid_input "token is required")
        else ok (record {
          token = form_value form "token";
          token_type_hint = form_value form "token_type_hint";
          client_id = id;
          client_secret = secret;
        })
  ]
