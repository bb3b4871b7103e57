-- ===== src/Azkeys/Token.antt =====
-- azkeys/aad.go. The HTTP client and the JSON decoder are parameters. A text of a query is the list of its
-- bytes.
pub mod Laws
use go_rkvstcommon.Prelude.{
  ℕ, ◌+◌, ◌-◌, ◌/◌, ◌%◌, String, Bool, true, false, not, ◌||◌, Option, none, some, List, [], ◌∷◌,
  ◌++◌, ltb, nat_eq, if◌then◌else◌,
}
use go_rkvstcommon.Prelude.Outcome.{Outcome, ok, err, panic}
use go_rkvstcommon.Prelude.Exec.{Exec, pure, fail}
use go_rkvstcommon.Tracing.Pod.{Text}
use go_rkvstcommon.Tracing.Headers.{between, is_upper, is_lower}

-- The digit of a number below 16, as an upper case letter from 10 on
abbrev hex_digit : ℕ → ℕ
hex_digit n = if ltb n 10 then n + 48 else n + 55

-- A letter, a digit, or one of - . _ ~
abbrev unreserved : ℕ → Bool
unreserved c =
    is_upper c
    || is_lower c
    || between 48 57 c
    || nat_eq c 45
    || nat_eq c 46
    || nat_eq c 95
    || nat_eq c 126

-- url.QueryEscape
unfoldable pub query_escape : Text → Text
query_escape [] = []
query_escape (c ∷ s) =
    let rest = query_escape s in
    if unreserved c
    then c ∷ rest
    else if nat_eq c 32
    then 43 ∷ rest
    else 37 ∷ hex_digit (c / 16) ∷ hex_digit (c % 16) ∷ rest

-- http://169.254.169.254/metadata/identity/oauth2/token
abbrev endpoint : Text
endpoint =
    104 ∷ 116 ∷ 116 ∷ 112 ∷ 58 ∷ 47 ∷ 47 ∷ 49 ∷ 54 ∷ 57 ∷ 46 ∷ 50 ∷ 53 ∷ 52 ∷ 46 ∷ 49 ∷ 54 ∷ 57 ∷ 46
    ∷ 50 ∷ 53 ∷ 52 ∷ 47 ∷ 109 ∷ 101 ∷ 116 ∷ 97 ∷ 100 ∷ 97 ∷ 116 ∷ 97 ∷ 47 ∷ 105 ∷ 100 ∷ 101 ∷ 110
    ∷ 116 ∷ 105 ∷ 116 ∷ 121 ∷ 47 ∷ 111 ∷ 97 ∷ 117 ∷ 116 ∷ 104 ∷ 50 ∷ 47 ∷ 116 ∷ 111 ∷ 107 ∷ 101
    ∷ 110 ∷ []

-- api-version=2018-02-01
abbrev api_version : Text
api_version =
    97 ∷ 112 ∷ 105 ∷ 45 ∷ 118 ∷ 101 ∷ 114 ∷ 115 ∷ 105 ∷ 111 ∷ 110 ∷ 61 ∷ 50 ∷ 48 ∷ 49 ∷ 56 ∷ 45 ∷ 48
    ∷ 50 ∷ 45 ∷ 48 ∷ 49 ∷ []

-- resource=
abbrev resource_is : Text
resource_is = 114 ∷ 101 ∷ 115 ∷ 111 ∷ 117 ∷ 114 ∷ 99 ∷ 101 ∷ 61 ∷ []

-- The URL of OAuthToken: the query's keys are sorted
unfoldable pub token_url : Text → Text
unfolding query_escape
token_url resource_name =
    endpoint ++ 63 ∷ (api_version ++ 38 ∷ (resource_is ++ query_escape resource_name))

-- The body of a response, by a number
abbrev pub Body : Type 0
Body = ℕ

pub record Response : Type 0 where
  pub status_code : ℕ
  pub body : Option Body

-- What is asked of the HTTP client and of the bodies it returns
pub data Request : Type 0 where
  get : Text → Request
  close_body : Body → Request

abbrev pub Requests : Type 0
Requests = List Request

-- client.Get returns a response, which may be nil, and an error.
pub record Http : Type 0 where
  pub answer : Text → Option Response × Option String

-- json.NewDecoder(reader).Decode(&token): the access_token, "" where there is none
pub record Json : Type 0 where
  pub access_token : Body → Outcome String Text

close_one : Body → Exec Requests String (Unit {0})
close_one b h = (ok tt, h ++ close_body b ∷ [])

close_if : Option Body → Exec Requests String (Unit {0})
unfolding close_one
close_if none = pure tt
close_if (some b) = close_one b

abbrev pub body_of : Option Response → Option Body
body_of none = none
body_of (some resp) = resp.body

-- A token that cannot be decoded is logged, and "" returned.
token_or_empty : Outcome String Text → Outcome String Text
token_or_empty (ok token) = ok token
token_or_empty (err e) = ok []
token_or_empty panic = panic

module _ (http : Http) (json : Json) where
  -- What doReq makes of the answer, where resp is nil only with an error
  after_get : Option Response × Option String → Exec Requests String (Option Body)
  unfolding close_if
  after_get (resp, some e) h = (err e, (close_if (body_of resp) h).1)
  after_get (none, none) h = (panic, h)
  after_get (some resp, none) h =
      if not (nat_eq resp.status_code 200)
      then (err "bad response status", (close_if resp.body h).1)
      else (ok resp.body, h)

  -- doReq
  unfoldable pub do_req : Text → Exec Requests String (Option Body)
  unfolding after_get
  do_req url h = after_get (http.answer url) (h ++ get url ∷ [])

  -- The rest of OAuthToken, by what doReq returned, with the deferred Close of a reader
  with_reader : Outcome String (Option Body) → Exec Requests String Text
  unfolding token_or_empty close_one
  with_reader (ok (some b)) h = (token_or_empty (json.access_token b), (close_one b h).1)
  with_reader (ok none) h = (panic, h)
  with_reader (err e) h = (ok [], h)
  with_reader panic h = (panic, h)

  -- OAuthToken after its URL is made
  unfoldable pub token_from : Text → Exec Requests String Text
  unfolding do_req with_reader
  token_from url h = with_reader (do_req url h).0 (do_req url h).1

  -- OAuthToken
  unfoldable pub oauth_token : Text → Exec Requests String Text
  unfolding token_url token_from
  oauth_token resource_name = token_from (token_url resource_name)
