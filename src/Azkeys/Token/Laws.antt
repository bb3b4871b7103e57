-- ===== src/Azkeys/Token/Laws.antt =====
-- What OAuthToken of azkeys/aad.go does with the bodies of the responses, and where its token is from.
use mathlib.Core.List.{append_assoc, append-nil}
use go_rkvstcommon.Prelude.{
  ℕ, ◌≡◌, ◌≢◌, refl, sym, ◌∙◌, String, Option, none, some, [], ◌∷◌, ◌++◌, arith, nat_eq, nat_eq_iff,
  Bool-cases, inl, inr,
}
use go_rkvstcommon.Prelude.Outcome.{Outcome, ok, err, panic, Outcome-cases}
use go_rkvstcommon.Tracing.Pod.{Text}
use go_rkvstcommon.Azkeys.Token.{
  Body, Response, get, close_body, Requests, Http, Json, body_of, close_if, after_get, do_req,
  token_or_empty, with_reader, token_from, token_url, oauth_token,
}

-- The closing of a body, if there is one
abbrev pub closes : Option Body → Requests
closes none = []
closes (some b) = close_body b ∷ []

-- A token that is not empty was decoded from the body of a response with the status 200.
pub record Decoded (http : Http) (json : Json) (url token : Text) : Type 0 where
  pub response : Response
  pub reader : Body
  pub answered : (http.answer url).0 ≡ some response
  pub no_error : (http.answer url).1 ≡ none
  pub fine : response.status_code ≡ 200
  pub has_body : response.body ≡ some reader
  pub token_of : json.access_token reader ≡ ok token

module _ (http : Http) (json : Json) where
  -- Everything after client.Get
  finish : Option Response × Option String → Requests → Outcome String Text × Requests
  finish answer h =
      with_reader http json (after_get http json answer h).0 (after_get http json answer h).1

  close_if-closes : (b : Option Body) (h : Requests) → (close_if b h).1 ≡ h ++ closes b
  unfolding close_if
  close_if-closes none h = sym (append-nil h)
  close_if-closes (some b) h = refl

  with_reader-closes :
      (b : Option Body) (h : Requests) → (with_reader http json (ok b) h).1 ≡ h ++ closes b
  unfolding with_reader
  with_reader-closes none h = sym (append-nil h)
  with_reader-closes (some b) h = refl

  finish-closes :
      (answer : Option Response × Option String) (h : Requests)
      → (finish answer h).1 ≡ h ++ closes (body_of answer.0)
  unfolding finish after_get with_reader
  finish-closes (none, some e) h = close_if-closes none h
  finish-closes (some r, some e) h = close_if-closes r.body h
  finish-closes (none, none) h = sym (append-nil h)
  finish-closes (some r, none) h = elim (Bool-cases (nat_eq r.status_code 200)) [
    | inl t ↦ rw t (with_reader-closes r.body h)
    | inr f ↦ rw f (close_if-closes r.body h)
  ]

  token_or_empty-cons :
      (o : Outcome String Text) (c : ℕ) (token : Text)
      → token_or_empty o ≡ ok (c ∷ token)
      → o ≡ ok (c ∷ token)
  unfolding token_or_empty
  token_or_empty-cons (ok t) c token k = k
  token_or_empty-cons (err e) c token k = absurd (cc)
  token_or_empty-cons panic c token k = absurd (cc)

  reader-token :
      (o : Option Body) (h : Requests) (c : ℕ) (token : Text)
      → (with_reader http json (ok o) h).0 ≡ ok (c ∷ token)
      → (b : Body) × (o ≡ some b) × (json.access_token b ≡ ok (c ∷ token))
  unfolding with_reader
  reader-token none h c token k = absurd (cc)
  reader-token (some b) h c token k = (b, refl, token_or_empty-cons (json.access_token b) c token k)

  with_reader-no_error :
      (o : Outcome String (Option Body)) (h : Requests) (e : String)
      → (with_reader http json o h).0 ≢ err e
  unfolding with_reader token_or_empty
  with_reader-no_error (ok none) h e k = cc
  with_reader-no_error (ok (some b)) h e k = elim (Outcome-cases (json.access_token b)) [
    | inl (t, d) ↦ ground (arith, d, k)
    | inr (inl (x, d)) ↦ ground (arith, d, k)
    | inr (inr d) ↦ ground (arith, d, k)
  ]
  with_reader-no_error (err x) h e k = cc
  with_reader-no_error panic h e k = cc

  finish-no_error :
      (answer : Option Response × Option String) (h : Requests) (e : String)
      → (finish answer h).0 ≢ err e
  unfolding finish
  finish-no_error answer h e =
      with_reader-no_error (after_get http json answer h).0 (after_get http json answer h).1 e

  finish-token :
      (answer : Option Response × Option String) (h : Requests) (c : ℕ) (token : Text)
      → (finish answer h).0 ≡ ok (c ∷ token)
      → (r : Response) × (b : Body) × (answer.0 ≡ some r)
        × (answer.1 ≡ none)
        × (r.status_code ≡ 200)
        × (r.body ≡ some b)
        × (json.access_token b ≡ ok (c ∷ token))
  unfolding finish after_get with_reader token_or_empty
  finish-token (resp, some e) h c token k = absurd (cc)
  finish-token (none, none) h c token k = absurd (cc)
  finish-token (some r, none) h c token k = elim (Bool-cases (nat_eq r.status_code 200)) [
    | inl t ↦
        (let (b, e, d) = reader-token r.body h c token (rw t at k) in
          (r, b, refl, refl, (nat_eq_iff r.status_code 200).0 t, e, d))
    | inr f ↦
        (let k' : ◌≡◌ {A = Outcome String Text} (ok []) (ok (c ∷ token)) = rw f at k in absurd (cc))
  ]

  -- OAuthToken closes each body that client.Get returns, with an error or without, and closes it
  -- once, and asks for nothing else; a token that is not empty was decoded from the body of a response
  -- with the status 200, without an error of client.Get; and it returns no error of its own.
  pub oauth_token-closes :
      (resource_name : Text) (h : Requests)
      → ((oauth_token http json resource_name h).1
          ≡ h
            ++ get (token_url resource_name)
              ∷ closes (body_of (http.answer (token_url resource_name)).0))
        × ((c : ℕ) (token : Text)
            → (oauth_token http json resource_name h).0 ≡ ok (c ∷ token)
            → Decoded http json (token_url resource_name) (c ∷ token))
        × ((e : String) → (oauth_token http json resource_name h).0 ≢ err e)
  unfolding oauth_token token_from do_req finish
  oauth_token-closes resource_name h =
      let url = token_url resource_name in
      let h' = h ++ get url ∷ [] in
      (
        finish-closes (http.answer url) h' ∙ append_assoc h (get url ∷ []) _,
        λ c token k.
            let (r, b, a, n, s, e, d) = finish-token (http.answer url) h' c token k in
            record {
              response = r;
              reader = b;
              answered = a;
              no_error = n;
              fine = s;
              has_body = e;
              token_of = d;
            },
        λ e. finish-no_error (http.answer url) h' e,
      )
