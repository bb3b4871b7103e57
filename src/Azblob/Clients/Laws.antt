-- ===== src/Azblob/Clients/Laws.antt =====
-- What the Storers that azblob makes have.
use go_rkvstcommon.Prelude.{
  ◌≡◌, refl, ap, Bool, true, false, not, ◌||◌, Option, none, some, List, [], ◌∷◌, ◌++◌, arith, inl,
  inr, Bool-cases,
}
use go_rkvstcommon.Prelude.Outcome.{ok, err, panic, Outcome-cases, and_then, and_then-ok}
use go_rkvstcommon.Azblob.Error.{GoError}
use go_rkvstcommon.Azblob.Clients.{
  Text, is_empty, AzureSdk, StorerClient, ReaderOptions, parse_reader_options, trim_slash,
  with_service, new_reader_no_auth, new_reader_default_auth, new_dev, first_key, logged_credential,
  credentials, new_storer,
}

abbrev pub is_some : {A : Type 0} → Option A → Bool
is_some none = false
is_some (some a) = true

-- A reader of a URL with these options: it is anonymous, and it has a client for its container just
-- where one was named.
pub record Reads {C S K : Type 0} (url : Text) (o : ReaderOptions) (azp : StorerClient C S K)
    : Type 0 where
  pub rooted : azp.root_url ≡ url
  pub named : azp.container ≡ o.container
  pub logged : azp.account_name ≡ o.account_name
  pub anonymous : is_some azp.credential ≡ false
  pub reads_container : is_some azp.container_of ≡ not (is_empty o.container)

module _ {A C D S K : Type 0} (sdk : AzureSdk A C D S K) where
  with_service-Reads :
      (url : Text) (o : ReaderOptions) (service : S) (azp : StorerClient C S K)
      → with_service sdk url o service ≡ ok azp
      → Reads url o azp
  unfolding with_service
  with_service-Reads url o service azp h = elim (Bool-cases (is_empty o.container)) [
    | inl e ↦ record {
      rooted = ground arith;
      named = ground arith;
      logged = ground arith;
      anonymous = ground arith;
      reads_container = ground arith;
    }
    | inr e ↦ elim (Outcome-cases (sdk.container_client service o.container)) [
      | inl (k, f) ↦ record {
        rooted = ground arith;
        named = ground arith;
        logged = ground arith;
        anonymous = ground arith;
        reads_container = ground arith;
      }
      | inr (inl (x, f)) ↦ absurd (ground arith)
      | inr (inr f) ↦ absurd (ground arith)
    ]
  ]

  -- A reader that NewReaderNoAuth makes is for the URL and the container given, has no credential,
  -- and has a client of its container, which Reader needs, just where a container was named.
  pub new_reader_no_auth-Reads :
      (url : Text) (opts : List (ReaderOptions → ReaderOptions)) (azp : StorerClient C S K)
      → new_reader_no_auth sdk url opts ≡ ok azp
      → Reads url (parse_reader_options opts) azp
  unfolding new_reader_no_auth
  new_reader_no_auth-Reads url opts azp h = elim (Bool-cases (is_empty url)) [
    | inl e ↦ absurd (ground arith)
    | inr e ↦
        (let (s, f, g) =
            and_then-ok (sdk.service_with_no_credential url)
              (with_service sdk url (parse_reader_options opts)) azp (ground arith) in
          with_service-Reads url (parse_reader_options opts) s azp g)
  ]

  -- The same for NewReaderDefaultAuth.
  pub new_reader_default_auth-Reads :
      (url : Text) (opts : List (ReaderOptions → ReaderOptions)) (azp : StorerClient C S K)
      → new_reader_default_auth sdk url opts ≡ ok azp
      → Reads url (parse_reader_options opts) azp
  unfolding new_reader_default_auth
  new_reader_default_auth-Reads url opts azp h = elim (Bool-cases (is_empty url)) [
    | inl e ↦ absurd (ground arith)
    | inr e ↦
        (let (d, k, h1) =
            and_then-ok sdk.default_credential
              (λ c.
                and_then (sdk.service_with_default url c)
                  (with_service sdk url (parse_reader_options opts)))
              azp (ground arith) in
          let (s, f, g) =
            and_then-ok (sdk.service_with_default url d)
              (with_service sdk url (parse_reader_options opts)) azp h1 in
          with_service-Reads url (parse_reader_options opts) s azp g)
  ]

trim_slash-append : (s : Text) → trim_slash (s ++ 47 ∷ []) ≡ s
unfolding trim_slash
trim_slash-append [] = refl
trim_slash-append (c ∷ []) = refl
trim_slash-append (c ∷ d ∷ s) = ap (λ t. c ∷ t) (trim_slash-append (d ∷ s))

append-inhabited : (s : Text) → is_empty (s ++ 47 ∷ []) ≡ false
append-inhabited [] = refl
append-inhabited (c ∷ s) = refl

module _ {A C D S K : Type 0} (sdk : AzureSdk A C D S K) where
  -- NewDev makes the same of a URL without a slash at its end and of that URL with one.
  pub new_dev-slash :
      (account_name key url container : Text)
      → is_empty url ≡ false
      → trim_slash url ≡ url
      → new_dev sdk
          (record { account_name = account_name; key = key; url = url ++ 47 ∷ [] })
          container
        ≡ new_dev sdk (record { account_name = account_name; key = key; url = url }) container
  unfolding new_dev
  new_dev-slash account_name key url container e t =
      rw (e, t, append-inhabited url, trim_slash-append url) refl

  -- Where the account's first key is no shared key for the SDK and AccountName of the nil credential
  -- panics, New panics in place of returning the SDK's error: the credential's name is logged before
  -- the error is looked at.
  pub new_storer-panic :
      (account_name resource_group subscription container key : Text) (keys : List (Option Text))
      (a : A) (e : GoError)
      → is_empty account_name || is_empty resource_group || is_empty subscription ≡ false
      → sdk.authorizer ≡ ok a
      → sdk.list_keys a subscription resource_group account_name ≡ ok (some (some key ∷ keys))
      → sdk.shared_key_credential account_name key ≡ err e
      → sdk.account_name_of none ≡ panic
      → new_storer sdk account_name resource_group subscription container ≡ panic
  unfolding new_storer credentials first_key logged_credential
  new_storer-panic account_name resource_group subscription container key keys a e n f g h p =
      rw (n, f, g, h, p) refl
