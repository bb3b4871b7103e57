-- ===== src/Cose/Claims/Laws.antt =====
-- What CWTClaimsFromProtectedHeader and CNFCoseKey of cose read from the claims of a header.
use go_rkvstcommon.Prelude.{◌≡◌, refl, ap, sym, ◌∙◌, ◌↔◌, String, eq_iff, Option, none, some, arith}
use go_rkvstcommon.Prelude.Int.{pos}
use go_rkvstcommon.Prelude.Outcome.{Outcome, ok, err, panic, ok-injective, and_then-ok}
use go_rkvstcommon.Cose.Value.{
  Value, nil, text, bytes, int, texts, value_map, other, Entries, CoseError, cwt_claims_no_cnf,
  find, value_from_protected_header, did_from_protected_header, text_from_protected_header, text_of,
  type_error,
}
use go_rkvstcommon.Cose.Key.{
  Labels, index, convert_keys_to_labels, key_type_label_to_key_type, EcCoseKey,
}
use go_rkvstcommon.Cose.Key.Laws.{new_ec_cose_key-kty}
use go_rkvstcommon.Cose.Claims.{
  header_label_cwt_claims, key_iss, key_sub, cnf_label, cose_key_label, CwtClaims, key_of_type,
  key_of_map, value_of, key_of_cnf, cnf_cose_key, claim, with_confirmation, claims_of,
  cwt_claims_from_protected_header,
}

key_of_type-kty :
    (keytype : String) (labels : Labels) (key : EcCoseKey)
    → key_type_label_to_key_type (index labels (pos 1)) ≡ ok keytype
    → key_of_type keytype labels ≡ ok key
    → key.common.kty ≡ "EC"
unfolding key_of_type
key_of_type-kty keytype labels key k h =
    ground (arith, eq_iff keytype "EC", new_ec_cose_key-kty labels key)

key_of_map-kty : (v : Value) (key : EcCoseKey) → key_of_map v ≡ ok key → key.common.kty ≡ "EC"
unfolding key_of_map
key_of_map-kty (value_map m) key h =
    let (labels, f, h1) = and_then-ok (convert_keys_to_labels m) _ key h in
    let (keytype, g, h2) =
      and_then-ok (key_type_label_to_key_type (index labels (pos 1))) _ key h1 in
    key_of_type-kty keytype labels key g h2
key_of_map-kty nil key h = cc
key_of_map-kty (text s) key h = cc
key_of_map-kty (bytes b) key h = cc
key_of_map-kty (int n) key h = cc
key_of_map-kty (texts l) key h = cc
key_of_map-kty (other t) key h = cc

key_of_cnf-kty :
    (v : Option Value) (key : EcCoseKey) → key_of_cnf v ≡ ok key → key.common.kty ≡ "EC"
unfolding key_of_cnf
key_of_cnf-kty none key h = cc
key_of_cnf-kty (some (value_map m)) key h = key_of_map-kty (value_of (find cose_key_label m)) key h
key_of_cnf-kty (some nil) key h = cc
key_of_cnf-kty (some (text s)) key h = cc
key_of_cnf-kty (some (bytes b)) key h = cc
key_of_cnf-kty (some (int n)) key h = cc
key_of_cnf-kty (some (texts l)) key h = cc
key_of_cnf-kty (some (other t)) key h = cc

-- Every key that CNFCoseKey returns has the key type EC.
pub cnf_cose_key-kty :
    (claims : Entries) (key : EcCoseKey) → cnf_cose_key claims ≡ ok key → key.common.kty ≡ "EC"
unfolding cnf_cose_key
cnf_cose_key-kty claims key h = key_of_cnf-kty (find cnf_label claims) key h

claim-ok :
    (missing wrong : CoseError) (v : Option Value) (s : String)
    → claim missing wrong v ≡ ok s
    → v ≡ some (text s)
unfolding claim
claim-ok missing wrong none s h = cc
claim-ok missing wrong (some (text t)) s h = ap (λ x. some (text x)) (ok-injective h)
claim-ok missing wrong (some nil) s h = cc
claim-ok missing wrong (some (bytes b)) s h = cc
claim-ok missing wrong (some (int n)) s h = cc
claim-ok missing wrong (some (texts l)) s h = cc
claim-ok missing wrong (some (value_map m)) s h = cc
claim-ok missing wrong (some (other t)) s h = cc

-- The claims say what is in the map: texts for the issuer and the subject, and for the confirmation
-- method what CNFCoseKey makes of the map, where none stands for its error that there is no cnf.
abbrev pub Reads : CwtClaims → Entries → Type 0
Reads c m =
    (find key_iss m ≡ some (text c.issuer))
    × (find key_sub m ≡ some (text c.subject))
    × ((k : EcCoseKey) → c.confirmation_method ≡ some k → cnf_cose_key m ≡ ok k)
    × (c.confirmation_method ≡ none → cnf_cose_key m ≡ err cwt_claims_no_cnf)

with_confirmation-ok :
    (i s : String) (o : Outcome CoseError EcCoseKey) (c : CwtClaims)
    → with_confirmation i s o ≡ ok c
    → (c.issuer ≡ i)
      × (c.subject ≡ s)
      × ((k : EcCoseKey) → c.confirmation_method ≡ some k → o ≡ ok k)
      × (c.confirmation_method ≡ none → o ≡ err cwt_claims_no_cnf)
unfolding with_confirmation
with_confirmation-ok i s o c h = ground arith

claims_of-Reads :
    (v : Value) (c : CwtClaims) → claims_of v ≡ ok c → (m : Entries) × (v ≡ value_map m) × Reads c m
unfolding claims_of
claims_of-Reads (value_map m) c h =
    let (i, fi, h1) = and_then-ok (claim _ _ (find key_iss m)) _ c h in
    let (s, fs, h2) = and_then-ok (claim _ _ (find key_sub m)) _ c h1 in
    let (a, b, d, e) = with_confirmation-ok i s (cnf_cose_key m) c h2 in
    (
      m,
      refl,
      (
        claim-ok _ _ (find key_iss m) i fi ∙ ap (λ x. some (text x)) (sym a),
        claim-ok _ _ (find key_sub m) s fs ∙ ap (λ x. some (text x)) (sym b),
        d,
        e,
      ),
    )
claims_of-Reads nil c h = cc
claims_of-Reads (text s) c h = cc
claims_of-Reads (bytes b) c h = cc
claims_of-Reads (int n) c h = cc
claims_of-Reads (texts l) c h = cc
claims_of-Reads (other t) c h = cc

-- Where CWTClaimsFromProtectedHeader succeeds, the header has a map of claims, and the result reads
-- it: the issuer and the subject are its texts, the confirmation method is the key of CNFCoseKey, and
-- there is none just because CNFCoseKey finds no cnf.
pub cwt_claims_from_protected_header-Reads :
    (header : Entries) (c : CwtClaims)
    → cwt_claims_from_protected_header header ≡ ok c
    → (m : Entries) × (find header_label_cwt_claims header ≡ some (value_map m)) × Reads c m
unfolding cwt_claims_from_protected_header value_from_protected_header
cwt_claims_from_protected_header-Reads header c h =
    let (v, f, h1) =
      and_then-ok (value_from_protected_header header_label_cwt_claims header) claims_of c h in
    let (m, e, r) = claims_of-Reads v c h1 in (m, ground arith, r)

-- DidFromProtectedHeader panics exactly when the header has the DID label with the value nil.
pub did_from_protected_header-panic_iff :
    (header : Entries)
    → (did_from_protected_header header ≡ panic) ↔ (find (pos 391) header ≡ some nil)
unfolding did_from_protected_header text_from_protected_header value_from_protected_header text_of
    type_error
did_from_protected_header-panic_iff header = ground arith
