-- ===== src/Cose/Rsa/Laws.antt =====
-- The modulus of keys of cose/rsa_key.go.
use go_rkvstcommon.Prelude.{ℕ, ◌≡◌, some, List, arith}
use go_rkvstcommon.Prelude.Int.{pos, negsuc}
use go_rkvstcommon.Prelude.Outcome.{ok, and_then-ok}
use go_rkvstcommon.Cose.Value.{bytes}
use go_rkvstcommon.Cose.Key.{Labels, get_label, CoseCommonKey, new_cose_common_key}
use go_rkvstcommon.Cose.Rsa.{
  RsaCoseKey, rsa_key_with, present, int_or_zero, new_rsa_cose_key, rsa_public_key,
}

rsa_key_with-bytes :
    (labels : Labels) (common : CoseCommonKey) (key : RsaCoseKey) (b : List ℕ)
    → get_label (negsuc 0) labels ≡ some (bytes b)
    → rsa_key_with labels common ≡ ok key
    → key.n ≡ pos 0
unfolding rsa_key_with present int_or_zero
rsa_key_with-bytes labels common key b g h = ground arith

-- Where NewRSACoseKey makes a key of labels whose modulus is given as bytes, whatever they are, the
-- public key of it has the modulus 0.
new_rsa_cose_key-bytes :
    (labels : Labels) (key : RsaCoseKey) (b : List ℕ)
    → get_label (negsuc 0) labels ≡ some (bytes b)
    → new_rsa_cose_key labels ≡ ok key
    → (rsa_public_key key).0 ≡ pos 0
unfolding new_rsa_cose_key rsa_public_key
new_rsa_cose_key-bytes labels key b g h =
    let (common, f, h1) = and_then-ok (new_cose_common_key labels) (rsa_key_with labels) key h in
    rsa_key_with-bytes labels common key b g h1
