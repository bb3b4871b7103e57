-- ===== src/Cose/Rsa.antt =====
-- cose/rsa_key.go
pub mod Laws
use go_rkvstcommon.Prelude.{Option, none, some}
use go_rkvstcommon.Prelude.Int.{ℤ, pos, negsuc}
use go_rkvstcommon.Prelude.Outcome.{Outcome, ok, err, panic, and_then}
use go_rkvstcommon.Cose.Value.{Value, int, CoseError, malformed_rsa_key}
use go_rkvstcommon.Cose.Key.{Labels, get_label, CoseCommonKey, new_cose_common_key}

-- type RSACoseKey struct
pub record RsaCoseKey : Type 0 where
  pub common : CoseCommonKey
  pub n : ℤ
  pub e : ℤ

-- v.(int64), and 0 where v is none
unfoldable pub int_or_zero : Value → ℤ
int_or_zero (int n) = n
int_or_zero v = pos 0

present : Option Value → Outcome CoseError Value
present none = err malformed_rsa_key
present (some v) = ok v

-- The part of NewRSACoseKey after the common fields
rsa_key_with : Labels → CoseCommonKey → Outcome CoseError RsaCoseKey
unfolding get_label present int_or_zero
rsa_key_with m common = and_then (present (get_label (negsuc 0) m)) λ n.
    and_then (present (get_label (negsuc 1) m))
      λ e. ok (record { common = common; n = int_or_zero n; e = int_or_zero e })

-- NewRSACoseKey
unfoldable pub new_rsa_cose_key : Labels → Outcome CoseError RsaCoseKey
unfolding new_cose_common_key rsa_key_with
new_rsa_cose_key m = and_then (new_cose_common_key m) (rsa_key_with m)

-- (*RSACoseKey).PublicKey: rsa.PublicKey with its N and E, where int is 64 bits wide
unfoldable pub rsa_public_key : RsaCoseKey → ℤ × ℤ
rsa_public_key key = (key.n, key.e)
