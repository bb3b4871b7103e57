-- ===== src/Cose/Texts.antt =====
-- The texts of the errors of cose/errors.go: their methods Error, and the texts of errors.New.
use Prim.Native.String.{◌++◌ as append}
use go_rkvstcommon.Prelude.{String}
use go_rkvstcommon.Prelude.Decimal.{format_int}
use go_rkvstcommon.Cose.Value.{
  CoseError, no_protected_header_value, unexpected_protected_header_type, key_value_error,
  key_format_error, cwt_claims_no_issuer, cwt_claims_no_subject, cwt_claims_no_cnf,
  cwt_claims_issuer_not_string, cwt_claims_subject_not_string, cwt_claims_cnf_wrong_format,
  unknown_curve, unknown_key_type, unknown_algorithm, unsupported_cnf_key_type, curve_not_supported,
  malformed_rsa_key, library_error,
}

-- The value of an ErrKeyValueError is nil wherever this package makes one.
error_text : CoseError → String
error_text (no_protected_header_value label) =
    append "no value for protected header label: " (format_int label)
error_text (unexpected_protected_header_type label expected actual) =
    append "unexpected value type for protected header label: " (
      append (format_int label) (append ", expected: " (append expected (append ", got: " actual))))
error_text (key_value_error field) =
    append "unexpected value for key field: " (append field ", value: <nil>")
error_text (key_format_error field expected actual) =
    append "unexpected format for key field: " (
      append field (append ", expected type: " (append expected (append ", actual type: " actual))))
error_text cwt_claims_no_issuer = "no issuer in cwt claims"
error_text cwt_claims_no_subject = "no subject in cwt claims"
error_text cwt_claims_no_cnf = "no cnf in cwt claims"
error_text cwt_claims_issuer_not_string = "issuer not string in cwt claims"
error_text cwt_claims_subject_not_string = "subject not string in cwt claims"
error_text cwt_claims_cnf_wrong_format = "cnf is in wrong format in cwt claims"
error_text unknown_curve = "unknown curve"
error_text unknown_key_type = "unknown keytype"
error_text unknown_algorithm = "unknown algorithm"
error_text unsupported_cnf_key_type = "unsupported keytype for cnf"
error_text curve_not_supported = "curve not supported"
error_text malformed_rsa_key = "rsa key not in expected format"
error_text (library_error text) = text
