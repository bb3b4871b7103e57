-- ===== src/Cose/Message.antt =====
-- The making, signing and encoding of messages in cose/cose.go, cose/options.go and cose/signature.go,
-- over the COSE and CBOR libraries, which are not part of this repository.
pub mod Laws
use go_rkvstcommon.Prelude.{ℕ, String, Option, none, some, List, [], ◌∷◌, if◌then◌else◌}
use go_rkvstcommon.Prelude.Int.{ℤ, pos, negsuc, int_eq}
use go_rkvstcommon.Prelude.Outcome.{Outcome, ok, err, panic, and_then}
use go_rkvstcommon.Cbor.{
  EncOptions, DecOptions, new_deterministic_enc_opts, new_deterministic_dec_opts_convert_signed,
}
use go_rkvstcommon.Cose.Value.{
  Value, nil, text, bytes, int, texts, value_map, other, Entries, no_entries, entry, CoseError,
}
use go_rkvstcommon.Cose.Key.{PublicKey}
use go_rkvstcommon.Cose.Verify.{Message}

-- type SignOptions struct
pub record SignOptions : Type 0 where
  pub enc_opts : EncOptions
  pub dec_opts : DecOptions

-- WithEncOptions
abbrev pub with_enc_options : EncOptions → SignOptions → SignOptions
with_enc_options enc_opts o = record { enc_opts = enc_opts; dec_opts = o.dec_opts }

-- WithDecOptions
abbrev pub with_dec_options : DecOptions → SignOptions → SignOptions
with_dec_options dec_opts o = record { enc_opts = o.enc_opts; dec_opts = dec_opts }

-- newDefaultSignOptions
abbrev pub new_default_sign_options : SignOptions
new_default_sign_options = record {
  enc_opts = new_deterministic_enc_opts;
  dec_opts = new_deterministic_dec_opts_convert_signed;
}

-- for _, o := range withOpts { o(&opts) }
unfoldable pub apply_options : List (SignOptions → SignOptions) → SignOptions → SignOptions
apply_options [] opts = opts
apply_options (o ∷ os) opts = apply_options os (o opts)

-- An element of a Sig_structure: a text, bytes that are CBOR already, or bytes
pub data SigItem : Type 0 where
  sig_text : String → SigItem
  sig_raw sig_bytes : List ℕ → SigItem

-- The libraries, with their modes E and D, their signers S and their private keys K
pub record SignLibrary (E D S K : Type 0) : Type 0 where
  pub enc_mode : EncOptions → Outcome CoseError E
  pub dec_mode : DecOptions → Outcome CoseError D
  -- (*Sign1Message).MarshalCBOR and UnmarshalCBOR
  pub marshal_message : Message → Outcome CoseError (List ℕ)
  pub unmarshal_message : List ℕ → Outcome CoseError Message
  -- Headers.MarshalProtected
  pub marshal_protected : Message → Outcome CoseError (List ℕ)
  pub wellformed : D → List ℕ → Outcome CoseError (Unit {0})
  pub marshal : E → List SigItem → Outcome CoseError (List ℕ)
  pub new_signer : ℤ → K → Outcome CoseError S
  -- (*Sign1Message).Sign with a source of random bytes: what it does to the message, and its error
  pub sign : List ℕ → List ℕ → S → Message → Message × Outcome CoseError (Unit {0})

-- type CoseSign1Message struct
pub record CoseSign1Message (E D : Type 0) : Type 0 where
  pub message : Message
  pub enc_mode : E
  pub dec_mode : D

-- m[label] = v, where an entry that is there keeps its place
unfoldable pub set_entry : ℤ → Value → Entries → Entries
set_entry label v no_entries = entry (int label) v no_entries
set_entry label v (entry (int n) w rest) =
    let later = set_entry label v rest in
    if int_eq n label then entry (int n) v rest else entry (int n) w later
set_entry label v (entry nil w rest) = entry nil w (set_entry label v rest)
set_entry label v (entry (text s) w rest) = entry (text s) w (set_entry label v rest)
set_entry label v (entry (bytes b) w rest) = entry (bytes b) w (set_entry label v rest)
set_entry label v (entry (texts l) w rest) = entry (texts l) w (set_entry label v rest)
set_entry label v (entry (value_map m) w rest) = entry (value_map m) w (set_entry label v rest)
set_entry label v (entry (other t) w rest) = entry (other t) w (set_entry label v rest)

-- cose.HeaderLabelAlgorithm and cose.AlgorithmES256
abbrev pub header_label_algorithm : ℤ
header_label_algorithm = pos 1

abbrev pub algorithm_es256 : ℤ
algorithm_es256 = negsuc 6

-- cs.Headers.Protected[cose.HeaderLabelAlgorithm] = cose.AlgorithmES256
unfoldable pub with_es256 : Message → Message
unfolding set_entry
with_es256 m = record {
  protected = set_entry header_label_algorithm (int algorithm_es256) m.protected;
  payload = m.payload;
  signature = m.signature;
}

-- The context of a Sig_structure, Sign1Context
abbrev pub sign1_context : String
sign1_context = "Signature1"

-- if external == nil { external = []byte{} }
abbrev pub external_bytes : Option (List ℕ) → List ℕ
external_bytes none = []
external_bytes (some b) = b

module _ {E D S K : Type 0} (library : SignLibrary E D S K) where
  -- The part of NewCoseSign1Message after the options
  unfoldable pub with_modes : SignOptions → Message → Outcome CoseError (CoseSign1Message E D)
  with_modes opts message = and_then (library.enc_mode opts.enc_opts) λ e.
      and_then (library.dec_mode opts.dec_opts)
        λ d. ok (record { message = message; enc_mode = e; dec_mode = d })

  -- NewCoseSign1Message
  unfoldable pub new_cose_sign1_message :
      Message → List (SignOptions → SignOptions) → Outcome CoseError (CoseSign1Message E D)
  unfolding apply_options with_modes
  new_cose_sign1_message message with_opts =
      with_modes (apply_options with_opts new_default_sign_options) message

  -- MarshalCBOR
  unfoldable pub marshal_cbor : Message → Outcome CoseError (List ℕ)
  marshal_cbor message = and_then (library.marshal_message message) λ marshaled. ok marshaled

  -- UnmarshalCBOR
  unfoldable pub unmarshal_cbor : List ℕ → Outcome CoseError Message
  unmarshal_cbor message =
      and_then (library.unmarshal_message message) λ unmarshaled. ok unmarshaled

  -- NewCoseSign1MessageFromCBOR
  unfoldable pub new_cose_sign1_message_from_cbor :
      List ℕ → List (SignOptions → SignOptions) → Outcome CoseError (CoseSign1Message E D)
  unfolding apply_options with_modes unmarshal_cbor
  new_cose_sign1_message_from_cbor message with_opts =
      and_then (unmarshal_cbor message)
        (with_modes (apply_options with_opts new_default_sign_options))

  -- (*CoseSign1Message).CreateSignPayload
  unfoldable pub create_sign_payload :
      CoseSign1Message E D → Option (List ℕ) → Outcome CoseError (List ℕ)
  create_sign_payload cs external = and_then (library.marshal_protected cs.message) λ body.
      and_then (library.wellformed cs.dec_mode body) λ t. library.marshal cs.enc_mode (
        sig_text sign1_context
        ∷ sig_raw body
        ∷ sig_bytes (external_bytes external)
        ∷ sig_bytes cs.message.payload
        ∷ [])

  -- The part of SignES256 after the signer
  unfoldable pub sign_with :
      List ℕ → List ℕ → Message → Outcome CoseError S → Message × Outcome CoseError (Unit {0})
  unfolding with_es256
  sign_with rand external m (ok signer) = library.sign rand external signer (with_es256 m)
  sign_with rand external m (err e) = (m, err e)
  sign_with rand external m panic = (m, panic)

  -- (*CoseSign1Message).SignES256
  unfoldable pub sign_es256 : List ℕ → List ℕ → K → Message → Message × Outcome CoseError (Unit {0})
  unfolding sign_with
  sign_es256 rand external private_key m =
      sign_with rand external m (library.new_signer algorithm_es256 private_key)
