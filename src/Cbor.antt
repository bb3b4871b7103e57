-- ===== src/Cbor.antt =====
-- cbor/config.go and cbor/codec.go, over the CBOR library, which is not part of this repository: its
-- modes are made by parameters.
pub mod Laws
use go_rkvstcommon.Prelude.{ℕ, String, List}
use go_rkvstcommon.Prelude.Outcome.{Outcome, ok, err, panic, and_then}

-- The values of the library's options that are used, and the zero value of each
pub data SortMode : Type 0 where
  sort_none sort_core_deterministic : SortMode

pub data IndefLengthMode : Type 0 where
  indef_length_allowed indef_length_forbidden : IndefLengthMode

pub data DupMapKeyMode : Type 0 where
  dup_map_key_quiet dup_map_key_enforced_apf : DupMapKeyMode

pub data IntDecMode : Type 0 where
  int_dec_convert_none int_dec_convert_signed : IntDecMode

pub data TagsMode : Type 0 where
  tags_allowed tags_forbidden : TagsMode

-- cbor.EncOptions and cbor.DecOptions
pub record EncOptions : Type 0 where
  pub sort : SortMode
  pub indef_length : IndefLengthMode

pub record DecOptions : Type 0 where
  pub dup_map_key : DupMapKeyMode
  pub indef_length : IndefLengthMode
  pub int_dec : IntDecMode
  pub tags_md : TagsMode

-- NewDeterministicEncOpts
abbrev pub new_deterministic_enc_opts : EncOptions
new_deterministic_enc_opts = record {
  sort = sort_core_deterministic;
  indef_length = indef_length_forbidden;
}

-- NewDeterministicDecOptsConvertSigned
abbrev pub new_deterministic_dec_opts_convert_signed : DecOptions
new_deterministic_dec_opts_convert_signed = record {
  dup_map_key = dup_map_key_enforced_apf;
  indef_length = indef_length_forbidden;
  int_dec = int_dec_convert_signed;
  tags_md = tags_forbidden;
}

-- NewDeterministicDecOpts
abbrev pub new_deterministic_dec_opts : DecOptions
new_deterministic_dec_opts = record {
  dup_map_key = dup_map_key_enforced_apf;
  indef_length = indef_length_forbidden;
  int_dec = int_dec_convert_none;
  tags_md = tags_forbidden;
}

-- decOpts.TagsMd = cbor.TagsForbidden
abbrev pub forbid_tags : DecOptions → DecOptions
forbid_tags o = record {
  dup_map_key = o.dup_map_key;
  indef_length = o.indef_length;
  int_dec = o.int_dec;
  tags_md = tags_forbidden;
}

-- The library, with its encoding modes and decoding modes, and the values X of Go
pub record CborModes (X : Type 0) : Type 1 where
  pub EncMode : Type 0
  pub DecMode : Type 0
  pub enc_mode : EncOptions → Outcome String EncMode
  pub dec_mode : DecOptions → Outcome String DecMode
  pub marshal : EncMode → X → Outcome String (List ℕ)
  -- Unmarshal into a slice, and what is in it, which may be something where there is an error
  pub unmarshal : DecMode → List ℕ → List X × Outcome String (Unit {0})

-- type CBORConfig struct
pub record CborConfig (E D : Type 0) : Type 0 where
  pub enc_mode : E
  pub dec_mode : D
  pub dec_mode_tags_forbidden : D

module _ {X : Type 0} (library : CborModes X) where
  -- NewCBORConfig; NewCBORCodec returns what it returns
  unfoldable pub new_cbor_config :
      EncOptions → DecOptions → Outcome String (CborConfig library.EncMode library.DecMode)
  new_cbor_config enc_opts dec_opts = and_then (library.enc_mode enc_opts) λ e.
      and_then (library.dec_mode dec_opts) λ d.
        and_then (library.dec_mode (forbid_tags dec_opts))
          λ t. ok (record { enc_mode = e; dec_mode = d; dec_mode_tags_forbidden = t })

  -- (*CBORCodec).MarshalCBOR
  unfoldable pub codec_marshal :
      CborConfig library.EncMode library.DecMode → X → Outcome String (List ℕ)
  codec_marshal cfg value = library.marshal cfg.enc_mode value

  -- (*CBORCodec).UnmarshalCBOR
  unfoldable pub codec_unmarshal :
      CborConfig library.EncMode library.DecMode → List ℕ → List X × Outcome String (Unit {0})
  codec_unmarshal cfg value = library.unmarshal cfg.dec_mode value
