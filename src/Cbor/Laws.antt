-- ===== src/Cbor/Laws.antt =====
-- The codec that cbor/config.go and cbor/codec.go make.
use go_rkvstcommon.Prelude.{◌≡◌, arith}
use go_rkvstcommon.Prelude.Outcome.{ok, and_then-ok}
use go_rkvstcommon.Cbor.{
  EncOptions, DecOptions, CborModes, CborConfig, forbid_tags, new_cbor_config,
}

module _ {X : Type 0} (library : CborModes X) where
  -- A configuration that is made has the modes of the options given, and its third mode is that of
  -- the decoding options with tags forbidden.
  pub new_cbor_config-modes :
      (enc_opts : EncOptions) (dec_opts : DecOptions)
      (cfg : CborConfig library.EncMode library.DecMode)
      → new_cbor_config library enc_opts dec_opts ≡ ok cfg
      → (library.enc_mode enc_opts ≡ ok cfg.enc_mode)
        × (library.dec_mode dec_opts ≡ ok cfg.dec_mode)
        × (library.dec_mode (forbid_tags dec_opts) ≡ ok cfg.dec_mode_tags_forbidden)
  unfolding new_cbor_config
  new_cbor_config-modes enc_opts dec_opts cfg h =
      let (e, p, h1) = and_then-ok (library.enc_mode enc_opts) _ cfg h in
      let (d, q, h2) = and_then-ok (library.dec_mode dec_opts) _ cfg h1 in
      let (t, r, h3) = and_then-ok (library.dec_mode (forbid_tags dec_opts)) _ cfg h2 in
      ground arith
