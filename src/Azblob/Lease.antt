-- ===== src/Azblob/Lease.antt =====
-- azblob/lease.go
pub mod Laws
use go_rkvstcommon.Prelude.{
  ℕ, String, ◌==◌, Bool, true, false, Option, none, some, List, [], nat_eq, if◌then◌else◌,
}
use go_rkvstcommon.Prelude.Int.{ℤ}
use go_rkvstcommon.Prelude.Outcome.{Outcome, ok, err, panic}
use go_rkvstcommon.Prelude.Exec.{Exec, pure, fail, ◌>>=◌, ◌>>◌}
use go_rkvstcommon.Azblob.Error.{GoError, plain, Error, as_error, error_from_error, status_code}
use go_rkvstcommon.Azblob.HashingReader.{Reader}
use go_rkvstcommon.Azblob.Service.{
  acquire_lease, renew_lease, release_lease, History, Service, perform, local, with_error,
}
use go_rkvstcommon.Azblob.Upload.{write}

-- http.StatusNotFound
abbrev pub not_found : ℕ
not_found = 404

-- fmt.Errorf("renewed lease id mismatch: ...")
abbrev pub id_mismatch : GoError
id_mismatch = plain "renewed lease id mismatch"

-- if err != nil { return "", herr }
abbrev first_error : GoError → Outcome GoError String → Outcome GoError String
first_error herr (ok id) = ok id
first_error herr (err e) = err herr
first_error herr panic = panic

abbrev drop_error : Outcome GoError Unit → Outcome GoError Unit
drop_error panic = panic
drop_error (ok t) = ok tt
drop_error (err e) = ok tt

module _ (azp : Service) where
  -- (*Storer).acquireLease, with the lease's id for its response
  unfoldable pub acquire : String → ℤ → Exec History GoError String
  unfolding perform
  acquire objectname lease_timeout = do
    local (azp.new_block_blob_client objectname)
    local (azp.new_lease_client objectname)
    perform azp.lease_id (acquire_lease objectname lease_timeout)

  -- The rest of AcquireLease after its first call of acquireLease: on a 404 the blob is made and
  -- the call repeated, and what is returned where that fails too is the first error.
  unfoldable pub after_acquire :
      String → ℤ → Reader → Outcome GoError String → Exec History GoError String
  unfolding acquire
  after_acquire objectname lease_timeout empty (ok id) = pure id
  after_acquire objectname lease_timeout empty panic = λ h. (panic, h)
  after_acquire objectname lease_timeout empty (err e) =
      let herr = error_from_error (some e) in
      if nat_eq (status_code herr) not_found
      then (do
        write azp objectname empty []
        λ h. (
          first_error (as_error herr) (acquire objectname lease_timeout h).0,
          (acquire objectname lease_timeout h).1,
        ))
      else fail (as_error herr)

  -- (*Storer).AcquireLease; `empty` is bytes.NewReader([]byte{}).
  unfoldable pub acquire_blob_lease : String → ℤ → Reader → Exec History GoError String
  unfolding after_acquire
  acquire_blob_lease objectname lease_timeout empty h =
      let first = acquire objectname lease_timeout h in
      after_acquire objectname lease_timeout empty first.0 first.1

  -- The closure `renewer` that AcquireLeaseRenewable returns
  unfoldable pub renew : String → Exec History GoError Unit
  unfolding perform
  renew lease_id = do
    renewed_id ← with_error (perform azp.lease_id (renew_lease lease_id))
    if renewed_id == lease_id
        then pure tt
        else fail (as_error (error_from_error (some id_mismatch)))

  -- (*Storer).AcquireLeaseRenewable: the id, and the renewer for it
  unfoldable pub acquire_lease_renewable :
      String → ℤ → Exec History GoError (String × Exec History GoError Unit)
  unfolding acquire
  acquire_lease_renewable objectname lease_timeout = do
    lease_id ← with_error (acquire objectname lease_timeout)
    pure (lease_id, renew lease_id)

  -- (*Storer).ReleaseLease
  unfoldable pub release : String → String → Exec History GoError Unit
  unfolding perform
  release objectname lease_id = do
    local (azp.new_block_blob_client objectname)
    local (azp.new_lease_client objectname)
    with_error (perform azp.done (release_lease objectname lease_id))

  -- (*Storer).ReleaseLeaseDeferable, which drops the error
  unfoldable pub release_deferable : String → String → Exec History GoError Unit
  unfolding release
  release_deferable objectname lease_id h =
      let r = release objectname lease_id h in (drop_error r.0, r.1)
