-- ===== src/Azblob/Lease/Laws.antt =====
-- Leases of azblob/lease.go: when a blob is made, and which error is reported.
use go_rkvstcommon.Prelude.{◌≡◌, ◌≢◌, String, eq_iff, some, [], arith, ◌↔◌, nat_eq_iff, inl, inr}
use go_rkvstcommon.Prelude.Int.{ℤ}
use go_rkvstcommon.Prelude.Outcome.{ok, err, Outcome-cases}
use go_rkvstcommon.Azblob.Error.{GoError, as_error, error_from_error, status_code}
use go_rkvstcommon.Azblob.HashingReader.{Reader}
use go_rkvstcommon.Azblob.Service.{renew_lease, History, Service, perform}
use go_rkvstcommon.Azblob.Response.{WriteResponse}
use go_rkvstcommon.Azblob.Upload.{write}
use go_rkvstcommon.Azblob.Lease.{not_found, acquire, after_acquire, acquire_blob_lease, renew}

module _ (azp : Service) (objectname : String) (lease_timeout : ℤ) (empty : Reader) where
  -- Where acquireLease fails with an error whose status is not 404, AcquireLease fails with that
  -- error, and makes no call after it.
  pub acquire_blob_lease-no_create :
      (e : GoError) (h : History)
      → (acquire azp objectname lease_timeout h).0 ≡ err e
      → status_code (error_from_error (some e)) ≢ not_found
      → acquire_blob_lease azp objectname lease_timeout empty h
        ≡ (err (as_error (error_from_error (some e))), (acquire azp objectname lease_timeout h).1)
  unfolding acquire_blob_lease after_acquire
  acquire_blob_lease-no_create e h f n =
      ground (arith, nat_eq_iff (status_code (error_from_error (some e))) not_found)

  -- Where acquireLease fails with a 404, the empty blob is written and acquireLease fails again,
  -- with whatever error e2, AcquireLease fails with the first error, a 404.
  acquire_blob_lease-first_error :
      (e e2 : GoError) (h h1 h2 : History) (w : WriteResponse)
      → acquire azp objectname lease_timeout h ≡ (err e, h1)
      → status_code (error_from_error (some e)) ≡ not_found
      → write azp objectname empty [] h1 ≡ (ok w, h2)
      → (acquire azp objectname lease_timeout h2).0 ≡ err e2
      → (acquire_blob_lease azp objectname lease_timeout empty h).0
        ≡ err (as_error (error_from_error (some e)))
  unfolding acquire_blob_lease after_acquire
  acquire_blob_lease-first_error e e2 h h1 h2 w f n wr g =
      ground (arith, nat_eq_iff (status_code (error_from_error (some e))) not_found)

module _ (azp : Service) where
  -- The renewer of a lease succeeds just where the service renews the lease under the same id.
  pub renew-ok_iff :
      (lease_id : String) (h : History)
      → ((renew azp lease_id h).0 ≡ ok tt) ↔ (azp.lease_id h (renew_lease lease_id) ≡ ok lease_id)
  unfolding renew perform
  renew-ok_iff lease_id h = elim (Outcome-cases (azp.lease_id h (renew_lease lease_id))) [
    | inl (id, f) ↦ ground (arith, eq_iff id lease_id)
    | inr (inl (e, f)) ↦ ground arith
    | inr (inr f) ↦ ground arith
  ]
