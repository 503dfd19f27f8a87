-- ===== src/Models/Lease.antt =====
-- `AuthorityLease` of models.py.
use ump.Prelude.{
  ℕ, String, Bool, ◌||◌, not, List, Result, Done, ok, ◌>>◌, refuse, ltb, unique, length,
}
use ump.Prelude.Int.{ℤ, pos, ltb_ℤ, leb_ℤ}
use ump.Models.Text.{
  ModelError, no_capabilities, duplicate_capabilities, bad_time_window, bad_uncertainty,
  bad_revision, identifier, identifiers,
}
use ump.Models.Status.{LeaseStatus}

pub record AuthorityLease : Type 0 where
  pub lease_id : String
  pub grantor_robot_id : String
  pub issuer_id : String
  pub capabilities : List String
  pub issued_at_ms : ℤ
  pub expires_at_ms : ℤ
  pub maximum_clock_uncertainty_ms : ℤ
  pub revision : ℤ
  pub status : LeaseStatus

-- `not self.capabilities or len(self.capabilities) > 256`
abbrev pub outside_1_to_256 : ℕ → Bool
outside_1_to_256 n = ltb n 1 || ltb 256 n

-- the three numeric checks that end `AuthorityLease.__post_init__`
unfoldable pub lease_times : AuthorityLease → Result ModelError Done
lease_times l = do
  refuse (ltb_ℤ l.issued_at_ms (pos 0) || leb_ℤ l.expires_at_ms l.issued_at_ms) bad_time_window
  refuse
      (ltb_ℤ l.maximum_clock_uncertainty_ms (pos 0)
        || ltb_ℤ (pos 60000) l.maximum_clock_uncertainty_ms)
      bad_uncertainty
  refuse (ltb_ℤ l.revision (pos 1)) bad_revision

-- `AuthorityLease.__post_init__`
unfoldable pub lease_post_init : AuthorityLease → Result ModelError Done
unfolding identifier identifiers lease_times
lease_post_init l = do
  identifier l.lease_id "lease_id"
  identifier l.grantor_robot_id "grantor_robot_id"
  identifier l.issuer_id "issuer_id"
  refuse (outside_1_to_256 (length l.capabilities)) no_capabilities
  refuse (not (unique l.capabilities)) duplicate_capabilities
  identifiers l.capabilities "lease capability"
  lease_times l

-- the constructor call `AuthorityLease(...)`
unfoldable pub make_lease : AuthorityLease → Result ModelError AuthorityLease
unfolding lease_post_init
make_lease l = lease_post_init l >> ok l
