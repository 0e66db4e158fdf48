-- ===== src/Progress/Statuses.antt =====
-- The comparison of two `ResultStatus` values of app/models/enums.py.
use api_testoria.Base.{◌≡◌, refl, true}
use api_testoria.Db.{ResultStatus, passed, failed, blocked, no_run, skipped}
use api_testoria.Progress.{result_status_eq}

pub status_eq_sym : (s t : ResultStatus) → result_status_eq s t ≡ true → s ≡ t
status_eq_sym passed passed h = refl
status_eq_sym failed failed h = refl
status_eq_sym blocked blocked h = refl
status_eq_sym no_run no_run h = refl
status_eq_sym skipped skipped h = refl
status_eq_sym passed failed h = cc
status_eq_sym passed blocked h = cc
status_eq_sym passed no_run h = cc
status_eq_sym passed skipped h = cc
status_eq_sym failed passed h = cc
status_eq_sym failed blocked h = cc
status_eq_sym failed no_run h = cc
status_eq_sym failed skipped h = cc
status_eq_sym blocked passed h = cc
status_eq_sym blocked failed h = cc
status_eq_sym blocked no_run h = cc
status_eq_sym blocked skipped h = cc
status_eq_sym no_run passed h = cc
status_eq_sym no_run failed h = cc
status_eq_sym no_run blocked h = cc
status_eq_sym no_run skipped h = cc
status_eq_sym skipped passed h = cc
status_eq_sym skipped failed h = cc
status_eq_sym skipped blocked h = cc
status_eq_sym skipped no_run h = cc

pub status_eq_refl : (s : ResultStatus) → result_status_eq s s ≡ true
status_eq_refl passed = refl
status_eq_refl failed = refl
status_eq_refl blocked = refl
status_eq_refl no_run = refl
status_eq_refl skipped = refl
