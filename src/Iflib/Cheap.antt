-- ===== src/Iflib/Cheap.antt =====
-- tcc/iflib_cheap.c: the check for policing that does not lead to a decision, and the check for
-- expensive operators.
use tcng.Common.{Bool, true, false, not, ◌&&◌, ◌||◌, Result, ok, err, Error, ◌>>=◌, if◌then◌else◌}
use tcng.Data.{Data, Op}

-- The flags `report_not`, `report_ne`, `report_gt` and `report_ge`.
pub record Reports : Type 0 where
  pub not' : Bool
  pub ne : Bool
  pub gt : Bool
  pub ge : Bool

-- `warn_exp_error`: a report is an error, which ends the program.
module _ (warn_exp_error : Bool) where
  -- report_expensive under a flag such as `do_report`, which it resets. The result is the 0 that
  -- `refuse_static_after_policing` returns then, and the flag.
  abbrev pub report_once : Bool → Result (Bool × Bool)
  report_once do_report =
      if do_report
      then (if warn_exp_error then err Error.expensive else ok (false, false))
      else ok (false, do_report)

  -- The value, and `do_report` after it.
  unfoldable pub refuse_static_after_policing : Data → Bool → Bool → Bool → Result (Bool × Bool)
  refuse_static_after_policing (Data.decision r k) next otherwise do_report = ok (true, do_report)
  refuse_static_after_policing (Data.op t Op.logical_and a b c) next otherwise do_report = do
    r ← refuse_static_after_policing b next otherwise do_report
    refuse_static_after_policing a r.0 otherwise r.1
  refuse_static_after_policing (Data.op t Op.logical_or a b c) next otherwise do_report = do
    r ← refuse_static_after_policing b next otherwise do_report
    refuse_static_after_policing a next r.0 r.1
  refuse_static_after_policing (Data.op t Op.logical_not a b c) next otherwise do_report =
      refuse_static_after_policing a otherwise next do_report
  refuse_static_after_policing (Data.op t Op.conform a b c) next otherwise do_report =
      if next && otherwise then ok (true, do_report) else report_once do_report
  refuse_static_after_policing (Data.op t Op.count a b c) next otherwise do_report =
      if next then ok (true, do_report) else report_once do_report
  refuse_static_after_policing d next otherwise do_report = ok (false, do_report)

  -- iflib_cheap_actions, with `warn_expensive || warn_exp_post_opt` and `use_bit_tree`.
  unfoldable pub iflib_cheap_actions : Bool → Bool → Bool → Data → Result Bool
  unfolding refuse_static_after_policing
  iflib_cheap_actions warn use_bit_tree do_report d =
      let check = (do r ← refuse_static_after_policing d false false do_report; ok r.1) in
      if not warn || use_bit_tree then ok do_report else check

  -- A report under its flag.
  abbrev pub report_op : Bool → Reports → Reports → Result Reports
  report_op flag reports after =
      if flag then (if warn_exp_error then err Error.expensive else ok after) else ok reports

  -- The reports on the operator at the root.
  unfoldable pub report_root : Op → Reports → Result Reports
  report_root Op.logical_not r = report_op r.not' r (record r { not' = false })
  report_root Op.ne r = report_op r.ne r (record r { ne = false })
  report_root Op.gt r = report_op r.gt r (record r { gt = false })
  report_root Op.ge r = report_op r.ge r (record r { ge = false })
  report_root o r = ok r

  unfoldable pub refuse_expensive_ops : Bool → Data → Reports → Result Reports
  unfolding report_root
  refuse_expensive_ops warn_exp_post_opt (Data.op t o a b c) r = do
    r0 ← if warn_exp_post_opt then ok r else report_root o r
    r1 ← refuse_expensive_ops warn_exp_post_opt a r0
    r2 ← refuse_expensive_ops warn_exp_post_opt b r1
    refuse_expensive_ops warn_exp_post_opt c r2
  refuse_expensive_ops warn_exp_post_opt d r = ok r

  unfoldable pub iflib_cheap_ops : Bool → Bool → Bool → Data → Reports → Result Reports
  unfolding refuse_expensive_ops
  iflib_cheap_ops warn_expensive warn_exp_post_opt use_bit_tree d r =
      let check = refuse_expensive_ops warn_exp_post_opt d r in
      if not warn_expensive && not warn_exp_post_opt || use_bit_tree then ok r else check
