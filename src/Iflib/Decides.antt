-- ===== src/Iflib/Decides.antt =====
-- refuse_static_after_policing of tcc/iflib_cheap.c, against Iflib/Meaning.
use tcng.Common.{ℕ, Bool, true, false, ◌&&◌, ok, >>=-eq-ok, ◌≡◌, refl, arith, if◌then◌else◌}
use tcng.Data.{Data, Op}
use tcng.Iflib.Meaning.{stop, truth, Run, seq_and, seq_or, seq_not, run}
use tcng.Iflib.Trim.{is_stop}
use tcng.Iflib.Cheap.{refuse_static_after_policing, report_once}

-- `x`, and then `next` where it holds and `otherwise` where it does not.
abbrev pub between : {S : Type 0} → Run S → Run S → Run S → Run S
between x next otherwise s = elim (x s) [
  | stop r c s' ↦ stop r c s'
  | truth v s' ↦ elim v [ true ↦ next s' | false ↦ otherwise s' ]
]

-- With a true `flag`, `x` always decides.
abbrev pub Decides : {S : Type 0} → Bool → Run S → Type 0
Decides {S = S} flag x = flag ≡ true → (s : S) → is_stop (x s) ≡ true

pub between-and :
    {S : Type 0} (x y next otherwise : Run S) (s : S)
    → between (seq_and x y) next otherwise s ≡ between x (between y next otherwise) otherwise s
between-and x y next otherwise s = ground arith

pub between-or :
    {S : Type 0} (x y next otherwise : Run S) (s : S)
    → between (seq_or x y) next otherwise s ≡ between x next (between y next otherwise) s
between-or x y next otherwise s = ground arith

pub between-not :
    {S : Type 0} (x next otherwise : Run S) (s : S)
    → between (seq_not x) next otherwise s ≡ between x otherwise next s
between-not x next otherwise s = ground arith

module _ {S : Type 0} (field : Data → S → ℕ) (test : Data → S → Bool) (charge : Data → S → S)
    (warn_exp_error : Bool) where
  conform_step :
      (v : Bool) (next otherwise : Run S) (s : S)
      → is_stop (next s) ≡ true
      → is_stop (otherwise s) ≡ true
      → is_stop (between (λ s'. truth v s') next otherwise s) ≡ true
  conform_step true next otherwise s hn hz = hn
  conform_step false next otherwise s hn hz = hz

  conform_flags :
      (n z q flag report : Bool)
      → (if n && z then ok (true, q) else report_once warn_exp_error q) ≡ ok (flag, report)
      → flag ≡ true
      → (n ≡ true) × (z ≡ true)
  conform_flags n z q flag report e f = ground arith

  count_flag :
      (n q flag report : Bool)
      → (if n then ok (true, q) else report_once warn_exp_error q) ≡ ok (flag, report)
      → flag ≡ true
      → n ≡ true
  count_flag n q flag report e f = ground arith

  -- If refuse_static_after_policing returns the value `flag`, and `next` and `otherwise` always
  -- decide where their flags are set, then with `flag` set the expression, followed by `next`
  -- where it holds and by `otherwise` where it does not, always decides.
  pub refuse_static_after_policing-Decides :
      (d : Data) (next_ok otherwise_ok do_report : Bool) (flag report : Bool)
      (next otherwise : Run S)
      → refuse_static_after_policing warn_exp_error d next_ok otherwise_ok do_report
        ≡ ok (flag, report)
      → Decides next_ok next
      → Decides otherwise_ok otherwise
      → Decides flag (between (run field test charge d) next otherwise)
  unfolding refuse_static_after_policing run
  refuse_static_after_policing-Decides (Data.decision r k) n z q flag report next otherwise e hn hz
        f s =
      refl
  refuse_static_after_policing-Decides (Data.op t Op.logical_and a b c) n z q flag report next
        otherwise e hn hz f s =
      let (r, eb, ea) =
        >>=-eq-ok (refuse_static_after_policing warn_exp_error b n z q)
          (λ r. refuse_static_after_policing warn_exp_error a r.0 z r.1) e in
      let inner = refuse_static_after_policing-Decides b n z q r.0 r.1 next otherwise eb hn hz in
      rw (between-and (run field test charge a) (run field test charge b) next otherwise s) (
        refuse_static_after_policing-Decides a r.0 z r.1 flag report
          (between (run field test charge b) next otherwise) otherwise ea inner hz f s)
  refuse_static_after_policing-Decides (Data.op t Op.logical_or a b c) n z q flag report next
        otherwise e hn hz f s =
      let (r, eb, ea) =
        >>=-eq-ok (refuse_static_after_policing warn_exp_error b n z q)
          (λ r. refuse_static_after_policing warn_exp_error a n r.0 r.1) e in
      let inner = refuse_static_after_policing-Decides b n z q r.0 r.1 next otherwise eb hn hz in
      rw (between-or (run field test charge a) (run field test charge b) next otherwise s) (
        refuse_static_after_policing-Decides a n r.0 r.1 flag report next
          (between (run field test charge b) next otherwise) ea hn inner f s)
  refuse_static_after_policing-Decides (Data.op t Op.logical_not a b c) n z q flag report next
        otherwise e hn hz f s =
      rw (between-not (run field test charge a) next otherwise s)
        (refuse_static_after_policing-Decides a z n q flag report otherwise next e hz hn f s)
  refuse_static_after_policing-Decides (Data.op t Op.conform a b c) n z q flag report next otherwise
        e hn hz f s =
      let flags = conform_flags n z q flag report e f in
      conform_step (test (Data.op t Op.conform a b c) s) next otherwise s (hn flags.0 s)
        (hz flags.1 s)
  refuse_static_after_policing-Decides (Data.op t Op.count a b c) n z q flag report next otherwise e
        hn hz f s =
      hn (count_flag n q flag report e f) (charge a s)
  refuse_static_after_policing-Decides (Data.op t o a b c) n z q flag report next otherwise e hn hz
        f s =
      cc
  refuse_static_after_policing-Decides d n z q flag report next otherwise e hn hz f s = cc
