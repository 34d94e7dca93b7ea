-- ===== src/Param/Stack.antt =====
-- The parameter stack of tcc/param.c under nested definitions.
use tcng.Common.{ℕ, ◌+◌, ◌-◌, ◌≤◌, ◌<◌, max, ◌≡◌, refl, ap, ◌∙◌, arith, ◌==◌, if◌then◌else◌}
use tcng.Common.{Result, ok, ◌>>=◌, false}
use tcng.Param.{Store, Values, param_push, param_pop, max_param_depth}

-- What is done between a push and its pop: changes to the values, and more such blocks.
pub data Body : Type 0 where
  finish : Body
  change : (Store → Store) → Body → Body
  block : Body → Body → Body

unfoldable pub run_body : Body → Values → Result Values
unfolding param_push param_pop
run_body Body.finish s = ok s
run_body (Body.change f rest) s = run_body rest (record s { store = f s.store })
run_body (Body.block inner rest) s = param_push s >>= λ (s1 : Values).
    run_body inner s1 >>= λ (s2 : Values). param_pop s2 >>= λ (s3 : Values). run_body rest s3

-- How deep blocks are nested.
unfoldable pub depth : Body → ℕ
depth Body.finish = 0
depth (Body.change f rest) = depth rest
depth (Body.block inner rest) = max (1 + depth inner) (depth rest)

-- The changes outside of inner blocks.
unfoldable pub effect : Body → Store → Store
effect Body.finish s = s
effect (Body.change f rest) s = effect rest (f s)
effect (Body.block inner rest) s = effect rest s

abbrev pub Ran : Body → Values → Type 0
Ran b s =
    (s' : Values) × (run_body b s ≡ ok s')
    × (s'.store ≡ effect b s.store)
    × (s'.sp ≡ s.sp)
    × ((j : ℕ) → j < s.sp → s'.stack j ≡ s.stack j)

abbrev pushed : Values → Values
pushed s = record s { stack = λ j. if j == s.sp then s.store else s.stack j; sp = s.sp + 1 }

param_push_lem : (s : Values) → s.sp < max_param_depth → param_push s ≡ ok (pushed s)
unfolding param_push
param_push_lem s room = ground (arith, room)

param_pop_lem :
    (s : Values) (n : ℕ) → s.sp ≡ n + 1 → param_pop s ≡ ok (record s { sp = n; store = s.stack n })
unfolding param_pop
param_pop_lem s n e =
    let nonzero : (s.sp == 0) ≡ false = ground (arith, e) in
    let less : s.sp - 1 ≡ n = omega arith in rw (nonzero, param_pop, less) refl

below : (s : Values) (j : ℕ) → j < s.sp → (pushed s).stack j ≡ s.stack j
below s j lt = ground (arith, lt)

-- For changes to parameter values with nested blocks of param_push and param_pop, no deeper than
-- MAX_PARAM_DEPTH allows: no push or pop fails, the values at the end are those of the changes
-- outside of inner blocks, and the depth and the values saved below are as before.
pub run_body_lem : (b : Body) (s : Values) → s.sp + depth b ≤ max_param_depth → Ran b s
unfolding run_body effect depth
run_body_lem Body.finish s room = (s, refl, refl, refl, λ j lt. refl)
run_body_lem (Body.change f rest) s room = run_body_lem rest (record s { store = f s.store }) room
run_body_lem (Body.block inner rest) s room =
    let push = param_push_lem s (omega arith) in
    let (s2, runs, stored, back, kept) = run_body_lem inner (pushed s) (omega arith) in
    let saved : s2.stack s.sp ≡ s.store = kept s.sp (omega arith) ∙ ground arith in
    let pop = param_pop_lem s2 s.sp back in
    let s3 = record s2 { sp = s.sp; store = s2.stack s.sp } in
    let (s', later, stored', back', kept') = run_body_lem rest s3 (omega arith) in
    (
      s',
      rw (push, ◌>>=◌, runs, pop) later,
      stored' ∙ ap (effect rest) saved,
      back',
      λ j lt. kept' j lt ∙ kept j (omega arith) ∙ below s j lt,
    )
