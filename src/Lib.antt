-- ===== src/Lib.antt =====
-- A model of tcng, the compiler tcc for Linux traffic control configurations and the simulator
-- tcsim, and theorems about it.
--
-- tcc reads a configuration, evaluates its expressions (tcc/op.c) on typed data (tcc/data.c)
-- with 128 bit integers for IPv6 addresses (shared/u128.c), and turns the `if` expressions of a
-- queuing discipline into one classifier expression (tcc/iflib_*.c), which tcc/ext/match.c can
-- run on packets. tcsim runs a configuration on a simulated clock with timers (tcsim/timer.c,
-- tcsim/jiffies.c).
--
-- Files and sources:
--   U128      shared/u128.c, shared/u128.h: one function per function of the file, under its name.
--             The four words are the fields v0 to v3 of a record; `add_step`, `sub_step` and
--             `minus_step` are the bodies of the loops over the words, `left_loop` and
--             `right_loop` the loops of the shifts, counted by the words that are left.
--   Jiffies   tcsim/jiffies.c: jiffval_cmp, normalize_jiffval and jv_add on 64 bit numbers.
--   Timer     tcsim/timer.c: the static variables as the record `Clock`, the list of timers as a
--             list, and the functions from clock to clock. A timer's address is its `id`. The
--             function of a timer, with `kernel_poll`, is the parameter `fire`.
--   Data      tcc/data.h, tcc/data.c: a constructor of `Data` for each type of constant, and `op`
--             for an operator (tcc/op.h) with its type and operands. Pointers to parts of the
--             configuration are numbers, strings their bytes. Data/Make, Data/Names and
--             Data/Clone hold the constructors, the names of types, and data_clone.
--   Op        tcc/op.c: the `eval` function of each descriptor, the helpers in Op/Base, integers,
--             masks and shifts in Op/Integer, `+ - * /` in Op/Arith, comparisons, `&&` and `||` in
--             Op/Logic, and op_unary, op_binary and op_ternary in Op/Eval. Floating point is the
--             parameter `Doubles`.
--   Iflib     Iflib/Classify and Iflib/Actions: tcc/iflib_act.c, except for push_action, bubble_or
--             and their helpers; Iflib/Reduce: prune_shortcuts and linearize of tcc/iflib_red.c;
--             Iflib/Cheap: tcc/iflib_cheap.c; Iflib/Combine: tcc/iflib_comb.c; Iflib/Not:
--             tcc/iflib_not.c, with lemmas in the modules below it; Iflib/Arith:
--             tcc/iflib_arith.c, in Powers (log_2, rel_to_eq), Constants (products, remainders,
--             moved constants) and Bits (comparisons as tests of bits or prefixes, of rel_general
--             and ne_to_eq the step on one node; mul_div_mod, rel_access and rel_eq_or are left
--             out). Iflib/Meaning says what an expression decides for a packet by short-cut
--             evaluation, over parameters for the fields of a packet, the outcome of tests, and
--             the effect of `count`. Iflib/Subexpressions and Iflib/Bundle: common_subexpressions
--             and bundle of tcc/iflib_red.c, with the matrix of bundle as a list of rows.
--             Iflib/ActionDb: make_action, add_actions and repeated_actions of tcc/iflib_actdb.c,
--             where the path of tests above a node stands for the pointers to the parents;
--             Iflib/ActionDb/Unique: hash_find, unique_action, to_unique, register_actions,
--             get_action and free_actions, on a memory of actions with addresses.
--   Match     tcc/ext/match.c, the packet matcher that runs tcc's external interface: Match/Fields
--             for extract_bits, offset and match_1, Match/Buckets for buckets and actions,
--             Match/Rules for the loop over the rules, and Match/Parsed for find_bucket and
--             parse_bucket of tcc/ext/tccext.c. A bucket's address is its number in the order of
--             parsing, an `int` its 32 bit word; offsets and lengths of fields are numbers. The
--             clock, `double` and the numbers of the protocol's meta field are parameters.
--   Registry  tcc/registry.c and set_warn_switch of tcc/error.c. The flags are cells of a memory.
--   Param     tcc/param.c, except for param_print. What tcc/mkprminc writes is an assignment for
--             each parameter; an address of a descriptor is its `key`.
--   Common    the names of the libraries, Boolean tests, the results of functions that may end in
--             an error, and lemmas on bit operations.
-- The files named Examples hold concrete runs.
--
-- Errors: `Result` tells a value from an error message, which ends the program, and from a fault
-- (`abort`, a division by zero) or an operation that C leaves undefined. Destructors and the
-- messages' texts are left out.
--
-- Bounds and fuel: words are below 2 ^ 32 and `unsigned long` below 2 ^ 64, with the wrap
-- written out. The carries of Jiffies have fuel for the millionths they start with, of which
-- each round takes a million. advance_time takes fuel for the timers that fire; linearize takes
-- fuel for the number of operators, since each call goes to the operands of an expression of the
-- same size. A walk along the overflow chain of a bucket has the number of the bucket for fuel,
-- since a bucket overflows only to one parsed before it. add_actions has fuel for the operators
-- of an expression, and common_subexpressions for its size; bundle has fuel for its rounds, of
-- which no bound is given. strip_zeros has fuel for the 128 digits of a mask, and log_2_loop for
-- the 32 of a word. Meanings are stated for the expressions of `condition` in Iflib/Meaning: tests over
-- operands that neither decide nor count nor negate, decisions and `count`, under `&&`, `||` and
-- `!`. For iflib_not, `placed` in Iflib/Not/Placed asks that a negation stands where the
-- continuation and the alternative both decide and that no condition is a constant, and
-- `ne_constant` what single_bit_test asserts.
--
-- Not modelled: the grammar and the scanner, the other passes of iflib (bubble_or, push_action,
-- mul_div_mod, rel_access, rel_eq_or, the numbering of the action database, and the bit trees), the code for queuing disciplines, filters and
-- policers, output for external programs, the reading of the matcher's rules, and the kernel
-- glue, tracing and user interface of tcsim. They are parsers, generators, output and glue, or
-- passes that build on tables shared with those.
pub mod Common
pub mod U128
pub mod Jiffies
pub mod Timer
pub mod Data
pub mod Op
pub mod Iflib
pub mod Match
pub mod Registry
pub mod Param
