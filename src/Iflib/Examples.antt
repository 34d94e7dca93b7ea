-- ===== src/Iflib/Examples.antt =====
-- The transformations on small expressions. A packet is a number, and `count` adds one to it.
use tcng.Common.{ℕ, suc, ◌≤◌, ◌≡◌, ◌≢◌, refl, arith, true, false, Bool, List, [], ◌∷◌, All, ok}
use tcng.Data.{Data, DataType, DecisionResult, Op}
use tcng.Data.Examples.{plain_doubles}
use tcng.Iflib.Meaning.{Run, run, condition, truth}
use tcng.Iflib.Classify.{self_contained, trim_self_contained}
use tcng.Iflib.Reduce.{prune_shortcuts, linearize}
use tcng.Iflib.Prune.{run-prune_shortcuts}
use tcng.Iflib.Linearize.{run-linearize}
use tcng.Iflib.Chains.{size, linear, linearize-linear}
use tcng.Iflib.Actions.{bubble_and, run-bubble_and}
use tcng.Iflib.Trim.{allows, self_contained_lem, run-trim_self_contained}
use tcng.Iflib.Cheap.{refuse_static_after_policing}
use tcng.Iflib.Decides.{between, Decides, refuse_static_after_policing-Decides}
use tcng.Iflib.Combine.{
  Element, Filter, Classes, iflib_comb_iterate, iflib_combine, if_iterate_filters,
  if_iterate_classes,
}
use tcng.Iflib.FirstMatch.{first_match, run-iflib_combine}

abbrev read_number : Data → ℕ → ℕ
read_number d s = s

abbrev holds : Data → ℕ → Bool
holds d s = true

abbrev count_one : Data → ℕ → ℕ
count_one d s = suc s

abbrev node : Op → Data → Data → Data
node o a b = Data.op DataType.unum o a b Data.none

abbrev port : Data
port = node Op.eq (Data.field 1) (Data.unum 80)

abbrev accept : Data
accept = Data.decision DecisionResult.class 7

-- `((port == 80 && count) && 1) && accept`
abbrev chain : Data
chain =
    node Op.logical_and
      (node Op.logical_and (node Op.logical_and port (node Op.count (Data.bucket 3) Data.none))
        (Data.unum 1))
      accept

-- `accept || port == 80`
abbrev settled : Data
settled = node Op.logical_or accept port

chain-condition : condition chain ≡ true
unfolding condition
chain-condition = refl

settled-condition : condition settled ≡ true
unfolding condition
settled-condition = refl

run-prune_shortcuts_example :
    run read_number holds count_one (prune_shortcuts chain) 80
    ≡ run read_number holds count_one chain 80
run-prune_shortcuts_example =
    run-prune_shortcuts read_number holds count_one chain 80 chain-condition

run-linearize_example :
    run read_number holds count_one (linearize 11 chain) 80
    ≡ run read_number holds count_one chain 80
run-linearize_example = run-linearize read_number holds count_one 11 chain 80 chain-condition

chain-size : size chain ≤ 11
unfolding size
chain-size = omega arith

linearize-linear_example : linear (linearize 11 chain) ≡ true
linearize-linear_example = linearize-linear 11 chain chain-condition chain-size

self_contained_lem_example :
    allows (self_contained settled) (run read_number holds count_one settled 80) ≡ true
self_contained_lem_example = self_contained_lem read_number holds count_one settled 80

run-trim_self_contained_example :
    run read_number holds count_one (trim_self_contained settled) 80
    ≡ run read_number holds count_one settled 80
run-trim_self_contained_example =
    run-trim_self_contained read_number holds count_one settled 80 settled-condition

-- `conform bucket && accept || accept`
abbrev policed : Data
policed =
    node Op.logical_or (node Op.logical_and (node Op.conform (Data.bucket 3) Data.none) accept)
      accept

policed-refuse : refuse_static_after_policing true policed false false true ≡ ok (true, true)
unfolding refuse_static_after_policing
policed-refuse = refl

abbrev no : Run ℕ
no s = truth false s

refuse_static_after_policing-Decides_example :
    Decides true (between (run read_number holds count_one policed) no no)
refuse_static_after_policing-Decides_example =
    refuse_static_after_policing-Decides read_number holds count_one true policed false false true
      true true no no policed-refuse (λ e. cc) (λ e. cc)

abbrev elements : List Element
elements = record { class = 1; if_expr = port } ∷ record { class = 2; if_expr = chain } ∷ []

abbrev filters : List Filter
filters = record { is_if = true; elements = elements } ∷ []

some_elements : iflib_comb_iterate filters Classes.end ≢ []
unfolding iflib_comb_iterate if_iterate_filters if_iterate_classes
some_elements e = cc

elements-condition : All (λ e. condition e.if_expr ≡ true) (iflib_comb_iterate filters Classes.end)
unfolding iflib_comb_iterate if_iterate_filters if_iterate_classes condition
elements-condition = (refl, (refl, tt))

run-iflib_combine_example :
    (d : Data) × (iflib_combine 9 plain_doubles filters Classes.end ≡ ok d)
    × ((s : ℕ)
        → run read_number holds count_one d s
          ≡ first_match 9 read_number holds count_one (iflib_comb_iterate filters Classes.end) s)
run-iflib_combine_example =
    run-iflib_combine 9 plain_doubles read_number holds count_one filters Classes.end some_elements
      elements-condition

abbrev conforms : Data
conforms = node Op.conform (Data.bucket 3) Data.none

conforms-condition : condition conforms ≡ true
unfolding condition
conforms-condition = refl

port-condition : condition port ≡ true
unfolding condition
port-condition = refl

conforms-bubble_and :
    bubble_and DataType.unum conforms port Data.none ≡ ok (node Op.logical_and port conforms)
unfolding bubble_and
conforms-bubble_and = refl

run-bubble_and_example :
    run read_number holds count_one (node Op.logical_and port conforms) 80
    ≡ run read_number holds count_one (node Op.logical_and conforms port) 80
run-bubble_and_example =
    run-bubble_and read_number holds count_one DataType.unum conforms port Data.none
      (node Op.logical_and port conforms) 80 conforms-condition port-condition conforms-bubble_and
