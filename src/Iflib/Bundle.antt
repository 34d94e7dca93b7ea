-- ===== src/Iflib/Bundle.antt =====
-- tcc/iflib_red.c: bundle, which takes common operands at the front of && out of an || chain.
pub mod Rectangles
pub mod Examples
use tcng.Common.{
  ℕ, zero, suc, ◌+◌, ◌*◌, ltb, Bool, true, false, not, if◌then◌else◌, ◌==◌, ◌≡◌, refl,
}
use tcng.Common.{◌++◌, ◌&&◌, List, [], ◌∷◌, Option, none, some, Result, ok, err, Error, ◌>>=◌}
use tcng.Data.{Data, DataType, Op, Doubles, type_of, same_type, expr_equal}
use tcng.Data.Clone.{data_clone}
use tcng.Op.Base.{is_type}
use tcng.Op.Eval.{op_binary}

-- The operands of a chain of `&&`: the cells of a row.
unfoldable pub and_cells : Data → List Data
and_cells (Data.op t Op.logical_and a b c) = a ∷ and_cells b
and_cells d = d ∷ []

abbrev pub Matrix : Type 0
Matrix = List (List Data)

-- bundle_make_matrix
unfoldable pub bundle_make_matrix : Data → Matrix
unfolding and_cells
bundle_make_matrix (Data.op t Op.logical_or a b c) = and_cells a ∷ bundle_make_matrix b
bundle_make_matrix d = and_cells d ∷ []

-- `*best_or`, `*best_ors` and `*best_ands`
pub record Best : Type 0 where
  pub first : ℕ
  pub ors : ℕ
  pub ands : ℕ

unfoldable pub count : {A : Type 0} → List A → ℕ
count [] = 0
count (x ∷ xs) = suc (count xs)

-- The least number of cells in rows, `min_ands`.
unfoldable pub min_cells : List Data → Matrix → ℕ
unfolding count
min_cells row [] = count row
min_cells row (other ∷ others) =
    let rest = min_cells row others in if ltb (count other) rest then count other else rest

module _ (fp : Doubles) where
  -- The loop over `j`: the first cells of two rows.
  unfoldable pub same_cells : ℕ → List Data → List Data → Result Bool
  same_cells zero row other = ok true
  same_cells (suc n) (x ∷ row) (y ∷ other) =
      let rest = same_cells n row other in
      expr_equal fp x y >>= λ (same : Bool). elim same [ true ↦ rest | false ↦ ok false ]
  same_cells (suc n) row other = err Error.fault

  -- The loop over `i`: the rows behind the first one.
  unfoldable pub same_rows : ℕ → List Data → Matrix → Result Bool
  unfolding same_cells
  same_rows n row [] = ok true
  same_rows n row (other ∷ others) =
      let rest = same_rows n row others in
      same_cells n row other >>= λ (same : Bool). elim same [ true ↦ rest | false ↦ ok false ]

  -- The loop over `ands`, with the rounds that are left.
  unfoldable pub widen : ℕ → ℕ → ℕ → List Data → Matrix → Best → Result Best
  unfolding same_rows count
  widen zero ands first row others best = ok best
  widen (suc left) ands first row others best =
      let ors = suc (count others) in
      let better =
        if ltb (best.ors * best.ands) (ors * ands)
        then record { first = first; ors = ors; ands = ands }
        else best in
      let next = widen left (ands + 1) first row others better in
      same_rows ands row others >>= λ (same : Bool). elim same [ true ↦ next | false ↦ ok best ]

  -- The loop over `ors`: `others` are the rows behind the first one so far.
  unfoldable pub grow : ℕ → List Data → Matrix → Matrix → Best → Result Best
  unfolding widen min_cells count
  grow first row others [] best = ok best
  grow first row others (other ∷ rest) best =
      let taken = others ++ (other ∷ []) in
      let min_ands = min_cells row taken in
      let here =
        if ltb (suc (count taken) * min_ands) (best.ors * best.ands)
        then ok best
        else widen min_ands 1 first row taken best in
      here >>= λ (b : Best). grow first row taken rest b

  -- The loop over `first_or`.
  unfoldable pub find_from : ℕ → Matrix → Best → Result Best
  unfolding grow
  find_from first [] best = ok best
  find_from first (row ∷ rest) best =
      grow first row [] rest best >>= λ (b : Best). find_from (first + 1) rest b

  unfoldable pub bundle_find_best : Matrix → Result Best
  unfolding find_from
  bundle_find_best m = find_from 0 m (record { first = 0; ors = 0; ands = 0 })

-- From a position on, up to a number of entries or to the end.
unfoldable pub behind : {A : Type 0} → ℕ → List A → List A
behind zero xs = xs
behind (suc n) [] = []
behind (suc n) (x ∷ xs) = behind n xs

unfoldable pub front : {A : Type 0} → ℕ → List A → List A
front zero xs = []
front (suc n) [] = []
front (suc n) (x ∷ xs) = x ∷ front n xs

-- `n` is none for -1.
unfoldable pub part : {A : Type 0} → ℕ → Option ℕ → List A → List A
unfolding behind front
part from none xs = behind from xs
part from (some n) xs = front n (behind from xs)

unfoldable pub is_empty : {A : Type 0} → List A → Bool
is_empty [] = true
is_empty (x ∷ xs) = false

-- BUNDLE_THRESHOLD
abbrev pub bundle_threshold : ℕ
bundle_threshold = 2

module _ (fp : Doubles) where
  unfoldable pub join_ands : List Data → Data → Result Data
  unfolding data_clone op_binary type_of same_type is_empty
  join_ands [] add = ok add
  join_ands (x ∷ xs) add =
      let rest =
        join_ands xs add >>= λ (tmp : Data). op_binary fp Op.logical_and (data_clone x) tmp in
      if is_empty xs && is_type add DataType.none then ok (data_clone x) else rest

  unfoldable pub bundle_ands : List Data → ℕ → Option ℕ → Data → Result Data
  unfolding join_ands part
  bundle_ands row from ands add = join_ands (part from ands row) add

  unfoldable pub join_ors : ℕ → Option ℕ → Matrix → Data → Result Data
  unfolding bundle_ands is_empty
  join_ors from_ands ands [] add = ok add
  join_ors from_ands ands (row ∷ rows) add =
      let last = bundle_ands row from_ands ands Data.none in
      let rest = join_ors from_ands ands rows add >>= λ (tmp : Data).
      if is_type tmp DataType.none
      then ok tmp
      else last >>= λ (x : Data). op_binary fp Op.logical_or x tmp in
      if is_empty rows && is_type add DataType.none then last else rest

  unfoldable pub bundle_ors : Matrix → ℕ → Option ℕ → ℕ → Option ℕ → Data → Result Data
  unfolding join_ors part
  bundle_ors m from ors from_ands ands add = join_ors from_ands ands (part from ors m) add

  -- `m->rows+from`
  unfoldable pub row_at : Matrix → ℕ → List Data
  row_at [] n = []
  row_at (row ∷ rows) zero = row
  row_at (row ∷ rows) (suc n) = row_at rows n

  unfoldable pub bundle_rebuild : Matrix → Best → Result Data
  unfolding bundle_ors bundle_ands row_at count
  bundle_rebuild m b = bundle_ors m b.first (some b.ors) b.ands none Data.none >>= λ (inner : Data).
      bundle_ands (row_at m b.first) 0 (some b.ands) inner >>= λ (new : Data).
      (if b.first + b.ors == count m
        then ok new
        else bundle_ors m (b.first + b.ors) none 0 none Data.none >>= λ (behind : Data).
            op_binary fp Op.logical_or new behind)
      >>= λ (d : Data). if b.first == 0 then ok d else bundle_ors m 0 (some b.first) 0 none d

  abbrev over : DataType → Op → Result Data → Result Data → Result Data → Result Data
  over t o a b c =
      a >>= λ (a' : Data). b >>= λ (b' : Data). c >>= λ (c' : Data). ok (Data.op t o a' b' c')

  -- bundle, with fuel for its rounds.
  unfoldable pub bundle : ℕ → Data → Result Data
  unfolding bundle_make_matrix bundle_find_best bundle_rebuild
  bundle zero d = err Error.fault
  bundle (suc fuel) (Data.op t Op.logical_or a b c) =
      let m = bundle_make_matrix (Data.op t Op.logical_or a b c) in
      let operands = over t Op.logical_or (bundle fuel a) (bundle fuel b) (bundle fuel c) in
      bundle_find_best fp m >>= λ (best : Best).
      if ltb (best.ors * best.ands) bundle_threshold
      then operands
      else bundle_rebuild m best >>= bundle fuel
  bundle (suc fuel) (Data.op t o a b c) = over t o (bundle fuel a) (bundle fuel b) (bundle fuel c)
  bundle (suc fuel) d = ok d
