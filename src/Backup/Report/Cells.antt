-- ===== src/Backup/Report/Cells.antt =====
-- Which rows of the report are green.
use bastion_hub.Prelude.{
  ℕ, suc, ◌+◌, ◌≤◌, ◌≡◌, refl, ap, ◌∙◌, arith, Bool, true, false, ◌&&◌, ◌||◌, not, List, [], ◌∷◌,
  ◌++◌, Text, text_eq, text_eq_sound, insert, length, all, filter, lookup, lookup-insert, codes,
  ◌==◌, none, some, if◌then◌else◌, Bool-cases, inl, inr, length-filter-le, zero,
}
use bastion_hub.Backup.Targets.{UnitResult}
use bastion_hub.Backup.Report.{
  TargetInfo, NodeAgg, unit_target_applies, target_ok_at, count_cells, close_cells, add_cells,
  agg_of, aggregate, node_status, row_of,
}

-- The columns that a unit has a cell in.
abbrev pub cells : UnitResult → List TargetInfo → List TargetInfo
cells u cols = filter (λ t. not (text_eq t.id [] || not (unit_target_applies u t.id))) cols

abbrev pub cell_good : UnitResult → TargetInfo → Bool
cell_good u t = u.tar_ok && target_ok_at u t.id

-- A unit all of whose cells are a success, or whose archive is, where it has no cells.
abbrev pub unit_good : List TargetInfo → UnitResult → Bool
unit_good cols u = u.tar_ok && all (cell_good u) (cells u cols)

abbrev pub at_least_one : ℕ → ℕ
at_least_one n = if n == 0 then 1 else n

abbrev pub total_of : List TargetInfo → UnitResult → ℕ
total_of cols u = at_least_one (length (cells u cols))

abbrev pub ok_of : List TargetInfo → UnitResult → ℕ
ok_of cols u =
    if length (cells u cols) == 0
    then (if u.tar_ok then 1 else 0)
    else length (filter (cell_good u) (cells u cols))

count_cells-length :
    (u : UnitResult) (cols : List TargetInfo) (a : NodeAgg) (n : ℕ)
    → ((count_cells u cols a n).0.cell_total ≡ a.cell_total + length (cells u cols))
      × ((count_cells u cols a n).0.cell_ok
          ≡ a.cell_ok + length (filter (cell_good u) (cells u cols)))
      × ((count_cells u cols a n).1 ≡ n + length (cells u cols))
unfolding count_cells
count_cells-length u [] a n = (omega arith, omega arith, omega arith)
count_cells-length u (t ∷ cols) a n =
    let ok = if u.tar_ok && target_ok_at u t.id then suc a.cell_ok else a.cell_ok in
    ground (
      arith,
      count_cells-length u cols (record a { cell_total = suc a.cell_total; cell_ok = ok }) (suc n),
      count_cells-length u cols a n,
    )

close_cells-counts :
    (tar_ok : Bool) (x : NodeAgg × ℕ)
    → ((close_cells tar_ok x).cell_total
        ≡ (if x.1 == 0 then suc x.0.cell_total else x.0.cell_total))
      × ((close_cells tar_ok x).cell_ok
          ≡ (if x.1 == 0 && tar_ok then suc x.0.cell_ok else x.0.cell_ok))
unfolding close_cells
close_cells-counts tar_ok (a, zero) = (refl, refl)
close_cells-counts tar_ok (a, suc n) = ground arith

add_cells-counts :
    (cols : List TargetInfo) (u : UnitResult) (a : NodeAgg)
    → ((add_cells cols u a).cell_total ≡ a.cell_total + total_of cols u)
      × ((add_cells cols u a).cell_ok ≡ a.cell_ok + ok_of cols u)
unfolding add_cells
add_cells-counts cols u a =
    let named = record a {
      count = suc a.count;
      name = (if text_eq u.node_name [] then a.name else u.node_name);
    } in
    let n = count_cells-length u cols named 0 in
    let c = close_cells-counts u.tar_ok (count_cells u cols named 0) in
    let le = length-filter-le (cell_good u) (cells u cols) in
    (ground (arith, n.0, n.2, c.0), ground (arith, n.1, n.2, c.1, le))

module _ {A : Type 0} (p : A → Bool) where
  filter-all : (xs : List A) → (length (filter p xs) == length xs) ≡ all p xs
  filter-all [] = refl
  filter-all (x ∷ xs) = ground (arith, filter-all xs, length-filter-le p xs)

failed_cells :
    (u : UnitResult) (cols : List TargetInfo)
    → u.tar_ok ≡ false
    → length (filter (cell_good u) cols) ≡ 0
failed_cells u [] h = refl
failed_cells u (t ∷ cols) h = ground (arith, failed_cells u cols h)

-- A unit's successes are as many as its cells exactly if it is good, and never more.
ok_of-total_of :
    (cols : List TargetInfo) (u : UnitResult)
    → (ok_of cols u ≤ total_of cols u) × ((ok_of cols u == total_of cols u) ≡ unit_good cols u)
ok_of-total_of cols u = by_cells (cells u cols)
  where
    by_cells :
        (ts : List TargetInfo)
        → ((if length ts == 0
              then (if u.tar_ok then 1 else 0)
              else length (filter (cell_good u) ts))
            ≤ at_least_one (length ts))
          × (((if length ts == 0
                  then (if u.tar_ok then 1 else 0)
                  else length (filter (cell_good u) ts))
                == at_least_one (length ts))
              ≡ (u.tar_ok && all (cell_good u) ts))
    by_cells [] = ground arith
    by_cells (t ∷ ts) = elim (Bool-cases u.tar_ok) [
      | inl h ↦ ground (arith, h, filter-all (cell_good u) ts, length-filter-le (cell_good u) ts)
      | inr h ↦ ground (arith, h, failed_cells u ts h)
    ]

abbrev pub units_of : Text → List UnitResult → List UnitResult
units_of id units = filter (λ u. text_eq u.node_id id) units

abbrev pub sum : (UnitResult → ℕ) → List UnitResult → ℕ
sum f [] = 0
sum f (u ∷ units) = f u + sum f units

aggregate-counts :
    (cols : List TargetInfo) (id : Text) (units : List UnitResult) (nodes : List (Text × NodeAgg))
    (order : List Text)
    → ((agg_of (lookup id (aggregate cols units nodes order).0)).cell_total
        ≡ (agg_of (lookup id nodes)).cell_total + sum (total_of cols) (units_of id units))
      × ((agg_of (lookup id (aggregate cols units nodes order).0)).cell_ok
          ≡ (agg_of (lookup id nodes)).cell_ok + sum (ok_of cols) (units_of id units))
unfolding aggregate
aggregate-counts cols id [] nodes order = (omega arith, omega arith)
aggregate-counts cols id (u ∷ units) nodes order =
    let a = add_cells cols u (agg_of (lookup u.node_id nodes)) in
    let known : Bool = elim (lookup u.node_id nodes) [ none ↦ false | some b ↦ true ] in
    let ih =
      aggregate-counts cols id units (insert u.node_id a nodes)
        (if known then order else order ++ u.node_id ∷ []) in
    let counts = add_cells-counts cols u (agg_of (lookup u.node_id nodes)) in
    elim (Bool-cases (text_eq u.node_id id)) [
      | inl h ↦
          let found =
            lookup-insert u.node_id id a nodes
            ∙ ap (λ b. if b then some a else lookup id nodes) h in
          let same = ap (λ k. agg_of (lookup k nodes)) (text_eq_sound u.node_id id h) in
          rw h (
            omega (
              arith,
              ih.0,
              ap (λ o. (agg_of o).cell_total) found,
              counts.0,
              ap (λ (b : NodeAgg). b.cell_total) same,
            ),
            omega (
              arith,
              ih.1,
              ap (λ o. (agg_of o).cell_ok) found,
              counts.1,
              ap (λ (b : NodeAgg). b.cell_ok) same,
            ),
          )
      | inr h ↦
          let found =
            lookup-insert u.node_id id a nodes
            ∙ ap (λ b. if b then some a else lookup id nodes) h in
          rw h (
            omega (arith, ih.0, ap (λ o. (agg_of o).cell_total) found),
            omega (arith, ih.1, ap (λ o. (agg_of o).cell_ok) found),
          )
    ]

equal_sums :
    (a b m n : ℕ)
    → a ≤ b
    → m ≤ n
    → (b + n == 0 || a + m == b + n) ≡ ((a == b) && (n == 0 || m == n))
equal_sums a b m n h k = ground arith

sums_good :
    (cols : List TargetInfo) (units : List UnitResult)
    → (sum (ok_of cols) units ≤ sum (total_of cols) units)
      × ((sum (total_of cols) units == 0 || sum (ok_of cols) units == sum (total_of cols) units)
          ≡ all (unit_good cols) units)
sums_good cols [] = ground arith
sums_good cols (u ∷ units) =
    let ih = sums_good cols units in
    let one = ok_of-total_of cols u in
    let both =
      equal_sums (ok_of cols u) (total_of cols u) (sum (ok_of cols) units)
        (sum (total_of cols) units) one.0 ih.0 in
    (omega (arith, one.0, ih.0), both ∙ (λ i. one.1 i && ih.1 i))

node_status-green :
    (ok total : ℕ) → text_eq (node_status ok total) (codes "🟢") ≡ (total == 0 || ok == total)
unfolding node_status text_eq
node_status-green ok total = ground arith

-- A node's status is green exactly if each of its units is good: the archive was made, and each column
-- of the report that the unit is for, if there is one, has it. The unit's targets that are no column of
-- the report play no part.
pub row_of-green :
    (cols : List TargetInfo) (units : List UnitResult) (id : Text)
    → text_eq (row_of (aggregate cols units [] []).0 id).status (codes "🟢")
      ≡ all (unit_good cols) (units_of id units)
unfolding row_of lookup
row_of-green cols units id =
    let counts = aggregate-counts cols id units [] [] in
    let nodes = (aggregate cols units [] []).0 in
    let total : (agg_of (lookup id nodes)).cell_total ≡ sum (total_of cols) (units_of id units) =
      omega (arith, counts.0) in
    let ok : (agg_of (lookup id nodes)).cell_ok ≡ sum (ok_of cols) (units_of id units) =
      omega (arith, counts.1) in
    node_status-green (agg_of (lookup id nodes)).cell_ok (agg_of (lookup id nodes)).cell_total
    ∙ rw (total, ok) (sums_good cols (units_of id units)).1
