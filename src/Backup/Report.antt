-- ===== src/Backup/Report.antt =====
-- master/internal/backup/service.go: the rows of FormatBackupReport and its table. The texts here are
-- lists of runes.
pub mod Cells
pub mod Unlisted
pub mod Table
mod Tests
use bastion_hub.Prelude.{
  ℕ, zero, suc, ◌+◌, ◌-◌, Bool, true, false, ◌&&◌, ◌||◌, not, List, [], ◌∷◌, ◌++◌, map, Text,
  text_eq, codes, length, take, repeat, any, lookup, insert, decimal, ltb, leb, ◌==◌, Option, none,
  some, if◌then◌else◌,
}
use bastion_hub.Backup.Targets.{UnitResult}

pub record TargetInfo : Type 0 where
  pub id : Text
  pub type : Text
  pub name : Text

pub record NodeAgg : Type 0 where
  pub name : Text
  pub count : ℕ
  pub cell_ok : ℕ
  pub cell_total : ℕ

pub record NodeRow : Type 0 where
  pub name : Text
  pub status : Text

unfoldable pub unit_target_applies : UnitResult → Text → Bool
unit_target_applies u target_id =
    text_eq target_id []
    || length u.target_ids == 0
    || any (λ id. text_eq id target_id) u.target_ids

-- u.TargetOK[id]
unfoldable pub target_ok_at : UnitResult → Text → Bool
target_ok_at u id = elim (lookup id u.target_ok) [ none ↦ false | some ok ↦ ok ]

-- The loop over the columns, with the number of those that apply so far.
unfoldable pub count_cells : UnitResult → List TargetInfo → NodeAgg → ℕ → NodeAgg × ℕ
unfolding unit_target_applies target_ok_at
count_cells u [] a applicable = (a, applicable)
count_cells u (t ∷ cols) a applicable =
    let ok = if u.tar_ok && target_ok_at u t.id then suc a.cell_ok else a.cell_ok in
    let counted =
      count_cells u cols (record a { cell_total = suc a.cell_total; cell_ok = ok })
        (suc applicable) in
    let skipped = count_cells u cols a applicable in
    if text_eq t.id [] || not (unit_target_applies u t.id) then skipped else counted

-- The one cell of a unit to which no column applies.
unfoldable pub close_cells : Bool → NodeAgg × ℕ → NodeAgg
close_cells tar_ok (a, zero) = record a {
  cell_total = suc a.cell_total;
  cell_ok = (if tar_ok then suc a.cell_ok else a.cell_ok);
}
close_cells tar_ok (a, suc applicable) = a

-- A unit in its node's aggregate.
unfoldable pub add_cells : List TargetInfo → UnitResult → NodeAgg → NodeAgg
unfolding count_cells close_cells
add_cells cols u a =
    let named = record a {
      count = suc a.count;
      name = (if text_eq u.node_name [] then a.name else u.node_name);
    } in
    close_cells u.tar_ok (count_cells u cols named 0)

abbrev pub new_agg : NodeAgg
new_agg = record { name = []; count = 0; cell_ok = 0; cell_total = 0 }

abbrev pub agg_of : Option NodeAgg → NodeAgg
agg_of none = new_agg
agg_of (some a) = a

-- The loop over the units: the aggregates, and the nodes in the order of their first units.
unfoldable pub aggregate :
    List TargetInfo
    → List UnitResult
    → List (Text × NodeAgg)
    → List Text
    → List (Text × NodeAgg) × List Text
unfolding add_cells
aggregate cols [] nodes order = (nodes, order)
aggregate cols (u ∷ units) nodes order =
    let known : Bool = elim (lookup u.node_id nodes) [ none ↦ false | some a ↦ true ] in
    aggregate cols units
      (insert u.node_id (add_cells cols u (agg_of (lookup u.node_id nodes))) nodes)
      (if known then order else order ++ u.node_id ∷ [])

unfoldable pub short_id : Text → Text
short_id id = if ltb 8 (length id) then take 8 id else id

unfoldable pub node_status : ℕ → ℕ → Text
node_status ok total =
    if total == 0 || ok == total
    then codes "🟢"
    else if ok == 0
    then codes "🔴 0/" ++ decimal total
    else codes "🟡 " ++ decimal ok ++ codes "/" ++ decimal total

unfoldable pub row_of : List (Text × NodeAgg) → Text → NodeRow
unfolding short_id node_status
row_of nodes id =
    let a = agg_of (lookup id nodes) in
    let name = if text_eq a.name [] then short_id id else a.name in
    record {
      name = (if ltb 1 a.count then name ++ codes "（" ++ decimal a.count ++ codes "）" else name);
      status = node_status a.cell_ok a.cell_total;
    }

-- The rows of FormatBackupReport.
unfoldable pub report_rows : List UnitResult → List TargetInfo → List NodeRow
unfolding aggregate row_of
report_rows units targets =
    let cols =
      if length targets == 0
      then record { id = []; type = []; name = codes "备份" } ∷ []
      else targets in
    let (nodes, order) = aggregate cols units [] [] in map (row_of nodes) order

unfoldable pub to_fullwidth : Text → Text
to_fullwidth [] = []
to_fullwidth (r ∷ s) =
    (if r == 32 then 0x3000 else if leb 33 r && leb r 126 then r + 0xFEE0 else r) ∷ to_fullwidth s

unfoldable pub pad_right_fw : Text → ℕ → Text
unfolding to_fullwidth
pad_right_fw s w =
    if ltb (length s) w then to_fullwidth s ++ repeat (w - length s) 0x3000 else to_fullwidth s

unfoldable pub pad_left_fw : Text → ℕ → Text
unfolding to_fullwidth
pad_left_fw s w =
    if ltb (length s) w then repeat (w - length s) 0x3000 ++ to_fullwidth s else to_fullwidth s

-- The widest of the names, or of the statuses, from a width on.
unfoldable pub widest : (NodeRow → Text) → List NodeRow → ℕ → ℕ
widest cell [] w = w
widest cell (r ∷ rows) w = widest cell rows (if ltb w (length (cell r)) then length (cell r) else w)

unfoldable pub write_row : ℕ → ℕ → Text → Text → Text
unfolding pad_right_fw pad_left_fw
write_row left_w right_w left right = pad_right_fw left left_w ++ 0x3000 ∷ pad_left_fw right right_w

abbrev pub header : NodeRow
header = record { name = codes "备份节点"; status = codes "存储目标" }

-- The lines of formatNodeTable, the header first.
unfoldable pub node_lines : List NodeRow → List Text
unfolding widest write_row
node_lines rows =
    let left_w = widest (λ r. r.name) rows (length header.name) in
    let right_w = widest (λ r. r.status) rows (length header.status) in
    map (λ (r : NodeRow). write_row left_w right_w r.name r.status) (header ∷ rows)

unfoldable pub join_lines : List Text → Text
join_lines [] = []
join_lines (l ∷ []) = l
join_lines (l ∷ m ∷ ls) = l ++ 10 ∷ join_lines (m ∷ ls)

unfoldable pub format_node_table : List NodeRow → Text
unfolding node_lines join_lines
format_node_table rows = codes "<pre>" ++ join_lines (node_lines rows) ++ codes "</pre>"
