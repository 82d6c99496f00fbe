-- ===== src/Backup/Report/Table.antt =====
-- The lines of the report's table are equally wide.
use bastion_hub.Prelude.{
  ℕ, suc, ◌+◌, ◌-◌, ◌≤◌, ◌≡◌, refl, ap, arith, List, [], ◌∷◌, map, Text, length, length-append,
  repeat, length-repeat, All, ltb, if◌then◌else◌,
}
use bastion_hub.Backup.Report.{
  NodeRow, header, to_fullwidth, pad_right_fw, pad_left_fw, widest, write_row, node_lines,
}

length-to_fullwidth : (s : Text) → length (to_fullwidth s) ≡ length s
unfolding to_fullwidth
length-to_fullwidth [] = refl
length-to_fullwidth (r ∷ s) = ap suc (length-to_fullwidth s)

length-pad_right_fw : (s : Text) (w : ℕ) → length s ≤ w → length (pad_right_fw s w) ≡ w
unfolding pad_right_fw
length-pad_right_fw s w h = ground (
  arith,
  length-to_fullwidth s,
  length-append (to_fullwidth s) (repeat (w - length s) 0x3000),
  length-repeat {A = ℕ} (w - length s) 0x3000,
)

length-pad_left_fw : (s : Text) (w : ℕ) → length s ≤ w → length (pad_left_fw s w) ≡ w
unfolding pad_left_fw
length-pad_left_fw s w h = ground (
  arith,
  length-to_fullwidth s,
  length-append (repeat (w - length s) 0x3000) (to_fullwidth s),
  length-repeat {A = ℕ} (w - length s) 0x3000,
)

widest_le : (cell : NodeRow → Text) (rows : List NodeRow) (w : ℕ) → w ≤ widest cell rows w
unfolding widest
widest_le cell [] w = omega arith
widest_le cell (r ∷ rows) w =
    ground (arith, widest_le cell rows (if ltb w (length (cell r)) then length (cell r) else w))

widest-All :
    (cell : NodeRow → Text) (rows : List NodeRow) (w : ℕ)
    → All (λ r. length (cell r) ≤ widest cell rows w) rows
unfolding widest
widest-All cell [] w = tt
widest-All cell (r ∷ rows) w = (
  ground (arith, widest_le cell rows (if ltb w (length (cell r)) then length (cell r) else w)),
  widest-All cell rows (if ltb w (length (cell r)) then length (cell r) else w),
)

length-write_row :
    (left_w right_w : ℕ) (left right : Text)
    → length left ≤ left_w
    → length right ≤ right_w
    → length (write_row left_w right_w left right) ≡ left_w + 1 + right_w
unfolding write_row
length-write_row left_w right_w left right hl hr = omega (
  arith,
  length-append (pad_right_fw left left_w) (0x3000 ∷ pad_left_fw right right_w),
  length-pad_right_fw left left_w hl,
  length-pad_left_fw right right_w hr,
)

rows_width :
    (left_w right_w : ℕ) (rows : List NodeRow)
    → All (λ (r : NodeRow). length r.name ≤ left_w) rows
    → All (λ (r : NodeRow). length r.status ≤ right_w) rows
    → All
        (λ l. length l ≡ left_w + 1 + right_w)
        (map (λ (r : NodeRow). write_row left_w right_w r.name r.status) rows)
rows_width left_w right_w [] hl hr = tt
rows_width left_w right_w (r ∷ rows) hl hr = (
  length-write_row left_w right_w r.name r.status hl.0 hr.0,
  rows_width left_w right_w rows hl.1 hr.1,
)

-- A header's line and a row's are as wide as the widest name, the gap and the widest status together.
node_lines_width :
    (rows : List NodeRow)
    → All
        (λ l.
          length l
          ≡ widest (λ r. r.name) rows (length header.name)
            + 1
            + widest (λ r. r.status) rows (length header.status))
        (node_lines rows)
unfolding node_lines
node_lines_width rows =
    rows_width _ _ (header ∷ rows)
      (
        widest_le (λ r. r.name) rows (length header.name),
        widest-All (λ r. r.name) rows (length header.name),
      )
      (
        widest_le (λ r. r.status) rows (length header.status),
        widest-All (λ r. r.status) rows (length header.status),
      )
