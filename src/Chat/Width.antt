-- ===== src/Chat/Width.antt =====
-- The width of the drawer (web/src/components/AIChatDrawer.tsx): `none` is NaN, which a stored text
-- without a number gives.
pub mod Laws
use ophanim.Base.{
  ℕ, Bool, true, false, not, ◌&&◌, Option, none, some, List, [], ◌∷◌, Text, if◌then◌else◌, ℤ, pos,
  negsuc, pos_part, neg_part, sub_ℕ, ◌+ℤ◌, ◌-ℤ◌, ltb_ℤ, leb,
}

abbrev pub Width : Type 0
Width = Option ℤ

abbrev pub default_width : ℤ
default_width = pos 480

abbrev pub min_width : ℤ
min_width = pos 340

-- `Math.max` and `Math.min` of two numbers.
unfoldable pub max_ℤ : ℤ → ℤ → ℤ
max_ℤ a b = if ltb_ℤ a b then b else a

unfoldable pub min_ℤ : ℤ → ℤ → ℤ
min_ℤ a b = if ltb_ℤ a b then a else b

-- The initialiser of `width`; `parse_int` is `parseInt(t, 10)`.
unfoldable pub load_width : (Text → Width) → Option Text → Width
unfolding max_ℤ
load_width parse_int none = some default_width
load_width parse_int (some []) = some default_width
load_width parse_int (some (c ∷ t)) = elim (parse_int (c ∷ t)) [
  | none ↦ none
  | some w ↦ some (max_ℤ min_width w)
]

-- `handleMouseMove`: the window's width, the pointer, and whether the edge is dragged.
unfoldable pub mouse_move : Bool → ℕ → ℤ → Width → Width
unfolding max_ℤ
mouse_move dragging inner_width client_x w =
    let new_width = pos inner_width -ℤ client_x in
    let max_width = max_ℤ min_width (pos inner_width -ℤ pos 300) in
    if dragging && (not (ltb_ℤ new_width min_width) && not (ltb_ℤ max_width new_width))
    then some new_width
    else w

-- The buttons that widen and narrow.
unfoldable pub widen : ℕ → Width → Width
unfolding min_ℤ
widen inner_width none = none
widen inner_width (some w) = some (min_ℤ (pos inner_width -ℤ pos 300) (w +ℤ pos 120))

unfoldable pub narrow : Width → Width
unfolding max_ℤ
narrow none = none
narrow (some w) = some (max_ℤ min_width (w -ℤ pos 120))
