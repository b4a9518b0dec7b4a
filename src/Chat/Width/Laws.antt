-- ===== src/Chat/Width/Laws.antt =====
-- The bounds of the drawer's width (web/src/components/AIChatDrawer.tsx).
use ophanim.Base.{
  ℕ, ◌≤◌, ◌≡◌, Bool, false, not, ◌&&◌, Option, none, some, [], ◌∷◌, Text, if◌then◌else◌, ℤ, pos,
  ◌+ℤ◌, ◌-ℤ◌, ◌≤ℤ◌, ltb_ℤ, arith, +ℤ_parts, -ℤ_parts, Option-cases, inl, inr, Bool-cases,
}
use ophanim.Chat.Width.{Width, min_width, max_ℤ, min_ℤ, load_width, mouse_move, widen, narrow}

-- The drawer is wide enough, unless its width is no number.
abbrev pub IsWide : Width → Type 0
IsWide none = Unit
IsWide (some w) = min_width ≤ℤ w

max_ℤ-left : (a b : ℤ) → a ≤ℤ max_ℤ a b
unfolding max_ℤ
max_ℤ-left a b = ground arith

min_ℤ-both : (a b c : ℤ) → c ≤ℤ a → c ≤ℤ b → c ≤ℤ min_ℤ a b
unfolding min_ℤ
min_ℤ-both a b c h k = ground arith

-- What happens to the width in a window of at least 640 pixels.
pub data WidthStep (w : Width) : Width → Type 0 where
  moved :
      (dragging : Bool) (inner_width : ℕ) (client_x : ℤ)
      → WidthStep w (mouse_move dragging inner_width client_x w)
  widened : (inner_width : ℕ) → 640 ≤ inner_width → WidthStep w (widen inner_width w)
  narrowed : WidthStep w (narrow w)

pub data WidthReach (w : Width) : Width → Type 0 where
  from : WidthReach w w
  step : {v u : Width} → WidthReach w v → WidthStep v u → WidthReach w u

load_width-IsWide :
    (parse_int : Text → Width) (saved : Option Text) → IsWide (load_width parse_int saved)
unfolding load_width
load_width-IsWide parse_int none = omega arith
load_width-IsWide parse_int (some []) = omega arith
load_width-IsWide parse_int (some (c ∷ t)) = elim (Option-cases (parse_int (c ∷ t))) [
  | inl e ↦ rw (e, load_width) tt
  | inr (w, e) ↦ rw (e, load_width) (max_ℤ-left min_width w)
]

not-ltb : (a b : ℤ) → ltb_ℤ a b ≡ false → b ≤ℤ a
not-ltb a b h = ground arith

guarded :
    (d c : Bool) (n : ℤ) (w : Width)
    → IsWide w
    → IsWide (if d && (not (ltb_ℤ n min_width) && c) then some n else w)
guarded d c n w h = elim (Bool-cases (d && (not (ltb_ℤ n min_width) && c))) [
  | inl e ↦ rw e (not-ltb n min_width (ground arith))
  | inr e ↦ rw e h
]

mouse_move-IsWide :
    (dragging : Bool) (inner_width : ℕ) (client_x : ℤ) (w : Width)
    → IsWide w
    → IsWide (mouse_move dragging inner_width client_x w)
unfolding mouse_move
mouse_move-IsWide dragging inner_width client_x w h =
    guarded dragging _ (pos inner_width -ℤ client_x) w h

WidthStep-IsWide : {w v : Width} → WidthStep w v → IsWide w → IsWide v
WidthStep-IsWide {w = w} (moved dragging inner_width client_x) h =
    mouse_move-IsWide dragging inner_width client_x w h
WidthStep-IsWide {w = none} (widened inner_width wide) h = unfold widen in tt
WidthStep-IsWide {w = some w} (widened inner_width wide) h =
    unfold widen in
    min_ℤ-both (pos inner_width -ℤ pos 300) (w +ℤ pos 120) min_width
      (omega (arith, -ℤ_parts (pos inner_width) (pos 300))) (omega (arith, +ℤ_parts w (pos 120)))
WidthStep-IsWide {w = none} narrowed h = unfold narrow in tt
WidthStep-IsWide {w = some w} narrowed h = unfold narrow in max_ℤ-left min_width (w -ℤ pos 120)

-- From whatever width was stored, dragging the edge in any window and widening in windows of at
-- least 640 pixels and narrowing, in any order, never make the drawer narrower than its minimum.
pub WidthReach-IsWide :
    (parse_int : Text → Width) (saved : Option Text) {w : Width}
    → WidthReach (load_width parse_int saved) w
    → IsWide w
WidthReach-IsWide parse_int saved from = load_width-IsWide parse_int saved
WidthReach-IsWide parse_int saved (step r s) =
    WidthStep-IsWide s (WidthReach-IsWide parse_int saved r)
