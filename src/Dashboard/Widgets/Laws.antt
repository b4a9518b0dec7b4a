-- ===== src/Dashboard/Widgets/Laws.antt =====
-- The widgets that are shown depend on which widgets a preset holds, not on their order: the
-- widgets as a quotient of lists (web/src/pages/Dashboard.tsx).
use mathlib.Core.Quot
use mathlib.Core.Quot.{Quot, Quot-set}
use ophanim.Base.{
  ◌≡◌, ◌≢◌, refl, sym, ap, map, ◌∙◌, Bool, ◌&&◌, List, [], ◌∷◌, arith, filter, contains, toggle,
  contains-toggle,
}
use ophanim.Types.{WidgetKey, widget_eq}
use ophanim.Dashboard.Presets.{PresetState, active_preset, toggle_widget}
use ophanim.Dashboard.Presets.Laws.{active-toggle_widget, widgets-toggle_in_self}
use ophanim.Dashboard.Widgets.{shown_widgets, is_ready, widget_order}

-- Two presets hold the same widgets, in whatever order.
abbrev SameWidgets : List WidgetKey → List WidgetKey → Type 0
SameWidgets ws vs = (k : WidgetKey) → contains ws k ≡ contains vs k

abbrev pub WidgetSet : Type 0
WidgetSet = Quot SameWidgets

filter_cong :
    {A : Type 0} (p q : A → Bool) (xs : List A) → ((x : A) → p x ≡ q x) → filter p xs ≡ filter q xs
filter_cong p q [] h = refl
filter_cong p q (x ∷ xs) h = ground (arith, h x, filter_cong p q xs h)

shown_widgets-SameWidgets :
    (b : Bool) (ws vs : List WidgetKey)
    → SameWidgets ws vs
    → shown_widgets b ws ≡ shown_widgets b vs
unfolding shown_widgets
shown_widgets-SameWidgets b ws vs h =
    filter_cong (λ k. contains ws k && is_ready b k) (λ k. contains vs k && is_ready b k)
      widget_order (λ k. rw (h k) refl)

toggle-SameWidgets :
    (k : WidgetKey) (ws vs : List WidgetKey)
    → SameWidgets ws vs
    → SameWidgets (toggle k ws) (toggle k vs)
toggle-SameWidgets k ws vs h j = rw (contains-toggle k j ws, contains-toggle k j vs, h j) refl

toggle_twice : (k : WidgetKey) (ws : List WidgetKey) → SameWidgets (toggle k (toggle k ws)) ws
toggle_twice k ws j = ground (arith, contains-toggle k j (toggle k ws), contains-toggle k j ws)

widgets-set : IsSet (List WidgetKey)
widgets-set = hlevel

-- The widgets that are shown for a set of widgets, and the switch of one widget in a set.
pub page : Bool → WidgetSet → List WidgetKey
page b = Quot.lift widgets-set (shown_widgets b) (shown_widgets-SameWidgets b)

toggle_set : WidgetKey → WidgetSet → WidgetSet
toggle_set k =
    Quot.lift Quot-set (λ ws. Quot.mk (toggle k ws))
      (λ ws vs h. Quot.sound (toggle-SameWidgets k ws vs h))

toggle_set_twice : (k : WidgetKey) (w : WidgetSet) → toggle_set k (toggle_set k w) ≡ w
unfolding toggle_set
toggle_set_twice k = Quot.ind (λ w. Quot-set _ _) (λ ws. Quot.sound (toggle_twice k ws))

-- The set of the active preset's widgets.
widget_set : PresetState → WidgetSet
widget_set s = Quot.mk (active_preset s).widgets

widget_set-toggle_widget :
    (k : WidgetKey) (s : PresetState)
    → s.presets ≢ []
    → widget_set (toggle_widget k s) ≡ toggle_set k (widget_set s)
unfolding widget_set toggle_set
widget_set-toggle_widget k s ne =
    rw (active-toggle_widget k s ne, widgets-toggle_in_self k (active_preset s)) refl

page-widget_set :
    (b : Bool) (s : PresetState) → page b (widget_set s) ≡ shown_widgets b (active_preset s).widgets
unfolding page widget_set
page-widget_set b s = refl

map-ne-nil : {A B : Type 0} (f : A → B) (xs : List A) → xs ≢ [] → map f xs ≢ []
map-ne-nil f [] ne e = ne refl
map-ne-nil f (x ∷ xs) ne e = cc

presets-toggle_widget :
    (k : WidgetKey) (s : PresetState) → s.presets ≢ [] → (toggle_widget k s).presets ≢ []
unfolding toggle_widget
presets-toggle_widget k s ne = map-ne-nil _ s.presets ne

-- The order in which a preset holds its widgets does not matter for which are shown: they are a
-- set, toggling a widget of the active preset is the switch of that widget in the set, the widgets
-- that are shown are read off the set, and two toggles of the same widget, which may change the
-- order in the preset, leave the set and what is shown as they were. There has to be a preset. The
-- number in the header counts a repeated widget twice and is not read off the set.
toggle_widget-toggle_set :
    (b : Bool) (k : WidgetKey) (s : PresetState)
    → s.presets ≢ []
    → (widget_set (toggle_widget k s) ≡ toggle_set k (widget_set s))
      × (shown_widgets b (active_preset s).widgets ≡ page b (widget_set s))
      × (widget_set (toggle_widget k (toggle_widget k s)) ≡ widget_set s)
      × (shown_widgets b (active_preset (toggle_widget k (toggle_widget k s))).widgets
          ≡ shown_widgets b (active_preset s).widgets)
toggle_widget-toggle_set b k s ne =
    let once = toggle_widget k s in
    let twice : widget_set (toggle_widget k once) ≡ widget_set s =
      widget_set-toggle_widget k once (presets-toggle_widget k s ne)
      ∙ (ap (toggle_set k) (widget_set-toggle_widget k s ne) ∙ toggle_set_twice k (widget_set s)) in
    (
      widget_set-toggle_widget k s ne,
      sym (page-widget_set b s),
      twice,
      sym (page-widget_set b (toggle_widget k once)) ∙ (ap (page b) twice ∙ page-widget_set b s),
    )
