-- ===== src/Dashboard/Presets/Steps.antt =====
-- What holds after any sequence of the preset handlers of web/src/pages/Dashboard.tsx.
use ophanim.Base.{
  Bool, if◌then◌else◌, ◌≡◌, refl, ◌∙◌, ◌≢◌, inl, inr, true, false, not, none, List, [], ◌∷◌, ◌++◌,
  map, Text, is_empty, trim, find, filter, any, all, text_eq_instance, arith, Bool-cases, contains,
  codes, distinct, Option-cases, find_holds, append-distinct, toggle-distinct, text_eq_refl,
  text_eq, all-snoc, all-filter_of_all, any_of_find, text_eq_iff, find-none,
}
use ophanim.Types.{DashboardPreset, WidgetKey, widget_eq, WidgetKey-discrete}
use ophanim.Dashboard.Presets.{
  PresetState, Parsed, initial, has_id, first_preset, active_preset, toggle_in, toggle_widget,
  initial_widgets, new_preset, create_preset, delete_preset, reset_to_defaults, select_preset,
  toggle_new_widget, default_presets,
}
use ophanim.Dashboard.Presets.Dialogs.{
  open_new_preset, open_customize, close_customize, close_new_preset, press_foot, set_new_name,
  set_new_icon, set_new_desc,
}
use ophanim.Dashboard.Presets.Creation.{IsUnusedId}
use ophanim.Dashboard.Presets.Laws.{distinct-toggle_in, map_id-toggle_in}

-- The handlers of the state as events, the inputs and the dialogs with them; `Date.now()` gives an
-- identifier that no preset has.
pub data Step (s : PresetState) : PresetState → Type 0 where
  toggled : (w : WidgetKey) → Step s (toggle_widget w s)
  created :
      (now : Text) → IsUnusedId (codes "custom_" ++ now) s.presets → Step s (create_preset now s)
  deleted : (i : Text) → Step s (delete_preset i s)
  reset : Step s (reset_to_defaults s)
  selected : (i : Text) → Step s (select_preset i s)
  checked : (w : WidgetKey) → Step s (toggle_new_widget w s)
  renamed : (t : Text) → Step s (set_new_name t s)
  drawn : (t : Text) → Step s (set_new_icon t s)
  described : (t : Text) → Step s (set_new_desc t s)
  customized : Step s (open_customize s)
  customize_closed : Step s (close_customize s)
  foot_pressed : Step s (press_foot s)
  new_opened : Step s (open_new_preset s)
  new_closed : Step s (close_new_preset s)

pub data Reach (s : PresetState) : PresetState → Type 0 where
  here : Reach s s
  next : {t u : PresetState} → Reach s t → Step t u → Reach s u

abbrev ids : List DashboardPreset → List Text
ids = map (λ p. p.id)

-- No two presets share an identifier, and no selection of widgets names one twice.
pub record IsValid (s : PresetState) : Type 0 where
  pub ids_distinct : distinct (ids s.presets) ≡ true
  pub widgets_distinct : all (λ p. distinct p.widgets) s.presets ≡ true
  pub form_distinct : distinct s.new_preset_widgets ≡ true

contains-ids : (i : Text) (ps : List DashboardPreset) → contains (ids ps) i ≡ any (has_id i) ps
unfolding contains has_id
contains-ids i [] = refl
contains-ids i (p ∷ ps) = ground (arith, contains-ids i ps)

all-toggle_in :
    (i : Text) (w : WidgetKey) (ps : List DashboardPreset)
    → all (λ p. distinct p.widgets) ps ≡ true
    → all (λ p. distinct p.widgets) (map (toggle_in i w) ps) ≡ true
all-toggle_in i w [] h = refl
all-toggle_in i w (p ∷ ps) h = ground (arith, distinct-toggle_in i w p, all-toggle_in i w ps)

map-snoc {ℓ κ} :
    {A : Type ℓ} {B : Type κ} (f : A → B) (xs : List A) (a : A)
    → map f (xs ++ a ∷ []) ≡ map f xs ++ f a ∷ []
map-snoc f [] a = refl
map-snoc f (x ∷ xs) a = rw (map-snoc f xs a)

contains-ids-filter :
    (i j : Text) (ps : List DashboardPreset)
    → contains (ids ps) j ≡ false
    → contains (ids (filter (λ p. not (has_id i p)) ps)) j ≡ false
unfolding contains
contains-ids-filter i j [] h = refl
contains-ids-filter i j (p ∷ ps) h = ground (arith, contains-ids-filter i j ps)

ids-filter-distinct :
    (i : Text) (ps : List DashboardPreset)
    → distinct (ids ps) ≡ true
    → distinct (ids (filter (λ p. not (has_id i p)) ps)) ≡ true
unfolding distinct
ids-filter-distinct i [] h = refl
ids-filter-distinct i (p ∷ ps) h =
    ground (arith, ids-filter-distinct i ps, contains-ids-filter i p.id ps)

new_preset-distinct :
    (now : Text) (s : PresetState)
    → distinct s.new_preset_widgets ≡ true
    → distinct (new_preset now s).widgets ≡ true
unfolding new_preset distinct contains WidgetKey-discrete
new_preset-distinct now s h = on_widgets s.new_preset_widgets h
  where
    on_widgets : (ws : List WidgetKey) → distinct ws ≡ true → distinct (initial_widgets ws) ≡ true
    on_widgets [] k = refl
    on_widgets (w ∷ ws) k = k

create_preset-IsValid :
    (now : Text) (s : PresetState)
    → IsUnusedId (codes "custom_" ++ now) s.presets
    → IsValid s
    → IsValid (create_preset now s)
create_preset-IsValid now s fresh v = elim (Bool-cases (is_empty (trim s.new_preset_name))) [
  | inl blank ↦ unfold create_preset in rw blank v
  | inr named ↦
      unfold create_preset in
      rw named record {
        ids_distinct = rw (map-snoc (λ p. p.id) s.presets (new_preset now s)) (
            append-distinct (ids s.presets) (codes "custom_" ++ now) v.ids_distinct
              (contains-ids _ s.presets ∙ fresh));
        widgets_distinct =
            rw (all-snoc (λ p. distinct p.widgets) s.presets (new_preset now s), v.widgets_distinct)
              (new_preset-distinct now s v.form_distinct);
        form_distinct = v.form_distinct;
      }
]

default_ids-distinct : distinct (ids default_presets) ≡ true
unfolding distinct contains text_eq
default_ids-distinct = refl

default_widgets-distinct : all (λ p. distinct p.widgets) default_presets ≡ true
unfolding distinct contains WidgetKey-discrete
default_widgets-distinct = refl

-- Validity reads three fields only.
same-IsValid :
    (s t : PresetState)
    → t.presets ≡ s.presets
    → t.new_preset_widgets ≡ s.new_preset_widgets
    → IsValid s
    → IsValid t
same-IsValid s t e f v = record {
  ids_distinct = rw e v.ids_distinct;
  widgets_distinct = rw e v.widgets_distinct;
  form_distinct = rw f v.form_distinct;
}

delete_preset-IsValid : (i : Text) (s : PresetState) → IsValid s → IsValid (delete_preset i s)
unfolding delete_preset
delete_preset-IsValid i s v = record {
  ids_distinct = ids-filter-distinct i s.presets v.ids_distinct;
  widgets_distinct = all-filter_of_all _ _ s.presets v.widgets_distinct;
  form_distinct = v.form_distinct;
}

reset-IsValid : (s : PresetState) → IsValid s → IsValid (reset_to_defaults s)
unfolding reset_to_defaults
reset-IsValid s v = record {
  ids_distinct = default_ids-distinct;
  widgets_distinct = default_widgets-distinct;
  form_distinct = v.form_distinct;
}

if-IsValid : (b : Bool) (s t : PresetState) → IsValid s → IsValid t → IsValid (if b then s else t)
if-IsValid true s t v w = v
if-IsValid false s t v w = w

Step-IsValid : {s t : PresetState} → Step s t → IsValid s → IsValid t
Step-IsValid {s} (toggled w) v =
    unfold toggle_widget in
    record {
      ids_distinct = rw map_id-toggle_in v.ids_distinct;
      widgets_distinct = all-toggle_in _ w s.presets v.widgets_distinct;
      form_distinct = v.form_distinct;
    }
Step-IsValid {s} (created now fresh) v = create_preset-IsValid now s fresh v
Step-IsValid {s} (deleted i) v = delete_preset-IsValid i s v
Step-IsValid {s} reset v = reset-IsValid s v
Step-IsValid {s} (checked w) v =
    unfold toggle_new_widget in
    record {
      ids_distinct = v.ids_distinct;
      widgets_distinct = v.widgets_distinct;
      form_distinct = toggle-distinct w s.new_preset_widgets v.form_distinct;
    }
Step-IsValid {s} foot_pressed v =
    unfold press_foot in
    if-IsValid _ _ _ (delete_preset-IsValid (active_preset s).id s v) (reset-IsValid s v)
Step-IsValid {s} (selected i) v = unfold select_preset in same-IsValid s _ refl refl v
Step-IsValid {s} (renamed t) v = unfold set_new_name in same-IsValid s _ refl refl v
Step-IsValid {s} (drawn t) v = unfold set_new_icon in same-IsValid s _ refl refl v
Step-IsValid {s} (described t) v = unfold set_new_desc in same-IsValid s _ refl refl v
Step-IsValid {s} customized v = unfold open_customize in same-IsValid s _ refl refl v
Step-IsValid {s} customize_closed v = unfold close_customize in same-IsValid s _ refl refl v
Step-IsValid {s} new_opened v = unfold open_new_preset in same-IsValid s _ refl refl v
Step-IsValid {s} new_closed v = unfold close_new_preset in same-IsValid s _ refl refl v

-- After any sequence of the handlers, with the inputs of the form and the buttons of the menu and
-- the dialogs, from a valid state, no two presets share an identifier and no preset and no form
-- names a widget twice, when every creation meets an unused identifier.
pub Reach-IsValid : {s t : PresetState} → IsValid s → Reach s t → IsValid t
Reach-IsValid v here = v
Reach-IsValid v (next r st) = Step-IsValid st (Reach-IsValid v r)

-- The state of a first visit, with nothing stored, is valid.
pub initial-IsValid : (parse : Text → Parsed) → IsValid (initial parse none none)
unfolding initial distinct contains WidgetKey-discrete
initial-IsValid parse = record {
  ids_distinct = default_ids-distinct;
  widgets_distinct = default_widgets-distinct;
  form_distinct = refl;
}

first_preset-listed :
    (ps : List DashboardPreset) → ps ≢ [] → any (has_id (first_preset ps).id) ps ≡ true
unfolding first_preset has_id
first_preset-listed [] ne = absurd (ne refl)
first_preset-listed (p ∷ ps) ne = rw text_eq_refl

-- While there are presets, the active preset is one of them: one with the selected identifier if
-- there is such a one, and the first one otherwise.
active_preset_lem :
    (s : PresetState)
    → s.presets ≢ []
    → (any (has_id (active_preset s).id) s.presets ≡ true)
      × ((active_preset s).id ≡ (
          if any (has_id s.active_preset_id) s.presets
          then s.active_preset_id
          else (first_preset s.presets).id))
active_preset_lem s ne = elim (Option-cases (find (has_id s.active_preset_id) s.presets)) [
  | inl missing ↦
      unfold active_preset in
      rw missing (
        first_preset-listed s.presets ne,
        rw (find-none (has_id s.active_preset_id) s.presets missing) refl,
      )
  | inr (q, found) ↦
      let same : q.id ≡ s.active_preset_id =
        unfold has_id in (text_eq_iff _ _).0 (find_holds _ s.presets q found) in
      let listed : any (has_id s.active_preset_id) s.presets ≡ true =
        any_of_find (has_id s.active_preset_id) s.presets q found in
      unfold active_preset in rw found (rw same listed, rw listed same)
]
