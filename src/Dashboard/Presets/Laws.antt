-- ===== src/Dashboard/Presets/Laws.antt =====
-- What the preset handlers of web/src/pages/Dashboard.tsx do to the active preset and to the rest.
use mathlib.Core.Option
use ophanim.Base.{
  ◌≡◌, refl, ◌≢◌, ◌⊎◌, text_eq, inl, inr, true, false, not, Option, none, some, List, [], ◌∷◌, map,
  Text, find, filter, ◌===◌, text_eq_instance, text_eq_refl, arith, Bool-cases, if◌then◌else◌,
  contains, contains-toggle, toggle, or_default, distinct, toggle-distinct,
}
use ophanim.Types.{DashboardPreset, WidgetKey, widget_eq}
use ophanim.Dashboard.Presets.{
  PresetState, Parsed, array, load_presets, initial, saved_items, Storage, set_item, load_page,
  has_id, first_preset, active_preset, toggle_in, toggle_widget, default_presets, load_active_id,
}

id-toggle_in : (i : Text) (w : WidgetKey) (p : DashboardPreset) → (toggle_in i w p).id ≡ p.id
unfolding toggle_in
id-toggle_in i w p = ground arith

has_id-toggle_in :
    (j i : Text) (w : WidgetKey) (p : DashboardPreset) → has_id j (toggle_in i w p) ≡ has_id j p
unfolding has_id
has_id-toggle_in j i w p = rw id-toggle_in

find-toggle_in :
    (j i : Text) (w : WidgetKey) (ps : List DashboardPreset)
    → find (has_id j) (map (toggle_in i w) ps) ≡ Option.map (toggle_in i w) (find (has_id j) ps)
find-toggle_in j i w [] = refl
find-toggle_in j i w (p ∷ ps) = elim (Bool-cases (has_id j p)) [
  | inl e ↦ rw (has_id-toggle_in j i w p, e)
  | inr e ↦ rw (has_id-toggle_in j i w p, e) (find-toggle_in j i w ps)
]

or_default-map {ℓ} :
    {A : Type ℓ} (f : A → A) (o : Option A) (d : A)
    → or_default (Option.map f o) (f d) ≡ f (or_default o d)
or_default-map f none d = refl
or_default-map f (some a) d = refl

first_preset-map :
    (f : DashboardPreset → DashboardPreset) (ps : List DashboardPreset)
    → ps ≢ []
    → first_preset (map f ps) ≡ f (first_preset ps)
unfolding first_preset
first_preset-map f [] ne = absurd (ne refl)
first_preset-map f (p ∷ ps) ne = refl

pub distinct-toggle_in :
    (i : Text) (w : WidgetKey) (p : DashboardPreset)
    → distinct p.widgets ≡ true
    → distinct (toggle_in i w p).widgets ≡ true
unfolding toggle_in
distinct-toggle_in i w p h = ground (arith, toggle-distinct w p.widgets h)

pub map_id-toggle_in :
    (i : Text) (w : WidgetKey) (ps : List DashboardPreset)
    → map (λ p. p.id) (map (toggle_in i w) ps) ≡ map (λ p. p.id) ps
map_id-toggle_in i w [] = refl
map_id-toggle_in i w (p ∷ ps) = cc (id-toggle_in i w p, map_id-toggle_in i w ps)

toggle_in_other :
    (i : Text) (w : WidgetKey) (p : DashboardPreset) → has_id i p ≡ false → toggle_in i w p ≡ p
unfolding toggle_in
toggle_in_other i w p h = rw h

-- The active preset after a toggle is the active preset before it, toggled.
pub active-toggle_widget :
    (w : WidgetKey) (s : PresetState)
    → s.presets ≢ []
    → active_preset (toggle_widget w s) ≡ toggle_in (active_preset s).id w (active_preset s)
unfolding active_preset toggle_widget
active-toggle_widget w s ne =
    rw (find-toggle_in s.active_preset_id _ w s.presets, first_preset-map _ _ ne)
      (or_default-map _ (find (has_id s.active_preset_id) s.presets) (first_preset s.presets))

pub widgets-toggle_in_self :
    (w : WidgetKey) (p : DashboardPreset) → (toggle_in p.id w p).widgets ≡ toggle w p.widgets
unfolding toggle_in
widgets-toggle_in_self w p = rw text_eq_refl

others-toggle_in :
    (i : Text) (w : WidgetKey) (ps : List DashboardPreset)
    → filter (λ p. not (has_id i p)) (map (toggle_in i w) ps) ≡ filter (λ p. not (has_id i p)) ps
others-toggle_in i w [] = refl
others-toggle_in i w (p ∷ ps) = elim (Bool-cases (has_id i p)) [
  | inl e ↦ rw (has_id-toggle_in i i w p, e) (others-toggle_in i w ps)
  | inr e ↦ rw (toggle_in_other i w p e, e, others-toggle_in i w ps)
]

-- Toggling a widget, while there are presets, flips that widget in the active preset and no other
-- widget there; the active preset keeps its identifier, and the presets with other identifiers
-- stay as they are, in their order.
pub toggle_widget_lem :
    (w v : WidgetKey) (s : PresetState)
    → s.presets ≢ []
    → ((active_preset (toggle_widget w s)).id ≡ (active_preset s).id)
      × (contains (active_preset (toggle_widget w s)).widgets v ≡ (
          if w === v
          then not (contains (active_preset s).widgets v)
          else contains (active_preset s).widgets v))
      × (filter (λ p. not (has_id (active_preset s).id p)) (toggle_widget w s).presets
          ≡ filter (λ p. not (has_id (active_preset s).id p)) s.presets)
toggle_widget_lem w v s ne = rw (active-toggle_widget w s ne) (
  id-toggle_in _ w (active_preset s),
  rw (widgets-toggle_in_self w (active_preset s)) (contains-toggle w v (active_preset s).widgets),
  unfold toggle_widget in others-toggle_in (active_preset s).id w s.presets,
)

load_presets_lem :
    (parse : Text → Parsed) (t : Text) (ps : List DashboardPreset)
    → parse t ≡ array ps
    → t ≢ []
    → ((ps ≡ []) × (load_presets parse (some t) ≡ default_presets))
      ⊎ ((ps ≢ []) × (load_presets parse (some t) ≡ ps))
unfolding load_presets
load_presets_lem parse [] ps h ne = absurd (ne refl)
load_presets_lem parse (c ∷ t) [] h ne = inl (refl, rw (h, load_presets))
load_presets_lem parse (c ∷ t) (p ∷ ps) h ne = inr (λ e. cc, rw (h, load_presets))

load_active_id_lem : (t : Text) → t ≢ [] → load_active_id (some t) ≡ t
unfolding load_active_id
load_active_id_lem [] ne = absurd (ne refl)
load_active_id_lem (c ∷ t) ne = refl

-- What the effect saves is what the next page load starts from, whatever was stored before: the two
-- items stand under the keys that the load reads, and neither overwrites the other. The presets
-- and the selected one come back, but no presets at all come back as the defaults, if `JSON.parse`
-- inverts `JSON.stringify` on these presets, its text is not empty, and the selected identifier is
-- not empty.
pub initial-saved_items :
    (parse : Text → Parsed) (stringify : List DashboardPreset → Text) (s : PresetState)
    (storage : Storage)
    → parse (stringify s.presets) ≡ array s.presets
    → stringify s.presets ≢ []
    → s.active_preset_id ≢ []
    → let next = load_page parse (saved_items stringify s storage) in
      (((s.presets ≡ []) × (next.presets ≡ default_presets))
        ⊎ ((s.presets ≢ []) × (next.presets ≡ s.presets)))
      × (next.active_preset_id ≡ s.active_preset_id)
unfolding load_page initial saved_items set_item text_eq
initial-saved_items parse stringify s storage inv ne ne_id = (
  load_presets_lem parse (stringify s.presets) s.presets inv ne,
  load_active_id_lem s.active_preset_id ne_id,
)
