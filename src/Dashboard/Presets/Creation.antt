-- ===== src/Dashboard/Presets/Creation.antt =====
-- The creation of a preset and its deletion (web/src/pages/Dashboard.tsx).
use ophanim.Base.{
  ◌≡◌, refl, ◌≢◌, ◌⊎◌, inl, inr, true, false, not, some, List, [], ◌∷◌, ◌++◌, Text, is_empty, trim,
  find, filter, any, text_eq_instance, text_eq_iff, text_eq_refl, arith, Bool-cases, codes,
}
use ophanim.Types.{DashboardPreset, WidgetKey, widget_eq}
use ophanim.Dashboard.Presets.{
  PresetState, has_id, active_preset, new_preset, create_preset, delete_preset, cluster_overview,
  initial_widgets,
}

-- No preset of the list has the identifier.
abbrev pub IsUnusedId : Text → List DashboardPreset → Type 0
IsUnusedId i ps = any (has_id i) ps ≡ false

filter_snoc :
    (i : Text) (ps : List DashboardPreset) (q : DashboardPreset)
    → IsUnusedId i ps
    → q.id ≡ i
    → filter (λ p. not (has_id i p)) (ps ++ q ∷ []) ≡ ps
filter_snoc i [] q h e =
    let same : has_id i q ≡ true = unfold has_id in (text_eq_iff q.id i).1 e in rw same
filter_snoc i (p ∷ ps) q h e = ground (arith, filter_snoc i ps q)

find_snoc :
    (i : Text) (ps : List DashboardPreset) (q : DashboardPreset)
    → IsUnusedId i ps
    → q.id ≡ i
    → find (has_id i) (ps ++ q ∷ []) ≡ some q
find_snoc i [] q h e =
    let same : has_id i q ≡ true = unfold has_id in (text_eq_iff q.id i).1 e in rw same
find_snoc i (p ∷ ps) q h e = ground (arith, find_snoc i ps q)

initial_widgets-ne-nil : (now : Text) (s : PresetState) → (new_preset now s).widgets ≢ []
unfolding new_preset
initial_widgets-ne-nil now s = on_widgets s.new_preset_widgets
  where
    on_widgets : (ws : List WidgetKey) → initial_widgets ws ≢ []
    on_widgets [] e = cc
    on_widgets (w ∷ ws) e = cc

module _ (now : Text) (s : PresetState) (named : is_empty (trim s.new_preset_name) ≡ false) where
  presets-create_preset : (create_preset now s).presets ≡ s.presets ++ new_preset now s ∷ []
  unfolding create_preset
  presets-create_preset = rw named

  active_id-create_preset : (create_preset now s).active_preset_id ≡ codes "custom_" ++ now
  unfolding create_preset
  active_id-create_preset = rw named

  id-new_preset : (new_preset now s).id ≡ codes "custom_" ++ now
  unfolding new_preset
  id-new_preset = refl

  active-create_preset :
      IsUnusedId (codes "custom_" ++ now) s.presets
      → active_preset (create_preset now s) ≡ new_preset now s
  unfolding active_preset
  active-create_preset fresh = rw (
    active_id-create_preset,
    presets-create_preset,
    find_snoc _ s.presets (new_preset now s) fresh id-new_preset,
  )

-- When the new identifier is unused: a form whose name is blank creates nothing; any other appends
-- one preset, whose widgets are never empty, to presets that stay as they are, and it becomes the
-- active preset.
create_preset_lem :
    (now : Text) (s : PresetState)
    → IsUnusedId (codes "custom_" ++ now) s.presets
    → ((is_empty (trim s.new_preset_name) ≡ true) × (create_preset now s ≡ s))
      ⊎ (((create_preset now s).presets ≡ s.presets ++ new_preset now s ∷ [])
          × ((new_preset now s).widgets ≢ [])
          × (active_preset (create_preset now s) ≡ new_preset now s))
create_preset_lem now s fresh = elim (Bool-cases (is_empty (trim s.new_preset_name))) [
  | inl blank ↦ inl (blank, unfold create_preset in rw blank)
  | inr named ↦ inr (
    presets-create_preset now s named,
    initial_widgets-ne-nil now s,
    active-create_preset now s named fresh,
  )
]

-- Deleting the preset that was just created under an unused identifier gives the presets back, and
-- the cluster overview is selected.
pub delete-create_preset :
    (now : Text) (s : PresetState)
    → is_empty (trim s.new_preset_name) ≡ false
    → IsUnusedId (codes "custom_" ++ now) s.presets
    → ((delete_preset (codes "custom_" ++ now) (create_preset now s)).presets ≡ s.presets)
      × ((delete_preset (codes "custom_" ++ now) (create_preset now s)).active_preset_id
          ≡ cluster_overview)
delete-create_preset now s named fresh =
    unfold delete_preset in
    (
      rw (presets-create_preset now s named) (
          filter_snoc (codes "custom_" ++ now) s.presets (new_preset now s) fresh
            (id-new_preset now s named)),
      rw (active_id-create_preset now s named, text_eq_refl),
    )
