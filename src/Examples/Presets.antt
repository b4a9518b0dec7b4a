-- ===== src/Examples/Presets.antt =====
-- The presets of web/src/pages/Dashboard.tsx at concrete states.
use ophanim.Base.{
  ◌⊎◌, ◌++◌, is_empty, text_eq, trim, drop_while, is_space, ◌≡◌, refl, ◌≢◌, true, false, not, none,
  some, List, [], ◌∷◌, Text, codes, filter, contains, ◌===◌, if◌then◌else◌, text_eq_instance,
}
use ophanim.Types.{DashboardPreset, widget_eq, slo_ribbon, host_telemetry}
use ophanim.Dashboard.Presets.{
  Storage, load_page, load_presets, create_preset, has_id, PresetState, Parsed, throws, array,
  initial, saved_items, has_id, active_preset, toggle_widget, delete_preset, default_presets,
  cluster_overview,
}
use ophanim.Dashboard.Presets.Laws.{toggle_widget_lem, initial-saved_items}
use ophanim.Dashboard.Presets.Dialogs.{set_new_name}
use ophanim.Dashboard.Presets.Creation.{IsUnusedId, delete-create_preset}
use ophanim.Dashboard.Presets.Steps.{
  IsValid, here, next, renamed, created, deleted, Reach-IsValid, initial-IsValid,
}

-- A first visit, whose form has a name for a new preset.
abbrev first_visit : PresetState
first_visit = record {
  presets = default_presets;
  active_preset_id = cluster_overview;
  is_customize_modal_open = false;
  is_new_preset_modal_open = true;
  new_preset_name = codes " Mine ";
  new_preset_icon = [];
  new_preset_desc = [];
  new_preset_widgets = slo_ribbon ∷ [];
}

presets-ne-nil : first_visit.presets ≢ []
presets-ne-nil e = cc

toggle_widget_example :
    ((active_preset (toggle_widget slo_ribbon first_visit)).id ≡ (active_preset first_visit).id)
    × (contains (active_preset (toggle_widget slo_ribbon first_visit)).widgets host_telemetry ≡ (
        if slo_ribbon === host_telemetry
        then not (contains (active_preset first_visit).widgets host_telemetry)
        else contains (active_preset first_visit).widgets host_telemetry))
    × (filter
          (λ p. not (has_id (active_preset first_visit).id p))
          (toggle_widget slo_ribbon first_visit).presets
        ≡ filter (λ p. not (has_id (active_preset first_visit).id p)) first_visit.presets)
toggle_widget_example = toggle_widget_lem slo_ribbon host_telemetry first_visit presets-ne-nil

-- A reader and a writer that keep these presets.
abbrev parse : Text → Parsed
parse t = array default_presets

abbrev stringify : List DashboardPreset → Text
stringify ps = codes "saved"

stringify-ne-nil : stringify first_visit.presets ≢ []
stringify-ne-nil e = cc

id-ne-nil : first_visit.active_preset_id ≢ []
id-ne-nil e = cc

-- The storage of another page, with an item of its own.
abbrev storage : Storage
storage k = some (codes "other")

initial-saved_example :
    let loaded = load_page parse (saved_items stringify first_visit storage) in
    (((first_visit.presets ≡ []) × (loaded.presets ≡ default_presets))
      ⊎ ((first_visit.presets ≢ []) × (loaded.presets ≡ first_visit.presets)))
    × (loaded.active_preset_id ≡ first_visit.active_preset_id)
initial-saved_example =
    initial-saved_items parse stringify first_visit storage refl stringify-ne-nil id-ne-nil

abbrev opened : PresetState
opened = initial (λ t. throws) none none

unused_1 : IsUnusedId (codes "custom_1") (set_new_name (codes "A") opened).presets
unfolding initial load_presets set_new_name has_id text_eq
unused_1 = refl

unused_2 :
    IsUnusedId
      (codes "custom_2")
      (set_new_name
        (codes "B")
        (create_preset (codes "1") (set_new_name (codes "A") opened))).presets
unfolding initial load_presets set_new_name has_id text_eq create_preset trim drop_while is_space
unused_2 = refl

-- Two presets are created, and one is deleted.
abbrev made : PresetState
made =
    create_preset (codes "2")
      (set_new_name (codes "B") (create_preset (codes "1") (set_new_name (codes "A") opened)))

Reach_example : IsValid (delete_preset (codes "custom_1") made)
Reach_example = Reach-IsValid (initial-IsValid (λ t. throws)) (
    next
      (next
        (next (next (next here (renamed (codes "A"))) (created (codes "1") unused_1))
          (renamed (codes "B")))
        (created (codes "2") unused_2))
      (deleted (codes "custom_1")))

has_name : is_empty (trim first_visit.new_preset_name) ≡ false
unfolding trim drop_while is_space
has_name = refl

no_clash : IsUnusedId (codes "custom_" ++ codes "5") first_visit.presets
unfolding has_id text_eq
no_clash = refl

delete-create_example :
    ((delete_preset (codes "custom_" ++ codes "5") (create_preset (codes "5") first_visit)).presets
      ≡ first_visit.presets)
    × ((delete_preset
          (codes "custom_" ++ codes "5")
          (create_preset (codes "5") first_visit)).active_preset_id
        ≡ cluster_overview)
delete-create_example = delete-create_preset (codes "5") first_visit has_name no_clash
