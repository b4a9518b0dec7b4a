-- ===== src/Settings/Laws.antt =====
-- Saving and loading the settings, and the discovery of models (web/src/pages/SettingsView.tsx).
use ophanim.Base.{
  ap, sym, ◌∙◌, ltb, leb, none, ◌≡◌, refl, ◌≢◌, true, false, not, ◌&&◌, Option, some, List, [], ◌∷◌,
  ◌++◌, Text, codes, trim, is_empty, or_text, text_eq_instance, text_eq_refl, if◌then◌else◌,
  contains, length, take, take_last, ◌==◌, arith, Bool-cases, inl, inr,
}
use ophanim.Types.{units}
use ophanim.Settings.{
  SettingsData, SettingsState, fetch_settings, lists, take_models, end_models, provider_defaults,
  change_provider,
}
use ophanim.Settings.Save.{
  SavePayload, start_save, SaveAnswer, save_throws, save_refused, saved, mask_key, end_save,
}

-- What a server that keeps every field of a payload sends back for it.
abbrev pub kept : SavePayload → SettingsData
kept p = record {
  llm = some (record {
    llm_provider = some p.save_provider;
    llm_model = some p.save_model;
    llm_endpoint = some p.save_endpoint;
    llm_api_key_masked = none;
    llm_temperature = some p.save_temperature;
  });
  thresholds = some (record {
    cpu_critical_percent = some p.save_cpu_critical;
    memory_critical_percent = some p.save_memory_critical;
    disk_critical_percent = some p.save_disk_critical;
    auto_heal_max_per_hour = some p.save_auto_heal_max;
  });
  chatops = none;
}

or_text-some : (t d : Text) → t ≢ [] → or_text t d ≡ t
or_text-some [] d ne = absurd (ne refl)
or_text-some (c ∷ t) d ne = refl

or_text-nil : (t : Text) → or_text t [] ≡ t
or_text-nil [] = refl
or_text-nil (c ∷ t) = refl

-- What is saved by one page and kept by the server is what another page loads, if the provider and
-- the model are named; but a zero is loaded as the default of its field.
pub fetch_settings-start_save :
    (s t : SettingsState)
    → s.provider ≢ []
    → s.model ≢ []
    → ((fetch_settings (some (kept (start_save s).1)) t).provider ≡ s.provider)
      × ((fetch_settings (some (kept (start_save s).1)) t).model ≡ s.model)
      × ((fetch_settings (some (kept (start_save s).1)) t).endpoint ≡ s.endpoint)
      × ((fetch_settings (some (kept (start_save s).1)) t).temperature
          ≡ (if s.temperature == 0 then 200 else s.temperature))
      × ((fetch_settings (some (kept (start_save s).1)) t).cpu_critical
          ≡ (if s.cpu_critical == 0 then units 95 else s.cpu_critical))
      × ((fetch_settings (some (kept (start_save s).1)) t).memory_critical
          ≡ (if s.memory_critical == 0 then units 95 else s.memory_critical))
      × ((fetch_settings (some (kept (start_save s).1)) t).disk_critical
          ≡ (if s.disk_critical == 0 then units 92 else s.disk_critical))
      × ((fetch_settings (some (kept (start_save s).1)) t).auto_heal_max
          ≡ (if s.auto_heal_max == 0 then 2 else s.auto_heal_max))
unfolding fetch_settings start_save
fetch_settings-start_save s t named_provider named_model = (
  or_text-some s.provider (codes "gemini") named_provider,
  or_text-some s.model (codes "gemini-2.5-flash") named_model,
  or_text-nil s.endpoint,
  refl,
  refl,
  refl,
  refl,
  refl,
)

-- A discovery that lists models, begun with the model that is still selected, leaves a model
-- selected that is on the list; the former one if it is there.
end_models-listed :
    (m : Text) (ms : List Text) (e : Option Text) (s : SettingsState)
    → (contains (m ∷ ms) (end_models s.model (lists (m ∷ ms) e) s).model ≡ true)
      × ((end_models s.model (lists (m ∷ ms) e) s).model
          ≡ (if not (is_empty s.model) && contains (m ∷ ms) s.model then s.model else m))
      × ((end_models s.model (lists (m ∷ ms) e) s).is_fetching_models ≡ false)
unfolding end_models take_models contains
end_models-listed m ms e s = (ground (arith, text_eq_refl m), ground arith, refl)

-- A change to a provider with defaults selects them, but the request for its models still has the
-- endpoint and the key of the provider before.
change_provider_lem :
    (p m e : Text) (s : SettingsState)
    → provider_defaults p ≡ some (m, e)
    → ((change_provider p s).0.provider ≡ p)
      × ((change_provider p s).0.model ≡ m)
      × ((change_provider p s).0.endpoint ≡ e)
      × ((change_provider p s).1.request_provider ≡ p)
      × ((change_provider p s).1.request_endpoint ≡ s.endpoint)
      × ((change_provider p s).1.request_api_key ≡ s.api_key)
unfolding change_provider
change_provider_lem p m e s h = rw h (refl, refl, refl, refl, refl, refl)

end_save-is_saving : (a : SaveAnswer) (s : SettingsState) → (end_save a s).is_saving ≡ false
unfolding end_save
end_save-is_saving (save_throws e) s = refl
end_save-is_saving (save_refused e) s = refl
end_save-is_saving saved s = elim (Bool-cases (is_empty (trim s.api_key))) [
  | inl h ↦ rw h refl
  | inr h ↦ rw h refl
]

-- What may be seen of a key: of a key of more than six letters the three at each end, and nothing
-- of a shorter one.
abbrev pub seen : Text → Option (Text × Text)
seen k = if leb (length k) 6 then none else some (take 3 k, take_last 3 k)

-- The mask is made of what may be seen.
abbrev mask_of : Option (Text × Text) → Text
mask_of none = codes "******"
mask_of (some (front, back)) = front ++ codes "..." ++ back

mask_key-mask_of : (k : Text) → mask_key k ≡ mask_of (seen k)
unfolding mask_key
mask_key-mask_of k = elim (Bool-cases (leb (length k) 6)) [
  | inl e ↦ let big : ltb 6 (length k) ≡ false = ground arith in rw (e, big) refl
  | inr e ↦ let big : ltb 6 (length k) ≡ true = ground arith in rw (e, big) refl
]

mask_key-seen : (j k : Text) → seen j ≡ seen k → mask_key j ≡ mask_key k
mask_key-seen j k e = mask_key-mask_of j ∙ (ap mask_of e ∙ sym (mask_key-mask_of k))

-- A save that succeeds with a key leaves of the key on the page nothing but its first and its last
-- three letters, and of a key of at most six letters nothing at all: any other key of which as much
-- may be seen would leave the same page. One that fails, or throws, keeps the key for another
-- try. Every one ends with the flag cleared, and the request carries the key without the white
-- space around it.
pub end_save_lem :
    (a : SaveAnswer) (s : SettingsState) (other : Text)
    → is_empty (trim s.api_key) ≡ false
    → is_empty (trim other) ≡ false
    → seen s.api_key ≡ seen other
    → ((end_save a (start_save s).0).is_saving ≡ false)
      × (end_save saved (start_save s).0
          ≡ end_save saved (start_save (record s { api_key = other })).0)
      × ((start_save s).1.save_api_key ≡ some (trim s.api_key))
      × ((e : Option Text) → (end_save (save_refused e) (start_save s).0).api_key ≡ s.api_key)
      × ((e : Text) → (end_save (save_throws e) (start_save s).0).api_key ≡ s.api_key)
unfolding end_save start_save
end_save_lem a s other h k same = (
  end_save-is_saving a _,
  rw (h, k, mask_key-seen s.api_key other same) refl,
  rw h refl,
  λ e. refl,
  λ e. refl,
)
