-- ===== src/Palette/Laws.antt =====
-- The entries of the palette (web/src/components/CommandPalette.tsx).
use ophanim.Base.{
  ◌≡◌, refl, ◌⊎◌, inl, inr, Bool, true, false, not, ◌&&◌, List, [], ◌∷◌, ◌++◌, Text, arith,
  text_eq_instance, text_eq, if◌then◌else◌, all, map, is_some,
}
use ophanim.Types.{ContainerStatus, Incident}
use ophanim.App.Panels.{
  PanelState, view_of, close_palette, navigate, palette_open_chat, palette_open_logs, open_logs,
}
use ophanim.Palette.{
  Entry, chat_entry, container_entry, incident_entry, page_entries, entries, listed, choose,
  found_containers, found_incidents,
}

-- The entry closes the palette and leaves a view in the main area.
abbrev pub is_good : PanelState → Entry → Bool
is_good s e = is_some (view_of (choose e s)) && not (choose e s).is_command_palette_open

all_of : {A : Type 0} (p : A → Bool) (xs : List A) → ((x : A) → p x ≡ true) → all p xs ≡ true
all_of p [] h = refl
all_of p (x ∷ xs) h = rw (h x) (all_of p xs h)

all-append :
    {A : Type 0} (p : A → Bool) (xs ys : List A)
    → all p xs ≡ true
    → all p ys ≡ true
    → all p (xs ++ ys) ≡ true
all-append p [] ys h k = k
all-append p (x ∷ xs) ys h k = ground (arith, all-append p xs ys)

all-map_of :
    {A B : Type 0} (p : B → Bool) (f : A → B) (xs : List A)
    → ((x : A) → p (f x) ≡ true)
    → all p (map f xs) ≡ true
all-map_of p f [] h = refl
all-map_of p f (x ∷ xs) h = rw (h x) (all-map_of p f xs h)

page_entries-is_good : (s : PanelState) → all (is_good s) page_entries ≡ true
unfolding page_entries choose close_palette navigate view_of text_eq
page_entries-is_good s = refl

chat_entry-is_good : (s : PanelState) → is_some (view_of s) ≡ true → is_good s chat_entry ≡ true
unfolding choose close_palette palette_open_chat view_of
chat_entry-is_good s h = rw h refl

container_entry-is_good :
    (s : PanelState) (c : ContainerStatus) → is_good s (container_entry c) ≡ true
unfolding choose close_palette palette_open_logs open_logs view_of text_eq
container_entry-is_good s c = refl

incident_entry-is_good : (s : PanelState) (i : Incident) → is_good s (incident_entry i) ≡ true
unfolding choose close_palette navigate view_of text_eq
incident_entry-is_good s i = refl

listed-is_good :
    (s : PanelState) (query : Text) (cs : List ContainerStatus) (is : List Incident)
    → is_some (view_of s) ≡ true
    → all (is_good s) (listed query cs is) ≡ true
unfolding listed
listed-is_good s query cs is h =
    all-append (is_good s) page_entries
      (chat_entry
        ∷ (map container_entry (found_containers query cs)
            ++ map incident_entry (found_incidents query is)))
      (page_entries-is_good s)
      (rw (chat_entry-is_good s h) (
        all-append (is_good s) (map container_entry (found_containers query cs)) _
          (all-map_of (is_good s) container_entry _ (container_entry-is_good s))
          (all-map_of (is_good s) incident_entry _ (incident_entry-is_good s))))

if-good :
    {A : Type 0} (p : A → Bool) (b : Bool) (xs : List A)
    → all p xs ≡ true
    → (all p (if b then xs else []) ≡ true) × ((b ≡ true) ⊎ ((if b then xs else []) ≡ []))
if-good p true xs h = (h, inl refl)
if-good p false xs h = (refl, inr refl)

-- Each entry that the palette lists, for any query, closes the palette and leaves a view in the
-- main area, if one was there; and the closed palette lists nothing.
pub choose-entries :
    (s : PanelState) (query : Text) (cs : List ContainerStatus) (is : List Incident)
    → is_some (view_of s) ≡ true
    → (all (is_good s) (entries s query cs is) ≡ true)
      × ((s.is_command_palette_open ≡ true) ⊎ (entries s query cs is ≡ []))
unfolding entries
choose-entries s query cs is h =
    if-good (is_good s) s.is_command_palette_open (listed query cs is)
      (listed-is_good s query cs is h)
