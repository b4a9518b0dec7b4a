-- ===== src/Theme.antt =====
-- The theme: its initial value, its switch and what it leaves on the page and in the storage
-- (web/src/context/ThemeContext.tsx).
pub mod Laws
use ophanim.Base.{
  Bool, true, false, not, ◌||◌, Option, none, some, List, [], ◌∷◌, ◌++◌, Text, codes, ◌===◌,
  text_eq_instance, if◌then◌else◌, or_default, has_text, filter,
}

pub data Theme : Type 0 where
  parchment dark : Theme

unfoldable pub theme_name : Theme → Text
theme_name parchment = codes "parchment"
theme_name dark = codes "dark"

-- The initialiser of `theme`, from the stored item.
unfoldable pub load_theme : Option Text → Theme
load_theme none = parchment
load_theme (some saved) = if saved === codes "dark" then dark else parchment

-- What the effect writes: the stored item, and of the page the classes of its root, the attribute
-- `data-theme` and the colour behind it.
pub record Page : Type 0 where
  pub stored : Option Text
  pub classes : List Text
  pub data_theme : Text
  pub background : Text

-- `classList.remove` and `classList.add` of one class.
unfoldable pub remove_class : Text → List Text → List Text
remove_class c cs = filter (λ d. not (d === c)) cs

unfoldable pub add_class : Text → List Text → List Text
add_class c cs = if has_text cs c then cs else cs ++ c ∷ []

-- The effect on `theme`.
unfoldable pub apply_theme : Theme → Page → Page
unfolding theme_name remove_class add_class
apply_theme parchment page = record {
  stored = some (theme_name parchment);
  classes =
      add_class (codes "theme-parchment")
        (remove_class (codes "dark") (remove_class (codes "theme-dark") page.classes));
  data_theme = codes "parchment";
  background = codes "#f4ece1";
}
apply_theme dark page = record {
  stored = some (theme_name dark);
  classes =
      add_class (codes "dark")
        (add_class (codes "theme-dark") (remove_class (codes "theme-parchment") page.classes));
  data_theme = codes "dark";
  background = codes "#06080d";
}

-- `toggleTheme`
unfoldable pub toggle_theme : Theme → Theme
toggle_theme parchment = dark
toggle_theme dark = parchment

-- `setTheme`
unfoldable pub set_theme : Theme → Theme → Theme
set_theme t old = t

-- The button of the header: its title names the other theme, its label the present one
-- (web/src/components/Header.tsx).
unfoldable pub switch_title : Theme → Text
switch_title parchment = codes "Switch to Obsidian Dark Theme"
switch_title dark = codes "Switch to Ancient Parchment Theme"

unfoldable pub switch_label : Theme → Text
switch_label parchment = codes "PARCHMENT"
switch_label dark = codes "OBSIDIAN"
