-- ===== src/Theme/Laws.antt =====
-- The page agrees with the theme, and the next page load starts from it
-- (web/src/context/ThemeContext.tsx).
use ophanim.Base.{
  ◌≡◌, refl, ◌⊎◌, Bool, true, false, not, ◌&&◌, ◌||◌, some, List, [], ◌∷◌, ◌++◌, Text, codes, arith,
  text_eq_instance, text_eq, text_eq_iff, text_eq_refl, has_text, any, Bool-cases, inl, inr,
}
use ophanim.Theme.{
  Theme, parchment, dark, theme_name, load_theme, Page, remove_class, add_class, apply_theme,
}

abbrev pub is_dark : Theme → Bool
is_dark parchment = false
is_dark dark = true

any-snoc : (p : Text → Bool) (xs : List Text) (a : Text) → any p (xs ++ a ∷ []) ≡ (any p xs || p a)
any-snoc p [] a = ground arith
any-snoc p (x ∷ xs) a = ground (arith, any-snoc p xs a)

there :
    (c d : Text) (cs : List Text)
    → has_text cs c ≡ true
    → has_text cs d ≡ (has_text cs d || text_eq d c)
there c d cs h = elim (Bool-cases (text_eq d c)) [
  | inl e ↦ rw ((text_eq_iff d c).0 e, h) refl
  | inr e ↦ rw e (ground arith)
]

has_text-add_class :
    (c d : Text) (cs : List Text) → has_text (add_class c cs) d ≡ (has_text cs d || text_eq d c)
unfolding add_class
has_text-add_class c d cs = elim (Bool-cases (has_text cs c)) [
  | inl e ↦ rw e (there c d cs e)
  | inr e ↦ rw e (any-snoc (text_eq d) cs c)
]

has_text-remove_class :
    (c d : Text) (cs : List Text)
    → has_text (remove_class c cs) d ≡ (has_text cs d && not (text_eq d c))
unfolding remove_class
has_text-remove_class c d [] = refl
has_text-remove_class c d (x ∷ cs) = elim (Bool-cases (text_eq d x)) [
  | inl e ↦
      rw ((text_eq_iff d x).0 e) (ground (arith, has_text-remove_class c x cs, text_eq_refl x))
  | inr e ↦ ground (arith, has_text-remove_class c d cs)
]

-- The classes that the themes put on the page.
abbrev pub theme_classes : List Text
theme_classes = codes "dark" ∷ codes "theme-dark" ∷ codes "theme-parchment" ∷ []

other_class :
    (t : Theme) (page : Page) (c : Text)
    → has_text theme_classes c ≡ false
    → has_text (apply_theme t page).classes c ≡ has_text page.classes c
unfolding apply_theme
other_class parchment page c h = ground (
  arith,
  has_text-add_class (codes "theme-parchment") c
      (remove_class (codes "dark") (remove_class (codes "theme-dark") page.classes)),
  has_text-remove_class (codes "dark") c (remove_class (codes "theme-dark") page.classes),
  has_text-remove_class (codes "theme-dark") c page.classes,
)
other_class dark page c h = ground (
  arith,
  has_text-add_class (codes "dark") c
      (add_class (codes "theme-dark") (remove_class (codes "theme-parchment") page.classes)),
  has_text-add_class (codes "theme-dark") c (remove_class (codes "theme-parchment") page.classes),
  has_text-remove_class (codes "theme-parchment") c page.classes,
)

-- The theme that a page shows, by its classes.
abbrev ShowsTheme : Theme → List Text → Type 0
ShowsTheme t cs =
    (has_text cs (codes "dark") ≡ is_dark t)
    × (has_text cs (codes "theme-dark") ≡ is_dark t)
    × (has_text cs (codes "theme-parchment") ≡ not (is_dark t))

apply_theme-ShowsTheme : (t : Theme) (page : Page) → ShowsTheme t (apply_theme t page).classes
unfolding apply_theme text_eq
apply_theme-ShowsTheme parchment page = (
  rw (has_text-add_class, has_text-remove_class, has_text-remove_class) (ground arith),
  rw (has_text-add_class, has_text-remove_class, has_text-remove_class) (ground arith),
  rw (has_text-add_class, has_text-remove_class, has_text-remove_class) (ground arith),
)
apply_theme-ShowsTheme dark page = (
  rw (has_text-add_class, has_text-add_class, has_text-remove_class) (ground arith),
  rw (has_text-add_class, has_text-add_class, has_text-remove_class) (ground arith),
  rw (has_text-add_class, has_text-add_class, has_text-remove_class) (ground arith),
)

load_theme-name : (t : Theme) → load_theme (some (theme_name t)) ≡ t
unfolding load_theme theme_name text_eq
load_theme-name parchment = refl
load_theme-name dark = refl

apply_theme-stored : (t : Theme) (page : Page) → (apply_theme t page).stored ≡ some (theme_name t)
unfolding apply_theme
apply_theme-stored parchment page = refl
apply_theme-stored dark page = refl

-- Whatever classes the page has and whatever is stored, once the effect has run the next page load
-- starts from the same theme, the classes of the theme are on the page and those of the other are
-- not, and every class that belongs to neither theme stays as it was.
pub load_theme-apply_theme :
    (t : Theme) (page : Page) (c : Text)
    → let shown = apply_theme t page in
      (load_theme shown.stored ≡ t)
      × ShowsTheme t shown.classes
      × ((has_text theme_classes c ≡ true) ⊎ (has_text shown.classes c ≡ has_text page.classes c))
load_theme-apply_theme t page c = (
  rw (apply_theme-stored t page) (load_theme-name t),
  apply_theme-ShowsTheme t page,
  elim (Bool-cases (has_text theme_classes c)) [
    | inl e ↦ inl e
    | inr e ↦ inr (other_class t page c e)
  ],
)
