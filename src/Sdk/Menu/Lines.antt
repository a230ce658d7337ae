-- ===== src/Sdk/Menu/Lines.antt =====
-- `Menu` of sdk/go/render.go: the lines of a menu.
use openussd.Prelude.{
  ℕ, ◌+◌, ◌≤◌, ◌≡◌, refl, sym, ◌∙◌, ap, inl, inr, List, [], ◌∷◌, ◌++◌, ◌==◌, length, take, map, All,
  All-append, if◌then◌else◌, arith, Bool-cases, append-nil, append_assoc,
}
use openussd.Strings.{Text, codes, is_empty}
use openussd.Canonical.Encoding.{fits_screen}
use openussd.Sdk.Gsm.{one_line}
use openussd.Sdk.Gsm.Labels.{IsInline, one_line-IsInline}
use openussd.Sdk.Menu.{MenuItem, item, line, lines, longest_label_that_fits, menu_from, menu}

-- How often a text breaks to a new line.
unfoldable pub newlines : Text → ℕ
newlines [] = 0
newlines (r ∷ s) = (if r == 0x0a then 1 else 0) + newlines s

pub newlines-append : (s t : Text) → newlines (s ++ t) ≡ newlines s + newlines t
unfolding newlines
newlines-append [] t = omega arith
newlines-append (r ∷ s) t = omega (arith, newlines-append s t)

newlines_of_inline : (s : Text) → All IsInline s → newlines s ≡ 0
unfolding newlines
newlines_of_inline [] h = refl
newlines_of_inline (r ∷ s) h = ground (arith, newlines_of_inline s h.1, h.0.0)

-- Whatever its key and label hold, an option is one line.
newlines-line : (m : MenuItem) → newlines (line m) ≡ 1
unfolding line
newlines-line m =
    let inner : newlines (one_line m.key ++ (codes ". " ++ one_line m.label)) ≡ 0 =
      newlines_of_inline _ (
        All-append IsInline (one_line m.key) _ (one_line-IsInline m.key)
          (All-append IsInline (codes ". ") _ (omega arith) (one_line-IsInline m.label))) in
    unfold newlines in omega (arith, inner)

pub newlines-lines : (items : List MenuItem) → newlines (lines items) ≡ length items
unfolding lines
newlines-lines [] = unfold newlines in refl
newlines-lines (m ∷ items) =
    omega (arith, newlines-append (line m) (lines items), newlines-line m, newlines-lines items)

abbrev pub keys : List MenuItem → List Text
keys items = map (λ (m : MenuItem). m.key) items

-- The text of a menu: what was there, and the lines of options with the first keys in order.
pub record IsMenu (b : Text) (items : List MenuItem) (t : Text) : Type 0 where
  pub shown : List MenuItem
  pub text : t ≡ b ++ lines shown
  pub first : keys shown ≡ take (length shown) (keys items)
  pub some_of : length shown ≤ length items

IsMenu-stop : (b : Text) (items : List MenuItem) → IsMenu b items b
IsMenu-stop b items = record {
  shown = [];
  text = unfold lines in sym (append-nil b);
  first = refl;
  some_of = omega arith;
}

IsMenu-cons :
    (b : Text) (m m' : MenuItem) (items : List MenuItem) (t : Text)
    → m'.key ≡ m.key
    → IsMenu (b ++ line m') items t
    → IsMenu b (m ∷ items) t
IsMenu-cons b m m' items t e h = record {
  shown = m' ∷ h.shown;
  text = unfold lines in (h.text ∙ append_assoc b (line m') (lines h.shown));
  first = cc (e, h.first);
  some_of = omega (arith, h.some_of);
}

menu_from-IsMenu : (b : Text) (items : List MenuItem) → IsMenu b items (menu_from b items)
unfolding menu_from
menu_from-IsMenu b [] = IsMenu-stop b []
menu_from-IsMenu b (m ∷ items) = elim (Bool-cases (fits_screen (b ++ line m))) [
  | inl fits ↦
      rw (fits, menu_from) (IsMenu-cons b m m items _ refl (menu_from-IsMenu (b ++ line m) items))
  | inr long ↦
      let label = longest_label_that_fits b m.key m.label in
      elim (Bool-cases (is_empty label)) [
        | inl nothing ↦ rw (long, nothing, menu_from) (IsMenu-stop b (m ∷ items))
        | inr some_fit ↦
            rw (long, some_fit, menu_from)
              (IsMenu-cons b m (item m.key label) items _ refl
                (menu_from-IsMenu (b ++ line (item m.key label)) items))
      ]
]

pub menu-IsMenu : (title : Text) (items : List MenuItem) → IsMenu title items (menu title items)
unfolding menu
menu-IsMenu title items = menu_from-IsMenu title items

-- However many line breaks the keys and labels hold, a menu has one line more than its title for
-- each option shown, and the options shown carry the first keys of the list in order.
newlines-menu :
    (title : Text) (items : List MenuItem)
    → (shown : List MenuItem) × (menu title items ≡ title ++ lines shown)
      × (keys shown ≡ take (length shown) (keys items))
      × (length shown ≤ length items)
      × (newlines (menu title items) ≡ newlines title + length shown)
newlines-menu title items =
    let h = menu-IsMenu title items in
    (
      h.shown,
      h.text,
      h.first,
      h.some_of,
      ap newlines h.text
          ∙ (newlines-append title (lines h.shown)
              ∙ ap (λ n. newlines title + n) (newlines-lines h.shown)),
    )
