-- ===== src/Lines/Shape.antt =====
-- What the steps of the formatters leave of a level: the lines are well formed, and those of a
-- higher level are the same ones, raised.
pub mod Fields
pub mod Keys
pub mod Certificates
pub mod Others
use Prim.Native.String.{String}
use mathlib.Core.Path.{ap₂}
use mathlib.Core.Option
use python_nss_ng.Prelude.{
  ◌⊎◌, ℕ, zero, suc, ◌+◌, Bytes, Bool, true, false, Option, none, some, List, [], ◌∷◌, ◌++◌, length,
  ltb, if◌then◌else◌, ℤ, pos, map, codes, ◌≡◌, refl, sym, ap, ◌∙◌, arith, All, All-append,
  Bool-cases, Option-cases, inl, inr,
}
use python_nss_ng.Format.{
  Object, integer, string, object, Line, tuple, not_tuple, line_fmt_tuple, line_and, fmt_objects,
  value_items, one_item,
}
use python_nss_ng.Format.Size.{IsLine}
use python_nss_ng.Der.Integer.{integer_secitem_to_pylong}
use python_nss_ng.Hex.{HexText, one_line, lines, raw_data_to_hex}
use python_nss_ng.Lines.{
  Api, Formatter, joined, steps, checked, append_line_tuples, call_format_lines, append_or_skip,
  at_level, each, fmt_obj, fmt_label, fmt_label_and_append, append_lines, hex_objects, append_hex,
  alone, obj_sprintf, secitem_integer_format_lines, fmt_sec_int_obj, fingerprint_format_lines,
  nss_fingerprint_format_lines, sec_item_format_lines,
}

-- A line `k` levels higher; the flag says whether one without texts is raised too.
abbrev pub raise : Bool → ℕ → Line → Line
raise blanks k (tuple (integer (pos level) ∷ text ∷ texts)) =
    tuple (integer (pos (level + k)) ∷ text ∷ texts)
raise true k (tuple (integer (pos level) ∷ [])) = tuple (integer (pos (level + k)) ∷ [])
raise _ k line = line

-- The lines of a formatter `k` levels higher are its lines, raised.
abbrev pub IsRelative : Bool → Formatter → Type 0
IsRelative blanks f = (k level : ℕ) → f (level + k) ≡ Option.map (map (raise blanks k)) (f level)

abbrev pub AllLines : Option (List Line) → Type 0
AllLines none = Unit
AllLines (some ls) = All IsLine ls

pub record IsShaped (blanks : Bool) (f : Formatter) : Type 0 where
  pub well : (level : ℕ) → AllLines (f level)
  pub relative : IsRelative blanks f

abbrev shaped :
    {blanks : Bool} {f : Formatter}
    → ((level : ℕ) → AllLines (f level))
    → IsRelative blanks f
    → IsShaped blanks f
shaped w r = record { well = w; relative = r }

swap_offset : (level k offset : ℕ) → level + k + offset ≡ level + offset + k
swap_offset level k offset = omega arith

map-append : (f : Line → Line) (ls ms : List Line) → map f (ls ++ ms) ≡ map f ls ++ map f ms
map-append f [] ms = refl
map-append f (l ∷ ls) ms = ap (λ r. f l ∷ r) (map-append f ls ms)

joined-AllLines : (a b : Option (List Line)) → AllLines a → AllLines b → AllLines (joined a b)
joined-AllLines none b ha hb = tt
joined-AllLines (some ls) none ha hb = tt
joined-AllLines (some ls) (some ms) ha hb = All-append IsLine ls ms ha hb

joined-map :
    (f : Line → Line) (a b : Option (List Line))
    → joined (Option.map (map f) a) (Option.map (map f) b) ≡ Option.map (map f) (joined a b)
joined-map f none b = refl
joined-map f (some ls) none = refl
joined-map f (some ls) (some ms) = ap some (sym (map-append f ls ms))

skipped-AllLines : (a : Option (List Line)) → AllLines a → AllLines (append_line_tuples a)
unfolding append_line_tuples
skipped-AllLines none h = tt
skipped-AllLines (some ls) h = h

skipped-map :
    (f : Line → Line) (a : Option (List Line))
    → append_line_tuples (Option.map (map f) a) ≡ Option.map (map f) (append_line_tuples a)
unfolding append_line_tuples
skipped-map f none = refl
skipped-map f (some ls) = refl

module _ {blanks : Bool} where
  pub no_steps-IsShaped : IsShaped blanks (steps [])
  unfolding steps
  no_steps-IsShaped = shaped (λ level. tt) (λ k level. refl)

  pub steps-IsShaped :
      (f : Formatter) (fs : List Formatter)
      → IsShaped blanks f
      → IsShaped blanks (steps fs)
      → IsShaped blanks (steps (f ∷ fs))
  unfolding steps
  steps-IsShaped f fs h tail =
      shaped (λ level. joined-AllLines (f level) (steps fs level) (h.well level) (tail.well level))
        (λ k level.
          ap₂ joined (h.relative k level) (tail.relative k level)
          ∙ joined-map (raise blanks k) (f level) (steps fs level))

  pub never-IsShaped : IsShaped blanks (λ level. none)
  never-IsShaped = shaped (λ level. tt) (λ k level. refl)

  pub if-IsShaped :
      (c : Bool) (f g : Formatter)
      → IsShaped blanks f
      → IsShaped blanks g
      → IsShaped blanks (if c then f else g)
  if-IsShaped true f g h k = h
  if-IsShaped false f g h k = k

  pub checked-IsShaped :
      {A : Type 0} (x : Option A) (f : A → Formatter)
      → ((a : A) → IsShaped blanks (f a))
      → IsShaped blanks (checked x f)
  unfolding checked
  checked-IsShaped none f h = shaped (λ level. tt) (λ k level. refl)
  checked-IsShaped (some a) f h = h a

  pub each-IsShaped :
      {A : Type 0} (f : ℕ → A → Formatter)
      → ((i : ℕ) (a : A) → IsShaped blanks (f i a))
      → (i : ℕ) (xs : List A) → IsShaped blanks (each f i xs)
  unfolding each
  each-IsShaped f h i [] = shaped (λ level. tt) (λ k level. refl)
  each-IsShaped f h i (x ∷ xs) =
      let head = h i x in
      let tail = each-IsShaped f h (suc i) xs in
      shaped
        (λ level.
          joined-AllLines (f i x level) (each f (suc i) xs level) (head.well level)
            (tail.well level))
        (λ k level.
          ap₂ joined (head.relative k level) (tail.relative k level)
          ∙ joined-map (raise blanks k) (f i x level) (each f (suc i) xs level))

  pub call-IsShaped :
      (offset : ℕ) (f : Formatter)
      → IsShaped blanks f
      → IsShaped blanks (call_format_lines offset f)
  unfolding call_format_lines
  call-IsShaped offset f h =
      shaped (λ level. h.well (level + offset))
        (λ k level. ap f (swap_offset level k offset) ∙ h.relative k (level + offset))

  pub skip-IsShaped :
      (offset : ℕ) (f : Formatter) → IsShaped blanks f → IsShaped blanks (append_or_skip offset f)
  unfolding append_or_skip
  skip-IsShaped offset f h =
      shaped (λ level. skipped-AllLines (f (level + offset)) (h.well (level + offset)))
        (λ k level.
          ap append_line_tuples (ap f (swap_offset level k offset) ∙ h.relative k (level + offset))
          ∙ skipped-map (raise blanks k) (f (level + offset)))

abbrev MaybeLine : Option Line → Type 0
MaybeLine none = Unit
MaybeLine (some l) = IsLine l

line_and-AllLines :
    (l : Option Line) (ls : Option (List Line))
    → MaybeLine l
    → AllLines ls
    → AllLines (line_and l ls)
line_and-AllLines none ls h hs = tt
line_and-AllLines (some l) none h hs = tt
line_and-AllLines (some l) (some ls) h hs = (h, hs)

line_and-map :
    (f : Line → Line) (l : Option Line) (ls : Option (List Line))
    → line_and (Option.map f l) (Option.map (map f) ls) ≡ Option.map (map f) (line_and l ls)
line_and-map f none ls = refl
line_and-map f (some l) none = refl
line_and-map f (some l) (some ls) = refl

-- A line with a label or a value.
module _ (api : Api) (blanks : Bool) where
  -- An object gives one text or none.
  text_or_none :
      (items : Option (List Object)) (t : Option Bytes)
      → items ≡ one_item t
      → (items ≡ none) ⊎ ((s : Bytes) × (items ≡ some (string s ∷ [])))
  text_or_none items none e = inl e
  text_or_none items (some s) e = inr (s, e)

  one_text :
      (value : Object)
      → (value_items api.str (some value) ≡ none)
        ⊎ ((s : Bytes) × (value_items api.str (some value) ≡ some (string s ∷ [])))
  one_text (string s) = inr (s, refl)
  one_text (integer n) =
      text_or_none (value_items api.str (some (integer n))) (api.str (integer n)) refl
  one_text (object o) =
      text_or_none (value_items api.str (some (object o))) (api.str (object o)) refl

  alone-IsLine :
      (level : ℕ) (value : Object)
      → MaybeLine (line_fmt_tuple api.str (pos level) none (some value))
  unfolding line_fmt_tuple
  alone-IsLine level value = elim (one_text value) [
    | inl e ↦ rw (line_fmt_tuple, e) tt
    | inr (s, e) ↦ rw (line_fmt_tuple, e) tt
  ]

  value-IsLine :
      (level : ℕ) (label : Bytes) (value : Option Object)
      → MaybeLine (line_fmt_tuple api.str (pos level) (some label) value)
  unfolding line_fmt_tuple
  value-IsLine level label none = tt
  value-IsLine level label (some value) = elim (one_text value) [
    | inl e ↦ rw (line_fmt_tuple, e) tt
    | inr (s, e) ↦ rw (line_fmt_tuple, e) tt
  ]

  raise-value :
      (k level offset : ℕ) (label : Bytes) (value : Option Object)
      → line_fmt_tuple api.str (pos (level + k + offset)) (some label) value
        ≡ Option.map
            (raise blanks k)
            (line_fmt_tuple api.str (pos (level + offset)) (some label) value)
  unfolding line_fmt_tuple
  raise-value k level offset label value =
      ap (λ n. line_fmt_tuple api.str (pos n) (some label) value) (swap_offset level k offset)
      ∙ elim (Option-cases (value_items api.str value)) [
        | inl e ↦ rw (line_fmt_tuple, e) refl
        | inr (items, e) ↦ rw (line_fmt_tuple, e) refl
      ]

  raise-alone :
      (k level offset : ℕ) (value : Object)
      → line_fmt_tuple api.str (pos (level + k + offset)) none (some value)
        ≡ Option.map
            (raise blanks k)
            (line_fmt_tuple api.str (pos (level + offset)) none (some value))
  unfolding line_fmt_tuple
  raise-alone k level offset value =
      ap (λ n. line_fmt_tuple api.str (pos n) none (some value)) (swap_offset level k offset)
      ∙ elim (one_text value) [
        | inl e ↦ rw (line_fmt_tuple, e) refl
        | inr (s, e) ↦ rw (line_fmt_tuple, e) refl
      ]

  pub fmt_obj-IsShaped :
      (offset : ℕ) (label : Bytes) (value : Option Object)
      → IsShaped blanks (fmt_obj api offset (some label) value)
  unfolding fmt_obj
  fmt_obj-IsShaped offset label value =
      shaped
        (λ level.
          line_and-AllLines (line_fmt_tuple api.str (pos (level + offset)) (some label) value)
            (some []) (value-IsLine (level + offset) label value) tt)
        (λ k level.
          ap (λ l. line_and l (some [])) (raise-value k level offset label value)
          ∙ line_and-map (raise blanks k)
              (line_fmt_tuple api.str (pos (level + offset)) (some label) value) (some []))

  fmt_objects-AllLines :
      (level : ℕ) (objs : List Object) → AllLines (fmt_objects api.str (pos level) objs)
  unfolding fmt_objects
  fmt_objects-AllLines level [] = tt
  fmt_objects-AllLines level (obj ∷ objs) =
      line_and-AllLines (line_fmt_tuple api.str (pos level) none (some obj))
        (fmt_objects api.str (pos level) objs) (alone-IsLine level obj)
        (fmt_objects-AllLines level objs)

  raise-objects :
      (k level offset : ℕ) (objs : List Object)
      → fmt_objects api.str (pos (level + k + offset)) objs
        ≡ Option.map (map (raise blanks k)) (fmt_objects api.str (pos (level + offset)) objs)
  unfolding fmt_objects
  raise-objects k level offset [] = refl
  raise-objects k level offset (obj ∷ objs) =
      ap₂ line_and (raise-alone k level offset obj) (raise-objects k level offset objs)
      ∙ line_and-map (raise blanks k)
          (line_fmt_tuple api.str (pos (level + offset)) none (some obj))
          (fmt_objects api.str (pos (level + offset)) objs)

  pub append_lines-IsShaped :
      (offset : ℕ) (objs : List Object) → IsShaped blanks (append_lines api offset objs)
  unfolding append_lines
  append_lines-IsShaped offset objs =
      shaped (λ level. fmt_objects-AllLines (level + offset) objs)
        (λ k level. raise-objects k level offset objs)

  pub alone-IsShaped : (offset : ℕ) (value : Object) → IsShaped blanks (alone api offset value)
  unfolding fmt_obj append_lines fmt_objects
  alone-IsShaped offset value = append_lines-IsShaped offset (value ∷ [])

  pub label-IsShaped :
      (offset : ℕ) (label : Bytes) → IsShaped blanks (fmt_label_and_append api offset (some label))
  unfolding fmt_obj fmt_label_and_append fmt_label
  label-IsShaped offset label = fmt_obj-IsShaped offset label none

module _ (api : Api) where
  -- A line at level 0 that is not raised.
  pub blank_line-IsShaped : IsShaped false (at_level 0 (fmt_label_and_append api 0 none))
  unfolding at_level fmt_label_and_append fmt_label line_fmt_tuple
  blank_line-IsShaped = shaped (λ level. (tt, tt)) (λ k level. refl)

  raise-blank :
      (k level offset : ℕ)
      → line_fmt_tuple api.str (pos (level + k + offset)) none none
        ≡ Option.map (raise true k) (line_fmt_tuple api.str (pos (level + offset)) none none)
  unfolding line_fmt_tuple
  raise-blank k level offset =
      ap (λ n. line_fmt_tuple api.str (pos n) none none) (swap_offset level k offset)

  -- Lines that may have no texts, and are raised.
  pub any_label-IsShaped :
      (offset : ℕ) (label : Option Bytes) → IsShaped true (fmt_label_and_append api offset label)
  unfolding fmt_label_and_append fmt_label line_fmt_tuple
  any_label-IsShaped offset (some label) = label-IsShaped api true offset label
  any_label-IsShaped offset none =
      shaped (λ level. (tt, tt))
        (λ k level. ap (λ l. line_and l (some [])) (raise-blank k level offset))

  pub any_value-IsShaped :
      (offset : ℕ) (value : Option Object) → IsShaped true (fmt_obj api offset none value)
  unfolding fmt_obj line_fmt_tuple
  any_value-IsShaped offset (some value) = alone-IsShaped api true offset value
  any_value-IsShaped offset none =
      shaped (λ level. (tt, tt))
        (λ k level. ap (λ l. line_and l (some [])) (raise-blank k level offset))

pub ruleset shape_rules = (
  never-IsShaped, if-IsShaped, no_steps-IsShaped, steps-IsShaped, checked-IsShaped, each-IsShaped,
  call-IsShaped, skip-IsShaped, fmt_obj-IsShaped, alone-IsShaped, label-IsShaped,
  append_lines-IsShaped,
)
