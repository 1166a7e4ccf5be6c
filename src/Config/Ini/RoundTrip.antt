-- ===== src/Config/Ini/RoundTrip.antt =====
-- What `Save` of llarp/config/ini.cpp writes into a file is what `LoadFromStr` reads from it.
use lokinet.Base.Bytes.{Bytes}
use lokinet.Base.Map.{find?, Distinct}
use lokinet.Base.{
  ◌≡◌, ◌≢◌, refl, ap, ◌∙◌, fun_ext, true, ◌+◌, none, some, Option, List, [], ◌∷◌, if◌then◌else◌,
  arith, bytes_eq, Bool-cases, inl, inr,
}
use lokinet.Config.Ini.{
  SectionValues, ConfigImpl, ConfigParser, Listing, no_config, same_pair, values_of, add_value,
  parse, load_from_str, config_text, files, save,
}
use lokinet.Config.Ini.Saved.{AllSections, add_values, add_sections, parse_lines-sections}

-- how often a pair is in a list
abbrev pub count : List (Bytes × Bytes) → SectionValues
count [] = λ p. 0
count (x ∷ xs) = λ p. (if same_pair x p then 1 else 0) + count xs p

abbrev pub counted : Option (List (Bytes × Bytes)) → Option SectionValues
counted none = none
counted (some vs) = some (count vs)

-- the configuration that an iteration visits so
abbrev pub contents : Listing → ConfigImpl
contents l = λ name. counted (find? name l)

abbrev pub listed : Option Listing → Option ConfigImpl
listed none = none
listed (some l) = some (contents l)

-- The iteration over the overrides visits each file with all of its sections and pairs.
abbrev pub Visits : List (Bytes × Listing) → ConfigParser → Type 0
Visits order s = (path : Bytes) → s.overrides path ≡ listed (find? path order)

self : (name : Bytes) → bytes_eq.beq name name ≡ true
self name = ground (arith, bytes_eq.beq_iff name name)

-- Values that are added to a section, which is there afterwards.
add_values-count :
    (name : Bytes) (vs : List (Bytes × Bytes)) (m : ConfigImpl) (n : Bytes)
    → vs ≢ []
    → add_values name vs m n
      ≡ (if bytes_eq.beq name n then some (λ p. count vs p + values_of (m name) p) else m n)
unfolding add_value
add_values-count name [] m n e = absurd (e refl)
add_values-count name (x ∷ []) m n e = elim (Bool-cases (bytes_eq.beq name n)) [
  | inl q ↦ rw q (ap some (fun_ext λ p. omega arith))
  | inr q ↦ rw q refl
]
add_values-count name (x ∷ y ∷ vs) m n e =
    add_values-count name (y ∷ vs) (add_value name x.0 x.1 m) n (λ q. ground arith)
    ∙ elim (Bool-cases (bytes_eq.beq name n)) [
      | inl q ↦ rw (q, self name) (ap some (fun_ext λ p. omega arith))
      | inr q ↦ rw q refl
    ]

abbrev or_else : Option SectionValues → Option SectionValues → Option SectionValues
or_else none y = y
or_else (some x) y = some x

add_sections-contents :
    (l : Listing) (acc : ConfigImpl) (n : Bytes)
    → AllSections l
    → Distinct l
    → ((name : Bytes) → find? name l ≢ none → acc name ≡ none)
    → add_sections l acc n ≡ or_else (contents l n) (acc n)
unfolding find?
add_sections-contents [] acc n a d apart = refl
add_sections-contents ((name, vs) ∷ l) acc n (_, filled, _, a) (fresh, d) apart =
    let none_there : acc name ≡ none = apart name (ground (arith, self name)) in
    let added = λ (i : Bytes). add_values-count name vs acc i filled in
    let absent : ((i : Bytes) → find? i l ≢ none → add_values name vs acc i ≡ none) = λ i g.
      added i ∙ elim (Bool-cases (bytes_eq.beq name i)) [
        | inl q ↦ absurd (g (ground (arith, bytes_eq.beq_iff name i)))
        | inr q ↦ rw q (apart i (rw q g))
      ] in
    add_sections-contents l (add_values name vs acc) n a d absent
    ∙ elim (Bool-cases (bytes_eq.beq name n)) [
      | inl q ↦
          let gone : find? n l ≡ none = ground (arith, bytes_eq.beq_iff name n) in
          rw (added n, q, gone, none_there) (ap some (fun_ext λ p. omega arith))
      | inr q ↦ rw (added n, q) refl
    ]

or_else-none : (x : Option SectionValues) → or_else x none ≡ x
or_else-none none = refl
or_else-none (some x) = refl

abbrev config_text_of : Option Listing → Option Bytes
config_text_of none = none
config_text_of (some l) = some (config_text l)

files-find? :
    (path : Bytes) (order : List (Bytes × Listing)) {l : Listing}
    → find? path order ≡ some l
    → find? path (files order) ≡ some (config_text l)
unfolding find?
files-find? path [] e = absurd cc
files-find? path ((q, k) ∷ order) e = elim (Bool-cases (bytes_eq.beq q path)) [
  | inl b ↦ rw b (ap config_text_of (rw b at e))
  | inr b ↦ rw b (files-find? path order (rw b at e))
]

-- What `Save` writes into a file for the overrides of one file, loaded into a parser without sections,
-- gives just the sections, keys and values of those overrides, each pair as often as it was there, in
-- whatever order the iterations of `Save` visit them. The visit has each section once, with one pair or
-- more; names, keys and values are single lines, keys and values have no white space around them, and a
-- key is not empty, has no `=`, and does not begin with `;`, `#` or `[`.
pub load_from_str-save :
    (order : List (Bytes × Listing)) (path : Bytes) (l : Listing) (s t : ConfigParser)
    → Visits order s
    → find? path order ≡ some l
    → AllSections l
    → Distinct l
    → t.config ≡ no_config
    → (text : Bytes) × (m : ConfigImpl) × (find? path (save order s).0 ≡ some text)
      × (s.overrides path ≡ some m)
      × (load_from_str text t ≡ (record t { text = text; config = m }, true))
unfolding load_from_str parse save
load_from_str-save order path l s t visits e a d empty =
    let (last, read) = parse_lines-sections l ([], t.config) a in
    let kept : add_sections l t.config ≡ contents l = fun_ext λ n.
      ap (λ (m : ConfigImpl). add_sections l m n) empty
      ∙ add_sections-contents l no_config n a d (λ name h. refl)
      ∙ or_else-none (contents l n) in
    (
      config_text l,
      contents l,
      files-find? path order e,
      visits path ∙ ap listed e,
      rw (read, kept) refl,
    )
