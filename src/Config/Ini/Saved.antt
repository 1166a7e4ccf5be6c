-- ===== src/Config/Ini/Saved.antt =====
-- What `Parse` of llarp/config/ini.cpp makes of the lines that `Save` writes.
use mathlib.Core.List.{append_assoc}
use lokinet.Base.Bytes.{Bytes}
use lokinet.Base.{◌≡◌, ◌≢◌, refl, true, false, ◌||◌, [], ◌∷◌, ◌++◌, ◌==◌, All, bytes_eq, List}
use lokinet.Config.Ini.{
  ConfigImpl, whitespace, trim_front, trim_back, split_lines, add_value, Parsed, parse_line,
  parse_lines, values_text, config_text, Listing,
}
use lokinet.Config.Ini.Lines.{
  OneLine, split_lines-line, trim_front-solid, trim_back-solid, split_pair_lem, before_bracket_lem,
}

-- Keys, values and sections that the format can hold: no line ends, no white space around them, no `=`
-- in a key, and no key that begins like a comment or a section.
abbrev pub IsKey : Bytes → Type 0
IsKey [] = ⊥
IsKey (c ∷ k) =
    (whitespace c ≡ false)
    × (((c == b';') || (c == b'#')) ≡ false)
    × ((c == b'[') ≡ false)
    × All (λ x. (x == b'=') ≡ false) (c ∷ k)
    × OneLine (c ∷ k)
    × (trim_back (c ∷ k) ≡ c ∷ k)

abbrev pub IsValue : Bytes → Type 0
IsValue v = OneLine v × (trim_front v ≡ v) × (trim_back v ≡ v)

abbrev pub AllPairs : List (Bytes × Bytes) → Type 0
AllPairs [] = Unit
AllPairs ((k, v) ∷ vs) = IsKey k × IsValue v × AllPairs vs

abbrev pub AllSections : Listing → Type 0
AllSections [] = Unit
AllSections ((name, vs) ∷ m) = OneLine name × (vs ≢ []) × AllPairs vs × AllSections m

OneLine-append : (a b : Bytes) → OneLine a → OneLine b → OneLine (a ++ b)
OneLine-append [] b ha hb = hb
OneLine-append (c ∷ a) b ha hb = (ha.0, OneLine-append a b ha.1 hb)

parse_line-pair :
    (k v : Bytes) (x : Parsed)
    → IsKey k
    → IsValue v
    → parse_line (trim_back (trim_front (k ++ b'=' ∷ v))) x ≡ ((x.0, add_value x.0 k v x.1), true)
unfolding parse_line
parse_line-pair [] v x hk hv = elim hk [ ]
parse_line-pair (c ∷ k) v x (solid, comment, bracket, plain, one, back) (_, vf, vb) =
    rw
      (
        trim_front-solid c (k ++ b'=' ∷ v) solid,
        trim_back-solid (c ∷ k) b'=' v refl vb,
        comment,
        bracket,
        split_pair_lem (c ∷ k) v plain,
        back,
        vf,
      )
      refl

parse_line-section :
    (name : Bytes) (x : Parsed)
    → parse_line (trim_back (trim_front (b'[' ∷ (name ++ b']' ∷ [])))) x ≡ ((name, x.1), true)
unfolding parse_line
parse_line-section name x =
    rw
      (
        trim_front-solid b'[' (name ++ b']' ∷ []) refl,
        trim_back-solid (b'[' ∷ name) b']' [] refl (unfold trim_back in refl),
        before_bracket_lem name,
      )
      refl

-- the values added one after the other
abbrev pub add_values : Bytes → List (Bytes × Bytes) → ConfigImpl → ConfigImpl
add_values name [] m = m
add_values name ((k, v) ∷ vs) m = add_values name vs (add_value name k v m)

abbrev pub add_sections : Listing → ConfigImpl → ConfigImpl
add_sections [] acc = acc
add_sections ((name, vs) ∷ m) acc = add_sections m (add_values name vs acc)

parse_lines-values :
    (vs : List (Bytes × Bytes)) (rest name : Bytes) (m : ConfigImpl)
    → AllPairs vs
    → parse_lines (split_lines (values_text vs ++ rest)) (name, m)
      ≡ parse_lines (split_lines rest) (name, add_values name vs m)
unfolding values_text parse_lines
parse_lines-values [] rest name m a = refl
parse_lines-values ((k, v) ∷ vs) rest name m (hk, hv, a) =
    rw
      (
        append_assoc (k ++ b'=' ∷ v) (10 ∷ values_text vs) rest,
        split_lines-line (k ++ b'=' ∷ v) (values_text vs ++ rest) (whole k v hk hv),
        parse_line-pair k v (name, m) hk hv,
      )
      (parse_lines-values vs rest name (add_value name k v m) a)
  where
    whole : (k v : Bytes) → IsKey k → IsValue v → OneLine (k ++ b'=' ∷ v)
    whole [] v hk hv = elim hk [ ]
    whole (c ∷ k) v hk hv = OneLine-append (c ∷ k) (b'=' ∷ v) hk.4 (refl, hv.0)

pub parse_lines-sections :
    (m : Listing) (x : Parsed)
    → AllSections m
    → (name : Bytes) × (parse_lines (split_lines (config_text m)) x
        ≡ ((name, add_sections m x.1), true))
unfolding config_text parse_lines parse_line trim_back trim_front
parse_lines-sections [] x a = (x.0, unfold split_lines in refl)
parse_lines-sections ((name, vs) ∷ m) x (one, some_values, pairs, a) =
    let (last, e) = parse_lines-sections m (name, add_values name vs x.1) a in
    (
      last,
      rw
          (
            split_lines-line []
                (b'[' ∷ ((name ++ b']' ∷ []) ++ 10 ∷ (values_text vs ++ config_text m))) tt,
            split_lines-line (b'[' ∷ (name ++ b']' ∷ [])) (values_text vs ++ config_text m)
                (refl, OneLine-append name (b']' ∷ []) one (refl, tt)),
            parse_line-section name x,
            parse_lines-values vs (config_text m) name x.1 pairs,
          )
          e,
    )
