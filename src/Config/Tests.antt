-- ===== src/Config/Tests.antt =====
-- The theorem on llarp/config/ini.cpp at a concrete configuration.
use lokinet.Base.{arith, bytes_eq, ◌≡◌, refl, none, some, List, [], ◌∷◌, true}
use lokinet.Base.Bytes.{Bytes}
use lokinet.Base.Map.{find?}
use lokinet.Config.Ini.{
  ConfigParser, ConfigImpl, Listing, no_config, trim_front, trim_back, load_from_str, save,
}
use lokinet.Config.Ini.Saved.{IsKey}
use lokinet.Config.Ini.RoundTrip.{listed, load_from_str-save}

-- [ab] with k=v, k=w z and k=v once more, and [c] with k=v
abbrev sections : Listing
sections =
    (
      (b'a' ∷ b'b' ∷ []),
      ((b'k' ∷ [], b'v' ∷ []) ∷ (b'k' ∷ [], b'w' ∷ b' ' ∷ b'z' ∷ []) ∷ (b'k' ∷ [], b'v' ∷ []) ∷ []),
    )
    ∷ ((b'c' ∷ []), ((b'k' ∷ [], b'v' ∷ []) ∷ []))
    ∷ []

-- the files g, without sections, and f
abbrev order : List (Bytes × Listing)
order = (b'g' ∷ [], []) ∷ (b'f' ∷ [], sections) ∷ []

abbrev saving : ConfigParser
saving = record { text = []; config = no_config; overrides = λ path. listed (find? path order) }

abbrev fresh : ConfigParser
fresh = record { text = []; config = no_config; overrides = λ path. none }

key : IsKey (b'k' ∷ [])
unfolding trim_back
key = (refl, refl, refl, (refl, tt), (refl, tt), refl)

load_from_str-save_example :
    (text : Bytes) × (m : ConfigImpl) × (find? (b'f' ∷ []) (save order saving).0 ≡ some text)
    × (saving.overrides (b'f' ∷ []) ≡ some m)
    × (load_from_str text fresh ≡ (record fresh { text = text; config = m }, true))
unfolding trim_front trim_back find?
load_from_str-save_example =
    load_from_str-save order (b'f' ∷ []) sections saving fresh (λ path. refl) refl
      (
        (refl, (refl, tt)),
        (λ e. ground arith),
        (
          key,
          ((refl, tt), refl, refl),
          (key, ((refl, (refl, (refl, tt))), refl, refl), (key, ((refl, tt), refl, refl), tt)),
        ),
        ((refl, tt), (λ e. ground arith), (key, ((refl, tt), refl, refl), tt), tt),
      )
      (refl, (refl, tt)) refl
