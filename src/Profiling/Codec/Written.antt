-- ===== src/Profiling/Codec/Written.antt =====
-- What `BEncode` of llarp/profiling.cpp writes, and how long that is.

use lokinet.Base.Bytes.{Bytes}
use lokinet.Base.{ℕ, ◌+◌, ◌*◌, ◌≤◌, ◌≡◌, List, [], ◌∷◌, ◌++◌, length, arith, length-append}
use lokinet.Util.Buffer.{◌>>◌, write}
use lokinet.Util.Bencode.{
  decimal, write_bytestring, write_uint64, write_dict_int, start_dict, write_end, digits,
}
use lokinet.Util.Bencode.Decimal.{length-decimal_le}
use lokinet.Util.Buffer.Access.{Writes, Writes-both, Writes-nothing, write-Writes}
use lokinet.Util.Bencode.Strings.{string_text, integer_text, write_bytestring_lem, write_uint64_lem}
use lokinet.Profiling.{RouterId, RouterProfile}
use lokinet.Profiling.Codec.{
  Profiles, fields, write_fields, bencode_profile, write_profiles, bencode,
}
use lokinet.Profiling.Codec.Fields.{entry_text, fields_text, profile_text}

entry-Writes : (c i : ℕ) → Writes (write_dict_int (c ∷ []) i) (entry_text c i)
unfolding write_dict_int
entry-Writes c i =
    Writes-both (write_bytestring (c ∷ [])) (write_uint64 i) (string_text (c ∷ [])) (integer_text i)
      (λ p q n h m. write_bytestring_lem (c ∷ []) p q n (omega arith) h m)
      (λ p q n h m. write_uint64_lem i p q n h m)

fields-Writes : (fs : List (ℕ × ℕ)) → Writes (write_fields fs) (fields_text fs)
unfolding write_fields
fields-Writes [] = Writes-nothing
fields-Writes ((c, i) ∷ fs) =
    Writes-both (write_dict_int (c ∷ []) i) (write_fields fs) (entry_text c i) (fields_text fs)
      (entry-Writes c i) (fields-Writes fs)

profile-Writes : (r : RouterProfile) → Writes (bencode_profile r) (profile_text r)
unfolding bencode_profile start_dict write_end
profile-Writes r =
    Writes-both (write (b'd' ∷ [])) (λ b. write_fields (fields r) b >> λ b'. write (b'e' ∷ []) b')
      (b'd' ∷ []) (fields_text (fields r) ++ b'e' ∷ []) (write-Writes (b'd' ∷ []))
      (Writes-both (write_fields (fields r)) (write (b'e' ∷ [])) (fields_text (fields r))
        (b'e' ∷ []) (fields-Writes (fields r)) (write-Writes (b'e' ∷ [])))

abbrev pub profiles_text : Profiles → Bytes
profiles_text [] = []
profiles_text ((r, p) ∷ m) = string_text r ++ (profile_text p ++ profiles_text m)

abbrev pub file_text : Profiles → Bytes
file_text m = b'd' ∷ (profiles_text m ++ b'e' ∷ [])

abbrev pub AllIds : Profiles → Type 0
AllIds [] = Unit
AllIds ((r, p) ∷ m) = (length r ≡ 32) × AllIds m

profiles-Writes : (m : Profiles) → AllIds m → Writes (write_profiles m) (profiles_text m)
unfolding write_profiles
profiles-Writes [] a = Writes-nothing
profiles-Writes ((r, x) ∷ m) (e, a) =
    Writes-both (write_bytestring r) (λ b. bencode_profile x b >> λ b'. write_profiles m b')
      (string_text r) (profile_text x ++ profiles_text m)
      (λ p q n h l. write_bytestring_lem r p q n (omega arith) h l)
      (Writes-both (bencode_profile x) (write_profiles m) (profile_text x) (profiles_text m)
        (profile-Writes x) (profiles-Writes m a))

pub file-Writes : (m : Profiles) → AllIds m → Writes (bencode m) (file_text m)
unfolding bencode start_dict write_end
file-Writes m a =
    Writes-both (write (b'd' ∷ [])) (λ b. write_profiles m b >> λ b'. write (b'e' ∷ []) b')
      (b'd' ∷ []) (profiles_text m ++ b'e' ∷ []) (write-Writes (b'd' ∷ []))
      (Writes-both (write_profiles m) (write (b'e' ∷ [])) (profiles_text m) (b'e' ∷ [])
        (profiles-Writes m a) (write-Writes (b'e' ∷ [])))

-- The text of an entry, of a profile and of the whole map has a bounded length.
length-entry_text : (c i : ℕ) → length (entry_text c i) ≤ 25
unfolding decimal digits
length-entry_text c i = omega (
  arith,
  length-append (string_text (c ∷ [])) (integer_text i),
  length-append (decimal i) (b'e' ∷ []),
  length-decimal_le i,
)

length-fields_text : (fs : List (ℕ × ℕ)) → length (fields_text fs) ≤ length fs * 25
length-fields_text [] = omega arith
length-fields_text ((c, i) ∷ fs) = omega (
  arith,
  length-append (entry_text c i) (fields_text fs),
  length-entry_text c i,
  length-fields_text fs,
)

length-profile_text : (r : RouterProfile) → length (profile_text r) ≤ 177
length-profile_text r =
    omega (arith, length-append (fields_text (fields r)) (b'e' ∷ []), length-fields_text (fields r))

id_length : (r : RouterId) → length r ≡ 32 → length (string_text r) ≡ 35
unfolding decimal digits
id_length r e = rw e (omega (arith, length-append (decimal (length r)) (b':' ∷ r)))

length-profiles_text : (m : Profiles) → AllIds m → length (profiles_text m) ≤ length m * 212
length-profiles_text [] a = omega arith
length-profiles_text ((r, x) ∷ m) (e, a) = omega (
  arith,
  length-append (string_text r) (profile_text x ++ profiles_text m),
  length-append (profile_text x) (profiles_text m),
  id_length r e,
  length-profile_text x,
  length-profiles_text m a,
)

pub length-file_text : (m : Profiles) → AllIds m → length (file_text m) ≤ length m * 212 + 2
length-file_text m a =
    omega (arith, length-append (profiles_text m) (b'e' ∷ []), length-profiles_text m a)
