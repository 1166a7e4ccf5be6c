-- ===== src/Profiling/Codec.antt =====
-- The file of profiles: `BEncode`, `DecodeKey`, `BDecode`, and what `Save` and `Load` of
-- llarp/profiling.cpp do between the file's contents and the map. A file is its bytes.
pub mod Fields
pub mod Written
pub mod File
use lokinet.Base.Bytes.{Bytes}
use lokinet.Base.Map.{try_emplace}
use lokinet.Base.{
  ℕ, ◌+◌, ◌*◌, ◌==◌, Bool, true, false, List, [], ◌∷◌, length, replicate, bytes_eq, if◌then◌else◌,
}
use lokinet.Util.Buffer.{
  Buffer, Io, fault, unfinished, refused, got, ◌>>=◌, ◌>>◌, over_memory, starts_with,
}
use lokinet.Util.Bencode.{
  start_dict, write_end, write_bytestring, write_dict_int, read_integer, read_dict,
}
use lokinet.Profiling.{RouterId, RouterProfile, new_profile, Profiling}

-- the entries of a profile, in the order in which `RouterProfile::BEncode` writes them
abbrev pub fields : RouterProfile → List (ℕ × ℕ)
fields p =
    (b'g', p.connect_good_count)
    ∷ (b'p', p.path_success_count)
    ∷ (b'q', p.path_timeout_count)
    ∷ (b's', p.path_fail_count)
    ∷ (b't', p.connect_timeout_count)
    ∷ (b'u', p.last_updated)
    ∷ (b'v', p.version)
    ∷ []

unfoldable pub write_fields : List (ℕ × ℕ) → Buffer → Io (Unit {0})
write_fields [] b = got tt b
write_fields ((c, i) ∷ fs) b = write_dict_int (c ∷ []) i b >> λ b'. write_fields fs b'

-- `RouterProfile::BEncode`
unfoldable pub bencode_profile : RouterProfile → Buffer → Io (Unit {0})
bencode_profile p b = start_dict b >> λ b'. write_fields (fields p) b' >> λ b''. write_end b''

-- `BEncodeMaybeReadDictInt`, with the flag `read`
unfoldable pub maybe_read_int :
    ℕ
    → (ℕ → RouterProfile → RouterProfile)
    → Bytes
    → RouterProfile × Bool
    → Buffer
    → Io (RouterProfile × Bool)
maybe_read_int c set key x b =
    if starts_with key (c ∷ [])
    then (read_integer b >>= λ i b'. got (set i x.0, true) b')
    else got x b

-- `RouterProfile::DecodeKey`
unfoldable pub decode_key : RouterProfile → Bytes → Buffer → Io RouterProfile
decode_key p key b =
    maybe_read_int b'g' (λ i s. record s { connect_good_count = i }) key (p, false) b >>= λ x1 b1.
    maybe_read_int b't' (λ i s. record s { connect_timeout_count = i }) key x1 b1 >>= λ x2 b2.
    maybe_read_int b'u' (λ i s. record s { last_updated = i }) key x2 b2 >>= λ x3 b3.
    maybe_read_int b'v' (λ i s. record s { version = i }) key x3 b3 >>= λ x4 b4.
    maybe_read_int b's' (λ i s. record s { path_fail_count = i }) key x4 b4 >>= λ x5 b5.
    maybe_read_int b'p' (λ i s. record s { path_success_count = i }) key x5 b5 >>= λ x6 b6.
    maybe_read_int b'q' (λ i s. record s { path_timeout_count = i }) key x6 b6 >>= λ x7 b7.
    if x7.1 then got x7.0 b7 else refused b7

abbrev pub Profiles : Type 0
Profiles = List (RouterId × RouterProfile)

unfoldable pub write_profiles : Profiles → Buffer → Io (Unit {0})
write_profiles [] b = got tt b
write_profiles ((r, p) ∷ m) b =
    write_bytestring r b >> λ b'. bencode_profile p b' >> λ b''. write_profiles m b''

-- `Profiling::BEncode`
unfoldable pub bencode : Profiles → Buffer → Io (Unit {0})
bencode m b = start_dict b >> λ b'. write_profiles m b' >> λ b''. write_end b''

-- the end of `Profiling::DecodeKey`
abbrev pub keep_fresh : Profiles × Bool → Buffer → Io Profiles
keep_fresh (m, fresh) b = if fresh then got m b else refused b

-- `Profiling::DecodeKey`; the fuel is for the loop over a profile's entries
unfoldable pub decode_profile : ℕ → Profiles → Bytes → Buffer → Io Profiles
decode_profile fuel m key b =
    if length key == 32
    then (read_dict fuel decode_key new_profile b >>= λ p b'. keep_fresh (try_emplace key p m) b')
    else refused b

-- `Profiling::BDecode`
unfoldable pub bdecode : ℕ → Profiles → Buffer → Io Profiles
bdecode fuel m b = read_dict fuel (decode_profile fuel) m b

-- The buffer that `Save` encodes into, and the bytes that it writes to the file then.
abbrev pub max_size : ℕ
max_size = 256

unfoldable pub save_buffer : Profiles → Buffer
save_buffer m = over_memory (replicate (length m * (max_size + 32 + 8) + 8) 0)

unfoldable pub save : Profiles → Io Bytes
save m = bencode m (save_buffer m) >> λ b. got b.before b

-- `Load`: the map is cleared, and the file's bytes are decoded.
unfoldable pub load : ℕ → Bytes → Io Profiles
load fuel bytes = bdecode fuel [] (over_memory bytes)
