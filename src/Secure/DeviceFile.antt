-- ===== src/Secure/DeviceFile.antt =====
-- The text of devices.json: how `persistLocked` of internal/secure/devices.go writes the map, and
-- how `LoadDevices` reads it, in the present and in the old format.
use lockping_agent.Prelude.{
  ℕ, zero, suc, Ordering, compare, Bool, true, false, ◌&&◌, List, [], ◌∷◌, ◌++◌, Option, none, some,
  ◌≡◌, refl, Bytes, codes, bytes_eq, if◌then◌else◌, join,
}
use lockping_agent.Prelude.Int.{ℤ, pos}
use lockping_agent.Prelude.Maps.{Map, insert}
use lockping_agent.Rfc3339.{format_time, parse_time, zero_time}
use lockping_agent.Json.{Value, Fields, null, obj, str, end, field}
use lockping_agent.Json.Parse.{parse}
use lockping_agent.Json.Print.{print_string}
use lockping_agent.Json.Struct.{names, to_string, fill_value}

-- `id` is not in the file, whose keys are the ids; `paired_at` is in nanoseconds since 1970.
pub record DeviceInfo : Type 0 where
  pub id : Bytes
  pub pub_key : Bytes
  pub name : Bytes
  pub paired_at : ℤ

abbrev pub empty_info : DeviceInfo
empty_info = record { id = []; pub_key = []; name = []; paired_at = zero_time }

-- `UnmarshalJSON` of a time; `null` leaves the field alone.
to_time : ℤ → Value → ℤ × Bool
to_time old null = (old, true)
to_time old (str s) = elim (parse_time s) [ none ↦ (old, false) | some t ↦ (t, true) ]
to_time old _ = (old, false)

unfoldable pub set_field : Bytes → Value → DeviceInfo → DeviceInfo × Bool
unfolding to_time
set_field key v d =
    if names (codes "pub") key
    then (let (x, fine) = to_string d.pub_key v in (record d { pub_key = x }, fine))
    else if names (codes "name") key
    then (let (x, fine) = to_string d.name v in (record d { name = x }, fine))
    else if names (codes "paired_at") key
    then (let (x, fine) = to_time d.paired_at v in (record d { paired_at = x }, fine))
    else (d, true)

module _ {V : Type 0} (read : Value → V × Bool) where
  -- The members of an object as a map, and whether there was no error; a later member with the same
  -- key wins.
  entries : Fields → Map V → Map V × Bool
  entries end m = (m, true)
  entries (field key v rest) m =
      let (x, fine) = read v in
      let (m', fine') = entries rest (insert key x m) in (m', fine && fine')

  -- `json.Unmarshal` into a map; `none` is an error. (The nil map of `null` is the empty one.)
  map_of : Bytes → Option (Map V)
  map_of s = elim (parse s) [
    | some (obj members) ↦ let (m, fine) = entries members [] in if fine then some m else none
    | some null ↦ some []
    | _ ↦ none
  ]

unfoldable pub unmarshal : Bytes → Option (Map DeviceInfo)
unfolding map_of entries
unmarshal s = map_of (λ v. fill_value set_field v empty_info) s

-- The old format: id to key.
unfoldable pub unmarshal_legacy : Bytes → Option (Map Bytes)
unfolding map_of entries
unmarshal_legacy s = map_of (λ v. to_string [] v) s

-- The order of strings, byte by byte.
before_key : Bytes → Bytes → Bool
before_key [] [] = false
before_key [] (_ ∷ _) = true
before_key (_ ∷ _) [] = false
before_key (x ∷ s) (y ∷ t) =
    let rest = before_key s t in
    elim (compare x y) [ Ordering.lt ↦ true | Ordering.eq ↦ rest | Ordering.gt ↦ false ]

sort_entry : Bytes × DeviceInfo → Map DeviceInfo → Map DeviceInfo
sort_entry e [] = e ∷ []
sort_entry e (e' ∷ m) =
    let rest = sort_entry e m in if before_key e'.0 e.0 then e' ∷ rest else e ∷ e' ∷ m

-- The map by its keys.
sorted : Map DeviceInfo → Map DeviceInfo
sorted [] = []
sorted (e ∷ m) = sort_entry e (sorted m)

line : ℕ → Bytes
line zero = 10 ∷ []
line (suc n) = line n ++ (b' ' ∷ b' ' ∷ [])

-- A member on a line of its own, so many brackets deep.
member_text : ℕ → Bytes → Bytes → Bytes
member_text depth name text = line depth ++ (print_string name ++ (b':' ∷ b' ' ∷ text))

object_text : ℕ → List Bytes → Bytes
object_text depth [] = codes "{}"
object_text depth (m ∷ members) = b'{' ∷ join (m ∷ members) (b',' ∷ []) ++ (line depth ++ b'}' ∷ [])

name_member : Bytes → List Bytes
name_member s = if bytes_eq s [] then [] else member_text 2 (codes "name") (print_string s) ∷ []

info_text : DeviceInfo → Bytes
info_text d = object_text 1 (
    member_text 2 (codes "pub") (print_string d.pub_key)
    ∷ (name_member d.name
        ++ (member_text 2 (codes "paired_at") (b'"' ∷ format_time d.paired_at ++ b'"' ∷ []) ∷ [])))

members_of : Map DeviceInfo → List Bytes
members_of [] = []
members_of ((id, d) ∷ m) = member_text 1 id (info_text d) ∷ members_of m

-- `json.MarshalIndent` of the map.
unfoldable pub marshal : Map DeviceInfo → Bytes
unfolding before_key sort_entry sorted line member_text object_text name_member info_text members_of
marshal m = object_text 0 (members_of (sorted m))

marshal_two :
    marshal (
      (codes "b", empty_info)
      ∷ (codes "a", record { id = []; pub_key = codes "k"; name = codes "n"; paired_at = pos 1 })
      ∷ [])
    ≡ codes
        "{\n  \"a\": {\n    \"pub\": \"k\",\n    \"name\": \"n\",\n    \"paired_at\": \"1970-01-01T00:00:00.000000001Z\"\n  },\n  \"b\": {\n    \"pub\": \"\",\n    \"paired_at\": \"0001-01-01T00:00:00Z\"\n  }\n}"
unfolding marshal format_time print_string join bytes_eq
marshal_two = refl

unmarshal_two :
    unmarshal
      (codes "{\"a\":{\"PUB\":\"k\",\"paired_at\":\"1970-01-01T00:00:00.000000001Z\"},\"b\":null}")
    ≡ some (
        (codes "a", record { id = []; pub_key = codes "k"; name = []; paired_at = pos 1 })
        ∷ (codes "b", empty_info)
        ∷ [])
unfolding unmarshal parse fill_value names set_field parse_time insert bytes_eq
unmarshal_two = refl

unmarshal_old :
    (unmarshal (codes "{\"a\":\"k\"}") ≡ none)
    × (unmarshal_legacy (codes "{\"a\":\"k\"}") ≡ some ((codes "a", codes "k") ∷ []))
unfolding unmarshal unmarshal_legacy parse fill_value insert bytes_eq
unmarshal_old = (refl, refl)
