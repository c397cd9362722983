-- ===== src/Json/Parse/Clean.antt =====
-- Values whose texts are valid UTF-8.
use lockping_agent.Prelude.{Option, none, some, Bytes}
use lockping_agent.Utf8.RoundTrip.{IsText}
use lockping_agent.Json.{Value, Fields, null, bool, num, str, arr, obj, end, field}
use lockping_agent.Json.Parse.Leads.{IsScalar}

-- A member's value: if it is a text, it is valid.
unfoldable pub IsClean : Value → Type 0
IsClean (str s) = IsText s
IsClean _ = Unit {0}

unfoldable pub AreClean : Fields → Type 0
AreClean end = Unit {0}
AreClean (field _ v xs) = IsClean v × AreClean xs

-- A document: a text is valid, and so is every member's of an object.
unfoldable pub IsDoc : Value → Type 0
IsDoc (str s) = IsText s
IsDoc (obj xs) = AreClean xs
IsDoc _ = Unit {0}

pub IsScalar-IsDoc : (v : Value) → IsScalar v → IsDoc v
unfolding IsScalar IsDoc
IsScalar-IsDoc null h = tt
IsScalar-IsDoc (bool b) h = tt
IsScalar-IsDoc (num n) h = tt
IsScalar-IsDoc (str s) h = h
IsScalar-IsDoc (arr xs) h = absurd h
IsScalar-IsDoc (obj xs) h = absurd h

pub IsDoc-IsClean : (v : Value) → IsDoc v → IsClean v
unfolding IsDoc IsClean
IsDoc-IsClean null h = tt
IsDoc-IsClean (bool b) h = tt
IsDoc-IsClean (num n) h = tt
IsDoc-IsClean (str s) h = h
IsDoc-IsClean (arr xs) h = tt
IsDoc-IsClean (obj xs) h = tt

abbrev pub IsRead : Option (Value × Bytes) → Type 0
IsRead none = Unit {0}
IsRead (some (v, _)) = IsDoc v

abbrev pub AreRead : Option (Fields × Bytes) → Type 0
AreRead none = Unit {0}
AreRead (some (xs, _)) = AreClean xs
