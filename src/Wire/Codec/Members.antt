-- ===== src/Wire/Codec/Members.antt =====
-- The members that `Encode` of internal/wire/wire.go writes, with the values that they stand for.
use lockping_agent.Utf8.RoundTrip.{IsText}
use lockping_agent.Json.Parse.Members.Names.{is_name, is_name-IsPlain}
use lockping_agent.Prelude.{
  zero, suc, Bool, true, List, [], ◌∷◌, Option, some, none, ◌≡◌, Bytes, subst, bytes_eq, Bool-cases,
  inl, inr, if◌then◌else◌,
}
use lockping_agent.Prelude.Int.{ℤ, pos, negsuc}
use lockping_agent.Json.{Value, bool, num, str}
use lockping_agent.Json.Print.{print_int, print_string, member}
use lockping_agent.Json.Struct.Integers.{IsInt64}
use lockping_agent.Json.Parse.Scalars.{Reads, print_bool-Reads, print_string-Reads, print_int-Reads}
use lockping_agent.Json.Parse.Members.{Prints, none_left, one_more}
use lockping_agent.Wire.Codec.{string_member, int_member, bool_member}

abbrev pub string_pair : Bytes → Bytes → List (Bytes × Value)
string_pair name s = if bytes_eq s [] then [] else (name, str s) ∷ []

abbrev pub int_pair : Bytes → ℤ → List (Bytes × Value)
int_pair name (pos n) = elim n [ zero ↦ [] | suc m ↦ (name, num (print_int (pos (suc m)))) ∷ [] ]
int_pair name (negsuc n) = (name, num (print_int (negsuc n))) ∷ []

abbrev pub bool_pair : Bytes → Option Bool → List (Bytes × Value)
bool_pair name none = []
bool_pair name (some b) = (name, bool b) ∷ []

pub text-Prints :
    {s : Bytes} {name : Bytes} {ms : List Bytes} {ps : List (Bytes × Value)}
    → is_name name ≡ true
    → IsText s
    → Prints ms ps
    → Prints (member name (print_string s) ∷ ms) ((name, str s) ∷ ps)
text-Prints {s} {name} plain (rs, valid, spelled) rest =
    one_more name _ (is_name-IsPlain name plain)
      (subst (λ t. Reads (print_string t) (str t)) spelled (print_string-Reads rs valid)) rest

pub string_member-Prints :
    (name s : Bytes)
    → is_name name ≡ true
    → IsText s
    → Prints (string_member name s) (string_pair name s)
unfolding string_member
string_member-Prints name s plain text = elim (Bool-cases (bytes_eq s [])) [
  | inl empty ↦ rw empty none_left
  | inr filled ↦ rw filled (text-Prints plain text none_left)
]

pub int_member-Prints :
    (name : Bytes) (n : ℤ)
    → is_name name ≡ true
    → IsInt64 n
    → Prints (int_member name n) (int_pair name n)
unfolding int_member
int_member-Prints name (pos zero) plain small = none_left
int_member-Prints name (pos (suc n)) plain small =
    one_more name _ (is_name-IsPlain name plain) (print_int-Reads (pos (suc n)) small) none_left
int_member-Prints name (negsuc n) plain small =
    one_more name _ (is_name-IsPlain name plain) (print_int-Reads (negsuc n) small) none_left

pub bool_member-Prints :
    (name : Bytes) (b : Option Bool)
    → is_name name ≡ true
    → Prints (bool_member name b) (bool_pair name b)
unfolding bool_member
bool_member-Prints name none plain = none_left
bool_member-Prints name (some b) plain =
    one_more name _ (is_name-IsPlain name plain) (print_bool-Reads b) none_left
